-- ===== src/Http/Paths/Pieces.antt =====
-- The pieces of a path under what the httpResponse constructor of src/http/Http.cpp does.
use coro_iomultiplex.Prelude.{
  ℕ, ◌≡◌, ◌≢◌, ◌⊎◌, inl, inr, refl, sym, ap, ◌∙◌, subst, ℕ_discrete, Text, false, text_eq_iff, All,
  List, [], ◌∷◌, ◌++◌, arith,
}
use coro_iomultiplex.Http.Paths.{
  first_piece, later_pieces, pieces, last_or, filename, dot_dot, has_dot_dot,
}

-- No piece is `..`.
abbrev pub IsInside : Text → Type 0
IsInside path = All (λ x. x ≢ dot_dot) (pieces path)

pub has_dot_dot-All : (xs : List Text) → has_dot_dot xs ≡ false → All (λ x. x ≢ dot_dot) xs
unfolding has_dot_dot
has_dot_dot-All [] h = tt
has_dot_dot-All (x ∷ xs) h =
    (λ e. ground (arith, text_eq_iff x dot_dot), has_dot_dot-All xs (ground arith))

-- A text with a slash keeps its first piece when more is written behind it.
first_piece-append :
    (s t x : Text) (xs : List Text) → later_pieces s ≡ x ∷ xs → first_piece (s ++ t) ≡ first_piece s
unfolding first_piece later_pieces
first_piece-append [] t x xs h = cc
first_piece-append (c ∷ s) t x xs h = ground (arith, first_piece-append s t x xs)

pub List-cases {ℓ} : {A : Type ℓ} (l : List A) → (l ≡ []) ⊎ ((x : A) × (xs : List A) × (l ≡ x ∷ xs))
List-cases [] = inl refl
List-cases (x ∷ xs) = inr (x, xs, refl)

pub first_piece-other : (c : ℕ) (s : Text) → c ≢ 47 → first_piece (c ∷ s) ≡ c ∷ first_piece s
unfolding first_piece
first_piece-other c s h = ground arith

pub later_pieces-other : (c : ℕ) (s : Text) → c ≢ 47 → later_pieces (c ∷ s) ≡ later_pieces s
unfolding later_pieces
later_pieces-other c s h = ground arith

pub last_or-cons {ℓ} :
    {A : Type ℓ} (d e x : A) (l xs : List A) → l ≡ x ∷ xs → last_or d l ≡ last_or e l
last_or-cons d e x l xs h = rw h

module _ {κ} (P : Text → Type κ) where
  cut_slash :
      (s t : Text)
      → All P (later_pieces (47 ∷ s ++ t))
      → P (filename (47 ∷ s))
      → (All P (later_pieces (s ++ t)) → P (filename s) → All P (later_pieces s))
      → All P (later_pieces (47 ∷ s))
  unfolding first_piece later_pieces
  cut_slash s t h last ih = elim (List-cases (later_pieces s)) [
    | inl e ↦ (subst (λ l. P (last_or (first_piece s) l)) e last, ih h.1 last)
    | inr (x, xs, e) ↦ (subst P (first_piece-append s t x xs e) h.0, ih h.1 last)
  ]

  cut_other :
      (c : ℕ) (s t : Text)
      → c ≢ 47
      → All P (later_pieces (c ∷ s ++ t))
      → P (filename (c ∷ s))
      → (All P (later_pieces (s ++ t)) → P (filename s) → All P (later_pieces s))
      → All P (later_pieces (c ∷ s))
  cut_other c s t n h last ih = rw (later_pieces-other c s n) (elim (List-cases (later_pieces s)) [
    | inl e ↦ rw e tt
    | inr (x, xs, e) ↦ ih (subst (All P) (later_pieces-other c (s ++ t) n) h) (
        subst P
          (ap (last_or (first_piece (c ∷ s))) (later_pieces-other c s n)
            ∙ last_or-cons _ (first_piece s) x (later_pieces s) xs e)
          last)
  ])

  -- The pieces of a text that is cut short are pieces of it, but for the last.
  later_pieces-cut :
      (s t : Text) → All P (later_pieces (s ++ t)) → P (filename s) → All P (later_pieces s)
  unfolding later_pieces
  later_pieces-cut [] t h last = tt
  later_pieces-cut (c ∷ s) t h last = elim (ℕ_discrete c 47) [
    | yes e ↦
        subst
          (λ a.
            All P (later_pieces (a ∷ s ++ t)) → P (filename (a ∷ s)) → All P (later_pieces (a ∷ s)))
          (sym e) (λ h' last'. cut_slash s t h' last' (later_pieces-cut s t)) h last
    | no n ↦ cut_other c s t n h last (later_pieces-cut s t)
  ]

  pub pieces-cut : (s t : Text) → All P (pieces (s ++ t)) → P (filename s) → All P (pieces s)
  pieces-cut s t h last = elim (List-cases (later_pieces s)) [
    | inl e ↦ (subst (λ l. P (last_or (first_piece s) l)) e last, later_pieces-cut s t h.1 last)
    | inr (x, xs, e) ↦ (subst P (first_piece-append s t x xs e) h.0, later_pieces-cut s t h.1 last)
  ]
