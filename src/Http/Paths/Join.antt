-- ===== src/Http/Paths/Join.antt =====
-- The pieces of a path that is joined with another, or made relative, as src/http/Http.cpp does.
use coro_iomultiplex.Prelude.{
  ◌≡◌, ◌⊎◌, inl, inr, refl, sym, ap, ◌∙◌, subst, ℕ_discrete, Text, All, All-append, List, [], ◌∷◌,
  ◌++◌, arith, Bool-cases,
}
use mathlib.Core.List.{append_assoc}
use coro_iomultiplex.Http.Paths.{
  first_piece, later_pieces, pieces, last_or, filename, relative_path, join, is_absolute,
}
use coro_iomultiplex.Http.Paths.Pieces.{
  first_piece-other, later_pieces-other, last_or-cons, List-cases,
}

All-prefix {ℓ κ} : {A : Type ℓ} (P : A → Type κ) (xs ys : List A) → All P (xs ++ ys) → All P xs
All-prefix P [] ys h = tt
All-prefix P (x ∷ xs) ys h = (h.0, All-prefix P xs ys h.1)

first_piece-slash : (s t : Text) → first_piece (s ++ (47 ∷ t)) ≡ first_piece s
unfolding first_piece
first_piece-slash [] t = refl
first_piece-slash (c ∷ s) t = ground (arith, first_piece-slash s t)

later_pieces-slash : (s t : Text) → later_pieces (s ++ (47 ∷ t)) ≡ later_pieces s ++ pieces t
unfolding later_pieces
later_pieces-slash [] t = refl
later_pieces-slash (c ∷ s) t = ground (arith, later_pieces-slash s t, first_piece-slash s t)

-- A path with no file name is empty or ends in a slash.
filename-empty : (s : Text) → filename s ≡ [] → (s ≡ []) ⊎ ((r : Text) × (s ≡ r ++ (47 ∷ [])))
unfolding first_piece later_pieces
filename-empty [] h = inl refl
filename-empty (c ∷ s) h = elim (ℕ_discrete c 47) [
  | yes e ↦ elim (filename-empty s (subst (λ a. filename (a ∷ s) ≡ []) e h)) [
    | inl e' ↦ inr ([], cc)
    | inr (r, e') ↦ inr (c ∷ r, cc)
  ]
  | no n ↦ elim (List-cases (later_pieces s)) [
    | inl e ↦ absurd (ground (arith, first_piece-other c s n, later_pieces-other c s n))
    | inr (x, xs, e) ↦
        elim (filename-empty s (
          sym (
            ap (last_or (first_piece (c ∷ s))) (later_pieces-other c s n)
            ∙ last_or-cons _ (first_piece s) x (later_pieces s) xs e)
          ∙ h)) [ inl e' ↦ absurd (ground arith) | inr (r, e') ↦ inr (c ∷ r, cc) ]
  ]
]

join-cases :
    (p q : Text)
    → (join p q ≡ q) ⊎ (((join p q ≡ p ++ q) × (filename p ≡ [])) ⊎ (join p q ≡ p ++ (47 ∷ q)))
unfolding join
join-cases p q = elim (Bool-cases (is_absolute q)) [
  | inl e ↦ inl (rw e)
  | inr e ↦ elim (List-cases (filename p)) [
    | inl e' ↦ inr (inl (rw (e, e'), e'))
    | inr (x, xs, e') ↦ inr (inr (rw (e, e')))
  ]
]

module _ {κ} (P : Text → Type κ) where
  pub pieces-relative : (s : Text) → All P (pieces s) → All P (pieces (relative_path s))
  unfolding first_piece later_pieces relative_path
  pieces-relative [] h = h
  pieces-relative (c ∷ s) h = elim (ℕ_discrete c 47) [
    | yes e ↦
        subst (λ a. All P (pieces (a ∷ s)) → All P (pieces (relative_path (a ∷ s)))) (sym e)
          (λ h'. pieces-relative s h'.1) h
    | no n ↦ let same : relative_path (c ∷ s) ≡ c ∷ s = ground arith in rw same h
  ]

  pieces-slash : (s t : Text) → All P (pieces s) → All P (pieces t) → All P (pieces (s ++ (47 ∷ t)))
  pieces-slash s t h k =
      rw (first_piece-slash s t, later_pieces-slash s t)
        (h.0, All-append P (later_pieces s) (pieces t) h.1 k)

  pieces-open :
      (s t : Text) → filename s ≡ [] → All P (pieces s) → All P (pieces t) → All P (pieces (s ++ t))
  pieces-open s t e h k = elim (filename-empty s e) [
    | inl e' ↦ rw e' k
    | inr (r, e') ↦
        let parts : All P (pieces (r ++ (47 ∷ []))) = subst (λ x. All P (pieces x)) e' h in
        rw (e', append_assoc r (47 ∷ []) t)
          (pieces-slash r t
            (
              subst P (first_piece-slash r []) parts.0,
              All-prefix P (later_pieces r) (pieces [])
                  (subst (All P) (later_pieces-slash r []) parts.1),
            )
            k)
  ]

  -- Each piece of a joined path is one of its two parts.
  pub pieces-join : (p q : Text) → All P (pieces p) → All P (pieces q) → All P (pieces (join p q))
  pieces-join p q h k = elim (join-cases p q) [
    | inl e ↦ rw e k
    | inr (inl (e, open')) ↦ rw e (pieces-open p q open' h k)
    | inr (inr e) ↦ rw e (pieces-slash p q h k)
  ]
