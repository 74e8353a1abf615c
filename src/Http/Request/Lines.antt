-- ===== src/Http/Request/Lines.antt =====
-- Where the separators of a request stand, for the parser of src/http/Http.cpp:
-- std::string_view::find on a text cut at a separator.
use coro_iomultiplex.Prelude.{
  ℕ, zero, suc, ◌+◌, ◌≤◌, ◌<◌, ◌≡◌, ◌≢◌, refl, ap, Text, find, starts_with, length, take, drop, All,
  List, [], ◌∷◌, ◌++◌, some, arith, take-append-drop, length-drop, sym, ◌∙◌, Bool-cases,
  Option-cases, inl, inr, true,
}
use mathlib.Core.List.{append_assoc}
use coro_iomultiplex.Http.Request.{crlf}

-- No byte of the text is `c`.
abbrev pub Lacks : ℕ → Text → Type 0
Lacks c = All (λ a. a ≢ c)

pub find-crlf-append :
    (line rest : Text) → Lacks 13 line → find crlf (line ++ (crlf ++ rest)) ≡ some (length line)
unfolding find starts_with
find-crlf-append [] rest h = refl
find-crlf-append (a ∷ line) rest h = ground (arith, find-crlf-append line rest h.1)

pub find-byte-append :
    (c : ℕ) (s rest : Text) → Lacks c s → find (c ∷ []) (s ++ (c ∷ rest)) ≡ some (length s)
unfolding find starts_with
find-byte-append c [] rest h = ground arith
find-byte-append c (a ∷ s) rest h = ground (arith, find-byte-append c s rest h.1)

-- A text that is found stands where the search says.
pub find-starts_with : (p s : Text) (n : ℕ) → find p s ≡ some n → starts_with p (drop n s) ≡ true
unfolding find
find-starts_with p [] n h = elim (Bool-cases (starts_with p [])) [
  | inl e ↦ ground arith
  | inr e ↦ ground arith
]
find-starts_with p (c ∷ s) n h = elim (Bool-cases (starts_with p (c ∷ s))) [
  | inl e ↦ ground arith
  | inr e ↦ elim (Option-cases (find p s)) [
    | inl e' ↦ ground arith
    | inr (m, e') ↦ ground (arith, find-starts_with p s m)
  ]
]

pub starts_with-append : (p s : Text) → starts_with p s ≡ true → s ≡ p ++ drop (length p) s
unfolding starts_with
starts_with-append [] s h = refl
starts_with-append (a ∷ p) [] h = cc
starts_with-append (a ∷ p) (c ∷ s) h = ground (arith, starts_with-append p s)

drop-nil {ℓ} : {A : Type ℓ} (n : ℕ) → drop {A = A} n [] ≡ []
drop-nil zero = refl
drop-nil (suc n) = refl

pub drop-drop {ℓ} : {A : Type ℓ} (m n : ℕ) (xs : List A) → drop m (drop n xs) ≡ drop (n + m) xs
drop-drop m zero xs = let e : zero + m ≡ m = omega arith in rw e
drop-drop m (suc n) [] = drop-nil m ∙ sym (drop-nil (suc n + m))
drop-drop m (suc n) (x ∷ xs) =
    let e : suc n + m ≡ suc (n + m) = omega arith in rw e (drop-drop m n xs)

-- So the text is what stands before, what was looked for, and what stands behind.
pub find-split :
    (p s : Text) (n : ℕ) → find p s ≡ some n → s ≡ take n s ++ p ++ drop (n + length p) s
find-split p s n h =
    sym (take-append-drop n s)
    ∙ ap (◌++◌ (take n s)) (
        starts_with-append p (drop n s) (find-starts_with p s n h)
        ∙ ap (◌++◌ p) (drop-drop (length p) n s))
    ∙ sym (append_assoc (take n s) p _)

starts_with-le : (p s : Text) → starts_with p s ≡ true → length p ≤ length s
unfolding starts_with
starts_with-le [] s h = omega arith
starts_with-le (a ∷ p) [] h = cc
starts_with-le (a ∷ p) (c ∷ s) h = ground (arith, starts_with-le p s)

-- What is found ends inside the text.
pub find-le : (p s : Text) (n : ℕ) → 0 < length p → find p s ≡ some n → n + length p ≤ length s
find-le p s n pos h =
    omega (arith, starts_with-le p (drop n s) (find-starts_with p s n h), length-drop n s)
