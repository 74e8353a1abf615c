-- ===== src/Prelude/Bytes.antt =====
-- Texts as lists of bytes, with what the program uses of std::string and std::string_view.
use Prim.Native.Nat.{ℕ, zero, suc, ◌+◌, ◌-◌, ◌/◌, ◌%◌, compare, Ordering}
use Prim.Native.Char.{code}
use Prim.Native.String.{String}
use mathlib.Core.Path.{◌≡◌, refl, ap}
use mathlib.Core.Logic.{◌↔◌}
use mathlib.Core.List.{List, [], ◌∷◌, ◌++◌}
use mathlib.Core.Bool.{Bool, true, false, ◌&&◌}
use mathlib.Core.Option
use mathlib.Core.Option.{Option, none, some}
use native.Mathlib.Omega.{arith}
use coro_iomultiplex.Prelude.Tests.{ltb, leb, ◌==◌, if◌then◌else◌}
use coro_iomultiplex.Prelude.Lists.{length, length-append, drop, drop-append}

abbrev pub Text : Type 0
Text = List ℕ

-- The code points of a literal: its bytes, for the ASCII literals of the source.
abbrev pub codes : String → Text
codes String.[] = []
codes (String.◌∷◌ c s) = code c ∷ codes s

-- The bytes of all the texts.
abbrev pub joined : List Text → Text
joined [] = []
joined (s ∷ l) = s ++ joined l

-- The order of std::string: lexicographic, on unsigned bytes.
unfoldable pub compare_text : Text → Text → Ordering
compare_text [] [] = Ordering.eq
compare_text [] (b ∷ t) = Ordering.lt
compare_text (a ∷ s) [] = Ordering.gt
compare_text (a ∷ s) (b ∷ t) = elim (compare a b) [
  | Ordering.lt ↦ Ordering.lt
  | Ordering.gt ↦ Ordering.gt
  | Ordering.eq ↦ compare_text s t
]

unfoldable pub text_eq : Text → Text → Bool
text_eq s t = elim (compare_text s t) [ Ordering.eq ↦ true | _ ↦ false ]

pub compare_text_refl : (s : Text) → compare_text s s ≡ Ordering.eq
unfolding compare_text
compare_text_refl [] = refl
compare_text_refl (a ∷ s) = ground (arith, compare_text_refl s)

pub eq_of_compare_text : (s t : Text) → compare_text s t ≡ Ordering.eq → s ≡ t
unfolding compare_text
eq_of_compare_text [] [] h = refl
eq_of_compare_text [] (b ∷ t) h = cc
eq_of_compare_text (a ∷ s) [] h = cc
eq_of_compare_text (a ∷ s) (b ∷ t) h = ground (arith, eq_of_compare_text s t)

pub compare_text_trans :
    (s t u : Text)
    → compare_text s t ≡ Ordering.lt
    → compare_text t u ≡ Ordering.lt
    → compare_text s u ≡ Ordering.lt
unfolding compare_text
compare_text_trans [] [] u h k = cc
compare_text_trans [] (b ∷ t) [] h k = cc
compare_text_trans [] (b ∷ t) (c ∷ u) h k = refl
compare_text_trans (a ∷ s) [] u h k = cc
compare_text_trans (a ∷ s) (b ∷ t) [] h k = cc
compare_text_trans (a ∷ s) (b ∷ t) (c ∷ u) h k = ground (arith, compare_text_trans s t u)

pub compare_text_swap :
    (s t : Text) → compare_text s t ≡ Ordering.gt → compare_text t s ≡ Ordering.lt
unfolding compare_text
compare_text_swap [] [] h = cc
compare_text_swap [] (b ∷ t) h = cc
compare_text_swap (a ∷ s) [] h = refl
compare_text_swap (a ∷ s) (b ∷ t) h = ground (arith, compare_text_swap s t)

pub text_eq_iff : (s t : Text) → (text_eq s t ≡ true) ↔ (s ≡ t)
unfolding text_eq
text_eq_iff s t =
    (λ h. eq_of_compare_text s t (ground arith), λ e. ground (arith, compare_text_refl s))

-- `s.starts_with(p)`.
unfoldable pub starts_with : Text → Text → Bool
starts_with [] s = true
starts_with (a ∷ p) [] = false
starts_with (a ∷ p) (c ∷ s) = a == c && starts_with p s

-- `s.find(p)`: the first place where `p` stands; `none` is npos.
unfoldable pub find : Text → Text → Option ℕ
find p [] = if starts_with p [] then some 0 else none
find p (c ∷ s) =
    let rest = find p s in if starts_with p (c ∷ s) then some 0 else Option.map suc rest

-- `s.ends_with(p)`.
unfoldable pub ends_with : Text → Text → Bool
ends_with p s = leb (length p) (length s) && text_eq (drop (length s - length p) s) p

pub ends_with-drop : (p s : Text) → ends_with p s ≡ true → drop (length s - length p) s ≡ p
unfolding ends_with
ends_with-drop p s h = ground (arith, text_eq_iff (drop (length s - length p) s) p)

pub ends_with-append : (s p : Text) → ends_with p (s ++ p) ≡ true
unfolding ends_with
ends_with-append s p = ground (
  arith,
  length-append s p,
  text_eq_iff (drop (length (s ++ p) - length p) (s ++ p)) p,
  ap (λ n. drop n (s ++ p)) {x = length (s ++ p) - length p} {y = length s + 0}
      (omega (arith, length-append s p)),
  drop-append 0 s p,
)

-- std::to_string and `{}` of a number: its decimal digits, by the digits that are left.
unfoldable pub decimal_loop : ℕ → ℕ → Text → Text
decimal_loop zero n acc = acc
decimal_loop (suc fuel) n acc =
    let digits = (48 + n % 10) ∷ acc in
    let rest = decimal_loop fuel (n / 10) digits in if ltb n 10 then digits else rest

unfoldable pub decimal : ℕ → Text
unfolding decimal_loop
decimal n = decimal_loop (suc n) n []
