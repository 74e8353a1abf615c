-- ===== src/Prelude/Maps.antt =====
-- std::map with texts as keys: an association list in the order of its keys.
use Prim.Native.Nat.{Ordering}
use mathlib.Core.Path.{◌≡◌, sym, ap, subst, ◌∙◌}
use mathlib.Core.Logic.{◌≢◌, inl, inr}
use mathlib.Core.List.{List, [], ◌∷◌}
use mathlib.Core.Option.{Option, none, some, get_or}
use native.Mathlib.Omega.{arith}
use coro_iomultiplex.Prelude.Bytes.{
  Text, compare_text, compare_text_refl, eq_of_compare_text, compare_text_trans, text_eq,
  text_eq_iff,
}
use coro_iomultiplex.Prelude.Tests.{Bool-cases}

abbrev pub TextMap : Type 0
TextMap = List (Text × Text)

-- `m.find(k)`, `m.at(k)` and `m.contains(k)`.
unfoldable pub lookup : Text → TextMap → Option Text
lookup k [] = none
lookup k ((j, v) ∷ m) = elim (compare_text k j) [
  | Ordering.lt ↦ none
  | Ordering.eq ↦ some v
  | Ordering.gt ↦ lookup k m
]

-- `m.emplace(k, v)`: a key that is there already keeps its value.
unfoldable pub emplace : Text → Text → TextMap → TextMap
emplace k v [] = (k, v) ∷ []
emplace k v ((j, w) ∷ m) = elim (compare_text k j) [
  | Ordering.lt ↦ (k, v) ∷ (j, w) ∷ m
  | Ordering.eq ↦ (j, w) ∷ m
  | Ordering.gt ↦ (j, w) ∷ emplace k v m
]

-- `m[k] = v`.
unfoldable pub assign : Text → Text → TextMap → TextMap
assign k v [] = (k, v) ∷ []
assign k v ((j, w) ∷ m) = elim (compare_text k j) [
  | Ordering.lt ↦ (k, v) ∷ (j, w) ∷ m
  | Ordering.eq ↦ (j, v) ∷ m
  | Ordering.gt ↦ (j, w) ∷ assign k v m
]

pub lookup-emplace_self :
    (k v : Text) (m : TextMap) → lookup k (emplace k v m) ≡ some (get_or (lookup k m) v)
unfolding lookup emplace
lookup-emplace_self k v [] = ground (arith, compare_text_refl k)
lookup-emplace_self k v ((j, w) ∷ m) =
    ground (arith, compare_text_refl k, lookup-emplace_self k v m)

pub lookup-emplace_ne : (k v q : Text) (m : TextMap) → q ≢ k → lookup q (emplace k v m) ≡ lookup q m
unfolding lookup emplace
lookup-emplace_ne k v q [] h = ground (arith, eq_of_compare_text q k)
lookup-emplace_ne k v q ((j, w) ∷ m) h =
    ground (arith, eq_of_compare_text q k, compare_text_trans q k j, lookup-emplace_ne k v q m h)

pub lookup-assign_self : (k v : Text) (m : TextMap) → lookup k (assign k v m) ≡ some v
unfolding lookup assign
lookup-assign_self k v [] = ground (arith, compare_text_refl k)
lookup-assign_self k v ((j, w) ∷ m) = ground (arith, compare_text_refl k, lookup-assign_self k v m)

-- What is in the map stays through any later emplace.
pub lookup-emplace_keep :
    (k v j w : Text) (m : TextMap) → lookup k m ≡ some v → lookup k (emplace j w m) ≡ some v
lookup-emplace_keep k v j w m e = elim (Bool-cases (text_eq k j)) [
  | inl same ↦
      let s : k ≡ j = (text_eq_iff k j).0 same in
      subst (λ x. lookup x (emplace j w m) ≡ some v) (sym s)
        (lookup-emplace_self j w m
          ∙ ap (λ o. some (get_or o w)) (subst (λ x. lookup x m ≡ some v) s e))
  | inr other ↦ lookup-emplace_ne j w k m (λ s. ground (arith, text_eq_iff k j)) ∙ e
]
