-- ===== src/Prelude/Tables.antt =====
-- std::unordered_map: what it holds at each key, and its size. Its order of iteration is not used.
use Prim.Native.Nat.{ℕ, suc, ◌-◌}
use mathlib.Core.Logic.{ite, if_pos, if_neg, ◌≢◌}
use mathlib.Core.Path.{◌≡◌, refl}
use mathlib.Core.Option.{Option, none, some}
use coro_iomultiplex.Prelude.Tests.{is_some, if◌then◌else◌}

pub record Table {ℓ κ} (K : Type ℓ) (V : Type κ) : Type (ℓ ⊔ κ) where
  pub entry : K → Option V
  pub count : ℕ

abbrev pub empty_table {ℓ κ} : {K : Type ℓ} {V : Type κ} → Table K V
empty_table = record { entry = λ k. none; count = 0 }

module _ {ℓ κ} {K : Type ℓ} {V : Type κ} (dec : Discrete K) where
  -- `t[k] = v`.
  unfoldable pub store : K → V → Table K V → Table K V
  store k v t = record {
    entry = λ q. ite (dec q k) (some v) (t.entry q);
    count = if is_some (t.entry k) then t.count else suc t.count;
  }

  -- `t.erase(k)`.
  unfoldable pub forget : K → Table K V → Table K V
  forget k t = record {
    entry = λ q. ite (dec q k) none (t.entry q);
    count = if is_some (t.entry k) then t.count - 1 else t.count;
  }

module _ {ℓ κ} {K : Type ℓ} {V : Type κ} (dec : Discrete K) where
  pub entry-forget_self : (k : K) (t : Table K V) → (forget dec k t).entry k ≡ none
  unfolding forget
  entry-forget_self k t = if_pos (dec k k) refl none (t.entry k)

  pub entry-forget_ne : (k q : K) (t : Table K V) → q ≢ k → (forget dec k t).entry q ≡ t.entry q
  unfolding forget
  entry-forget_ne k q t ne = if_neg (dec q k) ne none (t.entry q)

  pub entry-store_self : (k : K) (v : V) (t : Table K V) → (store dec k v t).entry k ≡ some v
  unfolding store
  entry-store_self k v t = if_pos (dec k k) refl (some v) (t.entry k)

  pub entry-store_ne :
      (k q : K) (v : V) (t : Table K V) → q ≢ k → (store dec k v t).entry q ≡ t.entry q
  unfolding store
  entry-store_ne k q v t ne = if_neg (dec q k) ne (some v) (t.entry q)
