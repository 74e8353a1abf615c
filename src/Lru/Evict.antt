-- ===== src/Lru/Evict.antt =====
-- Dropping the back node, as put of include/utils/Lru.hpp does.
use coro_iomultiplex.Prelude.{
  ℕ, zero, suc, ◌≡◌, ◌≢◌, refl, sym, ap, ◌∙◌, subst, ite, List, [], ◌∷◌, none, some, true, is_some,
  length, take, arith,
}
use coro_iomultiplex.Lru.{node_value, back, pop_back}
use coro_iomultiplex.Lru.Nodes.{node_of, Apart, values}

module _ {K V : Type 0} (dec : Discrete K) (path : V → K) where
  pub record Dropped (n : ℕ) (l : List (ℕ × V)) : Type 0 where
    pub victim : V
    pub last : back l ≡ some victim
    pub present : is_some (node_of dec path (path victim) l) ≡ true
    pub rest : values (pop_back l) ≡ take n (values l)
    pub shorter : length (pop_back l) ≡ n

  node_of-pop_back-none :
      (q : K) (l : List (ℕ × V))
      → node_of dec path q l ≡ none
      → node_of dec path q (pop_back l) ≡ none
  unfolding node_of pop_back
  node_of-pop_back-none q [] h = refl
  node_of-pop_back-none q ((i, v) ∷ []) h = refl
  node_of-pop_back-none q ((i, v) ∷ (j, w) ∷ l) h =
      ground (arith, node_of-pop_back-none q ((j, w) ∷ l))

  node_value-pop_back :
      (i : ℕ) (l : List (ℕ × V)) → node_value i l ≡ none → node_value i (pop_back l) ≡ none
  unfolding node_value pop_back
  node_value-pop_back i [] h = refl
  node_value-pop_back i ((j, v) ∷ []) h = refl
  node_value-pop_back i ((j, v) ∷ (m, w) ∷ l) h = ground (arith, node_value-pop_back i ((m, w) ∷ l))

  pub pop_back-Apart : (l : List (ℕ × V)) → Apart dec path l → Apart dec path (pop_back l)
  unfolding pop_back
  pop_back-Apart [] a = tt
  pop_back-Apart ((i, v) ∷ []) a = tt
  pop_back-Apart ((i, v) ∷ n ∷ l) a = (
    node_of-pop_back-none (path v) (n ∷ l) a.0,
    node_value-pop_back i (n ∷ l) a.1,
    pop_back-Apart (n ∷ l) a.2,
  )

  pub drop-back : (n : ℕ) (l : List (ℕ × V)) → length l ≡ suc n → Dropped n l
  unfolding back pop_back node_of
  drop-back n [] h = absurd (omega arith)
  drop-back zero ((i, v) ∷ []) h = record {
    victim = v;
    last = refl;
    present = ground arith;
    rest = refl;
    shorter = refl;
  }
  drop-back (suc n) ((i, v) ∷ []) h = absurd (omega arith)
  drop-back zero ((i, v) ∷ m ∷ l) h = absurd (omega arith)
  drop-back (suc n) ((i, v) ∷ (j, w) ∷ l) h =
      let d : Dropped n ((j, w) ∷ l) = drop-back n ((j, w) ∷ l) (omega arith) in
      record {
        victim = d.victim;
        last = d.last;
        present = ground (arith, d.present);
        rest = ap (◌∷◌ v) d.rest;
        shorter = ap suc d.shorter;
      }

  -- Only the victim's key is lost.
  pub node_of-pop_back :
      (q : K) (l : List (ℕ × V)) (v : V)
      → Apart dec path l
      → back l ≡ some v
      → node_of dec path q (pop_back l) ≡ ite (dec q (path v)) none (node_of dec path q l)
  unfolding back pop_back node_of
  node_of-pop_back q [] v a h = absurd (ground arith)
  node_of-pop_back q ((i, w) ∷ []) v a h = ground arith
  node_of-pop_back q ((i, w) ∷ (j, u) ∷ l) v a h =
      let ih = node_of-pop_back q ((j, u) ∷ l) v a.2 h in
      elim (dec q (path v)) [
        | yes p ↦
            let d : Dropped (length l) ((j, u) ∷ l) = drop-back (length l) ((j, u) ∷ l) refl in
            let same : d.victim ≡ v = ground (arith, d.last) in
            let here : is_some (node_of dec path q ((j, u) ∷ l)) ≡ true =
              subst (λ x. is_some (node_of dec path x ((j, u) ∷ l)) ≡ true) (ap path same ∙ sym p)
                d.present in
            let far : q ≢ path w = (λ e. cc (
              here,
              ap is_some (subst (λ x. node_of dec path x ((j, u) ∷ l) ≡ none) (sym e) a.0),
            )) in
            ground (arith, ih)
        | no n ↦ ground (arith, ih)
      ]
