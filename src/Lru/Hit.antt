-- ===== src/Lru/Hit.antt =====
-- A node that get of include/utils/Lru.hpp finds, and what moving it to the front does.
use coro_iomultiplex.Prelude.{
  ℕ, suc, ◌==◌, ◌≡◌, ◌≢◌, refl, sym, ap, ◌∙◌, subst, ite, List, [], ◌∷◌, none, some, if◌then◌else◌,
  length, arith, if_pos, Bool-cases, inl, inr, ℕ_discrete,
}
use coro_iomultiplex.Lru.{node_value, unlink, splice_front, is_front}
use coro_iomultiplex.Lru.Nodes.{node_of, Apart, find_key, remove_key, values}

module _ {K V : Type 0} (dec : Discrete K) (path : V → K) where
  pub find_key-none :
      (k : K) (l : List (ℕ × V))
      → node_of dec path k l ≡ none
      → find_key dec path k (values l) ≡ none
  unfolding node_of find_key
  find_key-none k [] h = refl
  find_key-none k ((i, v) ∷ l) h = ground (arith, find_key-none k l)

  -- What the search for a key finds.
  pub record Found (k : K) (i : ℕ) (l : List (ℕ × V)) : Type 0 where
    pub val : V
    pub stored : node_value i l ≡ some val
    pub named : path val ≡ k
    pub seen : find_key dec path k (values l) ≡ some val
    pub rest : values (unlink i l) ≡ remove_key dec path k (values l)
    pub shorter : suc (length (unlink i l)) ≡ length l

  node_value-none-node_of :
      (k : K) (i : ℕ) (l : List (ℕ × V)) → node_value i l ≡ none → node_of dec path k l ≢ some i
  unfolding node_of node_value
  node_value-none-node_of k i [] h e = ground arith
  node_value-none-node_of k i ((j, v) ∷ l) h e = ground (arith, node_value-none-node_of k i l)

  pub find-node :
      (k : K) (i : ℕ) (l : List (ℕ × V))
      → Apart dec path l
      → node_of dec path k l ≡ some i
      → Found k i l
  unfolding node_of find_key remove_key node_value unlink
  find-node k i [] a h = absurd (ground arith)
  find-node k i ((j, v) ∷ l) a h = elim (dec k (path v)) [
    | yes p ↦
        let e : i ≡ j = ground arith in
        record {
          val = v;
          stored = ground arith;
          named = sym p;
          seen = ground arith;
          rest = ground arith;
          shorter = ground arith;
        }
    | no n ↦
        let f : Found k i l = find-node k i l a.2 (ground arith) in
        let other : j ≢ i = λ e. ground (arith, f.stored) in
        record {
          val = f.val;
          stored = ground (arith, f.stored);
          named = f.named;
          seen = ground (arith, f.seen);
          rest = ground (arith, f.rest);
          shorter = ground (arith, f.shorter);
        }
  ]

  -- The list that `get` leaves on a hit: the node is at the front either way.
  pub front-splice :
      (k : K) (i : ℕ) (l : List (ℕ × V))
      → Found k i l
      → (if is_front i l then l else splice_front i l) ≡ splice_front i l
  unfolding is_front splice_front node_value unlink
  front-splice k i [] f = refl
  front-splice k i ((j, v) ∷ l) f = ground arith

  pub splice_front-Found :
      (k : K) (i : ℕ) (l : List (ℕ × V)) (f : Found k i l)
      → splice_front i l ≡ (i, f.val) ∷ unlink i l
  unfolding splice_front
  splice_front-Found k i l f = ground (arith, f.stored)

  -- Unlinking one node hides its key and no other.
  pub node_of-unlink :
      (k q : K) (i : ℕ) (l : List (ℕ × V))
      → Apart dec path l
      → node_of dec path k l ≡ some i
      → node_of dec path q (unlink i l) ≡ ite (dec q k) none (node_of dec path q l)
  unfolding node_of unlink
  node_of-unlink k q i [] a h = ground arith
  node_of-unlink k q i ((j, v) ∷ l) a h = elim (dec k (path v)) [
    | yes p ↦
        let e : i ≡ j = ground arith in
        elim (dec q k) [
          | yes p' ↦
              let gone : node_of dec path q l ≡ none =
                subst (λ x. node_of dec path x l ≡ none) (sym (p' ∙ p)) a.0 in
              ground arith
          | no n' ↦ ground arith
        ]
    | no n ↦
        let here : node_of dec path k l ≡ some i = ground arith in
        let f : Found k i l = find-node k i l a.2 here in
        let other : j ≢ i = λ e. ground (arith, f.stored) in
        let ih = node_of-unlink k q i l a.2 here in
        elim (dec q k) [
          | yes p' ↦ let far : q ≢ path v = (λ e. n (sym p' ∙ e)) in ground (arith, ih)
          | no n' ↦ ground (arith, ih)
        ]
  ]

  pub node_value-unlink :
      (i j : ℕ) (l : List (ℕ × V)) → node_value j l ≡ none → node_value j (unlink i l) ≡ none
  unfolding node_value unlink
  node_value-unlink i j [] h = refl
  node_value-unlink i j ((m, v) ∷ l) h = ground (arith, node_value-unlink i j l)

  node_of-unlink-none :
      (q : K) (i : ℕ) (l : List (ℕ × V))
      → node_of dec path q l ≡ none
      → node_of dec path q (unlink i l) ≡ none
  unfolding node_of unlink
  node_of-unlink-none q i [] h = refl
  node_of-unlink-none q i ((j, v) ∷ l) h = ground (arith, node_of-unlink-none q i l)

  pub unlink-Apart : (i : ℕ) (l : List (ℕ × V)) → Apart dec path l → Apart dec path (unlink i l)
  unfolding unlink
  unlink-Apart i [] a = tt
  unlink-Apart i ((j, v) ∷ l) a = elim (Bool-cases (j == i)) [
    | inl e ↦ rw e a.2
    | inr e ↦
        rw e
          (node_of-unlink-none (path v) i l a.0, node_value-unlink i j l a.1, unlink-Apart i l a.2)
  ]

  -- The node itself is not among the rest.
  pub node_value-unlink_self :
      (i : ℕ) (l : List (ℕ × V)) → Apart dec path l → node_value i (unlink i l) ≡ none
  unfolding node_value unlink
  node_value-unlink_self i [] a = refl
  node_value-unlink_self i ((j, v) ∷ l) a = elim (ℕ_discrete j i) [
    | yes e ↦
        let here : node_value i l ≡ none = subst (λ x. node_value x l ≡ none) e a.1 in ground arith
    | no n ↦ ground (arith, node_value-unlink_self i l a.2)
  ]

  -- Moving a found node to the front keeps every key at its node.
  pub node_of-splice :
      (k q : K) (i : ℕ) (l : List (ℕ × V))
      → Apart dec path l
      → node_of dec path k l ≡ some i
      → node_of dec path q (splice_front i l) ≡ node_of dec path q l
  unfolding node_of
  node_of-splice k q i l a h =
      let f : Found k i l = find-node k i l a h in
      ap (node_of dec path q) (splice_front-Found k i l f) ∙ (elim (dec q k) [
        | yes p ↦
            let at : q ≡ path f.val = p ∙ sym f.named in
            let here : node_of dec path q l ≡ some i =
              subst (λ x. node_of dec path x l ≡ some i) (sym p) h in
            ground arith
        | no n ↦
            let far : q ≢ path f.val = (λ e. n (e ∙ f.named)) in
            ground (arith, node_of-unlink k q i l a h)
      ])

  pub splice_front-Apart :
      (k : K) (i : ℕ) (l : List (ℕ × V))
      → Apart dec path l
      → node_of dec path k l ≡ some i
      → Apart dec path (splice_front i l)
  splice_front-Apart k i l a h =
      let f : Found k i l = find-node k i l a h in
      subst (Apart dec path) (sym (splice_front-Found k i l f)) (
        subst (λ x. node_of dec path x (unlink i l) ≡ none) (sym f.named)
            (node_of-unlink k k i l a h ∙ if_pos (dec k k) refl none (node_of dec path k l)),
        node_value-unlink_self i l a,
        unlink-Apart i l a,
      )
