-- ===== src/Lru/Invariant.antt =====
-- The invariant of the lruCache of include/utils/Lru.hpp, and put under it.
use coro_iomultiplex.Prelude.{
  ℕ, suc, ◌<◌, ◌≤◌, ◌==◌, ◌≡◌, refl, sym, ap, ◌∙◌, subst, ite, List, [], ◌∷◌, Option, none, some,
  All, length, take, arith, Bool-cases, inl, inr, take_of_length-le, length-map, store, forget,
}
use coro_iomultiplex.Lru.{Cache, node_value, pop_back, evict, make_room, push_front}
use coro_iomultiplex.Lru.Nodes.{node_of, Apart, values}
use coro_iomultiplex.Lru.Evict.{Dropped, drop-back, pop_back-Apart, node_of-pop_back}

-- Every node is older than the next one.
abbrev pub Older : {V : Type 0} → ℕ → List (ℕ × V) → Type 0
Older n = All (λ m. m.0 < n)

module _ {K V : Type 0} (dec : Discrete K) (path : V → K) where
  pub record IsValid (c : Cache K V) : Type 0 where
    pub positive : 0 < c.capacity
    pub bounded : length c.cache_list ≤ c.capacity
    pub counted : c.index.count ≡ length c.cache_list
    pub indexed : (k : K) → c.index.entry k ≡ node_of dec path k c.cache_list
    pub apart : Apart dec path c.cache_list
    pub older : Older c.next_node c.cache_list

  -- A builder gives a value that carries the key it was built for.
  abbrev pub IsBuilder : (K → Option V) → Type 0
  IsBuilder build = (k : K) (v : V) → build k ≡ some v → path v ≡ k

  Older-node_value : (n : ℕ) (l : List (ℕ × V)) → Older n l → node_value n l ≡ none
  unfolding node_value
  Older-node_value n [] o = refl
  Older-node_value n ((i, v) ∷ l) o = ground (arith, Older-node_value n l o.1)

  Older-pop_back : (n : ℕ) (l : List (ℕ × V)) → Older n l → Older n (pop_back l)
  unfolding pop_back
  Older-pop_back n [] o = tt
  Older-pop_back n (m ∷ []) o = tt
  Older-pop_back n (m ∷ k ∷ l) o = (o.0, Older-pop_back n (k ∷ l) o.1)

  Older-suc : (n : ℕ) (l : List (ℕ × V)) → Older n l → Older (suc n) l
  Older-suc n [] o = tt
  Older-suc n (m ∷ l) o = (omega arith, Older-suc n l o.1)

  -- Room for one more: the cache before a node is pushed.
  pub record HasRoom (c : Cache K V) (n : ℕ) : Type 0 where
    pub room : length c.cache_list ≤ n
    pub cap : c.capacity ≡ suc n
    counted : c.index.count ≡ length c.cache_list
    indexed : (k : K) → c.index.entry k ≡ node_of dec path k c.cache_list
    apart : Apart dec path c.cache_list
    older : Older c.next_node c.cache_list

  pub make_room-HasRoom :
      (c : Cache K V) (n : ℕ)
      → c.capacity ≡ suc n
      → IsValid c
      → (c' : Cache K V) × (make_room dec path c ≡ some c')
        × HasRoom c' n
        × (values c'.cache_list ≡ take n (values c.cache_list))
        × ((k : K)
            → node_of dec path k c.cache_list ≡ none
            → node_of dec path k c'.cache_list ≡ none)
  make_room-HasRoom c n e w = elim (Bool-cases (c.index.count == c.capacity)) [
    | inr open' ↦
        let fits : length c.cache_list ≤ n = ground (arith, w.bounded, w.counted) in
        (
          c,
          unfold make_room in rw open',
          record {
            room = fits;
            cap = e;
            counted = w.counted;
            indexed = w.indexed;
            apart = w.apart;
            older = w.older;
          },
          sym (
              take_of_length-le n (values c.cache_list)
                (omega (arith, length-map (λ (m : ℕ × V). m.1) c.cache_list))),
          λ k h. h,
        )
    | inl full ↦
        let whole : length c.cache_list ≡ suc n = ground (arith, w.counted) in
        let d : Dropped dec path n c.cache_list = drop-back dec path n c.cache_list whole in
        let c' : Cache K V = record c {
          index = forget dec (path d.victim) c.index;
          cache_list = pop_back c.cache_list;
        } in
        let gone = λ (k : K). node_of-pop_back dec path k c.cache_list d.victim w.apart d.last in
        (
          c',
          unfold make_room evict in ground (arith, d.last),
          record {
            room = omega (arith, d.shorter);
            cap = e;
            counted =
                unfold forget in
                ground (arith, w.indexed (path d.victim), d.present, d.shorter, w.counted);
            indexed = λ k.
                unfold forget in ap (ite (dec k (path d.victim)) none) (w.indexed k) ∙ sym (gone k);
            apart = pop_back-Apart dec path c.cache_list w.apart;
            older = Older-pop_back c.next_node c.cache_list w.older;
          },
          d.rest,
          λ k h. gone k ∙ ground (arith, h),
        )
  ]

  pub push_front-IsValid :
      (c : Cache K V) (n : ℕ) (key : K) (v : V)
      → HasRoom c n
      → node_of dec path key c.cache_list ≡ none
      → path v ≡ key
      → IsValid (push_front dec path c key v)
  unfolding push_front store node_of
  push_front-IsValid c n key v h new named = record {
    positive = omega (arith, h.cap);
    bounded = omega (arith, h.cap, h.room);
    counted = ground (arith, h.indexed key, h.counted);
    indexed = λ k.
        subst
          (λ x.
            ite (dec k key) (some c.next_node) (c.index.entry k)
            ≡ ite (dec k x) (some c.next_node) (node_of dec path k c.cache_list))
          (sym named) (ap (ite (dec k key) (some c.next_node)) (h.indexed k));
    apart = (
      subst (λ x. node_of dec path x c.cache_list ≡ none) (sym named) new,
      Older-node_value c.next_node c.cache_list h.older,
      h.apart,
    );
    older = (omega arith, Older-suc c.next_node c.cache_list h.older);
  }
