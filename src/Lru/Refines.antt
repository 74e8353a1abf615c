-- ===== src/Lru/Refines.antt =====
-- One get of include/utils/Lru.hpp against the abstract cache.
use coro_iomultiplex.Prelude.{
  ℕ, ◌-◌, ◌<◌, ◌==◌, ◌≡◌, refl, sym, ap, ◌∙◌, subst, List, [], ◌∷◌, Option, none, some, true,
  length, take, arith, if_pos, Bool-cases, inl, inr, ℕ_discrete, Option-cases, store,
}
use coro_iomultiplex.Lru.{
  Cache, node_value, unlink, splice_front, make_room, push_front, put, read, get,
}
use coro_iomultiplex.Lru.Nodes.{node_of, find_key, values}
use coro_iomultiplex.Lru.Abstract.{use_key}
use coro_iomultiplex.Lru.Hit.{
  find_key-none, Found, find-node, front-splice, splice_front-Found, node_of-splice,
  splice_front-Apart,
}
use coro_iomultiplex.Lru.Invariant.{
  Older, IsValid, IsBuilder, HasRoom, make_room-HasRoom, push_front-IsValid,
}

module _ {K V : Type 0} (dec : Discrete K) (path : V → K) where
  Older-unlink : (n i : ℕ) (l : List (ℕ × V)) → Older n l → Older n (unlink i l)
  unfolding unlink
  Older-unlink n i [] o = tt
  Older-unlink n i ((j, v) ∷ l) o = elim (Bool-cases (j == i)) [
    | inl e ↦ rw e o.1
    | inr e ↦ rw e (o.0, Older-unlink n i l o.1)
  ]

  Older-found : (n i : ℕ) (l : List (ℕ × V)) (v : V) → Older n l → node_value i l ≡ some v → i < n
  unfolding node_value
  Older-found n i [] v o h = absurd (ground arith)
  Older-found n i ((j, w) ∷ l) v o h = elim (ℕ_discrete j i) [
    | yes e ↦ omega arith
    | no e ↦ Older-found n i l v o.1 (ground arith)
  ]

  -- One call of `get`, against the abstract cache.
  abbrev pub Refines : (K → Option V) → Cache K V → K → Type 0
  Refines build c key =
      (c' : Cache K V) × (r : Option V) × (get dec path build c key ≡ some (c', r))
      × IsValid dec path c'
      × (c'.capacity ≡ c.capacity)
      × (◌≡◌ {A = List V × Option V} (values c'.cache_list, r)
          (use_key dec path c.capacity build key (values c.cache_list)))

  read-entry :
      (c : Cache K V) (key : K) (i : ℕ) (v : V)
      → c.index.entry key ≡ some i
      → node_value i c.cache_list ≡ some v
      → read dec path c key ≡ some (c, some v)
  unfolding read
  read-entry c key i v e h = ground arith

  node_value-head : (i : ℕ) (v : V) (l : List (ℕ × V)) → node_value i ((i, v) ∷ l) ≡ some v
  unfolding node_value
  node_value-head i v l = ground arith

  get-spliced :
      (build : K → Option V) (c : Cache K V) (key : K) (i : ℕ)
      → c.index.entry key ≡ some i
      → (f : Found dec path key i c.cache_list)
      → get dec path build c key
        ≡ some (record c { cache_list = splice_front i c.cache_list }, some f.val)
  unfolding get
  get-spliced build c key i e f =
      rw (e, get)
        (rw (front-splice dec path key i c.cache_list f) (
          read-entry (record c { cache_list = splice_front i c.cache_list }) key i f.val e
            (ap (node_value i) (splice_front-Found dec path key i c.cache_list f)
              ∙ node_value-head i f.val (unlink i c.cache_list))))

  get-hit :
      (build : K → Option V) (c : Cache K V) (key : K) (i : ℕ)
      → IsValid dec path c
      → c.index.entry key ≡ some i
      → node_of dec path key c.cache_list ≡ some i
      → Found dec path key i c.cache_list
      → Refines build c key
  get-hit build c key i w e at f =
      let l' : splice_front i c.cache_list ≡ (i, f.val) ∷ unlink i c.cache_list =
        splice_front-Found dec path key i c.cache_list f in
      (
        record c { cache_list = splice_front i c.cache_list },
        some f.val,
        get-spliced build c key i e f,
        record {
          positive = w.positive;
          bounded = omega (arith, ap length l', f.shorter, w.bounded);
          counted = omega (arith, ap length l', f.shorter, w.counted);
          indexed =
              λ k. w.indexed k ∙ sym (node_of-splice dec path key k i c.cache_list w.apart at);
          apart = splice_front-Apart dec path key i c.cache_list w.apart at;
          older = subst (Older c.next_node) (sym l') (
            Older-found c.next_node i c.cache_list f.val w.older f.stored,
            Older-unlink c.next_node i c.cache_list w.older,
          );
        },
        refl,
        unfold use_key in ground (arith, f.seen, f.rest, ap values l'),
      )

  get-pushed :
      (build : K → Option V) (c c' : Cache K V) (key : K) (v : V) (n : ℕ)
      → IsValid dec path c
      → c.index.entry key ≡ none
      → build key ≡ some v
      → find_key dec path key (values c.cache_list) ≡ none
      → make_room dec path c ≡ some c'
      → HasRoom dec path c' n
      → values c'.cache_list ≡ take n (values c.cache_list)
      → node_of dec path key c'.cache_list ≡ none
      → path v ≡ key
      → n ≡ c.capacity - 1
      → Refines build c key
  get-pushed build c c' key v n w e e' miss room h kept absent named same = (
    push_front dec path c' key v,
    some v,
    unfold get in rw (e, get) (rw (added, get) there),
    push_front-IsValid dec path c' n key v h absent named,
    unfold push_front in omega (arith, h.cap, w.positive),
    unfold use_key push_front in ground (arith, miss, kept),
  )
    where
      added : put dec path build c key ≡ some (push_front dec path c' key v, true)
      added = unfold put in ground arith

      there :
          read dec path (push_front dec path c' key v) key
          ≡ some (push_front dec path c' key v, some v)
      there =
          read-entry (push_front dec path c' key v) key c'.next_node v
            (unfold push_front store in if_pos (dec key key) refl _ _)
            (unfold push_front in node_value-head c'.next_node v c'.cache_list)

  get-miss :
      (build : K → Option V) (c : Cache K V) (key : K)
      → IsBuilder dec path build
      → IsValid dec path c
      → c.index.entry key ≡ none
      → Refines build c key
  get-miss build c key b w e =
      let new : node_of dec path key c.cache_list ≡ none = sym (w.indexed key) ∙ e in
      let miss : find_key dec path key (values c.cache_list) ≡ none =
        find_key-none dec path key c.cache_list new in
      elim (Option-cases (build key)) [
        | inl e' ↦ (
          c,
          none,
          unfold get put in ground arith,
          w,
          refl,
          unfold use_key in ground (arith, miss),
        )
        | inr (v, e') ↦
            let (c', room, h, kept, absent) =
              make_room-HasRoom dec path c (c.capacity - 1) (omega (arith, w.positive)) w in
            get-pushed build c c' key v (c.capacity - 1) w e e' miss room h kept (absent key new)
              (b key v e') refl
      ]

  -- One `get` of a valid cache is defined, keeps the cache valid, and does what the abstract cache
  -- does, in its list and in its answer; the builder gives values that carry their keys.
  pub get-refines :
      (build : K → Option V) (c : Cache K V) (key : K)
      → IsBuilder dec path build
      → IsValid dec path c
      → (c' : Cache K V) × (r : Option V) × (get dec path build c key ≡ some (c', r))
        × IsValid dec path c'
        × (c'.capacity ≡ c.capacity)
        × (◌≡◌ {A = List V × Option V}
            (values c'.cache_list, r)
            (use_key dec path c.capacity build key (values c.cache_list)))
  get-refines build c key b w = elim (Option-cases (c.index.entry key)) [
    | inl e ↦ get-miss build c key b w e
    | inr (i, e) ↦
        let at : node_of dec path key c.cache_list ≡ some i = sym (w.indexed key) ∙ e in
        get-hit build c key i w e at (find-node dec path key i c.cache_list w.apart at)
  ]
