-- ===== src/Async/Pool/Clean.antt =====
-- cleanTasks of include/async/Loop.hpp.
use coro_iomultiplex.Prelude.{
  ℕ, suc, ◌≤◌, ◌==◌, count, sum_of, ◌≡◌, refl, sym, ap, ◌∙◌, subst, List, [], ◌∷◌, map, none, some,
  arith, length, length-map, ltb, All, Bool, true, false, inl, inr, Bool-cases,
}
use coro_iomultiplex.Async.Pool.{
  Pool, bound_to, contains, erase_if, done_tasks, unbind_done, all_done, clean_queues, clean_tasks,
  clean_limit,
}
use coro_iomultiplex.Async.Pool.Bound.{InPlace, InRange, IsQueue, IsBound}

module _ (done : ℕ → Bool) where
  contains-undone :
      (t i : ℕ) (b : List (ℕ × ℕ)) → done t ≡ false → contains t (done_tasks done i b) ≡ false
  unfolding contains done_tasks
  contains-undone t i [] h = refl
  contains-undone t i ((u, j) ∷ b) h = ground (arith, contains-undone t i b h)

  contains-done :
      (t i : ℕ) (b : List (ℕ × ℕ))
      → done t ≡ true
      → bound_to t b ≡ some i
      → contains t (done_tasks done i b) ≡ true
  unfolding contains done_tasks bound_to
  contains-done t i [] h e = absurd (ground arith)
  contains-done t i ((u, j) ∷ b) h e = ground (arith, contains-done t i b h)

  -- A bound task is erased from its queue if it is done, and only then.
  contains-done_tasks :
      (t i : ℕ) (b : List (ℕ × ℕ))
      → bound_to t b ≡ some i
      → contains t (done_tasks done i b) ≡ done t
  contains-done_tasks t i b e = elim (Bool-cases (done t)) [
    | inl h ↦ contains-done t i b h e ∙ sym h
    | inr h ↦ contains-undone t i b h ∙ sym h
  ]

  erase_if-done :
      (i : ℕ) (b : List (ℕ × ℕ)) (q : List ℕ)
      → All (λ t. bound_to t b ≡ some i) q
      → erase_if (λ t. contains t (done_tasks done i b)) q ≡ erase_if done q
  unfolding erase_if
  erase_if-done i b [] h = refl
  erase_if-done i b (t ∷ q) h = rw (erase_if-done i b q h.1, contains-done_tasks t i b h.0)

  clean_queues-map :
      (b : List (ℕ × ℕ)) (i : ℕ) (qs : List (List ℕ))
      → InPlace b i qs
      → clean_queues done b i qs ≡ map (erase_if done) qs
  unfolding clean_queues
  clean_queues-map b i [] h = refl
  clean_queues-map b i (q ∷ qs) h = rw (erase_if-done i b q h.0, clean_queues-map b (suc i) qs h.1)

  pub bound_to-unbind :
      (t : ℕ) (b : List (ℕ × ℕ)) → done t ≡ false → bound_to t (unbind_done done b) ≡ bound_to t b
  unfolding bound_to unbind_done
  bound_to-unbind t [] h = refl
  bound_to-unbind t ((u, j) ∷ b) h = ground (arith, bound_to-unbind t b h)

  bound_to-unbind_done :
      (t : ℕ) (b : List (ℕ × ℕ)) → done t ≡ true → bound_to t (unbind_done done b) ≡ none
  unfolding bound_to unbind_done
  bound_to-unbind_done t [] h = refl
  bound_to-unbind_done t ((u, j) ∷ b) h = ground (arith, bound_to-unbind_done t b h)

  InRange-unbind : (n : ℕ) (b : List (ℕ × ℕ)) → InRange n b → InRange n (unbind_done done b)
  unfolding unbind_done
  InRange-unbind n [] h = tt
  InRange-unbind n ((u, j) ∷ b) h = elim (Bool-cases (done u)) [
    | inl e ↦ rw e (InRange-unbind n b h.2)
    | inr e ↦ rw e (h.0, bound_to-unbind u b e ∙ h.1, InRange-unbind n b h.2)
  ]

  erase_if-bound :
      (i : ℕ) (b : List (ℕ × ℕ)) (q : List ℕ)
      → All (λ t. bound_to t b ≡ some i) q
      → All (λ t. bound_to t (unbind_done done b) ≡ some i) (erase_if done q)
  unfolding erase_if
  erase_if-bound i b [] h = tt
  erase_if-bound i b (t ∷ q) h = elim (Bool-cases (done t)) [
    | inl e ↦ rw e (erase_if-bound i b q h.1)
    | inr e ↦ rw e (bound_to-unbind t b e ∙ h.0, erase_if-bound i b q h.1)
  ]

  InPlace-unbind :
      (b : List (ℕ × ℕ)) (i : ℕ) (qs : List (List ℕ))
      → InPlace b i qs
      → InPlace (unbind_done done b) i (map (erase_if done) qs)
  InPlace-unbind b i [] h = tt
  InPlace-unbind b i (q ∷ qs) h = (erase_if-bound i b q h.0, InPlace-unbind b (suc i) qs h.1)

  all_done-done : (t : ℕ) (b : List (ℕ × ℕ)) → contains t (all_done done b) ≡ true → done t ≡ true
  unfolding contains all_done
  all_done-done t [] h = absurd (ground arith)
  all_done-done t ((u, j) ∷ b) h = ground (arith, all_done-done t b)

  all_done-bound :
      (t i : ℕ) (b : List (ℕ × ℕ))
      → done t ≡ true
      → bound_to t b ≡ some i
      → contains t (all_done done b) ≡ true
  unfolding contains all_done bound_to
  all_done-bound t i [] h e = absurd (ground arith)
  all_done-bound t i ((u, j) ∷ b) h e = ground (arith, all_done-bound t i b h)

  all_done-was_bound :
      (t : ℕ) (b : List (ℕ × ℕ))
      → contains t (all_done done b) ≡ true
      → (i : ℕ) × (bound_to t b ≡ some i)
  unfolding contains all_done bound_to
  all_done-was_bound t [] h = absurd (ground arith)
  all_done-was_bound t ((u, j) ∷ b) h = elim (Bool-cases (u == t)) [
    | inl e ↦ (j, rw e refl)
    | inr e ↦ let (i, bound) = all_done-was_bound t b (ground arith) in (i, rw e bound)
  ]

  count-all_done :
      (n t : ℕ) (b : List (ℕ × ℕ))
      → InRange n b
      → (count t (all_done done b) ≤ 1) × (bound_to t b ≡ none → count t (all_done done b) ≡ 0)
  unfolding all_done bound_to sum_of
  count-all_done n t [] h = (omega arith, λ e. refl)
  count-all_done n t ((u, j) ∷ b) h = elim (Bool-cases (u == t)) [
    | inr e ↦ ground (arith, count-all_done n t b h.2)
    | inl e ↦
        let same : u ≡ t = ground arith in
        let absent : bound_to t b ≡ none = subst (λ x. bound_to x b ≡ none) same h.1 in
        let nowhere : count t (all_done done b) ≡ 0 = (count-all_done n t b h.2).1 absent in
        (ground (arith, nowhere), λ k. absurd (ground arith))
  ]

  -- What a round of cleaning leaves: the queues without the done tasks, in order, the same
  -- bindings for all others, and no binding for a task that was destroyed. What is destroyed was
  -- bound, and is destroyed once.
  pub record Cleaned (p p' : Pool) (destroyed : List ℕ) : Type 0 where
    pub queues : p'.queues ≡ map (erase_if done) p.queues
    pub current : p'.current ≡ p.current
    pub others : (t : ℕ) → done t ≡ false → bound_to t p'.binding ≡ bound_to t p.binding
    pub unbound_done : (t : ℕ) → done t ≡ true → bound_to t p'.binding ≡ none
    pub gone :
        (t : ℕ) → contains t destroyed ≡ true → (done t ≡ true) × (bound_to t p'.binding ≡ none)
    pub complete :
        (t i : ℕ) → done t ≡ true → bound_to t p.binding ≡ some i → contains t destroyed ≡ true
    pub was_bound :
        (t : ℕ) → contains t destroyed ≡ true → (i : ℕ) × (bound_to t p.binding ≡ some i)
    pub once : (t : ℕ) → count t destroyed ≤ 1
    pub valid : IsBound p'

  -- With as many bindings as the limit, a round of cleaning on a valid pool takes exactly the done
  -- tasks out of all queues, destroys each done task among the bound ones once, and no other, unbinds
  -- them, and keeps the pool valid.
  pub clean_tasks-Cleaned :
      (p : Pool)
      → IsBound p
      → ltb (length p.binding) clean_limit ≡ false
      → Cleaned p (clean_tasks done p).0 (clean_tasks done p).1
  clean_tasks-Cleaned p w h =
      subst (λ (x : Pool × List ℕ). Cleaned p x.0 x.1) (sym round)
        (record {
          queues = swept;
          current = refl;
          others = λ t e. bound_to-unbind t p.binding e;
          unbound_done = λ t d. bound_to-unbind_done t p.binding d;
          gone = λ t e.
              let d : done t ≡ true = all_done-done t p.binding e in
              (d, bound_to-unbind_done t p.binding d);
          complete = λ t i e b. all_done-bound t i p.binding e b;
          was_bound = λ t e. all_done-was_bound t p.binding e;
          once = λ t. (count-all_done (length p.queues) t p.binding w.in_range).0;
          valid = record {
            in_place =
                subst (InPlace (unbind_done done p.binding) 0) (sym swept)
                  (InPlace-unbind p.binding 0 p.queues w.in_place);
            in_range =
                subst (λ n. InRange n (unbind_done done p.binding)) (sym count)
                  (InRange-unbind (length p.queues) p.binding w.in_range);
            ready = subst (λ n. IsQueue n p.current) (sym count) w.ready;
          };
        })
    where
      round : clean_tasks done p ≡ (
        record p {
          queues = clean_queues done p.binding 0 p.queues;
          binding = unbind_done done p.binding;
        },
        all_done done p.binding,
      )
      round = unfold clean_tasks in rw h

      swept : clean_queues done p.binding 0 p.queues ≡ map (erase_if done) p.queues
      swept = clean_queues-map p.binding 0 p.queues w.in_place

      count : length (clean_queues done p.binding 0 p.queues) ≡ length p.queues
      count = ap length swept ∙ length-map (erase_if done) p.queues
