-- ===== src/Async/WhenAll/Returns.antt =====
-- What whenAll of include/async/WhenAll.hpp returns.
use coro_iomultiplex.Prelude.{
  ℕ, ◌<◌, ◌^◌, ◌-◌, ◌≤◌, ◌≡◌, ◌≢◌, refl, sym, ap, ◌∙◌, subst, All, List, [], ◌∷◌, Option, some,
  length, length-set, get_elem?, get_elem?-set_self, get_elem?-set_ne, size_sub, size_sub-eq, arith,
  ◌==◌, if◌then◌else◌, Bool-cases, inl, inr, set,
}
use coro_iomultiplex.Async.Tasks.{transfers}
use coro_iomultiplex.Async.WhenAll.{
  Gathering, helper_return, helper, helpers, gathering, RunAll, await_all_tasks, when_all,
}
use coro_iomultiplex.Async.WhenAll.Gathers.{Distinct}

-- The value with which a task ended, or what stood at its place.
pub ended_with : {V : Type 0} → ℕ → List (ℕ × V) → Option V → Option V
ended_with i [] was = was
ended_with i ((j, v) ∷ ends) was =
    let rest = ended_with i ends was in if j == i then some v else rest

ended_with-absent :
    {V : Type 0} (i : ℕ) (ends : List (ℕ × V)) (was : Option V)
    → All (λ e. e.0 ≢ i) ends
    → ended_with i ends was ≡ was
unfolding ended_with
ended_with-absent i [] was h = refl
ended_with-absent i ((j, v) ∷ ends) was (ne, h) = ground (arith, ended_with-absent i ends was h)

helpers-result :
    {V : Type 0} (ends : List (ℕ × V)) (g : Gathering V) (i : ℕ)
    → Distinct ends
    → All (λ e. e.0 < length g.result) ends
    → get_elem? (helpers ends g).0.result i ≡ ended_with i ends (get_elem? g.result i)
unfolding helpers helper ended_with
helpers-result [] g i d h = refl
helpers-result ((j, v) ∷ ends) g i (new, d) (lt, h) =
    let room = subst (λ n. All (λ e. e.0 < n) ends) (sym (length-set g.result j v)) h in
    helpers-result ends (helper j v g).0 i d room ∙ elim (Bool-cases (j == i)) [
      | inl same ↦
          let here : j ≡ i = ground arith in
          let absent : All (λ e. e.0 ≢ i) ends = subst (λ k. All (λ e. e.0 ≢ k) ends) here new in
          ended_with-absent i ends (get_elem? (set g.result j v) i) absent
          ∙ ap (get_elem? (set g.result j v)) (sym here)
          ∙ get_elem?-set_self g.result j v lt
          ∙ rw same refl
      | inr other ↦
          ap (ended_with i ends) (get_elem?-set_ne g.result j i v (λ e. absurd (ground arith)))
          ∙ rw other refl
    ]

helpers-count :
    {V : Type 0} (ends : List (ℕ × V)) (g : Gathering V)
    → length ends ≤ g.control.count
    → g.control.count < 2 ^ 64
    → (helpers ends g).0.control.count ≡ g.control.count - length ends
unfolding helpers helper helper_return
helpers-count [] g le fits = omega arith
helpers-count ((j, v) ∷ ends) g le fits =
    let left : size_sub g.control.count 1 ≡ g.control.count - 1 =
      size_sub-eq g.control.count 1 (omega arith) fits in
    helpers-count ends (helper j v g).0 (omega (arith, left)) (omega (arith, left))
    ∙ omega (arith, left)

-- Whatever the loop does before its runAll returns, as long as no task ends twice and only tasks of
-- this call end: whenAll goes on with its caller at once, and returns at each place the value of its
-- task, if that has ended, and else what a default-constructed result holds; and as many tasks as did
-- not end are still counted. So it returns all the values exactly as far as runAll runs the tasks to
-- their ends.
pub when_all-result :
    {V : Type 0} (run_all : RunAll V) (task_coros : List ℕ) (self : ℕ) (initial : List V)
    → length initial < 2 ^ 64
    → length (run_all task_coros) ≤ length initial
    → Distinct (run_all task_coros)
    → All (λ e. e.0 < length initial) (run_all task_coros)
    → ((i : ℕ)
        → get_elem? (when_all run_all task_coros self initial).0 i
          ≡ ended_with i (run_all task_coros) (get_elem? initial i))
      × ((when_all run_all task_coros self initial).1.count
          ≡ length initial - length (run_all task_coros))
      × ((when_all run_all task_coros self initial).2 ≡ transfers self)
unfolding when_all await_all_tasks gathering
when_all-result run_all task_coros self initial fits le d h =
    let g = gathering (length initial) self initial in
    (
      (λ i. helpers-result (run_all task_coros) g i d h),
      helpers-count (run_all task_coros) g le fits,
      refl,
    )
