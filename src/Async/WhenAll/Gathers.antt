-- ===== src/Async/WhenAll/Gathers.antt =====
-- The results of whenAll of include/async/WhenAll.hpp.
use coro_iomultiplex.Prelude.{
  ℕ, suc, ◌<◌, ◌^◌, ◌≡◌, ◌≢◌, refl, sym, ◌∙◌, subst, All, List, [], ◌∷◌, Option, none, some, length,
  length-set, get_elem?, get_elem?-set_self, get_elem?-set_ne, size_sub, size_sub-eq, arith,
}
use coro_iomultiplex.Async.Tasks.{return_prev, final_suspend, return_coro, detach, get_self, noop}
use coro_iomultiplex.Async.WhenAll.{
  Gathering, helper_return, helper, helpers, gathering, helper_promise, after_helper,
}

-- The numbers of the tasks that end are different.
abbrev pub Distinct : {V : Type 0} → List (ℕ × V) → Type 0
Distinct [] = Unit
Distinct ((i, v) ∷ ends) = All (λ e. e.0 ≢ i) ends × Distinct ends

-- All helpers but the last return std::noop_coroutine, and the last one the caller.
abbrev pub last_returns : {V : Type 0} → ℕ → List (ℕ × V) → List (Option ℕ)
last_returns caller [] = []
last_returns caller ((i, v) ∷ []) = some caller ∷ []
last_returns caller ((i, v) ∷ (e ∷ ends)) = none ∷ last_returns caller (e ∷ ends)

-- A result that no later task writes stays.
helpers-keep :
    {V : Type 0} (ends : List (ℕ × V)) (g : Gathering V) (i : ℕ)
    → All (λ e. e.0 ≢ i) ends
    → get_elem? (helpers ends g).0.result i ≡ get_elem? g.result i
unfolding helpers helper
helpers-keep [] g i h = refl
helpers-keep ((j, v) ∷ ends) g i (ne, h) =
    helpers-keep ends (helper j v g).0 i h ∙ get_elem?-set_ne g.result j i v ne

-- The results that are there after the tasks.
pub helpers-results :
    {V : Type 0} (ends : List (ℕ × V)) (g : Gathering V)
    → Distinct ends
    → All (λ e. e.0 < length g.result) ends
    → All (λ e. get_elem? (helpers ends g).0.result e.0 ≡ some e.1) ends
unfolding helpers helper
helpers-results [] g d h = tt
helpers-results ((j, v) ∷ ends) g (new, d) (lt, h) =
    let room = subst (λ n. All (λ e. e.0 < n) ends) (sym (length-set g.result j v)) h in
    (
      helpers-keep ends (helper j v g).0 j new ∙ get_elem?-set_self g.result j v lt,
      helpers-results ends (helper j v g).0 d room,
    )

helpers-last :
    {V : Type 0} (ends : List (ℕ × V)) (g : Gathering V)
    → g.control.count ≡ length ends
    → length ends < 2 ^ 64
    → ((helpers ends g).1 ≡ last_returns g.control.caller_coro ends)
      × ((helpers ends g).0.control.count ≡ 0)
unfolding helpers helper helper_return
helpers-last [] g e h = (refl, e)
helpers-last ((j, v) ∷ []) g e h =
    let left : size_sub g.control.count 1 ≡ 0 =
      size_sub-eq g.control.count 1 (omega arith) (omega arith) ∙ omega arith in
    (ground arith, left)
helpers-last ((j, v) ∷ (d ∷ ends)) g e h =
    let left : size_sub g.control.count 1 ≡ suc (length ends) =
      size_sub-eq g.control.count 1 (omega arith) (omega arith) ∙ omega arith in
    let (coros, count) = helpers-last (d ∷ ends) (helper j v g).0 left (omega arith) in
    let head : (helper j v g).1 ≡ none = ground arith in ((λ i. head i ∷ coros i), count)

-- A helper that ends hands over to nobody, whatever it returns: it is detached.
after_helper-noop : (self : ℕ) (coro : Option ℕ) → after_helper self coro ≡ noop
unfolding after_helper helper_promise detach return_prev final_suspend return_coro
after_helper-noop self coro = refl

-- For fewer than 2 ^ 64 tasks, in whatever order they end, each once: every result stands at its
-- task's place, the count is 0 at the end, the helper that ends last returns the caller, and each
-- other one std::noop_coroutine; but no end of a helper resumes the caller, for they are detached.
pub helpers-gather :
    {V : Type 0} (caller : ℕ) (initial : List V) (ends : List (ℕ × V))
    → length initial < 2 ^ 64
    → length ends ≡ length initial
    → Distinct ends
    → All (λ e. e.0 < length initial) ends
    → All
        (λ e.
          get_elem? (helpers ends (gathering (length initial) caller initial)).0.result e.0
          ≡ some e.1)
        ends
      × ((helpers ends (gathering (length initial) caller initial)).0.control.count ≡ 0)
      × ((helpers ends (gathering (length initial) caller initial)).1 ≡ last_returns caller ends)
      × ((self : ℕ) (coro : Option ℕ) → after_helper self coro ≡ noop)
unfolding gathering get_self
helpers-gather caller initial ends fits all d h =
    let g = gathering (length initial) caller initial in
    let (coros, count) = helpers-last ends g (sym all) (omega (arith, all)) in
    (helpers-results ends g d h, count, coros, after_helper-noop)
