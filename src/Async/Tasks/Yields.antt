-- ===== src/Async/Tasks/Yields.antt =====
-- A coroutine of include/async/Tasks.hpp that yields values and then returns one.
use coro_iomultiplex.Prelude.{
  ℕ, ◌≡◌, refl, List, [], ◌∷◌, ◌++◌, Bool, true, false, Option, none, some, arith,
}
use coro_iomultiplex.Async.Tasks.{
  Promise, Next, transfers, return_prev, final_suspend, yield_value, set_value, Got, gives,
  get_value, await_task, Yielding, return_last,
}

-- What is left of the body: the values that it yields, and the one that it returns; `returned` is a
-- body that has ended.
pub data Body (T : Type 0) : Type 0 where
  yields : List T → T → Body T
  returned : Body T

-- A coroutine with its promise.
pub record Generator (T : Type 0) : Type 0 where
  pub body : Body T
  pub state : Yielding T

-- The body runs up to its next suspension; `none` is a coroutine that is resumed after its end.
unfoldable pub run_body : {T : Type 0} → Generator T → Option (Generator T × Next)
unfolding yield_value return_prev final_suspend return_last
run_body g = elim g.body [
  | returned ↦ none
  | yields l w ↦ elim l [
    | [] ↦
        let s = return_last w g.state in
        some (record { body = returned; state = s }, return_prev (final_suspend s.promise))
    | v ∷ vs ↦
        let (p, a) = yield_value v g.state.promise in
        some (record { body = yields vs w; state = record g.state { promise = p } }, return_prev a)
  ]
]

-- A caller awaits the coroutine: what runs next when that suspends, and what the caller gets.
unfoldable pub await_next :
    {T : Type 0} → ℕ → ℕ → Generator T → Option (Generator T × (Next × Got T))
unfolding await_task run_body get_value
await_next self caller g =
    let p = (await_task self caller g.state.promise).0 in
    elim (run_body (record g { state = record g.state { promise = p } })) [
      | none ↦ none
      | some (g', after) ↦ some (g', (after, get_value g'.state.promise))
    ]

-- Callers await the coroutine one after the other: what each of them gets.
unfoldable pub await_all :
    {T : Type 0} → ℕ → List ℕ → Generator T → Option (Generator T × List (Next × Got T))
await_all self [] g = some (g, [])
await_all self (caller ∷ callers) g = elim (await_next self caller g) [
  | none ↦ none
  | some (g', got) ↦ elim (await_all self callers g') [
    | none ↦ none
    | some (g'', rest) ↦ some (g'', got ∷ rest)
  ]
]

-- Each caller is resumed with its value.
abbrev pub served : {T : Type 0} → List (ℕ × T) → List (Next × Got T)
served [] = []
served ((caller, v) ∷ l) = (transfers caller, gives (some v)) ∷ served l

-- The callers, and the values.
abbrev pub callers_of : {T : Type 0} → List (ℕ × T) → List ℕ
callers_of [] = []
callers_of ((caller, v) ∷ l) = caller ∷ callers_of l

abbrev pub values_of : {T : Type 0} → List (ℕ × T) → List T
values_of [] = []
values_of ((caller, v) ∷ l) = v ∷ values_of l

pub record IsAttached {T : Type 0} (s : Yielding T) : Type 0 where
  pub attached : s.promise.detached ≡ false
  pub calm : s.promise.return_exception ≡ none

-- The caller is resumed, and gets the value.
resumed_with :
    {T : Type 0} (p : Promise T) (ended : Bool) (caller : ℕ) (v : T)
    → p.detached ≡ false
    → p.return_exception ≡ none
    → (return_prev (record { ended = ended; detached = p.detached; prev_coro = some caller })
        ≡ transfers caller)
      × (get_value (record p { return_value = some v }) ≡ gives (some v))
unfolding return_prev get_value
resumed_with p ended caller v attached calm = (ground arith, ground arith)

-- Of a coroutine that is not detached and has no exception stored, each caller that awaits it is
-- resumed with its own value: the i-th one with the i-th value that the body yields, and the last one
-- with the value that it returns; and then it has ended.
pub await_all-served :
    {T : Type 0} (self : ℕ) (l : List (ℕ × T)) (last : ℕ) (w : T) (s : Yielding T)
    → IsAttached s
    → (g : Generator T) × (await_all self
          (callers_of l ++ (last ∷ []))
          (record { body = yields (values_of l) w; state = s })
        ≡ some (g, served (l ++ ((last, w) ∷ []))))
      × (g.body ≡ returned)
      × (g.state.ended ≡ true)
unfolding await_all await_next await_task run_body yield_value final_suspend return_last set_value
await_all-served {T} self [] last w s a =
    let p : Promise T = record s.promise { prev_coro = some last } in
    let (resumes, gets) = resumed_with p true last w a.attached a.calm in
    (
      record { body = returned; state = return_last w (record s { promise = p }) },
      λ i. some (
        record { body = returned; state = return_last w (record s { promise = p }) },
        (resumes i, gets i) ∷ [],
      ),
      refl,
      refl,
    )
await_all-served {T} self ((caller, v) ∷ l) last w s a =
    let p : Promise T = record s.promise { prev_coro = some caller } in
    let (resumes, gets) = resumed_with p false caller v a.attached a.calm in
    let s' : Yielding T = record s { promise = record p { return_value = some v } } in
    let (g, rest, body, ended) =
      await_all-served self l last w s' (record { attached = a.attached; calm = a.calm }) in
    (g, rw rest (λ i. some (g, (resumes i, gets i) ∷ served (l ++ ((last, w) ∷ [])))), body, ended)
