-- ===== src/Async/Locks/Exclusion.antt =====
-- What the other threads of include/async/Loop.hpp do while its cleaner works.
use coro_iomultiplex.Prelude.{◌≡◌, refl, All, List, [], ◌∷◌, ◌++◌, Bool, true, false, arith}
use coro_iomultiplex.Async.Locks.{
  clean_work, Place, outside, launch_start, launch_binding, launch_counter, launch_list,
  launch_emplace, launch_listed, launch_counted, launch_bound, launched, add_start, add_binding,
  add_find, add_counter, add_next, add_bound, add_queue, add_push, add_notify, run_start, run_queue,
  run_look, run_empty, run_asleep, run_woken, run_try, run_take, running, clean_start, clean_look,
  clean_end, clean_asleep, clean_queue, clean_erase, owned, holds, same_lock, compatible, goes_with,
  all_go_with, Reach,
}
use coro_iomultiplex.Async.Locks.Apart.{GoWith, GoWith-sym, AreApart, Reach-AreApart}

-- A thread of the pool that runs a task or takes one from its queue, or a thread in addTask that
-- has to do with the bindings or a queue.
unfoldable pub is_working : Place → Bool
is_working (running q) = true
is_working (run_take q) = true
is_working (run_look q) = true
is_working (add_find c) = true
is_working (add_counter c) = true
is_working (add_next c) = true
is_working (add_bound c) = true
is_working (add_queue c q) = true
is_working (add_push c q) = true
is_working _ = false

-- The cleaner is between taking cleanWorkMutex and giving it back.
unfoldable pub is_cleaning : Place → Bool
is_cleaning clean_look = true
is_cleaning (clean_queue q) = true
is_cleaning (clean_erase q) = true
is_cleaning clean_end = true
is_cleaning _ = false

cleaning-goes_with :
    (p q : Place)
    → is_cleaning p ≡ true
    → GoWith p q
    → goes_with (owned clean_work) (holds q) ≡ true
unfolding is_cleaning holds all_go_with
cleaning-goes_with clean_look q c g = ground arith
cleaning-goes_with clean_end q c g = ground arith
cleaning-goes_with (clean_queue r) q c g = ground arith
cleaning-goes_with (clean_erase r) q c g = ground arith
cleaning-goes_with outside q c g = absurd (ground arith)
cleaning-goes_with launch_start q c g = absurd (ground arith)
cleaning-goes_with launch_binding q c g = absurd (ground arith)
cleaning-goes_with launch_counter q c g = absurd (ground arith)
cleaning-goes_with launch_list q c g = absurd (ground arith)
cleaning-goes_with launch_emplace q c g = absurd (ground arith)
cleaning-goes_with launch_listed q c g = absurd (ground arith)
cleaning-goes_with launch_counted q c g = absurd (ground arith)
cleaning-goes_with launch_bound q c g = absurd (ground arith)
cleaning-goes_with (launched r) q c g = absurd (ground arith)
cleaning-goes_with (add_start d) q c g = absurd (ground arith)
cleaning-goes_with (add_binding d) q c g = absurd (ground arith)
cleaning-goes_with (add_find d) q c g = absurd (ground arith)
cleaning-goes_with (add_counter d) q c g = absurd (ground arith)
cleaning-goes_with (add_next d) q c g = absurd (ground arith)
cleaning-goes_with (add_bound d) q c g = absurd (ground arith)
cleaning-goes_with (add_queue d r) q c g = absurd (ground arith)
cleaning-goes_with (add_push d r) q c g = absurd (ground arith)
cleaning-goes_with (add_notify d) q c g = absurd (ground arith)
cleaning-goes_with (run_start r) q c g = absurd (ground arith)
cleaning-goes_with (run_queue r) q c g = absurd (ground arith)
cleaning-goes_with (run_look r) q c g = absurd (ground arith)
cleaning-goes_with (run_empty r) q c g = absurd (ground arith)
cleaning-goes_with (run_asleep r) q c g = absurd (ground arith)
cleaning-goes_with (run_woken r) q c g = absurd (ground arith)
cleaning-goes_with (run_try r) q c g = absurd (ground arith)
cleaning-goes_with (run_take r) q c g = absurd (ground arith)
cleaning-goes_with (running r) q c g = absurd (ground arith)
cleaning-goes_with clean_start q c g = absurd (ground arith)
cleaning-goes_with clean_asleep q c g = absurd (ground arith)

rests-goes_with : (q : Place) → goes_with (owned clean_work) (holds q) ≡ true → is_working q ≡ false
unfolding is_working holds goes_with compatible same_lock
rests-goes_with outside g = ground arith
rests-goes_with launch_start g = ground arith
rests-goes_with launch_binding g = ground arith
rests-goes_with launch_counter g = ground arith
rests-goes_with launch_list g = ground arith
rests-goes_with launch_emplace g = ground arith
rests-goes_with launch_listed g = ground arith
rests-goes_with launch_counted g = ground arith
rests-goes_with launch_bound g = ground arith
rests-goes_with (launched q) g = ground arith
rests-goes_with (add_start c) g = ground arith
rests-goes_with (add_binding c) g = ground arith
rests-goes_with (add_find c) g = ground arith
rests-goes_with (add_counter c) g = ground arith
rests-goes_with (add_next c) g = ground arith
rests-goes_with (add_bound c) g = ground arith
rests-goes_with (add_queue c q) g = ground arith
rests-goes_with (add_push c q) g = ground arith
rests-goes_with (add_notify c) g = ground arith
rests-goes_with (run_start q) g = ground arith
rests-goes_with (run_queue q) g = ground arith
rests-goes_with (run_look q) g = ground arith
rests-goes_with (run_empty q) g = ground arith
rests-goes_with (run_asleep q) g = ground arith
rests-goes_with (run_woken q) g = ground arith
rests-goes_with (run_try q) g = ground arith
rests-goes_with (run_take q) g = ground arith
rests-goes_with (running q) g = ground arith
rests-goes_with clean_start g = ground arith
rests-goes_with clean_asleep g = ground arith
rests-goes_with clean_look g = ground arith
rests-goes_with clean_end g = ground arith
rests-goes_with (clean_queue q) g = ground arith
rests-goes_with (clean_erase q) g = ground arith

pub All-at :
    (P : Place → Type 0) (before : List Place) (p : Place) (after : List Place)
    → All P (before ++ (p ∷ after))
    → P p
All-at P [] p after h = h.0
All-at P (q ∷ before) p after h = All-at P before p after h.1

-- The thread is not at work.
abbrev pub Rests : Place → Type 0
Rests q = is_working q ≡ false

-- The thread holds no lock.
abbrev pub HoldsNothing : Place → Type 0
HoldsNothing p = holds p ≡ []

All-nothing : (p : Place) (ts : List Place) → HoldsNothing p → All (GoWith p) ts
unfolding all_go_with
All-nothing p [] h = tt
All-nothing p (q ∷ ts) h = (rw h refl, All-nothing p ts h)

nothing-AreApart : (ts : List Place) → All HoldsNothing ts → AreApart ts
unfolding AreApart
nothing-AreApart [] h = tt
nothing-AreApart (p ∷ ts) h = (All-nothing p ts h.0, nothing-AreApart ts h.1)

All-Rests : (p : Place) (ts : List Place) → is_cleaning p ≡ true → All (GoWith p) ts → All Rests ts
All-Rests p [] c g = tt
All-Rests p (q ∷ ts) c g = (rests-goes_with q (cleaning-goes_with p q c g.0), All-Rests p ts c g.1)

AreApart-alone :
    (before : List Place) (p : Place) (after : List Place)
    → is_cleaning p ≡ true
    → AreApart (before ++ (p ∷ after))
    → All Rests (before ++ after)
unfolding AreApart
AreApart-alone [] p after c (g, apart) = All-Rests p after c g
AreApart-alone (q ∷ before) p after c (g, apart) = (
  rests-goes_with q
      (cleaning-goes_with p q c (GoWith-sym q p (All-at (GoWith q) before p after g))),
  AreApart-alone before p after c apart,
)

-- From threads that hold nothing on, however they move: no two threads hold one mutex unless both
-- share it; and while the cleaner is between taking cleanWorkMutex and giving it back, no other
-- thread runs a task, takes one from a queue, or looks into the bindings or a queue in addTask.
pub Reach-alone :
    (prefers : Bool) (ts before : List Place) (p : Place) (after : List Place)
    → All HoldsNothing ts
    → Reach prefers ts (before ++ (p ∷ after))
    → AreApart (before ++ (p ∷ after)) × (is_cleaning p ≡ true → All Rests (before ++ after))
Reach-alone prefers ts before p after nothing reach =
    let apart = Reach-AreApart prefers ts (nothing-AreApart ts nothing) reach in
    (apart, λ c. AreApart-alone before p after c apart)
