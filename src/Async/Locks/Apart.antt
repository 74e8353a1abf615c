-- ===== src/Async/Locks/Apart.antt =====
-- No two threads of include/async/Loop.hpp hold a mutex in ways that exclude each other.
use coro_iomultiplex.Prelude.{
  ◌≡◌, refl, sym, subst, All, List, [], ◌∷◌, ◌++◌, Bool, true, Option, none, some, arith,
}
use coro_iomultiplex.Async.Locks.{
  Lock, Hold, Place, held_by, holds, Move, same_lock, compatible, goes_with, all_go_with, lets,
  IsAllowed, Step, turn, Reach, start, then_step,
}

-- What two threads hold goes together.
abbrev pub GoWith : Place → Place → Type 0
GoWith p q = all_go_with (holds p) (holds q) ≡ true

-- What any two of the threads hold goes together.
unfoldable pub AreApart : List Place → Type 0
AreApart [] = Unit
AreApart (p ∷ ts) = All (GoWith p) ts × AreApart ts

same_lock_comm : (a b : Lock) → same_lock a b ≡ same_lock b a
unfolding same_lock
same_lock_comm a b = ground arith

compatible_comm : (h k : Hold) → compatible h k ≡ compatible k h
unfolding compatible
compatible_comm h k = ground (arith, same_lock_comm h.lock k.lock)

all_go_with-cons :
    (hs : List Hold) (k : Hold) (ks : List Hold)
    → goes_with k hs ≡ true
    → all_go_with hs ks ≡ true
    → all_go_with hs (k ∷ ks) ≡ true
unfolding all_go_with goes_with
all_go_with-cons [] k ks g a = refl
all_go_with-cons (h ∷ hs) k ks g a = ground (arith, compatible_comm h k, all_go_with-cons hs k ks)

all_go_with-nil : (ks : List Hold) → all_go_with ks [] ≡ true
unfolding all_go_with goes_with
all_go_with-nil [] = refl
all_go_with-nil (k ∷ ks) = ground (arith, all_go_with-nil ks)

all_go_with-sym : (hs ks : List Hold) → all_go_with hs ks ≡ true → all_go_with ks hs ≡ true
unfolding all_go_with
all_go_with-sym [] ks h = all_go_with-nil ks
all_go_with-sym (x ∷ hs) ks h = ground (arith, all_go_with-cons ks x hs, all_go_with-sym hs ks)

-- The lock that a move takes, if it takes one, can be taken beside the thread.
abbrev pub LetsTake : Bool → Option Hold → Place → Type 0
LetsTake prefers none q = Unit
LetsTake prefers (some h) q = lets prefers h q ≡ true

allowed-LetsTake :
    (prefers : Bool) (ts : List Place) (need : Option Hold)
    → IsAllowed prefers ts need
    → All (LetsTake prefers need) ts
allowed-LetsTake prefers [] need h = tt
allowed-LetsTake prefers (q ∷ ts) none h = (tt, allowed-LetsTake prefers ts none tt)
allowed-LetsTake prefers (q ∷ ts) (some k) h = (h.0, allowed-LetsTake prefers ts (some k) h.1)

-- A move keeps the thread apart from another.
Move-GoWith :
    (prefers : Bool) (q : Place) {p : Place} {need : Option Hold} {p' : Place}
    → Move p need p'
    → LetsTake prefers need q
    → GoWith p q
    → GoWith p' q
unfolding holds held_by all_go_with lets
Move-GoWith prefers q Move.calls_add l g = ground arith
Move-GoWith prefers q Move.calls_enter l g = ground arith
Move-GoWith prefers q Move.launch_takes_clean l g = ground arith
Move-GoWith prefers q Move.launch_takes_binding l g = ground arith
Move-GoWith prefers q Move.launch_takes_counter l g = ground arith
Move-GoWith prefers q Move.launch_takes_list l g = ground arith
Move-GoWith prefers q Move.launch_gives_list l g = ground arith
Move-GoWith prefers q Move.launch_gives_counter l g = ground arith
Move-GoWith prefers q Move.launch_gives_binding l g = ground arith
Move-GoWith prefers q (Move.launch_gives_clean r) l g = ground arith
Move-GoWith prefers q (Move.latch_opens r) l g = ground arith
Move-GoWith prefers q (Move.add_takes_clean c) l g = ground arith
Move-GoWith prefers q (Move.add_takes_binding c) l g = ground arith
Move-GoWith prefers q (Move.add_finds c) l g = ground arith
Move-GoWith prefers q (Move.add_misses c) l g = ground arith
Move-GoWith prefers q (Move.add_takes_counter c) l g = ground arith
Move-GoWith prefers q (Move.add_gives_counter c) l g = ground arith
Move-GoWith prefers q (Move.add_gives_binding c r) l g = ground arith
Move-GoWith prefers q (Move.add_takes_queue c r) l g = ground arith
Move-GoWith prefers q (Move.add_gives_queue c r) l g = ground arith
Move-GoWith prefers q Move.add_returns_outside l g = ground arith
Move-GoWith prefers q (Move.add_returns r) l g = ground arith
Move-GoWith prefers q (Move.run_takes_clean r) l g = ground arith
Move-GoWith prefers q (Move.run_takes_queue r) l g = ground arith
Move-GoWith prefers q (Move.run_finds r) l g = ground arith
Move-GoWith prefers q (Move.run_gives_clean r) l g = ground arith
Move-GoWith prefers q (Move.run_waits r) l g = ground arith
Move-GoWith prefers q (Move.run_notified r) l g = ground arith
Move-GoWith prefers q (Move.run_retakes_queue r) l g = ground arith
Move-GoWith prefers q (Move.run_waits_again r) l g = ground arith
Move-GoWith prefers q (Move.run_tries r) l g = ground arith
Move-GoWith prefers q (Move.run_gives_up r) l g = ground arith
Move-GoWith prefers q (Move.run_resumes r) l g = ground arith
Move-GoWith prefers q (Move.task_adds r) l g = ground arith
Move-GoWith prefers q (Move.task_suspends r) l g = ground arith
Move-GoWith prefers q Move.clean_takes l g = ground arith
Move-GoWith prefers q Move.clean_has_few l g = ground arith
Move-GoWith prefers q Move.clean_has_none l g = ground arith
Move-GoWith prefers q (Move.clean_begins r) l g = ground arith
Move-GoWith prefers q (Move.clean_takes_queue r) l g = ground arith
Move-GoWith prefers q (Move.clean_continues r s) l g = ground arith
Move-GoWith prefers q (Move.clean_finishes r) l g = ground arith
Move-GoWith prefers q Move.clean_gives l g = ground arith
Move-GoWith prefers q Move.clean_wakes l g = ground arith

pub GoWith-sym : (p q : Place) → GoWith p q → GoWith q p
GoWith-sym p q h = all_go_with-sym (holds p) (holds q) h

-- A thread that is replaced stays apart from those behind it.
All-GoWith :
    (prefers : Bool) {p : Place} {need : Option Hold} {p' : Place} (ts : List Place)
    → Move p need p'
    → All (LetsTake prefers need) ts
    → All (GoWith p) ts
    → All (GoWith p') ts
All-GoWith prefers [] m l g = tt
All-GoWith prefers (q ∷ ts) m l g =
    (Move-GoWith prefers q m l.0 g.0, All-GoWith prefers ts m l.1 g.1)

-- A thread that is replaced stays apart from one before it.
All-replace :
    (prefers : Bool) (q : Place) (before : List Place) (p : Place) (need : Option Hold) (p' : Place)
    (after : List Place)
    → Move p need p'
    → LetsTake prefers need q
    → All (GoWith q) (before ++ (p ∷ after))
    → All (GoWith q) (before ++ (p' ∷ after))
All-replace prefers q [] p need p' after m l g =
    (GoWith-sym p' q (Move-GoWith prefers q m l (GoWith-sym q p g.0)), g.1)
All-replace prefers q (r ∷ before) p need p' after m l g =
    (g.0, All-replace prefers q before p need p' after m l g.1)

AreApart-Move :
    (prefers : Bool) (before : List Place) (p : Place) (need : Option Hold) (p' : Place)
    (after : List Place)
    → Move p need p'
    → All (LetsTake prefers need) (before ++ (p ∷ after))
    → AreApart (before ++ (p ∷ after))
    → AreApart (before ++ (p' ∷ after))
unfolding AreApart
AreApart-Move prefers [] p need p' after m l (g, apart) = (All-GoWith prefers after m l.1 g, apart)
AreApart-Move prefers (q ∷ before) p need p' after m l (g, apart) = (
  All-replace prefers q before p need p' after m l.0 g,
  AreApart-Move prefers before p need p' after m l.1 apart,
)

Step-AreApart :
    (prefers : Bool) (ts ts' : List Place) → AreApart ts → Step prefers ts ts' → AreApart ts'
Step-AreApart prefers ts ts' apart (turn before after p p' need at at' m allowed) =
    subst AreApart (sym at') (
      AreApart-Move prefers before p need p' after m
        (subst (All (LetsTake prefers need)) at (allowed-LetsTake prefers ts need allowed))
        (subst AreApart at apart))

pub Reach-AreApart :
    (prefers : Bool) (ts : List Place) {us : List Place}
    → AreApart ts
    → Reach prefers ts us
    → AreApart us
Reach-AreApart prefers ts apart start = apart
Reach-AreApart prefers ts apart (then_step {us} {vs} r s) =
    Step-AreApart prefers us vs (Reach-AreApart prefers ts apart r) s
