-- ===== src/BufferPool/Scans.antt =====
-- Threads that call getBuffer and returnBuffer of include/utils/BufferPool.hpp at once: each
-- test_and_set and each clear is a step of its own.
use coro_iomultiplex.Prelude.{
  ℕ, suc, ◌<◌, ◌≤◌, ◌≡◌, ◌≢◌, ◌==◌, Bool-cases, inl, inr, Bool, true, false, if◌then◌else◌, arith,
}

-- Where a thread stands: it has no buffer, it comes to the flag with a number, it has a buffer, or
-- getBuffer has thrown bufferRunOut.
pub data Place : Type 0 where
  outside ran_out : Place
  scans has_buffer : ℕ → Place

-- The place of each thread, and the flags.
pub record Scene : Type 0 where
  pub place : ℕ → Place
  pub used : ℕ → Bool

unfoldable pub stand : ℕ → Place → Scene → Scene
stand t p w = record w { place = λ u. if u == t then p else w.place u }

unfoldable pub flag : ℕ → Bool → Scene → Scene
flag i b w = record w { used = λ j. if j == i then b else w.used j }

-- A step of one thread, for a number of buffers.
pub data Step (n : ℕ) (w : Scene) : Scene → Type 0 where
  begins : (t : ℕ) → w.place t ≡ outside → Step n w (stand t (scans 0) w)
  takes :
      (t i : ℕ)
      → w.place t ≡ scans i
      → i < n
      → w.used i ≡ false
      → Step n w (stand t (has_buffer i) (flag i true w))
  passes :
      (t i : ℕ)
      → w.place t ≡ scans i
      → i < n
      → w.used i ≡ true
      → Step n w (stand t (scans (suc i)) w)
  runs_out : (t i : ℕ) → w.place t ≡ scans i → n ≤ i → Step n w (stand t ran_out w)
  goes_on : (t : ℕ) → w.place t ≡ ran_out → Step n w (stand t outside w)
  returns : (t i : ℕ) → w.place t ≡ has_buffer i → Step n w (stand t outside (flag i false w))

-- Any number of steps.
pub data Reach (n : ℕ) (w : Scene) : Scene → Type 0 where
  here : Reach n w w
  next : {u v : Scene} → Reach n w u → Step n u v → Reach n w v

-- All threads outside, and all flags clear.
abbrev pub at_rest : Scene
at_rest = record { place = λ t. outside; used = λ i. false }

-- The flag of a buffer that a thread has is set, the buffer is one of the pool, and no other thread
-- has it; and a flag that is set is that of such a buffer.
pub record IsExclusive (n : ℕ) (w : Scene) : Type 0 where
  pub flagged : (t i : ℕ) → w.place t ≡ has_buffer i → w.used i ≡ true
  pub in_pool : (t i : ℕ) → w.place t ≡ has_buffer i → i < n
  pub alone : (t u i : ℕ) → w.place t ≡ has_buffer i → w.place u ≡ has_buffer i → t ≡ u
  pub owned : (i : ℕ) → w.used i ≡ true → (t : ℕ) × (w.place t ≡ has_buffer i)

-- A thread without a buffer goes to another place without one.
stand-IsExclusive :
    (n : ℕ) (w : Scene) (t : ℕ) (p : Place)
    → IsExclusive n w
    → ((i : ℕ) → w.place t ≢ has_buffer i)
    → ((i : ℕ) → p ≢ has_buffer i)
    → IsExclusive n (stand t p w)
unfolding stand
stand-IsExclusive n w t p k without empty = record {
  flagged = λ u i h. ground (arith, k.flagged u i, empty i);
  in_pool = λ u i h. ground (arith, k.in_pool u i, empty i);
  alone = λ u v i h g. ground (arith, k.alone u v i, empty i);
  owned = λ i h. let (u, at) = k.owned i h in (u, ground (arith, at, without i));
}

takes-IsExclusive :
    (n : ℕ) (w : Scene) (t i : ℕ)
    → IsExclusive n w
    → w.place t ≡ scans i
    → i < n
    → w.used i ≡ false
    → IsExclusive n (stand t (has_buffer i) (flag i true w))
unfolding stand flag
takes-IsExclusive n w t i k at lt free = record {
  flagged = λ u j h. ground (arith, k.flagged u j);
  in_pool = λ u j h. ground (arith, k.in_pool u j);
  alone = λ u v j h g. ground (arith, k.alone u v j, k.flagged u j, k.flagged v j);
  owned = λ j h. elim (Bool-cases (j == i)) [
    | inl same ↦ (t, ground (arith, same))
    | inr other ↦
        let (u, at') = k.owned j (ground (arith, h, other)) in (u, ground (arith, at', at))
  ];
}

returns-IsExclusive :
    (n : ℕ) (w : Scene) (t i : ℕ)
    → IsExclusive n w
    → w.place t ≡ has_buffer i
    → IsExclusive n (stand t outside (flag i false w))
unfolding stand flag
returns-IsExclusive n w t i k at = record {
  flagged = λ u j h. ground (arith, k.flagged u j, k.alone t u j);
  in_pool = λ u j h. ground (arith, k.in_pool u j);
  alone = λ u v j h g. ground (arith, k.alone u v j);
  owned = λ j h. let (u, at') = k.owned j (ground (arith, h)) in (u, ground (arith, at', at, h));
}

Step-IsExclusive : (n : ℕ) (w : Scene) {v : Scene} → IsExclusive n w → Step n w v → IsExclusive n v
Step-IsExclusive n w k (begins t at) =
    stand-IsExclusive n w t (scans 0) k (λ i h. absurd (ground (arith, at, h)))
      (λ i h. absurd (ground (arith, h)))
Step-IsExclusive n w k (takes t i at lt free) = takes-IsExclusive n w t i k at lt free
Step-IsExclusive n w k (passes t i at lt set) =
    stand-IsExclusive n w t (scans (suc i)) k (λ j h. absurd (ground (arith, at, h)))
      (λ j h. absurd (ground (arith, h)))
Step-IsExclusive n w k (runs_out t i at le) =
    stand-IsExclusive n w t ran_out k (λ j h. absurd (ground (arith, at, h)))
      (λ j h. absurd (ground (arith, h)))
Step-IsExclusive n w k (goes_on t at) =
    stand-IsExclusive n w t outside k (λ j h. absurd (ground (arith, at, h)))
      (λ j h. absurd (ground (arith, h)))
Step-IsExclusive n w k (returns t i at) = returns-IsExclusive n w t i k at

at_rest-IsExclusive : (n : ℕ) → IsExclusive n at_rest
at_rest-IsExclusive n = record {
  flagged = λ t i h. absurd (ground (arith, h));
  in_pool = λ t i h. absurd (ground (arith, h));
  alone = λ t u i h g. absurd (ground (arith, h));
  owned = λ i h. absurd (ground (arith, h));
}

-- However the threads' calls of getBuffer and returnBuffer interleave, from all flags clear on: the
-- flag of a buffer is set exactly while some thread has it, that buffer is one of the pool, and no two
-- threads have one buffer; where a thread gives back only the buffer that it got.
pub Reach-IsExclusive : (n : ℕ) {w : Scene} → Reach n at_rest w → IsExclusive n w
Reach-IsExclusive n here = at_rest-IsExclusive n
Reach-IsExclusive n (next {u} r s) = Step-IsExclusive n u (Reach-IsExclusive n r) s
