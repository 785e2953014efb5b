-- ===== src/Cancellation/Releases.antt =====
-- `thread_func1` of thread_fifo_server1.c, wherever it is cancelled.
use linux_learning_by_doing.Prelude.{
  ℕ, ◌+◌, ◌<◌, ◌≡◌, ◌↔◌, ◌*◌, Bool, true, false, [], ◌∷◌, if◌then◌else◌, arith,
}
use linux_learning_by_doing.Cancellation.{
  cleanup1, cleanup2, Thread, fresh, Outcome, cancelled, passed, run, thread_func1,
}

abbrev pub thread_of : Outcome → Thread
thread_of (cancelled t) = t
thread_of (passed k t) = t

abbrev pub is_cancelled : Outcome → Bool
is_cancelled (cancelled t) = true
is_cancelled (passed k t) = false

abbrev pub number : Bool → ℕ
number true = 1
number false = 0

-- Wherever `thread_func1` is cancelled, or if it is not: it ends without the mutex and with no handler
-- left; if it was cancelled, both handlers have been run, the last one first, and otherwise neither. It
-- has unlocked the mutex without having locked it exactly when `printf` can be cancelled and the
-- request takes effect in one of those before the lock. There are at most four points.
pub thread_func1_releases :
    (p sched : Bool) (k : ℕ)
    → let r = run p k (thread_func1 sched) fresh in
      ((thread_of r).holds ≡ false)
      × ((thread_of r).handlers ≡ [])
      × ((thread_of r).ran ≡ (if is_cancelled r then cleanup2 ∷ cleanup1 ∷ [] else []))
      × (((thread_of r).misused ≡ true) ↔ ((p ≡ true) × (k < 1 + number sched)))
      × ((is_cancelled r ≡ true) ↔ (k < 1 + number p * (2 + number sched)))
unfolding run thread_func1
thread_func1_releases true true k = ground arith
thread_func1_releases true false k = ground arith
thread_func1_releases false true k = ground arith
thread_func1_releases false false k = ground arith
