-- ===== src/Prodcons/Variants/Display.antt =====
-- `display_status_thread` of the four programs, when it is cancelled.
use linux_learning_by_doing.Prelude.{
  ℕ, zero, suc, ◌-◌, ltb, ◌≡◌, Bool, true, false, ◌&&◌, List, [], ◌++◌, if◌then◌else◌, arith,
}
use linux_learning_by_doing.Cancellation.{Call, fresh, cancelled, passed, run}
use linux_learning_by_doing.Prodcons.Variants.{
  Variant, threads, threads1, threads2, threads3, display_round_of,
}

abbrev pub rounds : ℕ → List Call → List Call
rounds zero body = []
rounds (suc n) body = body ++ rounds n body

-- Whether a round has a point at which the thread can be cancelled
abbrev pub has_point : Bool → Variant → Bool
has_point p threads = true
has_point p threads1 = false
has_point p threads2 = p
has_point p threads3 = true

-- `n` rounds of `display_status_thread` in any of the four programs, with a request to cancel it that lets
-- `k` points pass: the request is acted on exactly if a round has such a point (not in
-- prodcons_threads1.c, and in prodcons_threads2.c only if `printf` is one) and `k` is less than `n`, and
-- the thread then ends with `data_buffer_lock`; otherwise it is after its rounds without the lock.
pub display_cancelled_with_lock :
    (v : Variant) (p : Bool) (n k : ℕ)
    → run p k (rounds n (display_round_of v)) fresh ≡ (
        if has_point p v && ltb k n
        then cancelled (record fresh { holds = true })
        else passed (if has_point p v then k - n else k) fresh)
unfolding run
display_cancelled_with_lock v p zero k = ground arith
display_cancelled_with_lock threads p (suc n) zero = ground arith
display_cancelled_with_lock threads p (suc n) (suc k) =
    ground (arith, display_cancelled_with_lock threads p n k)
display_cancelled_with_lock threads1 p (suc n) k =
    ground (arith, display_cancelled_with_lock threads1 p n k)
display_cancelled_with_lock threads2 true (suc n) zero = ground arith
display_cancelled_with_lock threads2 true (suc n) (suc k) =
    ground (arith, display_cancelled_with_lock threads2 true n k)
display_cancelled_with_lock threads2 false (suc n) k =
    ground (arith, display_cancelled_with_lock threads2 false n k)
display_cancelled_with_lock threads3 p (suc n) zero = ground arith
display_cancelled_with_lock threads3 p (suc n) (suc k) =
    ground (arith, display_cancelled_with_lock threads3 p n k)
