-- ===== src/Cancellation.antt =====
-- What happens to a thread of Examples/Threads that is cancelled: the calls it makes in turn, its stack of
-- cleanup handlers, and a mutex. thread_fifo_server1.c has `cleanup1`, `cleanup2` and `thread_func1`.
pub mod Releases
mod Tests
use linux_learning_by_doing.Prelude.{
  ℕ, zero, suc, Bool, true, false, not, ◌||◌, List, [], ◌∷◌, ◌++◌, if◌then◌else◌,
}

pub data Handler : Type 0 where
  cleanup1 cleanup2 : Handler

pub data Call : Type 0 where
  cleanup_push : Handler → Call
  cleanup_pop : Bool → Call  -- whether the handler is also run
  printf : Call
  getschedparam : Call
  lock : Call
  unlock : Call
  nanosleep : Call
  testcancel : Call

-- Whether the thread has the mutex, its handlers, the last one first, those that have been run, in order,
-- and whether the mutex has been unlocked by this thread without being locked by it.
pub record Thread : Type 0 where
  pub holds : Bool
  pub handlers : List Handler
  pub ran : List Handler
  pub misused : Bool

abbrev pub fresh : Thread
fresh = record { holds = false; handlers = []; ran = []; misused = false }

abbrev pub release : Thread → Thread
release t = record t { holds = false; misused = t.misused || not t.holds }

unfoldable pub run_handler : Handler → Thread → Thread
run_handler cleanup1 t = record t { ran = t.ran ++ (cleanup1 ∷ []) }
run_handler cleanup2 t = release (record t { ran = t.ran ++ (cleanup2 ∷ []) })

unfoldable pub pop : Bool → List Handler → Thread → Thread
unfolding run_handler
pop execute [] t = t
pop execute (h ∷ hs) t =
    let t' = record t { handlers = hs } in if execute then run_handler h t' else t'

unfoldable pub call : Call → Thread → Thread
unfolding pop
call (cleanup_push h) t = record t { handlers = h ∷ t.handlers }
call (cleanup_pop execute) t = pop execute t.handlers t
call lock t = record t { holds = true }
call unlock t = release t
call _ t = t

-- A thread that is cancelled runs its handlers, the last one first, and ends.
unfoldable pub unwind : List Handler → Thread → Thread
unfolding run_handler
unwind [] t = record t { handlers = [] }
unwind (h ∷ hs) t = unwind hs (run_handler h t)

-- Where a request to cancel the thread takes effect. POSIX leaves it to the system whether `printf` is
-- such a point.
abbrev pub is_point : Bool → Call → Bool
is_point printf_cancels printf = printf_cancels
is_point printf_cancels nanosleep = true
is_point printf_cancels testcancel = true
is_point printf_cancels _ = false

pub data Outcome : Type 0 where
  cancelled : Thread → Outcome
  passed : ℕ → Thread → Outcome

-- The calls in turn, cancelled at the point that `k` points come before, where there are so many;
-- otherwise with what is left of `k`.
unfoldable pub run : Bool → ℕ → List Call → Thread → Outcome
unfolding call unwind
run p k [] t = passed k t
run p k (c ∷ cs) t = elim (is_point p c) [
  | false ↦ run p k cs (call c t)
  | true ↦ elim k [ zero ↦ cancelled (unwind t.handlers t) | suc j ↦ run p j cs (call c t) ]
]

-- `thread_func1` of thread_fifo_server1.c, with whether `pthread_getschedparam` succeeds.
unfoldable pub thread_func1 : Bool → List Call
thread_func1 sched =
    cleanup_push cleanup1
    ∷ cleanup_push cleanup2
    ∷ printf
    ∷ getschedparam
    ∷ ((if sched then printf ∷ [] else [])
        ++ (lock ∷ nanosleep ∷ printf ∷ unlock ∷ cleanup_pop false ∷ cleanup_pop false ∷ []))
