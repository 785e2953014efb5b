-- ===== src/Startup/Buffers.antt =====
-- The `main` of prodcons_threads.c, prodcons_threads1.c, prodcons_threads2.c, prodcons_threads3.c and
-- thread_mutex_cond.c.
pub mod Outcome
use linux_learning_by_doing.Prelude.{
  ℕ, zero, suc, ◌==◌, Bool, true, false, not, ◌&&◌, ◌||◌, Option, none, some, List, [], ◌∷◌,
  if◌then◌else◌, is_some,
}
use linux_learning_by_doing.Startup.{
  Signals, sigint, sigterm, sigemptyset, sigfillset, sigaddset, Process, Run, fresh, ◌>>◌, block,
  create, join, exit, exited, going, waiting,
}

pub data BufferThread : Type 0 where
  display user consumer producer : BufferThread

-- The answers of the four `pthread_create`
pub record Created : Type 0 where
  pub thid4 : ℕ
  pub thid1 : ℕ
  pub thid2 : ℕ
  pub thid3 : ℕ

-- prodcons_threads.c
pub main_prodcons : (BufferThread → Bool) → Created → Run BufferThread
main_prodcons ends a =
    (block sigfillset
        >> create 4 BufferThread.display a.thid4 4
        >> create 1 BufferThread.user a.thid1 1
        >> create 2 BufferThread.consumer a.thid2 2
        >> create 3 BufferThread.producer a.thid3 3
        >> join ends 1
        >> join ends 2
        >> join ends 3
        >> join ends 4
        >> exit 0)
      fresh

-- A `pthread_attr_t`: whether `pthread_attr_init` has set it, and whether it carries the stack of 32 KB.
pub record Attr : Type 0 where
  pub set : Bool
  pub stack : Bool

-- prodcons_threads1.c from `malloc` to the end of the `if`: the pointer, and the answers of
-- `pthread_attr_init` and `pthread_attr_setstack`. A failure is printed and no more.
pub malloc_attr : Option ℕ → ℕ → ℕ → Attr
malloc_attr ptr init setstack =
    if is_some ptr
    then record { set = init == 0; stack = setstack == 0 }
    else record { set = false; stack = false }

-- The same of prodcons_threads2.c: `mmap` answers `MAP_FAILED` and not NULL when it fails, so the test
-- is always true.
pub mmap_attr : Option ℕ → ℕ → ℕ → Attr
mmap_attr ptr init setstack = record { set = init == 0; stack = setstack == 0 }

-- The attribute object that `display_status_thread` is created with, and the rest of the `main` of
-- prodcons_threads1.c.
pub main_prodcons1 : (BufferThread → Bool) → Option ℕ → ℕ → ℕ → Created → Attr × Run BufferThread
unfolding malloc_attr
main_prodcons1 ends ptr init setstack a = (
  malloc_attr ptr init setstack,
  (block sigfillset
        >> create 4 BufferThread.display a.thid4 4
        >> create 1 BufferThread.user a.thid1 1
        >> create 2 BufferThread.consumer a.thid2 2
        >> create 3 BufferThread.producer a.thid3 3
        >> join ends 1
        >> join ends 2
        >> join ends 3
        >> join ends 4
        >> exit 0)
      fresh,
)

pub main_prodcons2 : (BufferThread → Bool) → Option ℕ → ℕ → ℕ → Created → Attr × Run BufferThread
unfolding mmap_attr
main_prodcons2 ends ptr init setstack a = (
  mmap_attr ptr init setstack,
  (block sigfillset
        >> create 4 BufferThread.display a.thid4 4
        >> create 1 BufferThread.user a.thid1 1
        >> create 2 BufferThread.consumer a.thid2 2
        >> create 3 BufferThread.producer a.thid3 3
        >> join ends 1
        >> join ends 2
        >> join ends 3
        >> join ends 4
        >> exit 0)
      fresh,
)

-- `display_status_thread` before its loop: the mask that it was created with, less the signals that
-- `pthread_sigmask` unblocks; SIGINT alone in prodcons_threads.c, SIGTERM too in 1 and 2.
pub unblock : Signals → Signals → Signals
unblock set blocked s = blocked s && not (set s)

pub display_mask : Signals → Signals
unfolding unblock
display_mask = unblock (sigaddset sigemptyset sigint)

pub display_mask1 : Signals → Signals
unfolding unblock
display_mask1 = unblock (sigaddset (sigaddset sigemptyset sigint) sigterm)

-- prodcons_threads3.c, whose creations and joins are comments, up to its `pause()`: with every signal
-- blocked only one that cannot be blocked ends that.
pub main_prodcons3 : Run BufferThread
main_prodcons3 = block sigfillset fresh

pub data QueueThread : Type 0 where
  thread_func1 thread_func2 : QueueThread

-- thread_mutex_cond.c: the answers of its two `pthread_create`.
pub main_mutex_cond : (QueueThread → Bool) → ℕ → ℕ → Run QueueThread
main_mutex_cond ends th_id1 th_id2 =
    (create 1 QueueThread.thread_func1 th_id1 1
        >> create 2 QueueThread.thread_func2 th_id2 1
        >> join ends 1
        >> join ends 2
        >> exit 0)
      fresh
