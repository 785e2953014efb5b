-- ===== src/Startup/Signals.antt =====
-- thread_fifo_server2.c, sigwait1.c, thread_sig_handler.c and sigwait2.c: which thread takes which signal.
pub mod Outcome
pub mod Sigwait
pub mod Waits
pub mod Delivery
pub mod Handling
pub mod Handled
mod Tests
use linux_learning_by_doing.Prelude.{
  ℕ, zero, suc, ◌+◌, ◌==◌, Bool, true, false, not, ◌&&◌, Option, none, some, List, [], ◌∷◌,
  if◌then◌else◌,
}
use linux_learning_by_doing.Startup.{
  Signals, sigint, sigpipe, sigterm, sigemptyset, sigfillset, sigaddset, sigdelset, maskable,
  Process, Run, fresh, ◌>>◌, set_mask, create, join, exit, exited, going, waiting,
}
use linux_learning_by_doing.Startup.Servers.{FifoThread}

-- `main` of thread_fifo_server2.c and of sigwait1.c, with the answers of its four `pthread_create`. The third
-- reuses the id variable of the second.
pub main_server2 : (FifoThread → Bool) → (th1 th2 th3 th4 : ℕ) → Run FifoThread
main_server2 ends th1 th2 th3 th4 =
    (set_mask (sigdelset (sigdelset sigfillset sigint) sigterm)
        >> create 0 FifoThread.thread_func1 th1 1
        >> create 1 FifoThread.thread_func3 th2 1
        >> create 1 (FifoThread.fifo 1) th3 1
        >> create 2 (FifoThread.fifo 2) th4 1
        >> join ends 0
        >> join ends 1
        >> join ends 2
        >> exit 0)
      fresh

-- The set that `thread_func3` of sigwait1.c passes to `sigwait`.
abbrev pub sigwait_set : Signals
sigwait_set = sigaddset (sigaddset sigemptyset sigint) sigterm

-- `main` of thread_sig_handler.c, and the mask that its `thread_func3` sets.
pub main_sig_handler : (FifoThread → Bool) → (th1 th2 th3 th4 : ℕ) → Run FifoThread
main_sig_handler ends th1 th2 th3 th4 =
    (set_mask sigfillset
        >> create 0 FifoThread.thread_func1 th1 1
        >> create 1 FifoThread.thread_func3 th2 1
        >> create 1 (FifoThread.fifo 1) th3 1
        >> create 2 (FifoThread.fifo 2) th4 1
        >> join ends 0
        >> join ends 1
        >> join ends 2
        >> exit 0)
      fresh

pub handler_mask : Signals
handler_mask = maskable (sigdelset sigfillset sigint)

-- The threads of sigwait2.c
pub data SigwaitThread : Type 0 where
  thread_fun1 thread_fun2 thread_fun3 : SigwaitThread
  thread : ℕ → SigwaitThread

-- The set that each of them passes to `sigwait`; `thread` does not call it.
pub waits_on : SigwaitThread → Signals
waits_on SigwaitThread.thread_fun1 = sigaddset sigemptyset sigint
waits_on SigwaitThread.thread_fun2 = sigaddset sigemptyset sigterm
waits_on SigwaitThread.thread_fun3 = sigaddset sigemptyset sigpipe
waits_on (SigwaitThread.thread i) = sigemptyset

-- `for (i = 3; i < 10; i++)` with the creations, and `for (i = 0; i < 10; i++)` with the joins.
pub create_from : ℕ → ℕ → (ℕ → ℕ) → Process SigwaitThread → Run SigwaitThread
create_from zero i answer p = going p
create_from (suc n) i answer p =
    (create i (SigwaitThread.thread i) (answer i) 1 >> create_from n (i + 1) answer) p

pub join_from : ℕ → ℕ → (SigwaitThread → Bool) → Process SigwaitThread → Run SigwaitThread
join_from zero i ends p = going p
join_from (suc n) i ends p = (join ends i >> join_from n (i + 1) ends) p

-- `main` of sigwait2.c up to its last loop, `while(1);`, which `going` stands for.
pub main_sigwait2 : (SigwaitThread → Bool) → (ℕ → ℕ) → Run SigwaitThread
unfolding create_from join_from
main_sigwait2 ends answer =
    (set_mask sigfillset
        >> create 0 SigwaitThread.thread_fun1 (answer 0) 1
        >> create 1 SigwaitThread.thread_fun2 (answer 1) 1
        >> create 2 SigwaitThread.thread_fun3 (answer 2) 1
        >> create_from 7 3 answer
        >> join_from 10 0 ends)
      fresh
