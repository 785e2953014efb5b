-- ===== src/Startup/Signals/Outcome.antt =====
-- Which thread takes which signal, and which is joined.
use linux_learning_by_doing.Prelude.{
  ℕ, ◌≡◌, ◌≢◌, ◌↔◌, Bool, true, false, not, ◌&&◌, some, List, [], ◌∷◌, map, arith,
}
use linux_learning_by_doing.Startup.{Signals, sigint, sigkill, sigstop, status, process, waits_for}
use linux_learning_by_doing.Startup.Servers.{FifoThread}
use linux_learning_by_doing.Startup.Signals.{
  main_server2, sigwait_set, main_sig_handler, handler_mask,
}

abbrev pub has_func3 : List FifoThread → Bool
has_func3 [] = false
has_func3 (FifoThread.thread_func3 ∷ ts) = true
has_func3 (t ∷ ts) = has_func3 ts

-- thread_fifo_server2.c and sigwait1.c, whatever the creations answer and whichever functions return: `main`
-- neither joins `thread_func3` nor waits for it, since its id variable is overwritten; and it exits with 0
-- exactly when all creations succeed and the three threads that it joins return.
pub sigwait_thread_unjoined :
    (ends : FifoThread → Bool) (th1 th2 th3 th4 : ℕ)
    → (has_func3 (process (main_server2 ends th1 th2 th3 th4)).joined ≡ false)
      × (waits_for (main_server2 ends th1 th2 th3 th4) ≢ some FifoThread.thread_func3)
      × ((status (main_server2 ends th1 th2 th3 th4) ≡ some 0) ↔ (
          (th1 ≡ 0)
          × (th2 ≡ 0)
          × (th3 ≡ 0)
          × (th4 ≡ 0)
          × (ends FifoThread.thread_func1 ≡ true)
          × (ends (FifoThread.fifo 1) ≡ true)
          × (ends (FifoThread.fifo 2) ≡ true)))
unfolding main_server2
sigwait_thread_unjoined ends th1 th2 th3 th4 = (ground arith, ground arith, ground arith)

-- Every thread lets through the signals of the set.
abbrev pub let_through : {A : Type 0} → ℕ → List (A × Signals) → Bool
let_through s [] = true
let_through s ((t, m) ∷ ts) = not (m s) && let_through s ts

-- The masks of thread_fifo_server2.c and sigwait1.c: every thread, also the one that waits for them, is
-- created with the signals of the `sigwait` set not blocked, although `sigwait` needs them blocked.
pub sigwait_set_unmasked :
    (ends : FifoThread → Bool) (th1 th2 th3 th4 s : ℕ)
    → sigwait_set s ≡ true
    → let_through s (process (main_server2 ends th1 th2 th3 th4)).created ≡ true
unfolding main_server2
sigwait_set_unmasked ends th1 th2 th3 th4 s h = ground arith

-- thread_sig_handler.c: each thread is created with every signal blocked that can be; the mask that
-- `thread_func3` then sets lets SIGINT through, and no other signal that can be blocked.
pub one_thread_handles :
    (ends : FifoThread → Bool) (th1 th2 th3 th4 s : ℕ)
    → s ≢ sigkill
    → s ≢ sigstop
    → (map (λ c. c.1 s) (process (main_sig_handler ends th1 th2 th3 th4)).created
        ≡ map (λ c. true) (process (main_sig_handler ends th1 th2 th3 th4)).created)
      × ((handler_mask s ≡ false) ↔ (s ≡ sigint))
unfolding main_sig_handler handler_mask
one_thread_handles ends th1 th2 th3 th4 s kill stop = (ground arith, ground arith)
