-- ===== src/Startup/Signals/Tests.antt =====
-- The theorem on thread_sig_handler.c at one run.
use linux_learning_by_doing.Prelude.{◌⊎◌, true, refl, arith}
use linux_learning_by_doing.Startup.{sigint}
use linux_learning_by_doing.Startup.Signals.Handling.{System, Reach, start, next, send, func3_mask}
use linux_learning_by_doing.Startup.Signals.Handled.{GoesOn, Ended, sigint_ends_process}

-- SIGINT is sent before `thread_func3` sets its mask, and every signal ends a process by default.
abbrev interrupted : (st : System) × Reach (λ s. true) st
interrupted = (
  _,
  next (next start (send refl sigint (λ e. omega arith) (λ e. omega arith))) (func3_mask refl refl),
)

sigint_ends_process_example : GoesOn (λ s. true) (interrupted.0) ⊎ Ended (interrupted.0)
sigint_ends_process_example = sigint_ends_process refl (interrupted.1)
