-- ===== src/Signals/Children/Invariant.antt =====
-- a3.c: its children and its handler, against the signals, in every state that it reaches.
use linux_learning_by_doing.Prelude.{ℕ, suc, ◌+◌, ◌≤◌, ◌≡◌, Bool, true, false, arith}
use linux_learning_by_doing.Signals.Children.{
  Main, forking, between, suspended, exited, failed, Handler, idle, waiting, returning, System,
  initial, Step, fork_ok, fork_fails, forks_over, suspend, finish, child_exits, deliver, reap,
  no_child, handled, Reach, start, later,
}

-- 1 if a SIGCHLD is pending, or its handler has not yet called `waitpid` to the end
abbrev pub to_reap : Bool → Handler → ℕ
to_reap true waiting = 2
to_reap true idle = 1
to_reap true returning = 1
to_reap false waiting = 1
to_reap false idle = 0
to_reap false returning = 0

abbrev pub to_return : Handler → ℕ
to_return idle = 0
to_return waiting = 0
to_return returning = 1

-- The children that there have been
abbrev pub Forked : Main → ℕ → Type 0
Forked (forking n) forked = forked + n ≡ 5
Forked (between n) forked = forked ≡ 5
Forked (suspended n) forked = forked ≡ 5
Forked exited forked = forked ≡ 5
Forked failed forked = forked ≤ 5

-- The calls of `sigsuspend` that have not returned
abbrev pub suspends_left : Main → ℕ
suspends_left (forking n) = 5
suspends_left (between n) = n
suspends_left (suspended n) = suc n
suspends_left exited = 0
suspends_left failed = 5

pub record Inv (s : System) : Type 0 where
  pub children : s.forked ≡ s.running + s.zombies + s.reaped
  pub forks : Forked s.main s.forked
  pub signalled : to_reap s.pending s.handler ≤ s.zombies
  pub returned : 5 + to_return s.handler + s.early ≡ s.reaped + suspends_left s.main

initial-Inv : Inv initial
initial-Inv = ground arith

step-Inv : {s t : System} → Inv s → Step s t → Inv t
step-Inv i (fork_ok n h m) = ground arith
step-Inv i (fork_fails n h m) = ground arith
step-Inv i (forks_over h m) = ground arith
step-Inv i (suspend n h m) = ground arith
step-Inv i (finish h m) = ground arith
step-Inv i (child_exits a r) = ground arith
step-Inv i (deliver a h p) = ground arith
step-Inv i (reap h z) = ground arith
step-Inv i (no_child h z r) = ground arith
step-Inv i (handled h) = ground arith

pub reach-Inv : {s : System} → Reach initial s → Inv s
reach-Inv start = initial-Inv
reach-Inv (later r p) = step-Inv (reach-Inv r) p
