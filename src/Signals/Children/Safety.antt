-- ===== src/Signals/Children/Safety.antt =====
-- What a3.c keeps and what it can lose.
use linux_learning_by_doing.Prelude.{ℕ, ◌+◌, ◌-◌, ◌<◌, ◌≤◌, ◌≡◌, refl, Bool, true, arith}
use linux_learning_by_doing.Signals.Children.{
  suspended, exited, waiting, System, initial, Step, fork_ok, fork_fails, forks_over, suspend,
  finish, child_exits, deliver, reap, no_child, handled, Reach, start, ◌▷◌,
}
use linux_learning_by_doing.Signals.Children.Invariant.{reach-Inv}

-- In every reachable state in which the handler is about to call `waitpid`, a terminated child is
-- there, so that the call neither blocks nor fails.
pub handler_finds_child : {s : System} → Reach initial s → s.handler ≡ waiting → 0 < s.zombies
handler_finds_child r h = let i = reach-Inv r in ground arith

-- When the parent has left its loop of `sigsuspend` (and did not fail to fork), it has forked five
-- children and waited for each, and every run of the handler has ended one of the five calls.
pub exit_reaps_all :
    {s : System}
    → Reach initial s
    → s.main ≡ exited
    → (s.forked ≡ 5) × (s.reaped ≡ 5) × (s.running + s.zombies ≡ 0) × (s.early ≡ 0)
exit_reaps_all r e = let i = reach-Inv r in (ground arith, ground arith, ground arith, ground arith)

early_kept : {s t : System} → Reach s t → s.early ≤ t.early
early_kept start = omega arith
early_kept (Reach.later r (fork_ok n h m)) = early_kept r
early_kept (Reach.later r (fork_fails n h m)) = early_kept r
early_kept (Reach.later r (forks_over h m)) = early_kept r
early_kept (Reach.later r (suspend n h m)) = early_kept r
early_kept (Reach.later r (finish h m)) = early_kept r
early_kept (Reach.later r (child_exits a c)) = early_kept r
early_kept (Reach.later r (deliver a h p)) = early_kept r
early_kept (Reach.later r (reap h z)) = early_kept r
early_kept (Reach.later r (no_child h z c)) = early_kept r
early_kept (Reach.later r (handled h)) = omega (arith, early_kept r)

joined : {s t u : System} → Reach s t → Reach t u → Reach s u
joined r start = r
joined r (Reach.later r' p) = joined r r' ▷ p

-- Once a run of the handler has ended outside `sigsuspend`, as when a child ends before the parent
-- comes to its second loop, the parent leaves that loop in no later state.
pub early_blocks_exit :
    {s t : System} → Reach initial s → 0 < s.early → Reach s t → ¬ (t.main ≡ exited)
early_blocks_exit r h r' e =
    let k = early_kept r' in let x = exit_reaps_all (joined r r') e in omega (arith, x.1)

-- After the five forks, with `n` of the children ended
abbrev pub ended : ℕ → Bool → System
ended n p = record initial {
  main = suspended 4;
  forked = 5;
  running = 5 - n;
  zombies = n;
  pending = p;
}

pub all_ended : Reach initial (ended 5 true)
all_ended =
    start
    ▷ fork_ok 4 refl refl
    ▷ fork_ok 3 refl refl
    ▷ fork_ok 2 refl refl
    ▷ fork_ok 1 refl refl
    ▷ fork_ok 0 refl refl
    ▷ forks_over refl refl
    ▷ suspend 4 refl refl
    ▷ child_exits refl (omega arith)
    ▷ child_exits refl (omega arith)
    ▷ child_exits refl (omega arith)
    ▷ child_exits refl (omega arith)
    ▷ child_exits refl (omega arith)

-- One run of the handler, and the second call of `sigsuspend`
abbrev pub waits_on : System
waits_on = record initial { main = suspended 3; forked = 5; zombies = 4; reaped = 1 }

pub coalesced : Reach initial waits_on
coalesced =
    all_ended
    ▷ deliver refl refl refl
    ▷ reap refl (omega arith)
    ▷ handled refl
    ▷ suspend 3 refl refl

no_step : {t : System} → ¬ Step waits_on t
no_step (fork_ok n h m) = ground arith
no_step (fork_fails n h m) = ground arith
no_step (forks_over h m) = ground arith
no_step (suspend n h m) = ground arith
no_step (finish h m) = ground arith
no_step (child_exits a r) = ground arith
no_step (deliver a h p) = ground arith
no_step (reap h z) = ground arith
no_step (no_child h z r) = ground arith
no_step (handled h) = ground arith

-- The program can come to wait forever: if the five children end before the handler runs, their signals
-- are one, the handler reaps one child, and in the second `sigsuspend` with four zombies left nothing
-- can happen any more.
pub signals_coalesce :
    (s : System) × Reach initial s
    × (s.main ≡ suspended 3)
    × (s.zombies ≡ 4)
    × ((t : System) → ¬ Step s t)
signals_coalesce = (waits_on, coalesced, refl, refl, λ t. no_step)
