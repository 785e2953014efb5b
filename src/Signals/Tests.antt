-- ===== src/Signals/Tests.antt =====
-- Five children that end one by one, one that ends early, and signals for a4.c and a5.c.
use linux_learning_by_doing.Prelude.{
  ℕ, suc, ◌≤◌, ◌⊎◌, ◌+◌, ◌<◌, ◌≡◌, ◌==◌, ◌||◌, refl, true, false, not, [], ◌∷◌, if◌then◌else◌,
  arith,
}
use linux_learning_by_doing.Startup.{sigkill, sigstop, sigterm}
use linux_learning_by_doing.Signals.Children.{
  between, waiting, exited, System, initial, fork_ok, forks_over, suspend, finish, child_exits,
  deliver, reap, handled, Reach, start, ◌▷◌,
}
use linux_learning_by_doing.Signals.Children.Safety.{
  handler_finds_child, exit_reaps_all, early_blocks_exit, ended, all_ended, waits_on, coalesced,
}
use linux_learning_by_doing.Signals.Children.Ends.{Run, more, CanStep, Over, run_is_over}
use linux_learning_by_doing.Signals.Dispositions.{
  sigalrm, handle_sigterm, inside_parent, handle_stp, terminate, stop, Kernel, parent, main4, main5,
}
use linux_learning_by_doing.Signals.Dispositions.Wakeups.{Documented, handled_signals}

abbrev signalled : System
signalled = record (ended 5 false) { handler = waiting }

handler_finds_child_test : 0 < signalled.zombies
handler_finds_child_test = handler_finds_child (all_ended ▷ deliver refl refl refl) refl

-- Before the second loop, with five children
abbrev forked_five : System
forked_five = record initial { main = between 5; forked = 5; running = 5 }

five_forked : Reach initial forked_five
five_forked =
    start
    ▷ fork_ok 4 refl refl
    ▷ fork_ok 3 refl refl
    ▷ fork_ok 2 refl refl
    ▷ fork_ok 1 refl refl
    ▷ fork_ok 0 refl refl
    ▷ forks_over refl refl

abbrev all_over : System
all_over = record initial { main = exited; forked = 5; reaped = 5 }

all_waited : Reach initial all_over
all_waited =
    five_forked
    ▷ suspend 4 refl refl
    ▷ child_exits refl (omega arith)
    ▷ deliver refl refl refl
    ▷ reap refl (omega arith)
    ▷ handled refl
    ▷ suspend 3 refl refl
    ▷ child_exits refl (omega arith)
    ▷ deliver refl refl refl
    ▷ reap refl (omega arith)
    ▷ handled refl
    ▷ suspend 2 refl refl
    ▷ child_exits refl (omega arith)
    ▷ deliver refl refl refl
    ▷ reap refl (omega arith)
    ▷ handled refl
    ▷ suspend 1 refl refl
    ▷ child_exits refl (omega arith)
    ▷ deliver refl refl refl
    ▷ reap refl (omega arith)
    ▷ handled refl
    ▷ suspend 0 refl refl
    ▷ child_exits refl (omega arith)
    ▷ deliver refl refl refl
    ▷ reap refl (omega arith)
    ▷ handled refl
    ▷ finish refl refl

exit_reaps_all_example :
    (all_over.forked ≡ 5)
    × (all_over.reaped ≡ 5)
    × (all_over.running + all_over.zombies ≡ 0)
    × (all_over.early ≡ 0)
exit_reaps_all_example = exit_reaps_all all_waited refl

-- A child ends before the second loop.
abbrev one_early : System
one_early = record initial { main = between 5; forked = 5; running = 4; reaped = 1; early = 1 }

one_ends_early : Reach initial one_early
one_ends_early =
    five_forked
    ▷ child_exits refl (omega arith)
    ▷ deliver refl refl refl
    ▷ reap refl (omega arith)
    ▷ handled refl

early_blocks_exit_test : ¬ (one_early.main ≡ exited)
early_blocks_exit_test = early_blocks_exit one_ends_early (omega arith) start

abbrev linux : Kernel
linux = record {
  accepts = λ s. not ((s == sigkill) || (s == sigstop));
  default_action = λ s. if s == sigstop then stop else terminate;
}

linux-Documented : Documented linux
linux-Documented = record { accepted = λ s. refl; kill_terminates = refl; stop_stops = refl }

handled_signals_example :
    (main4 linux parent (sigalrm ∷ sigterm ∷ sigstop ∷ [])
      ≡ record { lines = handle_sigterm ∷ inside_parent ∷ []; exits = true })
    × (main5 linux (sigalrm ∷ sigterm ∷ sigstop ∷ [])
        ≡ record { lines = handle_stp ∷ inside_parent ∷ []; exits = true })
handled_signals_example =
    handled_signals linux (sigalrm ∷ sigterm ∷ sigstop ∷ []) linux-Documented refl

steps_of : {s : System} → Reach initial s → (n : ℕ) × Run n s
steps_of start = (0, Run.none)
steps_of (Reach.later r p) = let (n, q) = steps_of r in (suc n, more q p)

run_is_over_example : ((steps_of coalesced).0 ≤ 32) × (CanStep waits_on ⊎ Over waits_on)
run_is_over_example = run_is_over (steps_of coalesced).1
