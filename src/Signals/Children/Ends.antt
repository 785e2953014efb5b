-- ===== src/Signals/Children/Ends.antt =====
-- How the runs of a3.c end.
use linux_learning_by_doing.Prelude.{
  ℕ, zero, suc, ◌+◌, ◌*◌, ◌≤◌, ◌≡◌, ◌⊎◌, inl, inr, refl, Bool, true, false, Bool-cases, arith,
  dec_lt,
}
use linux_learning_by_doing.Signals.Children.{
  Main, forking, between, suspended, exited, failed, Handler, idle, waiting, returning, System,
  initial, Step, fork_ok, fork_fails, forks_over, suspend, finish, child_exits, deliver, reap,
  no_child, handled, Reach, start, later,
}
use linux_learning_by_doing.Signals.Children.Invariant.{Inv, reach-Inv}

-- So many steps from the start
pub data Run : ℕ → System → Type 0 where
  none : Run 0 initial
  more : {n : ℕ} {s t : System} → Run n s → Step s t → Run (suc n) t

-- The steps that may still come: five for a `fork` with its child, a signal and its handler
abbrev of_main : Main → ℕ
of_main (forking n) = 5 * n + 7
of_main (between n) = n + 1
of_main (suspended n) = n + 1
of_main exited = 0
of_main failed = 0

abbrev of_handler : Handler → ℕ
of_handler idle = 0
of_handler waiting = 2
of_handler returning = 1

abbrev of_signal : Bool → ℕ
of_signal true = 3
of_signal false = 0

abbrev to_come : System → ℕ
to_come s = of_main s.main + 4 * s.running + of_signal s.pending + of_handler s.handler

step-less : {s t : System} → Step s t → suc (to_come t) ≤ to_come s
step-less (fork_ok n h m) = ground arith
step-less (fork_fails n h m) = ground arith
step-less (forks_over h m) = ground arith
step-less (suspend n h m) = ground arith
step-less (finish h m) = ground arith
step-less (child_exits a r) = ground arith
step-less (deliver a h p) = ground arith
step-less (reap h z) = ground arith
step-less (no_child h z r) = ground arith
step-less (handled h) = ground arith

run-less : {n : ℕ} {s : System} → Run n s → n + to_come s ≤ 32
run-less none = omega arith
run-less (more r p) = omega (arith, run-less r, step-less p)

run-reach : {n : ℕ} {s : System} → Run n s → Reach initial s
run-reach none = start
run-reach (more r p) = later (run-reach r) p

abbrev pub CanStep : System → Type 0
CanStep s = (t : System) × Step s t

-- The three ends
pub data Over (s : System) : Type 0 where
  all_reaped : s.main ≡ exited → s.reaped ≡ 5 → Over s
  no_fork : s.main ≡ failed → Over s
  -- in `sigsuspend` for ever, with `n` calls more to come after it
  waits_on :
      (n : ℕ)
      → s.main ≡ suspended n
      → s.running ≡ 0
      → s.pending ≡ false
      → s.zombies + s.early ≡ suc n
      → Over s

idle-steps : (s : System) (m : Main) → s.main ≡ m → s.handler ≡ idle → Inv s → CanStep s ⊎ Over s
idle-steps s (forking zero) e h i = inl (_, forks_over h e)
idle-steps s (forking (suc n)) e h i = inl (_, fork_ok n h e)
idle-steps s (between zero) e h i = inl (_, finish h e)
idle-steps s (between (suc n)) e h i = inl (_, suspend n h e)
idle-steps s exited e h i = inr (all_reaped e (ground arith))
idle-steps s failed e h i = inr (no_fork e)
idle-steps s (suspended n) e h i = elim (Bool-cases s.pending) [
  | inl p ↦ inl (_, deliver (ground arith) h p)
  | inr p ↦ elim (dec_lt 0 s.running) [
    | yes r ↦ inl (_, child_exits (ground arith) r)
    | no r ↦ inr (waits_on n e (omega arith) p (ground arith))
  ]
]

steps : (s : System) (h : Handler) → s.handler ≡ h → Inv s → CanStep s ⊎ Over s
steps s idle h i = idle-steps s s.main refl h i
steps s waiting h i = inl (_, reap h (ground arith))
steps s returning h i = inl (_, handled h)

-- Every run of a3.c is over after at most 32 steps, whatever comes in which order. Where it cannot go
-- on, the parent has exited and waited for all five children; or a `fork` has failed; or it stays in
-- `sigsuspend` for ever, and the calls that do not return, this one included, are as many as the
-- zombies that are left (whose signals were merged) and the runs of the handler outside `sigsuspend`.
pub run_is_over : {n : ℕ} {s : System} → Run n s → (n ≤ 32) × (CanStep s ⊎ Over s)
run_is_over {s = s} r =
    (omega (arith, run-less r), steps s s.handler refl (reach-Inv (run-reach r)))
