-- ===== src/Signals/Dispositions/Wakeups.antt =====
-- Which signals end the `sigsuspend` of a4.c and a5.c.
use linux_learning_by_doing.Prelude.{
  ℕ, ◌==◌, ◌≡◌, refl, ap, ◌∙◌, Bool, true, false, ◌||◌, not, Option, some, none, ℕ_discrete, List,
  [], ◌∷◌, if◌then◌else◌, arith,
}
use linux_learning_by_doing.Startup.{Signals, sigint, sigkill, sigterm, sigstop, sigcont}
use linux_learning_by_doing.Signals.Dispositions.{
  sigquit, sigusr1, sigalrm, sigchld, sigtstp, Line, handle_sigint, handle_sigterm, handle_sigquit,
  handle_stp, handle_child, inside_parent, sighandler4, sighandler5, End, woken, killed, stopped,
  waits, terminate, stop, Kernel, sigaction, sigactions, sigsuspend, Run, after_suspend, parent,
  caught4, set4, main4, caught5, set5, main5,
}

-- What the manual says of SIGKILL and SIGSTOP: they are not caught.
pub record Documented (k : Kernel) : Type 0 where
  pub accepted : (s : ℕ) → k.accepts s ≡ not ((s == sigkill) || (s == sigstop))
  pub kill_terminates : k.default_action sigkill ≡ terminate
  pub stop_stops : k.default_action sigstop ≡ stop

abbrev pub member : ℕ → List ℕ → Bool
member s [] = false
member s (x ∷ xs) = (s == x) || member s xs

-- SIGKILL ends the process and SIGSTOP stops it, and the first of some signals before them ends the call.
abbrev pub end_of : List ℕ → List ℕ → End
end_of wake [] = waits
end_of wake (s ∷ ss) =
    if s == sigkill
    then killed sigkill
    else if s == sigstop
    then stopped
    else if member s wake
    then woken s
    else end_of wake ss

abbrev pub wake4 : List ℕ
wake4 = sigint ∷ sigterm ∷ sigquit ∷ sigtstp ∷ []

abbrev pub wake5 : List ℕ
wake5 = sigint ∷ sigterm ∷ sigquit ∷ sigtstp ∷ sigalrm ∷ sigusr1 ∷ sigchld ∷ []

-- A handler is there for the signals of `wake`, and they, SIGKILL and SIGSTOP are not blocked.
record Wakes (caught set1 : Signals) (wake : List ℕ) : Type 0 where
  caught_by : (s : ℕ) → caught s ≡ member s wake
  not_blocked : (s : ℕ) → set1 s ≡ not (member s (sigkill ∷ sigstop ∷ wake))
  no_kill : member sigkill wake ≡ false
  no_stop : member sigstop wake ≡ false

module _ (k : Kernel) (d : Documented k) where
  sigsuspend_lem :
      {caught set1 : Signals} {wake : List ℕ}
      → Wakes caught set1 wake
      → (ss : List ℕ) → sigsuspend k caught set1 ss ≡ end_of wake ss
  unfolding sigsuspend
  sigsuspend_lem w [] = refl
  sigsuspend_lem {caught} {set1} {wake} w (s ∷ ss) =
      let rest = sigsuspend_lem w ss in
      elim (ℕ_discrete s sigkill) [
        | yes e ↦
            rw (e, w.not_blocked sigkill, w.caught_by sigkill, w.no_kill, d.kill_terminates)
              (ap killed e)
        | no n ↦ elim (ℕ_discrete s sigstop) [
          | yes e ↦ rw (e, w.not_blocked sigstop, w.caught_by sigstop, w.no_stop, d.stop_stops) refl
          | no m ↦ rw (w.not_blocked s, w.caught_by s, rest) (ground arith)
        ]
      ]

  wakes4 : Wakes (caught4 k) set4 wake4
  unfolding sigactions sigaction
  wakes4 = record {
    caught_by = λ s.
        rw
          (
            d.accepted sigint,
            d.accepted sigkill,
            d.accepted sigterm,
            d.accepted sigquit,
            d.accepted sigstop,
            d.accepted sigtstp,
          )
          (ground arith);
    not_blocked = λ s. ground arith;
    no_kill = refl;
    no_stop = refl;
  }

  wakes5 : Wakes (caught5 k) set5 wake5
  unfolding sigactions sigaction
  wakes5 = record {
    caught_by = λ s.
        rw
          (
            d.accepted sigint,
            d.accepted sigkill,
            d.accepted sigterm,
            d.accepted sigquit,
            d.accepted sigstop,
            d.accepted sigtstp,
            d.accepted sigalrm,
            d.accepted sigusr1,
            d.accepted sigchld,
          )
          (ground arith);
    not_blocked = λ s. ground arith;
    no_kill = refl;
    no_stop = refl;
  }

abbrev pub line_of : List (ℕ × Line) → ℕ → Option Line
line_of [] s = none
line_of ((signo, line) ∷ table) s = if s == signo then some line else line_of table s

-- What `main` is to print, from what each signal prints: nothing if SIGKILL or SIGSTOP comes first.
abbrev pub run_of : List (ℕ × Line) → List ℕ → Run
run_of table [] = record { lines = []; exits = false }
run_of table (s ∷ ss) =
    if (s == sigkill) || (s == sigstop)
    then record { lines = []; exits = false }
    else elim (line_of table s) [
      | some line ↦ record { lines = line ∷ inside_parent ∷ []; exits = true }
      | none ↦ run_of table ss
    ]

abbrev pub table4 : List (ℕ × Line)
table4 =
    (sigint, handle_sigint)
    ∷ (sigterm, handle_sigterm)
    ∷ (sigquit, handle_sigquit)
    ∷ (sigtstp, handle_stp)
    ∷ []

abbrev pub table5 : List (ℕ × Line)
table5 =
    (sigint, handle_sigint)
    ∷ (sigterm, handle_sigterm)
    ∷ (sigquit, handle_sigquit)
    ∷ (sigtstp, handle_stp)
    ∷ (sigalrm, handle_stp)
    ∷ (sigusr1, handle_stp)
    ∷ (sigchld, handle_child)
    ∷ []

run4 : (ss : List ℕ) → after_suspend sighandler4 (end_of wake4 ss) ≡ run_of table4 ss
unfolding sighandler4
run4 [] = refl
run4 (s ∷ ss) = let rest = run4 ss in ground arith

run5 : (ss : List ℕ) → after_suspend sighandler5 (end_of wake5 ss) ≡ run_of table5 ss
unfolding sighandler5
run5 [] = refl
run5 (s ∷ ss) = let rest = run5 ss in ground arith

-- With a kernel that lets SIGKILL and SIGSTOP not be caught, and whatever signals but SIGCONT come while
-- they wait: the parent of a4.c prints the line of the first SIGINT, SIGTERM, SIGQUIT or SIGTSTP and goes
-- on to its exit, unless a SIGKILL or a SIGSTOP comes before, and then it prints nothing more; a5.c does
-- so for SIGALRM, SIGUSR1 and SIGCHLD too. No signal
-- prints the lines for SIGKILL and SIGSTOP.
pub handled_signals :
    (k : Kernel) (ss : List ℕ)
    → Documented k
    → member sigcont ss ≡ false
    → (main4 k parent ss ≡ run_of table4 ss) × (main5 k ss ≡ run_of table5 ss)
unfolding main4 main5
handled_signals k ss d none_continues = (
  ap (after_suspend sighandler4) (sigsuspend_lem k d (wakes4 k d) ss) ∙ run4 ss,
  ap (after_suspend sighandler5) (sigsuspend_lem k d (wakes5 k d) ss) ∙ run5 ss,
)
