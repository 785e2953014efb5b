-- ===== src/Signals/Children.antt =====
-- Assignment/2_1/a3.c: five children, a handler that reaps one of them, and five times `sigsuspend`.
pub mod Invariant
pub mod Safety
pub mod Ends
use linux_learning_by_doing.Prelude.{ℕ, suc, ◌+◌, ◌-◌, ◌<◌, ◌≡◌, Bool, true, false}

-- `main`, with how many forks or calls of `sigsuspend` are left
pub data Main : Type 0 where
  forking : ℕ → Main
  between : ℕ → Main  -- before `sigsuspend`, or after one has returned
  suspended : ℕ → Main  -- in `sigsuspend`, with those left after it
  exited : Main
  failed : Main  -- after the `exit` where `fork` fails

-- `sichld`, which interrupts `main`; its mask blocks every signal while it runs.
pub data Handler : Type 0 where
  idle : Handler
  waiting : Handler  -- before and in `waitpid`
  returning : Handler

-- The parent, whether SIGCHLD is pending, the children forked, running and not waited for, the calls of
-- `waitpid` that gave a child, and the runs of the handler that ended no `sigsuspend`.
pub record System : Type 0 where
  pub main : Main
  pub handler : Handler
  pub pending : Bool
  pub forked : ℕ
  pub running : ℕ
  pub zombies : ℕ
  pub reaped : ℕ
  pub early : ℕ

abbrev pub initial : System
initial = record {
  main = forking 5;
  handler = idle;
  pending = false;
  forked = 0;
  running = 0;
  zombies = 0;
  reaped = 0;
  early = 0;
}

-- What the end of the handler does to `main`, and whether it has ended no `sigsuspend`.
abbrev pub resume : Main → Main
resume (suspended n) = between n
resume (forking n) = forking n
resume (between n) = between n
resume exited = exited
resume failed = failed

abbrev pub not_suspended : Main → ℕ
not_suspended (suspended n) = 0
not_suspended (forking n) = 1
not_suspended (between n) = 1
not_suspended exited = 1
not_suspended failed = 1

abbrev pub alive : Main → Bool
alive exited = false
alive failed = false
alive (forking n) = true
alive (between n) = true
alive (suspended n) = true

-- A SIGCHLD that comes while one is pending is lost; `waitpid` leaves a pending one. `fork` may fail.
pub data Step (s : System) : System → Type 0 where
  fork_ok :
      (n : ℕ)
      → s.handler ≡ idle
      → s.main ≡ forking (suc n)
      → Step s (record s { main = forking n; forked = s.forked + 1; running = s.running + 1 })
  fork_fails :
      (n : ℕ) → s.handler ≡ idle → s.main ≡ forking (suc n) → Step s (record s { main = failed })
  forks_over : s.handler ≡ idle → s.main ≡ forking 0 → Step s (record s { main = between 5 })
  suspend :
      (n : ℕ)
      → s.handler ≡ idle
      → s.main ≡ between (suc n)
      → Step s (record s { main = suspended n })
  finish : s.handler ≡ idle → s.main ≡ between 0 → Step s (record s { main = exited })
  child_exits :
      alive s.main ≡ true
      → 0 < s.running
      → Step s (record s { running = s.running - 1; zombies = s.zombies + 1; pending = true })
  deliver :
      alive s.main ≡ true
      → s.handler ≡ idle
      → s.pending ≡ true
      → Step s (record s { handler = waiting; pending = false })
  reap :
      s.handler ≡ waiting
      → 0 < s.zombies
      → Step s (record s { handler = returning; zombies = s.zombies - 1; reaped = s.reaped + 1 })
  no_child :
      s.handler ≡ waiting
      → s.zombies ≡ 0
      → s.running ≡ 0
      → Step s (record s { handler = returning })
  handled :
      s.handler ≡ returning
      → Step s (record s {
        handler = idle;
        main = resume s.main;
        early = s.early + not_suspended s.main;
      })

-- From one state to another
pub data Reach (s : System) : System → Type 0 where
  start : Reach s s
  later : {t u : System} → Reach s t → Step t u → Reach s u

infixl 5 ◌▷◌
abbrev pub ◌▷◌ : {s t u : System} → Reach s t → Step t u → Reach s u
◌▷◌ = later
