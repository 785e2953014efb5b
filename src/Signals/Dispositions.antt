-- ===== src/Signals/Dispositions.antt =====
-- Assignment/2_1/a4.c and a5.c: a handler for several signals, and one call of `sigsuspend`.
pub mod Wakeups
use linux_learning_by_doing.Prelude.{
  ℕ, ◌==◌, Bool, true, false, ◌&&◌, ◌||◌, not, List, [], ◌∷◌, ◌++◌, if◌then◌else◌,
}
use linux_learning_by_doing.Startup.{
  Signals, sigint, sigkill, sigterm, sigstop, sigemptyset, sigfillset, sigaddset, sigdelset,
}

-- The numbers of the other signals on Linux
abbrev pub sigquit : ℕ
sigquit = 3

abbrev pub sigusr1 : ℕ
sigusr1 = 10

abbrev pub sigalrm : ℕ
sigalrm = 14

abbrev pub sigchld : ℕ
sigchld = 17

abbrev pub sigtstp : ℕ
sigtstp = 20

-- What is printed
pub data Line : Type 0 where
  handle_kill handle_sigint handle_sigterm handle_sigquit handle_sigstop handle_stp : Line
  handle_child no_signal_catch inside_parent inside_child : Line

-- `sighandler` of a4.c
unfoldable pub sighandler4 : ℕ → Line
sighandler4 signo =
    if signo == sigkill
    then handle_kill
    else if signo == sigint
    then handle_sigint
    else if signo == sigterm
    then handle_sigterm
    else if signo == sigquit
    then handle_sigquit
    else if signo == sigstop
    then handle_sigstop
    else if signo == sigtstp
    then handle_stp
    else no_signal_catch

-- `sighandler` of a5.c
unfoldable pub sighandler5 : ℕ → Line
sighandler5 signo =
    if signo == sigkill
    then handle_kill
    else if signo == sigint
    then handle_sigint
    else if signo == sigterm
    then handle_sigterm
    else if signo == sigquit
    then handle_sigquit
    else if signo == sigstop
    then handle_sigstop
    else if signo == sigtstp
    then handle_stp
    else if signo == sigalrm
    then handle_stp
    else if signo == sigusr1
    then handle_stp
    else if signo == sigchld
    then handle_child
    else no_signal_catch

-- `set1` of a4.c and of a5.c
abbrev pub set4 : Signals
set4 =
    sigdelset
      (sigdelset
        (sigdelset (sigdelset (sigdelset (sigdelset sigfillset sigint) sigkill) sigterm) sigquit)
        sigstop)
      sigtstp

abbrev pub set5 : Signals
set5 = sigdelset (sigdelset (sigdelset set4 sigalrm) sigusr1) sigchld

-- What a signal without a handler does.
pub data Action : Type 0 where
  terminate stop ignore : Action

-- How `sigsuspend` goes on.
pub data End : Type 0 where
  woken : ℕ → End  -- the handler has run with this signal
  killed : ℕ → End
  stopped : End
  waits : End

-- The kernel: which signals `sigaction` accepts, and what the others do.
pub record Kernel : Type 0 where
  pub accepts : ℕ → Bool
  pub default_action : ℕ → Action

module _ (k : Kernel) where
  -- `sigaction` with a handler; its answer is not looked at.
  unfoldable pub sigaction : ℕ → Signals → Signals
  sigaction signo caught = if k.accepts signo then sigaddset caught signo else caught

  unfoldable pub sigactions : List ℕ → Signals → Signals
  sigactions [] caught = caught
  sigactions (signo ∷ signos) caught = sigactions signos (sigaction signo caught)

  -- `sigsuspend` with the set, while these signals come one after the other, with no SIGCONT among them. A
  -- blocked signal stays pending. A stopped process handles none of those that follow: it stays so, or
  -- SIGKILL ends it.
  unfoldable pub sigsuspend : Signals → Signals → List ℕ → End
  sigsuspend caught set1 [] = waits
  sigsuspend caught set1 (s ∷ ss) =
      let rest = sigsuspend caught set1 ss in
      if set1 s
      then rest
      else if caught s
      then woken s
      else elim (k.default_action s) [ terminate ↦ killed s | stop ↦ stopped | ignore ↦ rest ]

-- What is printed, and whether `main` comes to its `exit`
pub record Run : Type 0 where
  pub lines : List Line
  pub exits : Bool

abbrev pub after_suspend : (ℕ → Line) → End → Run
after_suspend handler (woken s) = record { lines = handler s ∷ inside_parent ∷ []; exits = true }
after_suspend handler (killed s) = record { lines = []; exits = false }
after_suspend handler stopped = record { lines = []; exits = false }
after_suspend handler waits = record { lines = []; exits = false }

-- What `fork` gives
pub data Fork : Type 0 where
  parent child error : Fork

module _ (k : Kernel) where
  abbrev pub caught4 : Signals
  caught4 = sigactions k (sigint ∷ sigkill ∷ sigterm ∷ sigquit ∷ sigstop ∷ sigtstp ∷ []) sigemptyset

  -- `main` of a4.c in each process, where the signals come during `sigsuspend`
  unfoldable pub main4 : Fork → List ℕ → Run
  main4 child signals = record { lines = inside_child ∷ []; exits = true }
  main4 parent signals = after_suspend sighandler4 (sigsuspend k caught4 set4 signals)
  main4 error signals = record { lines = []; exits = true }

  abbrev pub caught5 : Signals
  caught5 =
      sigactions k
        (sigint ∷ sigkill ∷ sigterm ∷ sigquit ∷ sigstop ∷ sigtstp ∷ sigalrm ∷ sigusr1 ∷ sigchld
          ∷ [])
        sigemptyset

  -- `main` of a5.c, which does not fork
  unfoldable pub main5 : List ℕ → Run
  main5 signals = after_suspend sighandler5 (sigsuspend k caught5 set5 signals)
