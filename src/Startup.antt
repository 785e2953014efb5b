-- ===== src/Startup.antt =====
-- Examples/Threads: what the `main` functions do with threads and signals, call by call.
pub mod Buffers
pub mod Servers
pub mod Signals
pub mod Programs
mod Tests
use linux_learning_by_doing.Prelude.{
  ℕ, zero, suc, ◌==◌, Bool, true, false, not, ◌&&◌, ◌||◌, Option, none, some, List, [], ◌∷◌, ◌++◌,
  if◌then◌else◌, ◌≡◌, arith,
}

-- A `sigset_t`
abbrev pub Signals : Type 0
Signals = ℕ → Bool

abbrev pub sigint : ℕ
sigint = 2

abbrev pub sigkill : ℕ
sigkill = 9

abbrev pub sigpipe : ℕ
sigpipe = 13

abbrev pub sigterm : ℕ
sigterm = 15

abbrev pub sigstop : ℕ
sigstop = 19

abbrev pub sigcont : ℕ
sigcont = 18

-- SIGTSTP, SIGTTIN and SIGTTOU
abbrev pub is_stop : ℕ → Bool
is_stop s = (s == 20) || ((s == 21) || (s == 22))

abbrev pub job_control : ℕ → Bool
job_control s = (s == sigcont) || is_stop s

-- By POSIX, sending SIGCONT discards the stop signals that are pending, and sending one of them discards SIGCONT,
-- also where they are blocked.
abbrev pub discards : ℕ → ℕ → Bool
discards s j = ((s == sigcont) && is_stop j) || (is_stop s && (j == sigcont))

pub discards_lem : (s j : ℕ) → job_control j ≡ false → discards s j ≡ false
discards_lem s j h = ground arith

-- What is pending after a signal is sent
abbrev pub generate : ℕ → Signals → Signals
generate s pending j = if s == j then true else if discards s j then false else pending j

abbrev pub sigemptyset : Signals
sigemptyset = λ s. false

abbrev pub sigfillset : Signals
sigfillset = λ s. true

abbrev pub sigaddset : Signals → ℕ → Signals
sigaddset set signal s = if s == signal then true else set s

abbrev pub sigdelset : Signals → ℕ → Signals
sigdelset set signal s = if s == signal then false else set s

-- The mask that the kernel keeps: SIGKILL and SIGSTOP are never in it.
abbrev pub maskable : Signals → Signals
maskable set s = set s && not (s == sigkill) && not (s == sigstop)

-- The process of a `main` whose threads run the functions `A`: the mask of the main thread, the thread
-- that each id variable names, the threads created with the mask that each inherits, and the threads
-- that have been joined.
pub record Process (A : Type 0) : Type 0 where
  pub blocked : Signals
  pub id : ℕ → Option A
  pub created : List (A × Signals)
  pub joined : List A

-- `exit` with a status, a join that waits for a thread for ever, or the next call.
pub data Run (A : Type 0) : Type 0 where
  exited : ℕ → Process A → Run A
  waiting : A → Process A → Run A
  going : Process A → Run A

module _ {A : Type 0} where
  abbrev pub fresh : Process A
  fresh = record { blocked = sigemptyset; id = λ i. none; created = []; joined = [] }

  infixl 5 ◌>>◌
  abbrev pub ◌>>◌ : (Process A → Run A) → (Process A → Run A) → Process A → Run A
  (c >> d) p = elim (c p) [ exited n q ↦ exited n q | waiting t q ↦ waiting t q | going q ↦ d q ]

  -- `sigprocmask(SIG_SETMASK, &set, NULL)`
  abbrev pub set_mask : Signals → Process A → Run A
  set_mask set p = going (record p { blocked = maskable set })

  -- `sigprocmask(SIG_BLOCK, &set, &old)`
  abbrev pub block : Signals → Process A → Run A
  block set p = going (record p { blocked = λ s. p.blocked s || maskable set s })

  -- `if (error) exit(code);`
  abbrev pub check : ℕ → ℕ → Process A → Run A
  check zero code p = going p
  check (suc error) code p = exited code p

  -- `pthread_create(&id, attr, f, arg)` with its answer, then `if (ret) exit(code)`. A thread inherits
  -- the mask.
  abbrev pub create : ℕ → A → ℕ → ℕ → Process A → Run A
  create i f zero code p = going (record p {
    id = λ j. if j == i then some f else p.id j;
    created = p.created ++ ((f, p.blocked) ∷ []);
  })
  create i f (suc error) code p = exited code p

  -- `pthread_join(id, NULL)`: `ends` tells of which threads the function returns. An id that names no
  -- thread cannot be joined.
  abbrev pub join : (A → Bool) → ℕ → Process A → Run A
  join ends i p = elim (p.id i) [
    | none ↦ going p
    | some t ↦ if ends t then going (record p { joined = p.joined ++ (t ∷ []) }) else waiting t p
  ]

  abbrev pub exit : ℕ → Process A → Run A
  exit code p = exited code p

  -- The status of a process that exits, and the process.
  abbrev pub status : Run A → Option ℕ
  status (exited n p) = some n
  status (waiting t p) = none
  status (going p) = none

  abbrev pub process : Run A → Process A
  process (exited n p) = p
  process (waiting t p) = p
  process (going p) = p

  abbrev pub waits_for : Run A → Option A
  waits_for (exited n p) = none
  waits_for (waiting t p) = some t
  waits_for (going p) = none

  -- Independent of the code: of creations in a row, each with its answer and the status that it exits
  -- with, the threads before the first failure, and its status.
  abbrev pub before_failure : List (A × ℕ × ℕ) → List A
  before_failure [] = []
  before_failure ((f, zero, code) ∷ steps) = f ∷ before_failure steps
  before_failure ((f, suc error, code) ∷ steps) = []

  abbrev pub first_failure : List (A × ℕ × ℕ) → Option ℕ
  first_failure [] = none
  first_failure ((f, zero, code) ∷ steps) = first_failure steps
  first_failure ((f, suc error, code) ∷ steps) = some code
