-- ===== src/Forks/Single.antt =====
-- Assignment/2_1/a2.c and a6.c and Assignment/2_2/a3.c: programs of one `fork`, one `kill`, or one compiler.
use linux_learning_by_doing.Prelude.{ℕ, ◌≡◌, refl, Bool, List, [], ◌∷◌, if◌then◌else◌}

-- What `fork` gives
pub data Fork : Type 0 where
  in_parent in_child failed : Fork

-- What is printed
pub data Line : Type 0 where
  inside_child inside_parent cannot_allocate : Line
  child_process parent_process error_in_execl : Line
  parent_killed kill_failed : Line
  ids : ℕ → ℕ → Line  -- the parent and the process

-- The end of a process: its lines and its status, or another program in its place after the lines
pub data End : Type 0 where
  exits : List Line → ℕ → End
  becomes_gcc : List Line → End

-- `main` of a2.c in either process
unfoldable pub main_fork_once : Fork → End
main_fork_once in_child = exits (inside_child ∷ []) 0
main_fork_once failed = exits (cannot_allocate ∷ []) 0
main_fork_once in_parent = exits (inside_parent ∷ []) 0

-- `main` of 2_2/a3.c, with whether `execl` succeeds. Where `ret` is not 0 it calls `waitpid`, whose answer
-- and status it does not look at.
unfoldable pub main_compile_once : Fork → Bool → End
main_compile_once in_child execl =
    if execl
    then becomes_gcc (child_process ∷ [])
    else exits (child_process ∷ error_in_execl ∷ []) 5
main_compile_once in_parent execl = exits (parent_process ∷ []) 0
main_compile_once failed execl = exits (parent_process ∷ []) 0

-- `main` of a6.c: the parent before `kill` and after it, and whether `kill` answers 0
unfoldable pub main_kill_parent : ℕ → ℕ → ℕ → Bool → End
main_kill_parent ppid ppid_after pid killed =
    exits (ids ppid pid ∷ (if killed then parent_killed else kill_failed) ∷ ids ppid_after pid ∷ [])
      0

-- a3.c prints and returns the same whether its `fork` fails or gives a child; a2.c tells the three cases
-- apart by what it prints, and never by its status.
failed_fork_unnoticed :
    (f : Fork) (execl : Bool)
    → (main_compile_once failed execl ≡ main_compile_once in_parent execl)
      × ((lines : List Line) × (main_fork_once f ≡ exits lines 0))
unfolding main_compile_once main_fork_once
failed_fork_unnoticed in_parent execl = (refl, (_, refl))
failed_fork_unnoticed in_child execl = (refl, (_, refl))
failed_fork_unnoticed failed execl = (refl, (_, refl))
