-- ===== src/ProcSeq/Tasks.antt =====
-- proc_seq_example2.c: /proc/readme over the list of processes.
pub mod Text
pub mod Reads
use linux_learning_by_doing.Prelude.{
  ℕ, zero, suc, ◌+◌, ◌-◌, ◌%◌, ◌^◌, ltb, ◌==◌, Bool, true, false, Option, none, some, List, [], ◌∷◌,
  ◌++◌, if◌then◌else◌,
}
use linux_learning_by_doing.ProcSeq.Format.{as_format}
use linux_learning_by_doing.ProcSeq.Module.{decimal}

-- Addresses; NULL is 0, and the others are the kernel's.
abbrev pub null : ℕ
null = 0

-- The list of processes from `init_task` on, `mydrv_list`, what a `struct task_struct` holds at an
-- address, with its first word, and whether there is one.
pub record Tasks : Type 0 where
  pub init_task : ℕ
  pub mydrv_list : ℕ
  pub next_task : ℕ → ℕ
  pub pid : ℕ → ℕ
  pub ppid : ℕ → ℕ
  pub first_word : ℕ → ℕ
  pub is_task : ℕ → Bool

-- `for_each_process` of `mydrv_seq_start` from the task `p` on, with `off` counted so far. The outer
-- `none`: out of fuel. The inner one is NULL.
unfoldable pub find_task : ℕ → Tasks → ℕ → ℕ → ℕ → Option (Option ℕ)
find_task zero t p off pos = none
find_task (suc fuel) t p off pos =
    let later = find_task fuel t (t.next_task p) (off + 1) pos in
    if p == t.init_task then some none else if pos == off then some (some p) else later

unfoldable pub start_task : ℕ → Tasks → ℕ → Option (Option ℕ)
start_task fuel t pos = find_task fuel t (t.next_task t.init_task) 0 pos

-- The old `mydrv_seq_next`, which reads the first word of what it is given as `list.next`; `list` is at
-- offset 0. The iterator, or NULL, and `*pos`.
unfoldable pub next_task_word : Tasks → ℕ → ℕ → Option ℕ × ℕ
next_task_word t v pos =
    let n = t.first_word v in
    (if n == t.mydrv_list then none else if n == null then none else some n, pos + 1)

-- `%d` of an `int`, which is a word of 32 bits
unfoldable pub int_text : ℕ → List ℕ
int_text n =
    let w = n % 2 ^ 32 in if ltb w (2 ^ 31) then decimal 10 w else (45 ∷ decimal 10 (2 ^ 32 - w))

-- What `sprintf(info_str, "pid is %d ppid is %d\n", p->pid, p->ppid)` stores, with the NUL at its end.
unfoldable pub info_str : ℕ → ℕ → List ℕ
info_str pid ppid =
    112
    ∷ 105
    ∷ 100
    ∷ 32
    ∷ 105
    ∷ 115
    ∷ 32
    ∷ (int_text pid
        ++ (32 ∷ 112 ∷ 112 ∷ 105 ∷ 100 ∷ 32 ∷ 105 ∷ 115 ∷ 32 ∷ (int_text ppid ++ (10 ∷ 0 ∷ []))))

-- What showing a task, or a whole call of `read`, comes to. `wild`: the code has used this address as a task's,
-- or as that of a buffer, and there is none; what happens then is not modelled.
pub data Shown (A : Type 0) : Type 0 where
  shown : A → Shown A
  wild : ℕ → Shown A
  no_argument : Shown A  -- a format asks for an argument that is not there
  no_fuel : Shown A

abbrev pub formatted : Option (List ℕ) → Shown (List ℕ)
formatted none = no_argument
formatted (some line) = shown line

-- `mydrv_seq_show` of what it is given as a task, with whether `kmalloc` gives memory.
unfoldable pub show_task : Bool → Tasks → ℕ → Shown (List ℕ)
show_task kmalloc t v =
    if t.is_task v
    then (if kmalloc then formatted (as_format (info_str (t.pid v) (t.ppid v))) else wild null)
    else wild v

abbrev after_line : Shown (List ℕ) → Shown (List (List ℕ) × ℕ) → Shown (List (List ℕ) × ℕ)
after_line (shown line) (shown (lines, end_)) = shown (line ∷ lines, end_)
after_line (shown line) (wild v) = wild v
after_line (shown line) no_argument = no_argument
after_line (shown line) no_fuel = no_fuel
after_line (wild v) rest = wild v
after_line no_argument rest = no_argument
after_line no_fuel rest = no_fuel

-- One call of `read`, by the protocol of `seq_read`, from the iterator on: what is shown, and the
-- position for the next call. The fuel bounds the shown items.
unfoldable pub read_from_task : ℕ → Tasks → Option ℕ → ℕ → Shown (List (List ℕ) × ℕ)
read_from_task zero t v pos = no_fuel
read_from_task (suc fuel) t none pos = shown ([], pos)
read_from_task (suc fuel) t (some v) pos =
    let (v', pos') = next_task_word t v pos in
    after_line (show_task true t v) (read_from_task fuel t v' pos')

unfoldable pub read_tasks : ℕ → Tasks → ℕ → Shown (List (List ℕ) × ℕ)
read_tasks fuel t pos = elim (start_task fuel t pos) [
  | none ↦ no_fuel
  | some v ↦ read_from_task fuel t v pos
]

-- Calls of `read` until one gives nothing, as `cat` makes them, with the lines that each call gives; the
-- first fuel bounds the calls.
unfoldable pub cat_tasks : ℕ → ℕ → Tasks → ℕ → Option (List (List (List ℕ)))
cat_tasks zero fuel t pos = none
cat_tasks (suc calls) fuel t pos = elim (read_tasks fuel t pos) [
  | shown ([], end_) ↦ some []
  | shown (line ∷ lines, end_) ↦ elim (cat_tasks calls fuel t end_) [
    | none ↦ none
    | some rest ↦ some ((line ∷ lines) ∷ rest)
  ]
  | wild v ↦ none
  | no_argument ↦ none
  | no_fuel ↦ none
]
