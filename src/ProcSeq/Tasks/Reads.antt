-- ===== src/ProcSeq/Tasks/Reads.antt =====
-- What reading /proc/readme of proc_seq_example2.c gives.
use linux_learning_by_doing.Prelude.{
  ℕ, zero, suc, ◌+◌, ◌≤◌, ◌≡◌, ◌≢◌, refl, ap, ◌∙◌, true, false, none, some, List, [], ◌∷◌, map,
  length, get_elem?, drop, drop-none, drop-some, arith, Option-cases, inl, inr, subst,
}
use linux_learning_by_doing.ProcSeq.Tasks.{
  null, Tasks, find_task, start_task, next_task_word, show_task, read_from_task, read_tasks,
  cat_tasks, shown, wild, formatted,
}
use linux_learning_by_doing.ProcSeq.Tasks.Text.{line, info_str_fits}

-- From `a` the links lead through these tasks, which are not `init_task`, back to it.
abbrev pub TaskChain : Tasks → ℕ → List ℕ → Type 0
TaskChain t a [] = t.next_task a ≡ t.init_task
TaskChain t a (x ∷ xs) =
    (t.next_task a ≡ x) × (x ≢ t.init_task) × (t.is_task x ≡ true) × TaskChain t x xs

-- The first word of each is 0, the state of a task that can run.
abbrev pub Running : Tasks → List ℕ → Type 0
Running t [] = Unit
Running t (x ∷ xs) = (t.first_word x ≡ 0) × Running t xs

abbrev pub task_line : Tasks → ℕ → List ℕ
task_line t v = line (t.pid v) (t.ppid v)

-- A call of `read` that gives this task alone
abbrev pub one_line : Tasks → ℕ → List (List ℕ)
one_line t v = task_line t v ∷ []

find_task-TaskChain :
    (t : Tasks) (a : ℕ) (xs : List ℕ) (fuel off pos : ℕ)
    → TaskChain t a xs
    → suc (length xs) ≤ fuel
    → find_task fuel t (t.next_task a) off (off + pos) ≡ some (get_elem? xs pos)
unfolding find_task
find_task-TaskChain t a [] (suc fuel) off pos c e = ground arith
find_task-TaskChain t a (x ∷ xs) (suc fuel) off zero c e = ground arith
find_task-TaskChain t a (x ∷ xs) (suc fuel) off (suc pos) c e =
    ground (arith, find_task-TaskChain t x xs fuel (off + 1) pos c.3 (omega arith))
find_task-TaskChain t a xs zero off pos c e = absurd (omega arith)

shown_task : (t : Tasks) (v : ℕ) → t.is_task v ≡ true → show_task true t v ≡ shown (task_line t v)
unfolding show_task
shown_task t v h = rw h (ap formatted ((info_str_fits (t.pid v) (t.ppid v)).1))

-- One call from a task that can run shows it alone.
read_running :
    (t : Tasks) (fuel v pos : ℕ)
    → t.is_task v ≡ true
    → t.first_word v ≡ 0
    → read_from_task (suc (suc fuel)) t (some v) pos ≡ shown (task_line t v ∷ [], pos + 1)
unfolding read_from_task next_task_word
read_running t fuel v pos h w = rw (read_from_task, shown_task t v h, w) (ground arith)

next_task_word_lem :
    (t : Tasks) (v pos : ℕ)
    → t.first_word v ≢ null
    → t.first_word v ≢ t.mydrv_list
    → next_task_word t v pos ≡ (some (t.first_word v), pos + 1)
unfolding next_task_word
next_task_word_lem t v pos n m = ground arith

read_faults :
    (t : Tasks) (fuel v pos : ℕ)
    → t.is_task v ≡ false
    → read_from_task (suc fuel) t (some v) pos ≡ wild v
unfolding read_from_task show_task
read_faults t fuel v pos w = rw (read_from_task, w) refl

-- One call from a task whose first word is the address of nothing
read_sleeping :
    (t : Tasks) (fuel v pos : ℕ)
    → t.is_task v ≡ true
    → t.first_word v ≢ null
    → t.first_word v ≢ t.mydrv_list
    → t.is_task (t.first_word v) ≡ false
    → read_from_task (suc (suc fuel)) t (some v) pos ≡ wild (t.first_word v)
unfolding read_from_task
read_sleeping t fuel v pos h n m w =
    rw
      (
        read_from_task,
        shown_task t v h,
        next_task_word_lem t v pos n m,
        read_faults t fuel (t.first_word v) (pos + 1) w,
      )
      refl

start_task_lem :
    (t : Tasks) (xs : List ℕ) (fuel pos : ℕ)
    → TaskChain t t.init_task xs
    → suc (length xs) ≤ fuel
    → start_task fuel t pos ≡ some (get_elem? xs pos)
unfolding start_task
start_task_lem t xs fuel pos c e =
    subst (λ q. find_task fuel t (t.next_task t.init_task) 0 q ≡ some (get_elem? xs pos))
      (omega arith) (find_task-TaskChain t t.init_task xs fuel 0 pos c e)

-- The tasks from a position on
TaskChain-get :
    (t : Tasks) (a : ℕ) (xs : List ℕ) (pos v : ℕ)
    → TaskChain t a xs
    → get_elem? xs pos ≡ some v
    → t.is_task v ≡ true
TaskChain-get t a [] pos v c g = ground arith
TaskChain-get t a (x ∷ xs) zero v c g = ground arith
TaskChain-get t a (x ∷ xs) (suc pos) v c g = TaskChain-get t x xs pos v c.3 g

Running-get :
    (t : Tasks) (xs : List ℕ) (pos v : ℕ)
    → Running t xs
    → get_elem? xs pos ≡ some v
    → t.first_word v ≡ 0
Running-get t [] pos v c g = ground arith
Running-get t (x ∷ xs) zero v c g = ground arith
Running-get t (x ∷ xs) (suc pos) v c g = Running-get t xs pos v c.1 g

read_at :
    (t : Tasks) (xs : List ℕ) (fuel pos v : ℕ)
    → TaskChain t t.init_task xs
    → Running t xs
    → suc (length xs) ≤ suc (suc fuel)
    → get_elem? xs pos ≡ some v
    → read_tasks (suc (suc fuel)) t pos ≡ shown (task_line t v ∷ [], pos + 1)
unfolding read_tasks
read_at t xs fuel pos v c r e g =
    rw (read_tasks, start_task_lem t xs (suc (suc fuel)) pos c e, g)
      (read_running t fuel v pos (TaskChain-get t t.init_task xs pos v c g)
        (Running-get t xs pos v r g))

read_end :
    (t : Tasks) (xs : List ℕ) (fuel pos : ℕ)
    → TaskChain t t.init_task xs
    → suc (length xs) ≤ suc fuel
    → get_elem? xs pos ≡ none
    → read_tasks (suc fuel) t pos ≡ shown ([], pos)
unfolding read_tasks read_from_task
read_end t xs fuel pos c e g = rw (read_tasks, start_task_lem t xs (suc fuel) pos c e, g) refl

cat_from :
    (t : Tasks) (xs : List ℕ) (fuel n pos : ℕ)
    → TaskChain t t.init_task xs
    → Running t xs
    → suc (length xs) ≤ suc (suc fuel)
    → suc (length (drop pos xs)) ≤ n
    → cat_tasks n (suc (suc fuel)) t pos ≡ some (map (one_line t) (drop pos xs))
unfolding cat_tasks
cat_from t xs fuel zero pos c r e k = absurd (omega arith)
cat_from t xs fuel (suc n) pos c r e k = elim (Option-cases (get_elem? xs pos)) [
  | inl stop ↦ rw (cat_tasks, read_end t xs (suc fuel) pos c e stop, drop-none xs pos stop) refl
  | inr (v, go) ↦
      let next : suc pos ≡ pos + 1 = omega arith in
      let d : drop pos xs ≡ v ∷ drop (pos + 1) xs =
        drop-some xs pos v go ∙ ap (λ q. v ∷ drop q xs) next in
      rw (cat_tasks, read_at t xs fuel pos v c r e go, d)
        (rw (cat_from t xs fuel n (pos + 1) c r e (omega (arith, k, ap length d))) refl)
]

-- The list of processes leads from `init_task` through these tasks back to it, and the first word of
-- each is 0: reading /proc/readme to its end (until a call gives nothing) takes one call for every task
-- but `init_task`, in the order of the list, and each gives exactly the line of its task; calls for one
-- more than the tasks are enough.
pub cat_lists_tasks :
    (t : Tasks) (xs : List ℕ)
    → TaskChain t t.init_task xs
    → Running t xs
    → cat_tasks (suc (length xs)) (suc (suc (length xs))) t 0 ≡ some (map (one_line t) xs)
cat_lists_tasks t xs c r =
    cat_from t xs (length xs) (suc (length xs)) 0 c r (omega arith) (omega arith)

-- If the task at a position of that list has a first word that is neither 0 nor the address of
-- `mydrv_list` nor that of a task, as that of a sleeping task is not, then a read from there gives this
-- word to `mydrv_seq_show` as the address of a task: `mydrv_seq_next` takes it for a link.
pub sleeping_task_faults :
    (t : Tasks) (xs : List ℕ) (pos v : ℕ)
    → TaskChain t t.init_task xs
    → get_elem? xs pos ≡ some v
    → t.first_word v ≢ null
    → t.first_word v ≢ t.mydrv_list
    → t.is_task (t.first_word v) ≡ false
    → read_tasks (suc (suc (length xs))) t pos ≡ wild (t.first_word v)
unfolding read_tasks
sleeping_task_faults t xs pos v c g n m w =
    rw (read_tasks, start_task_lem t xs (suc (suc (length xs))) pos c (omega arith), g)
      (read_sleeping t (length xs) v pos (TaskChain-get t t.init_task xs pos v c g) n m w)
