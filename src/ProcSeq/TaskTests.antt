-- ===== src/ProcSeq/TaskTests.antt =====
-- Two processes at the addresses 16 and 32, in both states, and the slab cache of proc_seq_example3.c.
use linux_learning_by_doing.Prelude.{
  as_int, ◌%◌, ◌^◌, ℕ, ◌≤◌, ◌≡◌, ◌==◌, ◌||◌, refl, some, [], ◌∷◌, length, true, false, pos, map,
  ◌+◌, if◌then◌else◌, arith,
}
use linux_learning_by_doing.ProcSeq.Nodes.{no_nodes}
use linux_learning_by_doing.ProcSeq.Module.{Driver, mydrv_init_cache, mydrv_exit_cache}
use linux_learning_by_doing.ProcSeq.Module.Build.{from}
use linux_learning_by_doing.ProcSeq.Module.Unload.{exit_after_init_cache}
use linux_learning_by_doing.ProcSeq.Format.{as_format}
use linux_learning_by_doing.ProcSeq.Tasks.{Tasks, int_text, info_str, wild, read_tasks, cat_tasks}
use linux_learning_by_doing.ProcSeq.Tasks.Text.{line, int_value, info_str_fits}
use linux_learning_by_doing.ProcSeq.Tasks.Reads.{TaskChain, cat_lists_tasks, sleeping_task_faults}

-- `init_task` at 8; the states of the two are the argument
abbrev two_tasks : ℕ → Tasks
two_tasks state = record {
  init_task = 8;
  mydrv_list = 4;
  next_task = λ a. if a == 8 then 16 else if a == 16 then 32 else 8;
  pid = λ a. if a == 16 then 1 else 25;
  ppid = λ a. if a == 16 then 0 else 1;
  first_word = λ a. state;
  is_task = λ a. (a == 8) || (a == 16) || (a == 32);
}

two_tasks-TaskChain : (state : ℕ) → TaskChain (two_tasks state) 8 (16 ∷ 32 ∷ [])
two_tasks-TaskChain state = (refl, omega arith, refl, (refl, omega arith, refl, refl))

info_str_fits_example :
    (length (info_str 25 1) ≤ 40)
    × (as_format (info_str 25 1) ≡ some (line 25 1))
    × (int_value (int_text 25) ≡ as_int (25 % 2 ^ 32))
    × (int_value (int_text 1) ≡ as_int (1 % 2 ^ 32))
info_str_fits_example = info_str_fits 25 1

cat_lists_tasks_example :
    cat_tasks 3 4 (two_tasks 0) 0 ≡ some ((line 1 0 ∷ []) ∷ (line 25 1 ∷ []) ∷ [])
cat_lists_tasks_example =
    cat_lists_tasks (two_tasks 0) (16 ∷ 32 ∷ []) (two_tasks-TaskChain 0) (refl, (refl, tt))

sleeping_task_faults_example : read_tasks 4 (two_tasks 1) 0 ≡ wild 1
sleeping_task_faults_example =
    sleeping_task_faults (two_tasks 1) (16 ∷ 32 ∷ []) 0 16 (two_tasks-TaskChain 1) refl
      (omega arith) (omega arith) refl

exit_after_init_cache_test :
    (loaded unloaded : Driver) × (mydrv_init_cache true true
        (λ i. some (i + 1))
        (record { nodes = no_nodes; readme = false; cache = false })
      ≡ some (pos 0, loaded))
    × (loaded.cache ≡ true)
    × (mydrv_exit_cache 101 loaded ≡ some (map (λ i. i + 1) (from 0 100), unloaded))
    × (unloaded.cache ≡ false)
    × (unloaded.readme ≡ false)
exit_after_init_cache_test =
    exit_after_init_cache (λ i. i + 1) 101 (λ i e. omega arith) (λ i j lt e. omega arith)
      (omega arith)
