-- ===== src/ProcSeq/Examples.antt =====
-- proc_seq_example1.c, proc_seq_example2.c and proc_seq_example3.c together: what they share, and what a reader gets
-- of the two that show the nodes.
use linux_learning_by_doing.Prelude.{
  ℕ, ◌<◌, ◌≡◌, ◌≢◌, Bool, true, false, Option, some, List, map, length, ℤ, pos,
}
use linux_learning_by_doing.ProcSeq.Nodes.{mydrv_list, Nodes, no_nodes}
use linux_learning_by_doing.ProcSeq.Iterator.{mydrv_seq_start, mydrv_seq_next, mydrv_seq_show}
use linux_learning_by_doing.ProcSeq.Module.{
  Driver, mydrv_init, mydrv_init_cache, mydrv_exit, mydrv_exit_cache,
}
use linux_learning_by_doing.ProcSeq.Module.Build.{from}
use linux_learning_by_doing.ProcSeq.Module.Unload.{init_cache-like}
use linux_learning_by_doing.ProcSeq.Readers.{ReadFile, main_test, Gives}
use linux_learning_by_doing.ProcSeq.Readme.{node_line, concat, Opens, readme_to_reader}

-- `struct seq_operations` over the nodes
pub record SeqOperations : Type 0 where
  pub start : ℕ → Nodes → ℕ → Option (Option ℕ)
  pub next : Nodes → ℕ → ℕ → Option ℕ × ℕ
  pub show : Nodes → ℕ → Option (List ℕ)

abbrev pub seq_operations1 : SeqOperations
seq_operations1 = record { start = mydrv_seq_start; next = mydrv_seq_next; show = mydrv_seq_show }

-- The functions of proc_seq_example3.c have the same text but for `dump_stack`.
abbrev pub seq_operations3 : SeqOperations
seq_operations3 = seq_operations1

-- Loading, with whether the entry of /proc is made and what the allocations answer, and unloading
pub record Module : Type 0 where
  pub init : Bool → (ℕ → Option ℕ) → Driver → Option (ℤ × Driver)
  pub exit : ℕ → Driver → Option (List ℕ × Driver)

abbrev pub module1 : Module
module1 = record { init = mydrv_init; exit = mydrv_exit }

-- Those of proc_seq_example2.c have the same text.
abbrev pub module2 : Module
module2 = module1

-- In proc_seq_example3.c, where the slab cache is made
abbrev pub module3 : Module
module3 = record { init = λ entry. mydrv_init_cache entry true; exit = mydrv_exit_cache }

-- The examples whose file shows the nodes
pub data Example : Type 0 where
  example1 example3 : Example

abbrev pub module_of : Example → Module
module_of example1 = module1
module_of example3 = module3

abbrev pub with_cache : Example → Driver → Driver
with_cache example1 d = d
with_cache example3 d = record d { cache = true }

abbrev pub not_loaded : Driver
not_loaded = record { nodes = no_nodes; readme = false; cache = false }

-- Loading proc_seq_example1.c or proc_seq_example3.c, where /proc/readme and the cache are made and each
-- allocation gives another address, and then proc_seq_test.c on the file, which the kernel serves
-- from the iterator in pieces of at most 11 bytes: the module is loaded, and the program ends with
-- status 0 and has written exactly the hundred lines in order.
pub examples_to_reader :
    (x : Example) {State : Type 0} (read_11 : ReadFile State) (Holds : State → List ℕ → Type 0)
    (open_file : Nodes → State) (address : ℕ → ℕ) (fuel : ℕ)
    → ((i : ℕ) → address i ≢ mydrv_list)
    → ((i j : ℕ) → i < j → address j ≢ address i)
    → Opens 101 open_file Holds
    → Gives read_11 Holds
    → length (concat (map node_line (from 0 100))) < fuel
    → (d : Driver) × ((module_of x).init true (λ i. some (address i)) not_loaded
        ≡ some (pos 0, with_cache x d))
      × (main_test read_11 fuel (some (open_file d.nodes))
          ≡ some (record { written = concat (map node_line (from 0 100)); status = 0 }))
examples_to_reader example1 read_11 Holds open_file address fuel a b o g le =
    readme_to_reader read_11 Holds open_file address fuel a b o g le
examples_to_reader example3 read_11 Holds open_file address fuel a b o g le =
    let (d, done, read) = readme_to_reader read_11 Holds open_file address fuel a b o g le in
    (d, init_cache-like (λ i. some (address i)) not_loaded d done, read)
