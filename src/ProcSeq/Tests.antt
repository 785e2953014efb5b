-- ===== src/ProcSeq/Tests.antt =====
-- The theorems on a list of two nodes, at the addresses 8 and 4, and on a heap that counts up.
use linux_learning_by_doing.Prelude.{
  ℕ, ◌+◌, ◌≤◌, ◌<◌, ◌≡◌, ◌↔◌, refl, ◌∷◌, [], map, length, get_elem?, true, false, Option, none,
  some, pos, arith,
}
use linux_learning_by_doing.ProcSeq.Format.{as_format}
use linux_learning_by_doing.ProcSeq.Nodes.{mydrv_list, Nodes, no_nodes, list_add_tail}
use linux_learning_by_doing.ProcSeq.Nodes.Chain.{
  Linked, Chain, no_nodes-Linked, list_add_tail-Linked,
}
use linux_learning_by_doing.ProcSeq.Iterator.{mydrv_seq_start, mydrv_seq_next, shown}
use linux_learning_by_doing.ProcSeq.Iterator.Walk.{Prints, start_after_next, read_from}
use linux_learning_by_doing.ProcSeq.Readme.{node_line}
use linux_learning_by_doing.ProcSeq.Window.{
  freed_after, loading_shows_prefix, unloading_gives_freed,
}
use linux_learning_by_doing.ProcSeq.Module.{
  Driver, build, label, mydrv_init, mydrv_init_cache, mydrv_exit,
}
use linux_learning_by_doing.ProcSeq.Module.Build.{
  from, init_builds_list, label_overflows, init_without_memory,
}
use linux_learning_by_doing.ProcSeq.Module.Unload.{exit_after_init, exit_frees_list}

abbrev two : Nodes
two = list_add_tail 4 (list_add_tail 8 no_nodes)

two-Linked : Linked two (8 ∷ 4 ∷ [])
two-Linked =
    list_add_tail-Linked (list_add_tail 8 no_nodes) (8 ∷ []) 4 (ground arith) (ground arith)
      (list_add_tail-Linked no_nodes [] 8 (ground arith) tt no_nodes-Linked)

two_start : mydrv_seq_start 3 two 0 ≡ some (some 8)
unfolding mydrv_seq_start list_add_tail
two_start = refl

start_after_next_example :
    (mydrv_seq_start 3 two 1 ≡ some (mydrv_seq_next two 8 0).0) × ((mydrv_seq_next two 8 0).1 ≡ 1)
start_after_next_example =
    start_after_next two (8 ∷ 4 ∷ []) 3 0 8 two-Linked (omega arith) two_start

-- Every node prints "A".
abbrev two_shown : Nodes
two_shown = record two { info = λ p. 65 ∷ 0 ∷ [] }

two_shown-Linked : Linked two_shown (8 ∷ 4 ∷ [])
two_shown-Linked = record {
  chain = two-Linked.chain;
  tail = two-Linked.tail;
  distinct = two-Linked.distinct;
}

two_shown-Prints : Prints two_shown (λ v. 65 ∷ []) (8 ∷ 4 ∷ [])
unfolding as_format
two_shown-Prints = (refl, (refl, tt))

read_from_test :
    (first : Option ℕ) × (mydrv_seq_start 3 two_shown 1 ≡ some first)
    × (shown 3 two_shown first 1 ≡ some ((65 ∷ []) ∷ []))
read_from_test =
    read_from two_shown (λ v. 65 ∷ []) (8 ∷ 4 ∷ []) 3 1 two_shown-Linked two_shown-Prints
      (omega arith)

label_overflows_test : ((12 < length (label 10)) ↔ (10 ≤ 10)) × (length (label 10) ≤ 13)
label_overflows_test = label_overflows 10 (omega arith)

init_builds_list_test :
    (d : Driver) × (mydrv_init true
        (λ i. some (i + 1))
        (record { nodes = no_nodes; readme = false; cache = false })
      ≡ some (pos 0, d))
    × Linked d.nodes (map (λ i. i + 1) (from 0 100))
    × (map d.nodes.info (map (λ i. i + 1) (from 0 100)) ≡ map label (from 0 100))
    × (d.readme ≡ true)
init_builds_list_test = init_builds_list (λ i. i + 1) (λ i e. omega arith) (λ i j lt e. omega arith)

init_without_memory_test :
    (mydrv_init true (λ i. none) (record { nodes = no_nodes; readme = false; cache = false })
      ≡ none)
    × (mydrv_init_cache true true
          (λ i. none)
          (record { nodes = no_nodes; readme = false; cache = false })
        ≡ none)
init_without_memory_test =
    init_without_memory (λ i. none) (record { nodes = no_nodes; readme = false; cache = false }) 5
      (omega arith) refl

exit_frees_list_test :
    (mydrv_exit 3 (record { nodes = two; readme = true; cache = false })
      ≡ some (8 ∷ 4 ∷ [], record { nodes = two; readme = false; cache = false }))
    × Chain two.next mydrv_list (8 ∷ 4 ∷ [])
exit_frees_list_test =
    exit_frees_list 3 (record { nodes = two; readme = true; cache = false }) (8 ∷ 4 ∷ []) two-Linked
      (omega arith)

exit_after_init_test :
    (loaded unloaded : Driver) × (mydrv_init true
        (λ i. some (i + 1))
        (record { nodes = no_nodes; readme = false; cache = false })
      ≡ some (pos 0, loaded))
    × (mydrv_exit 101 loaded ≡ some (map (λ i. i + 1) (from 0 100), unloaded))
    × (unloaded.readme ≡ false)
exit_after_init_test =
    exit_after_init (λ i. i + 1) 101 (λ i e. omega arith) (λ i j lt e. omega arith) (omega arith)

-- Two rounds of loading, and a reader from position 1 on.
loading_shows_prefix_example :
    (h : Nodes) × (build 2 0 (λ i. some (i + 1)) no_nodes ≡ some h)
    × ((first : Option ℕ) × (mydrv_seq_start 101 h 1 ≡ some first)
        × (shown 101 h first 1 ≡ some (node_line 1 ∷ [])))
loading_shows_prefix_example =
    loading_shows_prefix (λ i. i + 1) 2 1 (λ i e. omega arith) (λ i j lt e. omega arith)
      (omega arith)

unloading_gives_freed_test :
    (v : ℕ) × (mydrv_seq_start 3 two 0 ≡ some (some v))
    × (get_elem? (freed_after 1 two (two.next mydrv_list)) 0 ≡ some v)
unloading_gives_freed_test =
    unloading_gives_freed two (8 ∷ 4 ∷ []) 1 0 two-Linked (omega arith) (omega arith)
