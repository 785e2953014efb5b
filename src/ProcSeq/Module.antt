-- ===== src/ProcSeq/Module.antt =====
-- proc_seq_example1.c and proc_seq_example3.c: loading and unloading the module.
pub mod Build
pub mod Unload
use linux_learning_by_doing.Prelude.{
  ℕ, zero, suc, ◌+◌, ◌/◌, ◌%◌, ◌==◌, ltb, Bool, true, false, Option, none, some, List, [], ◌∷◌,
  ◌++◌, ℤ, pos, neg, if◌then◌else◌,
}
use linux_learning_by_doing.ProcSeq.Nodes.{mydrv_list, Nodes, write, list_add_tail}

-- `%d` of a number that is not negative; an `int` has at most ten digits.
unfoldable pub decimal : ℕ → ℕ → List ℕ
decimal zero n = []
decimal (suc digits) n =
    let tens = decimal digits (n / 10) in
    if ltb n 10 then (48 + n) ∷ [] else tens ++ ((48 + n % 10) ∷ [])

-- What `sprintf(info, "Node No: %d\n", i)` stores, with the NUL at its end.
unfoldable pub label : ℕ → List ℕ
unfolding decimal
label i = 78 ∷ 111 ∷ 100 ∷ 101 ∷ 32 ∷ 78 ∷ 111 ∷ 58 ∷ 32 ∷ (decimal 10 i ++ (10 ∷ 0 ∷ []))

-- The list, whether /proc/readme is there, and whether the slab cache of proc_seq_example3.c is.
pub record Driver : Type 0 where
  pub nodes : Nodes
  pub readme : Bool
  pub cache : Bool

-- <errno.h>
abbrev pub enomem : ℕ
enomem = 12

abbrev pub einval : ℕ
einval = 22

-- The loop of `mydrv_init` from `i` on, with what `kmalloc` answers in each round. `none`: `sprintf` has
-- written through a NULL pointer.
pub build : ℕ → ℕ → (ℕ → Option ℕ) → Nodes → Option Nodes
unfolding label list_add_tail
build zero i kmalloc h = some h
build (suc n) i kmalloc h = elim (kmalloc i) [
  | none ↦ none
  | some p ↦
      build n (i + 1) kmalloc (list_add_tail p (record h { info = write h.info p (label i) }))
]

-- Whether `create_proc_entry` gives an entry; the status and the driver. `none` as in `build`.
pub mydrv_init : Bool → (ℕ → Option ℕ) → Driver → Option (ℤ × Driver)
mydrv_init entry kmalloc d = elim entry [
  | false ↦ some (neg einval, d)
  | true ↦ elim (build 100 0 kmalloc d.nodes) [
    | none ↦ none
    | some h ↦ some (pos 0, record d { nodes = h; readme = true })
  ]
]

-- The same of proc_seq_example3.c, where the nodes come from a slab cache.
pub mydrv_init_cache : Bool → Bool → (ℕ → Option ℕ) → Driver → Option (ℤ × Driver)
mydrv_init_cache entry cache kmem_cache_alloc d = elim entry [
  | false ↦ some (neg einval, d)
  | true ↦ elim cache [
    | false ↦ some (neg enomem, record d { readme = true })
    | true ↦ elim (build 100 0 kmem_cache_alloc d.nodes) [
      | none ↦ none
      | some h ↦ some (pos 0, record { nodes = h; readme = true; cache = true })
    ]
  ]
]

-- `list_for_each_entry_safe(p, n, &mydrv_list, list) kfree(p);` with what it has freed. `none`: out of
-- fuel.
pub free_nodes : ℕ → Nodes → ℕ → ℕ → List ℕ → Option (List ℕ)
free_nodes zero h p n freed = none
free_nodes (suc fuel) h p n freed =
    let others = free_nodes fuel h n (h.next n) (freed ++ (p ∷ [])) in
    if p == mydrv_list then some freed else others

pub mydrv_exit : ℕ → Driver → Option (List ℕ × Driver)
mydrv_exit fuel d =
    let p = d.nodes.next mydrv_list in
    elim (free_nodes fuel d.nodes p (d.nodes.next p) []) [
      | none ↦ none
      | some freed ↦ some (freed, record d { readme = false })
    ]

-- The same of proc_seq_example3.c, which gives the nodes back to the slab cache and destroys it.
pub mydrv_exit_cache : ℕ → Driver → Option (List ℕ × Driver)
mydrv_exit_cache fuel d =
    let p = d.nodes.next mydrv_list in
    elim (free_nodes fuel d.nodes p (d.nodes.next p) []) [
      | none ↦ none
      | some freed ↦ some (freed, record d { cache = false; readme = false })
    ]
