-- ===== src/ProcSeq/Module/Unload.antt =====
-- What unloading frees.
use linux_learning_by_doing.Prelude.{
  ℕ, zero, suc, ◌≤◌, ◌<◌, ◌≡◌, ◌≢◌, refl, true, false, Option, some, List, [], ◌∷◌, ◌++◌,
  append_assoc, append-nil, map, length, pos, arith,
}
use linux_learning_by_doing.ProcSeq.Nodes.{mydrv_list, Nodes, no_nodes}
use linux_learning_by_doing.ProcSeq.Nodes.Chain.{Chain, Linked}
use linux_learning_by_doing.ProcSeq.Module.{
  Driver, free_nodes, mydrv_init, mydrv_init_cache, mydrv_exit, mydrv_exit_cache,
}
use linux_learning_by_doing.ProcSeq.Module.Build.{from, init_builds_list, init_cache_builds_list}

free_nodes-Chain :
    (fuel : ℕ) (h : Nodes) (a : ℕ) (xs freed : List ℕ)
    → Chain h.next a xs
    → suc (length xs) ≤ fuel
    → free_nodes fuel h (h.next a) (h.next (h.next a)) freed ≡ some (freed ++ xs)
unfolding free_nodes
free_nodes-Chain zero h a xs freed c le = absurd (omega arith)
free_nodes-Chain (suc fuel) h a [] freed c le = rw (c, append-nil freed) refl
free_nodes-Chain (suc fuel) h a (x ∷ xs) freed c le = ground (
  arith,
  free_nodes-Chain fuel h x xs (freed ++ (x ∷ [])) c.2 (omega arith),
  append_assoc freed (x ∷ []) xs,
)

-- On a list of these nodes `mydrv_exit` ends, frees each node once, in the order of the list, and takes
-- /proc/readme away; the links, also that of the head, still lead to the freed nodes.
pub exit_frees_list :
    (fuel : ℕ) (d : Driver) (xs : List ℕ)
    → Linked d.nodes xs
    → suc (length xs) ≤ fuel
    → (mydrv_exit fuel d ≡ some (xs, record d { readme = false }))
      × Chain d.nodes.next mydrv_list xs
unfolding mydrv_exit
exit_frees_list fuel d xs k le =
    (rw (mydrv_exit, free_nodes-Chain fuel d.nodes mydrv_list xs [] k.chain le) refl, k.chain)

-- Where /proc/readme is created and `kmalloc` gives distinct addresses, loading succeeds, and unloading
-- ends, frees every node that was allocated, once, in the order of allocation, and takes /proc/readme
-- away.
pub exit_after_init :
    (address : ℕ → ℕ) (fuel : ℕ)
    → ((i : ℕ) → address i ≢ mydrv_list)
    → ((i j : ℕ) → i < j → address j ≢ address i)
    → 100 < fuel
    → (loaded unloaded : Driver) × (mydrv_init true
          (λ i. some (address i))
          (record { nodes = no_nodes; readme = false; cache = false })
        ≡ some (pos 0, loaded))
      × (mydrv_exit fuel loaded ≡ some (map address (from 0 100), unloaded))
      × (unloaded.readme ≡ false)
exit_after_init address fuel on_heap fresh le =
    let (d, done, linked, infos, shown) = init_builds_list address on_heap fresh in
    (
      d,
      record d { readme = false },
      done,
      (exit_frees_list fuel d (map address (from 0 100)) linked (omega arith)).0,
      refl,
    )

-- In proc_seq_example3.c, where /proc/readme and the slab cache are created and the cache gives distinct
-- addresses: loading succeeds, and unloading ends, gives every node back once, in the order of
-- allocation, and leaves neither the cache nor /proc/readme.
pub exit_after_init_cache :
    (address : ℕ → ℕ) (fuel : ℕ)
    → ((i : ℕ) → address i ≢ mydrv_list)
    → ((i j : ℕ) → i < j → address j ≢ address i)
    → 100 < fuel
    → (loaded unloaded : Driver) × (mydrv_init_cache true true
          (λ i. some (address i))
          (record { nodes = no_nodes; readme = false; cache = false })
        ≡ some (pos 0, loaded))
      × (loaded.cache ≡ true)
      × (mydrv_exit_cache fuel loaded ≡ some (map address (from 0 100), unloaded))
      × (unloaded.cache ≡ false)
      × (unloaded.readme ≡ false)
unfolding mydrv_exit_cache
exit_after_init_cache address fuel on_heap fresh le =
    let (d, done, linked, cached) = init_cache_builds_list address on_heap fresh in
    (
      d,
      record d { cache = false; readme = false },
      done,
      cached,
      rw
          (
            mydrv_exit_cache,
            free_nodes-Chain fuel d.nodes mydrv_list (map address (from 0 100)) [] linked.chain
                (omega arith),
          )
          refl,
      refl,
      refl,
    )

-- With its cache, the module of proc_seq_example3.c is loaded as that of proc_seq_example1.c.
pub init_cache-like :
    (alloc : ℕ → Option ℕ) (d d' : Driver)
    → mydrv_init true alloc d ≡ some (pos 0, d')
    → mydrv_init_cache true true alloc d ≡ some (pos 0, record d' { cache = true })
unfolding mydrv_init mydrv_init_cache
init_cache-like alloc d d' e = ground arith
