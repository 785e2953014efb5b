-- ===== src/ProcSeq/Module/Build.antt =====
-- What loading builds.
use linux_learning_by_doing.Prelude.{
  ℕ, zero, suc, ◌+◌, ◌≤◌, ◌<◌, ◌≡◌, ◌≢◌, ◌↔◌, refl, sym, ap, ap₂, ◌∙◌, subst, true, false, Option,
  none, some, List, [], ◌∷◌, ◌++◌, map, append_assoc, append-nil, length, pos, arith, Option-cases,
  inl, inr,
}
use linux_learning_by_doing.ProcSeq.Nodes.{mydrv_list, Nodes, no_nodes, write, list_add_tail}
use linux_learning_by_doing.ProcSeq.Nodes.Chain.{
  Apart, Apart-append, Linked, no_nodes-Linked, list_add_tail-Linked,
}
use linux_learning_by_doing.ProcSeq.Module.{
  Driver, decimal, label, build, mydrv_init, mydrv_init_cache,
}

-- `i`, `i + 1` and so on, `n` of them
abbrev pub from : ℕ → ℕ → List ℕ
from i zero = []
from i (suc n) = i ∷ from (i + 1) n

-- `info` has 12 bytes. Of the hundred labels, those from `i = 10` on need 13, and no label more.
pub label_overflows :
    (i : ℕ) → i < 100 → ((12 < length (label i)) ↔ (10 ≤ i)) × (length (label i) ≤ 13)
unfolding label decimal
label_overflows i h = ground arith

map-write-Apart :
    (m : ℕ → List ℕ) (p : ℕ) (v : List ℕ) (xs : List ℕ)
    → Apart p xs
    → map (write m p v) xs ≡ map m xs
map-write-Apart m p v [] h = refl
map-write-Apart m p v (x ∷ xs) h = ap₂ ◌∷◌ (ground arith) (map-write-Apart m p v xs h.1)

-- One round of the loop.
add_node : ℕ → ℕ → Nodes → Nodes
add_node i p h = list_add_tail p (record h { info = write h.info p (label i) })

add_node-Linked :
    (i p : ℕ) (h : Nodes) (xs : List ℕ)
    → p ≢ mydrv_list
    → Apart p xs
    → Linked h xs
    → Linked (add_node i p h) (xs ++ (p ∷ []))
unfolding add_node
add_node-Linked i p h xs ne apart k =
    list_add_tail-Linked (record h { info = write h.info p (label i) }) xs p ne apart
      (record { chain = k.chain; tail = k.tail; distinct = k.distinct })

add_node-info :
    (i p : ℕ) (h : Nodes) (xs : List ℕ)
    → Apart p xs
    → map (add_node i p h).info (xs ++ (p ∷ [])) ≡ map h.info xs ++ (label i ∷ [])
unfolding add_node list_add_tail
add_node-info i p h [] apart = ap (λ l. l ∷ []) (ground arith)
add_node-info i p h (x ∷ xs) apart = ap₂ ◌∷◌ (ground arith) (add_node-info i p h xs apart.1)

module _ (address : ℕ → ℕ) (on_heap : (i : ℕ) → address i ≢ mydrv_list)
    (fresh : (i j : ℕ) → i < j → address j ≢ address i) where
  build-Linked :
      (n i : ℕ) (h : Nodes) (xs : List ℕ) (labels : List (List ℕ))
      → Linked h xs
      → map h.info xs ≡ labels
      → ((j : ℕ) → i ≤ j → Apart (address j) xs)
      → (h' : Nodes) × (build n i (λ j. some (address j)) h ≡ some h')
        × Linked h' (xs ++ map address (from i n))
        × (map h'.info (xs ++ map address (from i n)) ≡ labels ++ map label (from i n))
  unfolding build add_node
  build-Linked zero i h xs labels k e apart =
      (h, refl, rw (append-nil xs) k, rw (append-nil xs) (rw (append-nil labels) e))
  build-Linked (suc n) i h xs labels k e apart =
      let (h', done, linked, infos) =
        build-Linked n (i + 1) (add_node i (address i) h) (xs ++ (address i ∷ []))
          (labels ++ (label i ∷ []))
          (add_node-Linked i (address i) h xs (on_heap i) (apart i (omega arith)) k)
          (add_node-info i (address i) h xs (apart i (omega arith))
            ∙ ap (λ l. l ++ (label i ∷ [])) e)
          (λ j le.
            Apart-append (address j) xs (address i) (fresh i j (omega arith))
              (apart j (omega arith))) in
      let nodes = append_assoc xs (address i ∷ []) (map address (from (i + 1) n)) in
      (
        h',
        done,
        subst (Linked h') nodes linked,
        sym (ap (map h'.info) nodes)
            ∙ infos
            ∙ append_assoc labels (label i ∷ []) (map label (from (i + 1) n)),
      )

-- The list after the first `n` rounds
pub rounds_build_list :
    (address : ℕ → ℕ) (n : ℕ)
    → ((i : ℕ) → address i ≢ mydrv_list)
    → ((i j : ℕ) → i < j → address j ≢ address i)
    → (h : Nodes) × (build n 0 (λ j. some (address j)) no_nodes ≡ some h)
      × Linked h (map address (from 0 n))
      × (map h.info (map address (from 0 n)) ≡ map label (from 0 n))
rounds_build_list address n on_heap fresh =
    build-Linked address on_heap fresh n 0 no_nodes [] [] no_nodes-Linked refl (λ j le. tt)

-- Loading, where /proc/readme is created and `kmalloc` gives distinct addresses: `mydrv_init` succeeds,
-- and the list holds a hundred nodes in the order of the calls, the i-th with the label of i.
pub init_builds_list :
    (address : ℕ → ℕ)
    → ((i : ℕ) → address i ≢ mydrv_list)
    → ((i j : ℕ) → i < j → address j ≢ address i)
    → (d : Driver) × (mydrv_init true
          (λ i. some (address i))
          (record { nodes = no_nodes; readme = false; cache = false })
        ≡ some (pos 0, d))
      × Linked d.nodes (map address (from 0 100))
      × (map d.nodes.info (map address (from 0 100)) ≡ map label (from 0 100))
      × (d.readme ≡ true)
unfolding mydrv_init
init_builds_list address on_heap fresh =
    let (h, done, linked, infos) = rounds_build_list address 100 on_heap fresh in
    (
      record { nodes = h; readme = true; cache = false },
      rw (mydrv_init, done) refl,
      linked,
      infos,
      refl,
    )

-- The same of proc_seq_example3.c, whose slab cache is there afterwards.
pub init_cache_builds_list :
    (address : ℕ → ℕ)
    → ((i : ℕ) → address i ≢ mydrv_list)
    → ((i j : ℕ) → i < j → address j ≢ address i)
    → (d : Driver) × (mydrv_init_cache true true
          (λ i. some (address i))
          (record { nodes = no_nodes; readme = false; cache = false })
        ≡ some (pos 0, d))
      × Linked d.nodes (map address (from 0 100))
      × (d.cache ≡ true)
unfolding mydrv_init_cache
init_cache_builds_list address on_heap fresh =
    let (h, done, linked, infos) = rounds_build_list address 100 on_heap fresh in
    (
      record { nodes = h; readme = true; cache = true },
      rw (mydrv_init_cache, done) refl,
      linked,
      refl,
    )

at_start : (i : ℕ) (kmalloc : ℕ → Option ℕ) → kmalloc (i + 0) ≡ none → kmalloc i ≡ none
at_start i kmalloc e = ap kmalloc (omega arith) ∙ e

build-null :
    (n i : ℕ) (kmalloc : ℕ → Option ℕ) (h : Nodes) (j : ℕ)
    → j < n
    → kmalloc (i + j) ≡ none
    → build n i kmalloc h ≡ none
unfolding build
build-null zero i kmalloc h j lt e = absurd (omega arith)
build-null (suc n) i kmalloc h zero lt e = rw (build, at_start i kmalloc e) refl
build-null (suc n) i kmalloc h (suc j) lt e = elim (Option-cases (kmalloc i)) [
  | inl null ↦ rw (build, null) refl
  | inr (p, e') ↦
      rw (build, e') (build-null n (i + 1) kmalloc _ j (omega arith) (ap kmalloc (omega arith) ∙ e))
]

-- When one of the hundred allocations gives NULL, `mydrv_init` does not fail with a status: it writes
-- through the NULL pointer. So does that of proc_seq_example3.c, once it has its cache.
pub init_without_memory :
    (kmalloc : ℕ → Option ℕ) (d : Driver) (j : ℕ)
    → j < 100
    → kmalloc j ≡ none
    → (mydrv_init true kmalloc d ≡ none) × (mydrv_init_cache true true kmalloc d ≡ none)
unfolding mydrv_init mydrv_init_cache
init_without_memory kmalloc d j lt e =
    let stop = build-null 100 0 kmalloc d.nodes j lt (ap kmalloc (omega arith) ∙ e) in
    (rw (mydrv_init, stop) refl, rw (mydrv_init_cache, stop) refl)
