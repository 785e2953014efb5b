-- ===== src/ProcSeq/Window.antt =====
-- proc_seq_example1.c: what a reader of /proc/readme gets while the module is being loaded or unloaded, since the
-- file is there before the list is filled and until after it is freed.
use linux_learning_by_doing.Prelude.{
  ℕ, zero, suc, ◌+◌, ◌≤◌, ◌<◌, ◌≡◌, ◌≢◌, refl, sym, ap, ◌∙◌, Option, some, List, [], ◌∷◌, map,
  length, length-map, take, drop, get_elem?, ◌==◌, if◌then◌else◌, arith,
}
use linux_learning_by_doing.ProcSeq.Nodes.{mydrv_list, Nodes, no_nodes}
use linux_learning_by_doing.ProcSeq.Nodes.Chain.{Chain, Linked}
use linux_learning_by_doing.ProcSeq.Iterator.{mydrv_seq_start, shown}
use linux_learning_by_doing.ProcSeq.Iterator.Walk.{read_from, start-Chain}
use linux_learning_by_doing.ProcSeq.Module.{build}
use linux_learning_by_doing.ProcSeq.Module.Build.{from, rounds_build_list}
use linux_learning_by_doing.ProcSeq.Readme.{node_line, line_at, lines-labels}

length-from : (i n : ℕ) → length (from i n) ≡ n
length-from i zero = refl
length-from i (suc n) = ap suc (length-from (i + 1) n)

map-drop : {A B : Type 0} (f : A → B) (n : ℕ) (xs : List A) → map f (drop n xs) ≡ drop n (map f xs)
map-drop f zero xs = refl
map-drop f (suc n) [] = refl
map-drop f (suc n) (x ∷ xs) = map-drop f n xs

-- After `n` of the hundred rounds of `mydrv_init`, where `kmalloc` gives distinct addresses: a reader that
-- starts at any position gets exactly the lines of the nodes that are there from that position on, in
-- order, and then the end.
pub loading_shows_prefix :
    (address : ℕ → ℕ) (n pos : ℕ)
    → ((i : ℕ) → address i ≢ mydrv_list)
    → ((i j : ℕ) → i < j → address j ≢ address i)
    → n ≤ 100
    → (h : Nodes) × (build n 0 (λ i. some (address i)) no_nodes ≡ some h)
      × ((first : Option ℕ) × (mydrv_seq_start 101 h pos ≡ some first)
          × (shown 101 h first pos ≡ some (map node_line (drop pos (from 0 n)))))
loading_shows_prefix address n pos on_heap fresh le =
    let (h, done, linked, infos) = rounds_build_list address n on_heap fresh in
    let (p, l) = lines-labels h (map address (from 0 n)) (from 0 n) infos in
    let (first, at, lines) =
      read_from h (line_at h) (map address (from 0 n)) 101 pos linked p
        (rw (length-map (from 0 n) address, length-from 0 n) (omega arith)) in
    (
      h,
      done,
      (
        first,
        at,
        lines
            ∙ ap some (
                map-drop (line_at h) pos (map address (from 0 n))
                ∙ ap (drop pos) l
                ∙ sym (map-drop node_line pos (from 0 n))),
      ),
    )

-- The nodes that the first `n` rounds of `list_for_each_entry_safe` in `mydrv_exit` free, from the node `p` on.
-- `kfree` leaves the links as they are.
pub freed_after : ℕ → Nodes → ℕ → List ℕ
freed_after zero h p = []
freed_after (suc n) h p =
    let others = freed_after n h (h.next p) in if p == mydrv_list then [] else p ∷ others

freed-Chain :
    (n : ℕ) (h : Nodes) (a : ℕ) (xs : List ℕ)
    → Chain h.next a xs
    → freed_after n h (h.next a) ≡ take n xs
unfolding freed_after
freed-Chain zero h a xs c = refl
freed-Chain (suc n) h a [] c = ground arith
freed-Chain (suc n) h a (x ∷ xs) c = ground (arith, freed-Chain n h x xs c.2)

get_elem-take :
    (n pos : ℕ) (xs : List ℕ)
    → pos < n
    → n ≤ length xs
    → (v : ℕ) × (get_elem? xs pos ≡ some v) × (get_elem? (take n xs) pos ≡ some v)
get_elem-take zero pos xs lt le = absurd (omega arith)
get_elem-take (suc n) pos [] lt le = absurd (omega arith)
get_elem-take (suc n) zero (x ∷ xs) lt le = (x, refl, refl)
get_elem-take (suc n) (suc pos) (x ∷ xs) lt le = get_elem-take n pos xs (omega arith) (omega arith)

-- On a list of these nodes, after `n` rounds of the loop of `mydrv_exit`, while /proc/readme is still there: a
-- reader that starts at any of the first `n` positions is given a node that has been freed.
pub unloading_gives_freed :
    (h : Nodes) (xs : List ℕ) (n pos : ℕ)
    → Linked h xs
    → pos < n
    → n ≤ length xs
    → (v : ℕ) × (mydrv_seq_start (suc (length xs)) h pos ≡ some (some v))
      × (get_elem? (freed_after n h (h.next mydrv_list)) pos ≡ some v)
unloading_gives_freed h xs n pos k lt le =
    let (v, at, freed) = get_elem-take n pos xs lt le in
    (
      v,
      start-Chain h xs (suc (length xs)) pos k (omega arith) ∙ ap some at,
      ap (λ l. get_elem? l pos) (freed-Chain n h mydrv_list xs k.chain) ∙ freed,
    )
