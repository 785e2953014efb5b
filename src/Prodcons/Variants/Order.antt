-- ===== src/Prodcons/Variants/Order.antt =====
-- What the threads of all four programs keep.
use linux_learning_by_doing.Prelude.{ℕ, ◌+◌, ◌≤◌, ◌≡◌, List, ◌++◌, length, pos, neg}
use linux_learning_by_doing.Prodcons.Buffer.Ring.{Keeps}
use linux_learning_by_doing.Prodcons.Threads.{System, initial, Reach, start, later}
use linux_learning_by_doing.Prodcons.Invariant.Places.{p_data, c_data, d_data}
use linux_learning_by_doing.Prodcons.Safety.{buffer_fifo, buffer_exclusion}
use linux_learning_by_doing.Prodcons.Variants.{
  Variant, threads, threads1, threads2, threads3, StepOf,
}

pub data ReachIn (v : Variant) : System → Type 0 where
  begin : ReachIn v initial
  next : {s t : System} → ReachIn v s → StepOf v s t → ReachIn v t

same_reach : (v : Variant) {s : System} → ReachIn v s → Reach s
same_reach v begin = start
same_reach threads (next r p) = later (same_reach threads r) p
same_reach threads1 (next r p) = later (same_reach threads1 r) p
same_reach threads2 (next r p) = later (same_reach threads2 r) p
same_reach threads3 (next r p) = later (same_reach threads3 r) p

-- In each of the four programs, in every reachable state the slots hold a list of at most five items,
-- oldest first; what was put is, in order, what was got and then these items; `filledslots` is their
-- number and `freeslots` its negation; and at most one thread is between lock and unlock of
-- `data_buffer_lock`, where `display_status_thread` of prodcons_threads2.c prints both.
pub variants_fifo :
    (v : Variant) {s : System}
    → ReachIn v s
    → (items : List (List ℕ)) × Keeps s.buffer items
      × (length items ≤ 5)
      × (s.put ≡ s.got ++ items)
      × (s.buffer.filledslots ≡ pos (length items))
      × (s.buffer.freeslots ≡ neg (length items))
      × (p_data s.producer + c_data s.consumer + d_data s.display ≤ 1)
variants_fifo v r =
    let q = same_reach v r in
    let (items, k, few, order, filled, free) = buffer_fifo q in
    (items, k, few, order, filled, free, (buffer_exclusion q).1)
