-- ===== src/SharedMemory/Tests.antt =====
-- The theorems at a run that stores two characters.
use linux_learning_by_doing.Prelude.{
  ◌⊎◌, ℕ, ◌+◌, ◌≤◌, ◌≡◌, refl, some, true, false, List, [], ◌∷◌, ◌++◌, length, arith,
}
use linux_learning_by_doing.SharedMemory.Processes.{
  empty_shmem, Producer, Consumer, System, initial, with_semaphore, store, is_full, p_scan, p_wait,
  p_store, p_load, p_count, p_post, Reach, start, later, ◌▷◌, c_wait, c_empty,
}
use linux_learning_by_doing.SharedMemory.Ring.{ring}
use linux_learning_by_doing.SharedMemory.Invariant.{p_in, c_in}
use linux_learning_by_doing.Fifo.{putting, getting, run, spec}
use linux_learning_by_doing.SharedMemory.Queue.{Keeps, chars, ring_runs_as_list}
use linux_learning_by_doing.SharedMemory.Token.{skips, CanMove, one_continue_stops}
use linux_learning_by_doing.SharedMemory.Invariant.{p_in, c_in}
use linux_learning_by_doing.SharedMemory.Safety.{
  shared_fifo, after_empty, empty_blocks_forever, count_update_lost,
}

abbrev fed : (s : System) × Reach true with_semaphore s
unfolding is_full store
fed = (
  _,
  (start
      ▷ p_scan 65 refl
      ▷ p_wait 65 refl refl (omega arith)
      ▷ p_store 65 refl refl
      ▷ p_load refl
      ▷ p_count 0 refl
      ▷ p_post refl),
)

shared_fifo_test :
    (items : List ℕ) × (p_in (fed.0).producer + c_in (fed.0).consumer ≤ 1)
    × (ring ((fed.0).shm).a ((fed.0).shm).in_ (length items) ≡ items)
    × (length items ≤ 50)
    × ((fed.0).stored ≡ (fed.0).printed ++ items)
shared_fifo_test = shared_fifo fed.1

empty_blocks_forever_test :
    Reach true with_semaphore (record after_empty { producer = Producer.wait 65 })
    × ((after_empty).sem ≡ 0)
    × ((after_empty).stored ≡ [])
    × ((after_empty).printed ≡ [])
empty_blocks_forever_test = empty_blocks_forever (later start (p_scan 65 refl))

count_update_lost_test :
    (s : System) × Reach false initial s
    × (s.producer ≡ Producer.scan)
    × (s.consumer ≡ Consumer.wait)
    × (s.stored ≡ 65 ∷ 66 ∷ [])
    × (s.printed ≡ 65 ∷ [])
    × ((s.shm).count ≡ 2)
count_update_lost_test = count_update_lost 65 66

empty-Keeps : Keeps empty_shmem []
empty-Keeps = record {
  size = refl;
  in_range = omega arith;
  next_out = refl;
  counted = refl;
  contents = refl;
}

put_got : spec chars (putting 65 ∷ putting 66 ∷ getting ∷ []) [] ≡ some (65 ∷ [], 66 ∷ [])
unfolding spec
put_got = refl

ring_runs_as_list_test :
    ((run chars (putting 65 ∷ putting 66 ∷ getting ∷ []) empty_shmem).0 ≡ 65 ∷ [])
    × Keeps (run chars (putting 65 ∷ putting 66 ∷ getting ∷ []) empty_shmem).1 (66 ∷ [])
ring_runs_as_list_test =
    ring_runs_as_list (putting 65 ∷ putting 66 ∷ getting ∷ []) empty_shmem [] (65 ∷ []) (66 ∷ [])
      empty-Keeps put_got

-- The consumer has found nothing to print.
skipped_once : Reach true with_semaphore after_empty
skipped_once = start ▷ c_wait refl refl (omega arith) ▷ c_empty refl refl

one_continue_stops_test :
    ((skips skipped_once ≡ 0) × CanMove after_empty)
    ⊎ ((skips skipped_once ≡ 1)
        × (after_empty.sem ≡ 0)
        × (p_in after_empty.producer ≡ 0)
        × (c_in after_empty.consumer ≡ 0))
one_continue_stops_test = one_continue_stops skipped_once
