-- ===== src/SharedMemory/Safety.antt =====
-- The theorems on the two processes as a whole.
use linux_learning_by_doing.Prelude.{
  ℕ, ◌+◌, ◌≤◌, ◌≡◌, refl, true, false, List, [], ◌∷◌, ◌++◌, length, arith,
}
use linux_learning_by_doing.SharedMemory.Processes.{
  is_full, store, advance, Producer, Consumer, System, initial, with_semaphore, Step, p_scan,
  p_wait, p_no_wait, p_full, p_store, p_load, p_count, p_post, c_wait, c_no_wait, c_empty, c_print,
  c_load, c_count, c_post, Reach, start, later, ◌▷◌,
}
use linux_learning_by_doing.SharedMemory.Ring.{ring}
use linux_learning_by_doing.SharedMemory.Invariant.{p_in, c_in, Reach-Kept}

-- With a semaphore that works, in every reachable state at most one process is between its two `semop`;
-- the ring holds a list of at most 50 characters, oldest first; and what was stored is, in order, what
-- was printed and then these.
pub shared_fifo :
    {s : System}
    → Reach true with_semaphore s
    → (items : List ℕ) × (p_in s.producer + c_in s.consumer ≤ 1)
      × (ring (s.shm).a (s.shm).in_ (length items) ≡ items)
      × (length items ≤ 50)
      × (s.stored ≡ s.printed ++ items)
shared_fifo {s} r =
    let (items, i) = Reach-Kept r in
    (items, omega (arith, i.control.one), i.contents, i.control.few, i.in_order)

-- The state in which the consumer has found nothing to print and gone back with `continue`.
abbrev pub after_empty : System
after_empty = record initial { sem = 0 }

record Stuck (s : System) : Type 0 where
  pub sem : s.sem ≡ 0
  pub outside : p_in s.producer ≡ 0
  pub waits : s.consumer ≡ Consumer.wait
  pub stored : s.stored ≡ []
  pub printed : s.printed ≡ []

Step-Stuck : {s t : System} → Step true s t → Stuck s → Stuck t
Step-Stuck (p_scan c e) k = record {
  sem = k.sem;
  outside = refl;
  waits = k.waits;
  stored = k.stored;
  printed = k.printed;
}
Step-Stuck (p_wait c e w f) k = absurd (ground arith)
Step-Stuck (p_no_wait c e w) k = absurd (ground arith)
Step-Stuck (p_full c e f) k = absurd (ground arith)
Step-Stuck (p_store c e f) k = absurd (ground arith)
Step-Stuck (p_load e) k = absurd (ground arith)
Step-Stuck (p_count n e) k = absurd (ground arith)
Step-Stuck (p_post e) k = absurd (ground arith)
Step-Stuck (c_wait e w f) k = absurd (ground arith)
Step-Stuck (c_no_wait e w) k = absurd (ground arith)
Step-Stuck (c_empty e f) k = absurd (ground arith)
Step-Stuck (c_print e f) k = absurd (ground arith)
Step-Stuck (c_load e) k = absurd (ground arith)
Step-Stuck (c_count n e) k = absurd (ground arith)
Step-Stuck (c_post e) k = absurd (ground arith)

Reach-Stuck : {t : System} → Reach true after_empty t → Reach true with_semaphore t × Stuck t
Reach-Stuck start = (
  (start ▷ c_wait refl refl (omega arith) ▷ c_empty refl refl),
  record { sem = refl; outside = refl; waits = refl; stored = refl; printed = refl },
)
Reach-Stuck (later r st) = let (q, k) = Reach-Stuck r in (later q st, Step-Stuck st k)

-- A semaphore that works, and a consumer that runs before the first character: `continue` skips the
-- `semop` that gives the semaphore back. All that follows is reachable, and in all that follows nothing
-- is stored and nothing is printed.
pub empty_blocks_forever :
    {t : System}
    → Reach true after_empty t
    → Reach true with_semaphore t × (t.sem ≡ 0) × (t.stored ≡ []) × (t.printed ≡ [])
empty_blocks_forever r = let (q, k) = Reach-Stuck r in (q, k.sem, k.stored, k.printed)

-- With `semop` failing, as it does for the semaphore number 1 of a set of one: for any two characters
-- there is a reachable state in which both processes are at the top of their loops, two characters have
-- been stored and one printed, and `count` is 2.
pub count_update_lost :
    (a b : ℕ)
    → (s : System) × Reach false initial s
      × (s.producer ≡ Producer.scan)
      × (s.consumer ≡ Consumer.wait)
      × (s.stored ≡ a ∷ b ∷ [])
      × (s.printed ≡ a ∷ [])
      × ((s.shm).count ≡ 2)
unfolding store advance is_full
count_update_lost a b = (
  _,
  (start
      ▷ p_scan a refl
      ▷ p_no_wait a refl refl
      ▷ p_store a refl refl
      ▷ p_load refl
      ▷ p_count 0 refl
      ▷ p_post refl
      ▷ c_no_wait refl refl
      ▷ c_print refl (omega arith)
      ▷ c_load refl
      ▷ p_scan b refl
      ▷ p_no_wait b refl refl
      ▷ p_store b refl refl
      ▷ p_load refl
      ▷ c_count 1 refl
      ▷ p_count 1 refl
      ▷ p_post refl
      ▷ c_post refl),
  refl,
  refl,
  refl,
  refl,
  refl,
)
