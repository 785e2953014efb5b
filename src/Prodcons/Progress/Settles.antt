-- ===== src/Prodcons/Progress/Settles.antt =====
-- How long the threads of prodcons_threads.c go on without a new line.
use linux_learning_by_doing.Prelude.{ℕ, suc, ◌+◌, ◌*◌, ◌≤◌, ◌≡◌}
use linux_learning_by_doing.Prodcons.Threads.{User, Producer, Consumer, System, Step}
use linux_learning_by_doing.Prodcons.Invariant.Places.{d_data}

-- The steps that are still to come for what a thread is about. An item has 6 of the consumer, a post 9 of
-- the producer and those of its item.
abbrev pub of_user : User → ℕ
of_user User.reading = 0
of_user (User.typed l) = 19
of_user (User.copying l) = 18
of_user User.leaving = 17
of_user User.posting = 16

abbrev pub of_producer : Producer → ℕ
of_producer Producer.wait_input = 0
of_producer Producer.lock_input = 14
of_producer Producer.check_init = 13
of_producer Producer.wait_slot = 12
of_producer Producer.lock_data = 11
of_producer Producer.putting = 10
of_producer Producer.unlock_data = 9
of_producer Producer.post_item = 8
of_producer Producer.unlock_input = 1

abbrev pub of_consumer : Consumer → ℕ
of_consumer Consumer.check_init = 1
of_consumer Consumer.wait_item = 0
of_consumer Consumer.lock_data = 5
of_consumer Consumer.getting = 4
of_consumer Consumer.unlock_data = 3
of_consumer Consumer.post_slot = 2

abbrev pub to_come : System → ℕ
to_come s =
    of_user s.user
    + 15 * s.seminput
    + of_producer s.producer
    + 6 * s.semitems
    + of_consumer s.consumer
    + d_data s.display

-- So many steps without a new line and without the display thread taking the lock
pub data Run (s : System) : ℕ → System → Type 0 where
  none : Run s 0 s
  more :
      {n : ℕ} {t u : System}
      → Run s n t
      → Step t u
      → u.lines ≡ t.lines
      → d_data u.display ≤ d_data t.display
      → Run s (suc n) u
