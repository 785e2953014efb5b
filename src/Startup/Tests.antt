-- ===== src/Startup/Tests.antt =====
-- The theorems at concrete answers.
use linux_learning_by_doing.Prelude.{
  ℕ, ◌≡◌, ◌≢◌, ◌<◌, ◌≤◌, ◌↔◌, ◌⊎◌, inr, refl, true, false, Option, none, some, List, [], ◌∷◌, map,
  arith, replicate,
}
use linux_learning_by_doing.Startup.{
  Signals, sigint, sigterm, sigkill, sigstop, status, process, waits_for, first_failure,
}
use linux_learning_by_doing.Startup.Buffers.{
  BufferThread, Created, main_prodcons, main_prodcons1, main_prodcons2, display_mask, display_mask1,
  QueueThread, main_mutex_cond,
}
use linux_learning_by_doing.Startup.Buffers.Outcome.{
  creations, functions, main_prodcons_outcome, main_variants_outcome, one_thread_takes_signals,
  main_mutex_cond_outcome,
}
use linux_learning_by_doing.Startup.Servers.{
  Output, thread_fifo, main_client, eexist, FifoThread, main_server1,
}
use linux_learning_by_doing.Startup.Servers.Echo.{
  NoNul, fifo_first_string, fifo_reads_past_array, main_server1_outcome,
}
use linux_learning_by_doing.Startup.Servers.Pipe
use linux_learning_by_doing.Startup.Servers.Pipe.{
  paced_all_printed, NonePending, OnePending, writes, reads,
}
use linux_learning_by_doing.Startup.Programs.{sigwait1, thread_fifo_of, client_to_servers}
use linux_learning_by_doing.Startup.Signals.{
  main_server2, main_sig_handler, handler_mask, main_sigwait2,
}
use linux_learning_by_doing.Startup.Signals.Outcome.{
  has_func3, let_through, sigwait_thread_unjoined, sigwait_set_unmasked, one_thread_handles,
}
use linux_learning_by_doing.Startup.Signals.Waits.{System, initial, send, take, Reach, Take, Takes}
use linux_learning_by_doing.Startup.Signals.Delivery.{Settled, signals_answered}
use linux_learning_by_doing.Startup.Signals.Sigwait.{Masked, sigwait2_masks_and_stays}

-- The creation of the consumer fails with EAGAIN.
abbrev no_consumer : Created
no_consumer = record { thid4 = 0; thid1 = 0; thid2 = 11; thid3 = 0 }

abbrev no_pointer : Option ℕ
no_pointer = none

-- Numbers that are equal
abbrev Same : ℕ → ℕ → Type 0
Same a b = a ≡ b

abbrev all : Created
all = record { thid4 = 0; thid1 = 0; thid2 = 0; thid3 = 0 }

main_prodcons_outcome_test :
    (status (main_prodcons (λ t. false) no_consumer) ≡ some 2)
    × (functions (main_prodcons (λ t. false) no_consumer)
        ≡ BufferThread.display ∷ BufferThread.user ∷ [])
    × ((waits_for (main_prodcons (λ t. false) no_consumer) ≡ some BufferThread.user)
        ↔ (first_failure (creations no_consumer) ≡ none))
main_prodcons_outcome_test = main_prodcons_outcome no_consumer

main_variants_outcome_test :
    (status (main_prodcons1 (λ t. false) none 0 0 no_consumer).1 ≡ some 2)
    × (functions (main_prodcons1 (λ t. false) none 0 0 no_consumer).1
        ≡ BufferThread.display ∷ BufferThread.user ∷ [])
    × (status (main_prodcons2 (λ t. false) none 0 0 no_consumer).1 ≡ some 2)
    × (functions (main_prodcons2 (λ t. false) none 0 0 no_consumer).1
        ≡ BufferThread.display ∷ BufferThread.user ∷ [])
    × (((main_prodcons1 (λ t. false) none 0 0 no_consumer).0.set ≡ false)
        ↔ ((no_pointer ≡ none) ⊎ (0 < 0)))
    × (((main_prodcons2 (λ t. false) none 0 0 no_consumer).0.set ≡ false) ↔ (0 < 0))
main_variants_outcome_test = main_variants_outcome none 0 0 no_consumer

one_thread_takes_signals_test :
    (m : Signals) × (map (λ c. c.1) (process (main_prodcons (λ t. false) all)).created
      ≡ m ∷ m ∷ m ∷ m ∷ [])
    × ((m sigint ≡ false) ↔ ((sigint ≡ sigkill) ⊎ (sigint ≡ sigstop)))
    × ((display_mask m sigint ≡ false)
        ↔ ((sigint ≡ sigkill) ⊎ (sigint ≡ sigstop) ⊎ (sigint ≡ sigint)))
    × ((display_mask1 m sigint ≡ false)
        ↔ ((sigint ≡ sigkill) ⊎ (sigint ≡ sigstop) ⊎ (sigint ≡ sigint) ⊎ (sigint ≡ sigterm)))
one_thread_takes_signals_test = one_thread_takes_signals all sigint refl

main_mutex_cond_outcome_test :
    (status (main_mutex_cond (λ t. false) 0 11) ≡ some 1)
    × ((waits_for (main_mutex_cond (λ t. false) 0 11) ≡ some QueueThread.thread_func1)
        ↔ (Same 0 0 × Same 11 0))
main_mutex_cond_outcome_test = main_mutex_cond_outcome 0 11

-- "hi", its NUL, and the "a" of a second string that the same `read` brought.
fifo_first_string_test :
    (buf' : List ℕ) × (thread_fifo true (replicate 512 0) (some (104 ∷ 105 ∷ 0 ∷ 97 ∷ 0 ∷ []) ∷ [])
      ≡ (
        (thread_fifo true buf' []).0,
        record { bytes = 104 ∷ 105 ∷ 0 ∷ []; in_bounds = true } ∷ (thread_fifo true buf' []).1,
      ))
fifo_first_string_test =
    fifo_first_string (replicate 512 0) (104 ∷ 105 ∷ []) (97 ∷ 0 ∷ []) [] (ground arith)
      (omega arith)

-- An array of two bytes
fifo_reads_past_array_test :
    (rest : List Output) × ((thread_fifo true (0 ∷ 0 ∷ []) (some (104 ∷ 105 ∷ []) ∷ [])).1
      ≡ record { bytes = 104 ∷ 105 ∷ 0 ∷ []; in_bounds = false } ∷ rest)
fifo_reads_past_array_test =
    fifo_reads_past_array (0 ∷ 0 ∷ []) (104 ∷ 105 ∷ []) [] (ground arith) (omega arith) refl

client_to_servers_example :
    (message : Output) × (sent printed : List Output) × ((main_client 3 true
        (104 ∷ 105 ∷ 0 ∷ [])
        (true ∷ [])).1
      ≡ message ∷ sent)
    × ((thread_fifo_of sigwait1 true (replicate 512 0) (some message.bytes ∷ [])).1
        ≡ message ∷ printed)
    × (message.bytes ≡ 104 ∷ 105 ∷ 0 ∷ [])
client_to_servers_example =
    client_to_servers sigwait1 3 (104 ∷ 105 ∷ 0 ∷ []) [] (replicate 512 0) [] (omega arith)
      (omega arith)

main_server1_outcome_test : (status (main_server1 (λ t. false) 0 17 0 0 0 0) ≡ none) ↔ (
    (Same 0 0 ⊎ Same 0 eexist)
    × (Same 17 0 ⊎ Same 17 eexist)
    × (Same 0 0 ⊎ Same 0 eexist)
    × Same 0 0
    × Same 0 0
    × Same 0 0)
main_server1_outcome_test = main_server1_outcome 0 17 0 0 0 0

sigwait_thread_unjoined_test :
    (has_func3 (process (main_server2 (λ t. true) 0 0 0 0)).joined ≡ false)
    × (waits_for (main_server2 (λ t. true) 0 0 0 0) ≢ some FifoThread.thread_func3)
    × ((status (main_server2 (λ t. true) 0 0 0 0) ≡ some 0) ↔ (
        Same 0 0 × Same 0 0 × Same 0 0 × Same 0 0 × (true ≡ true) × (true ≡ true) × (true ≡ true)))
sigwait_thread_unjoined_test = sigwait_thread_unjoined (λ t. true) 0 0 0 0

sigwait_set_unmasked_test :
    let_through sigint (process (main_server2 (λ t. true) 0 0 0 0)).created ≡ true
sigwait_set_unmasked_test = sigwait_set_unmasked (λ t. true) 0 0 0 0 sigint refl

one_thread_handles_test :
    (map (λ c. c.1 sigterm) (process (main_sig_handler (λ t. true) 0 0 0 0)).created
      ≡ map (λ c. true) (process (main_sig_handler (λ t. true) 0 0 0 0)).created)
    × ((handler_mask sigterm ≡ false) ↔ (sigterm ≡ sigint))
one_thread_handles_test =
    one_thread_handles (λ t. true) 0 0 0 0 sigterm (λ e. omega arith) (λ e. omega arith)

sigwait2_masks_and_stays_test :
    Masked (process (main_sigwait2 (λ t. true) (λ i. 0))).created
    × (status (main_sigwait2 (λ t. true) (λ i. 0)) ≢ some 0)
sigwait2_masks_and_stays_test = sigwait2_masks_and_stays (λ t. true) (λ i. 0)

-- SIGTERM is sent twice before `thread_fun2` is woken by it.
abbrev terminated : System
terminated = send sigterm (send sigterm initial)

abbrev woken : System
woken = record (take sigterm terminated) { fun2_ended = true }

terminated-Reach : Reach terminated
terminated-Reach =
    Reach.sends (Reach.sends Reach.start sigterm (λ e. omega arith) (λ e. omega arith)) sigterm
      (λ e. omega arith) (λ e. omega arith)

signals_answered_example : (1 ≤ 3) × (((v : System) × Take woken v) ⊎ Settled woken)
signals_answered_example =
    signals_answered terminated-Reach (Takes.more Takes.rest (Take.fun2 refl refl))

-- "hi" is written, read and written again.
abbrev hi : List ℕ
hi = 104 ∷ 105 ∷ []

abbrev zeros : List ℕ
zeros = replicate 512 0

abbrev sent_twice : (s : Pipe.System) × Pipe.Reach true (Pipe.initial zeros) s
sent_twice = (
  _,
  Pipe.Reach.later
      (Pipe.Reach.later
        (Pipe.Reach.later Pipe.Reach.start (writes hi hi-NoNul (omega arith) (inr refl)))
        (reads (omega arith)))
      (writes hi hi-NoNul (omega arith) (inr refl)),
)
  where
    hi-NoNul : NoNul hi
    hi-NoNul = (λ e. omega arith, (λ e. omega arith, tt))

paced_all_printed_example : NonePending (sent_twice.0) ⊎ OnePending (sent_twice.0)
paced_all_printed_example = paced_all_printed (sent_twice.1)
