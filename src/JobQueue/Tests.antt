-- ===== src/JobQueue/Tests.antt =====
-- One job queued on an empty heap, and a queue of two jobs drained, the second without a NUL.
use linux_learning_by_doing.Prelude.{
  ℕ, zero, suc, ◌*◌, ◌≤◌, ◌≡◌, ◌⊎◌, refl, false, ◌&&◌, Option, none, some, List, [], ◌∷◌, ◌++◌, map,
  length, replicate, length-replicate, arith,
}
use linux_learning_by_doing.JobQueue.Queue.{Job, Queue, stored, shown, update, enqueue, dequeue_all}
use linux_learning_by_doing.JobQueue.Queue.Shape.{Entry, text, Holds}
use linux_learning_by_doing.JobQueue.Queue.Enqueue.{enqueue-Holds}
use linux_learning_by_doing.JobQueue.Queue.Dequeue.{Freed, dequeue_all-Holds}
use linux_learning_by_doing.JobQueue.Threads.{
  Consumer, Producer, System, Step, c_lock, c_wait, p_lock, p_pass, p_fill, p_quiet, p_unlock,
  nobody, printed_of, Reach, start, later, the_producer, initial,
}
use linux_learning_by_doing.JobQueue.Invariant.{c_holds, p_holds}
use linux_learning_by_doing.JobQueue.Safety.{CanMove, job_exclusion, job_order, job_progress}
use linux_learning_by_doing.JobQueue.Settles.{Run, AtInput, job_settles}

abbrev nothing : ℕ → Option Job
nothing a = none

abbrev empty : Queue
empty = record { queue_count = 0; next = none; cell = nothing }

empty-Holds : Holds empty []
empty-Holds = record { chain = refl; distinct = tt; counted = refl }

enqueue-Holds_test :
    (q : Queue) × (enqueue empty 7 (104 ∷ []) ≡ some q) × Holds q ((7, 104 ∷ []) ∷ [])
enqueue-Holds_test = enqueue-Holds empty [] 7 (104 ∷ []) empty-Holds refl (omega arith)

abbrev two_cells : ℕ → Option Job
two_cells zero = none
two_cells (suc zero) = some (record { str1 = 98 ∷ []; next = none })
two_cells (suc (suc zero)) = some (record { str1 = 97 ∷ 0 ∷ []; next = some 1 })
two_cells (suc (suc (suc a))) = none

abbrev two_jobs : Queue
two_jobs = record { queue_count = 2; next = some 2; cell = two_cells }

abbrev two_entries : List Entry
two_entries = (2, 97 ∷ 0 ∷ []) ∷ (1, 98 ∷ []) ∷ []

two_jobs-Holds : Holds two_jobs two_entries
two_jobs-Holds = record {
  chain = (some 1, refl, refl, (none, refl, refl, refl));
  distinct = ((omega arith, tt), (tt, tt));
  counted = refl;
}

dequeue_all-Holds_test :
    (q' : Queue) × (dequeue_all two_jobs ≡ some (some (97 ∷ []) ∷ none ∷ [], q'))
    × Holds q' []
    × Freed two_cells q'.cell two_entries
unfolding shown
dequeue_all-Holds_test = dequeue_all-Holds two_jobs two_entries two_jobs-Holds (omega arith)

-- Fresh memory
abbrev zeros : List ℕ
zeros = replicate 2048 0

abbrev one_job : Queue
one_job = record {
  queue_count = 1;
  next = some 7;
  cell = λ b. update nothing 7 (some (record { str1 = stored (104 ∷ []) zeros; next = none })) b;
}

abbrev filled : System
filled = record (initial nothing) {
  queue = one_job;
  owner = the_producer;
  producer = Producer.signal;
  sent = (104 ∷ [], zeros) ∷ [];
}

filled_reached : Reach nothing filled
unfolding enqueue
filled_reached = later (later (later start (p_lock refl refl)) (p_pass refl (omega arith))) (
    p_fill 7 (104 ∷ []) zeros one_job refl refl (length-replicate {A = ℕ} 2048 0) (omega arith)
      refl)

job_exclusion_example : (c_holds filled.consumer && p_holds filled.producer) ≡ false
job_exclusion_example = job_exclusion filled_reached

job_order_example :
    (es : List Entry) × (rounds : ℕ) × Holds one_job es
    × (length es ≤ 5)
    × (map printed_of filled.sent ≡ filled.received ++ map text es)
    × (length filled.received ≡ 5 * rounds)
job_order_example = job_order filled_reached

job_progress_example : (t : System) × Step filled t
job_progress_example = job_progress 3 filled_reached refl

-- The text is in the queue, and both threads are on their way back.
abbrev consumer_waits : System
consumer_waits = record filled {
  owner = nobody;
  producer = Producer.lock;
  consumer = Consumer.waiting;
}

job_settles_example : (4 ≤ 20) × (CanMove consumer_waits ⊎ AtInput consumer_waits)
job_settles_example = job_settles filled_reached (
    Run.more
      (Run.more
        (Run.more (Run.more Run.none (p_quiet refl (omega arith)) refl) (p_unlock refl) refl)
        (c_lock refl refl) refl)
      (c_wait refl (omega arith)) refl)

-- The memory of a job that held "abc" before
abbrev used : List ℕ
used = 97 ∷ 98 ∷ 99 ∷ 0 ∷ []
