-- ===== src/JobQueue/Threads.antt =====
-- thread_mutex_cond.c: `thread_func1`, the consumer, and `thread_func2`, the producer, as a step
-- relation. A step is what a thread does between two calls of the thread library.
use linux_learning_by_doing.Prelude.{
  ℕ, suc, ◌≤◌, ◌<◌, ◌≡◌, Option, none, some, List, [], ◌∷◌, ◌++◌, length,
}
use linux_learning_by_doing.JobQueue.Queue.{Job, Queue, stored, shown, enqueue, drain}

-- Where `thread_func1` stands.
pub data Consumer : Type 0 where
  lock : Consumer  -- before `pthread_mutex_lock(&m1)`
  test : Consumer  -- at `while (job_head1.queue_count < 5)`, with the mutex
  waiting : Consumer  -- blocked in `pthread_cond_wait(&dq_cv2, &m1)`
  woken : Consumer  -- inside that call, about to take the mutex again
  draining : Consumer  -- at the inner `while (1)`
  signal : Consumer  -- before `pthread_cond_signal(&eq_cv1)`
  unlock : Consumer  -- before `pthread_mutex_unlock(&m1)`

-- Where `thread_func2` stands.
pub data Producer : Type 0 where
  lock : Producer  -- before `pthread_mutex_lock(&m1)`
  test : Producer  -- at `while (job_head1.queue_count >= 5)`, with the mutex
  waiting : Producer  -- blocked in `pthread_cond_wait(&eq_cv1, &m1)`
  woken : Producer  -- inside that call, about to take the mutex again
  filling : Producer  -- from `malloc` to `queue_count++`
  signal : Producer  -- at `if (job_head1.queue_count >= 5) pthread_cond_signal(&dq_cv2)`
  unlock : Producer  -- before `pthread_mutex_unlock(&m1)`

pub data Owner : Type 0 where
  nobody the_consumer the_producer : Owner

-- The queue, the mutex `m1`, the two threads, and what has been read from the input, each time with
-- what was in `str1` before, and what has been printed.
pub record System : Type 0 where
  pub queue : Queue
  pub owner : Owner
  pub consumer : Consumer
  pub producer : Producer
  pub sent : List (List ℕ × List ℕ)
  pub received : List (Option (List ℕ))

-- What a job that was filled so is printed as
abbrev pub printed_of : List ℕ × List ℕ → Option (List ℕ)
printed_of r = shown (stored r.0 r.1)

-- `pthread_cond_signal` wakes the thread that waits on the condition variable, if it does.
abbrev pub wake_consumer : Consumer → Consumer
wake_consumer Consumer.waiting = Consumer.woken
wake_consumer c = c

abbrev pub wake_producer : Producer → Producer
wake_producer Producer.waiting = Producer.woken
wake_producer p = p

-- `main`, after it has set the count to 0 and the list to NULL and created both threads.
abbrev pub initial : (ℕ → Option Job) → System
initial cell = record {
  queue = record { queue_count = 0; next = none; cell = cell };
  owner = nobody;
  consumer = Consumer.lock;
  producer = Producer.lock;
  sent = [];
  received = [];
}

-- The steps of the two threads. `malloc` gives an address that is free, with `str1` as it is there.
pub data Step (s : System) : System → Type 0 where
  c_lock :
      s.consumer ≡ Consumer.lock
      → s.owner ≡ nobody
      → Step s (record s { owner = the_consumer; consumer = Consumer.test })
  c_wait :
      s.consumer ≡ Consumer.test
      → s.queue.queue_count < 5
      → Step s (record s { owner = nobody; consumer = Consumer.waiting })
  c_relock :
      s.consumer ≡ Consumer.woken
      → s.owner ≡ nobody
      → Step s (record s { owner = the_consumer; consumer = Consumer.test })
  c_pass :
      s.consumer ≡ Consumer.test
      → 5 ≤ s.queue.queue_count
      → Step s (record s { consumer = Consumer.draining })
  c_drain :
      (out : List (Option (List ℕ))) (q : Queue)
      → s.consumer ≡ Consumer.draining
      → drain (suc s.queue.queue_count) s.queue [] ≡ some (out, q)
      → Step s (record s { queue = q; consumer = Consumer.signal; received = s.received ++ out })
  c_signal :
      s.consumer ≡ Consumer.signal
      → Step s (record s { consumer = Consumer.unlock; producer = wake_producer s.producer })
  c_unlock :
      s.consumer ≡ Consumer.unlock → Step s (record s { owner = nobody; consumer = Consumer.lock })
  p_lock :
      s.producer ≡ Producer.lock
      → s.owner ≡ nobody
      → Step s (record s { owner = the_producer; producer = Producer.test })
  p_wait :
      s.producer ≡ Producer.test
      → 5 ≤ s.queue.queue_count
      → Step s (record s { owner = nobody; producer = Producer.waiting })
  p_relock :
      s.producer ≡ Producer.woken
      → s.owner ≡ nobody
      → Step s (record s { owner = the_producer; producer = Producer.test })
  p_pass :
      s.producer ≡ Producer.test
      → s.queue.queue_count < 5
      → Step s (record s { producer = Producer.filling })
  p_fill :
      (new_job : ℕ) (input old : List ℕ) (q : Queue)
      → s.producer ≡ Producer.filling
      → s.queue.cell new_job ≡ none
      → length old ≡ 2048
      → length input ≤ 2048
      → enqueue s.queue new_job (stored input old) ≡ some q
      → Step s
          (record s { queue = q; producer = Producer.signal; sent = s.sent ++ ((input, old) ∷ []) })
  p_signal :
      s.producer ≡ Producer.signal
      → 5 ≤ s.queue.queue_count
      → Step s (record s { producer = Producer.unlock; consumer = wake_consumer s.consumer })
  p_quiet :
      s.producer ≡ Producer.signal
      → s.queue.queue_count < 5
      → Step s (record s { producer = Producer.unlock })
  p_unlock :
      s.producer ≡ Producer.unlock → Step s (record s { owner = nobody; producer = Producer.lock })

-- `pthread_cond_wait` may also return with no signal.
pub data Spurious (s : System) : System → Type 0 where
  wake_c : s.consumer ≡ Consumer.waiting → Spurious s (record s { consumer = Consumer.woken })
  wake_p : s.producer ≡ Producer.waiting → Spurious s (record s { producer = Producer.woken })

pub data Reach (cell : ℕ → Option Job) : System → Type 0 where
  start : Reach cell (initial cell)
  later : {s t : System} → Reach cell s → Step s t → Reach cell t
  woken : {s t : System} → Reach cell s → Spurious s t → Reach cell t
