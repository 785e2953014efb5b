-- ===== src/JobQueue/Safety.antt =====
-- The theorems on the message queue and its two threads as a whole.
use linux_learning_by_doing.Prelude.{
  ℕ, ◌*◌, ◌≤◌, ◌≡◌, ◌⊎◌, refl, inl, inr, Bool-cases, true, false, ◌&&◌, Option, none, List, [],
  ◌++◌, map, length, replicate, length-replicate, arith, dec_lt,
}
use linux_learning_by_doing.JobQueue.Queue.{Job, stored}
use linux_learning_by_doing.JobQueue.Queue.Shape.{Entry, text, Holds}
use linux_learning_by_doing.JobQueue.Queue.Enqueue.{enqueue-Holds}
use linux_learning_by_doing.JobQueue.Queue.Dequeue.{dequeue_all-Holds}
use linux_learning_by_doing.JobQueue.Threads.{
  Consumer, Producer, System, Step, c_lock, c_wait, c_relock, c_pass, c_drain, c_signal, c_unlock,
  p_lock, p_wait, p_relock, p_pass, p_fill, p_signal, p_quiet, p_unlock, printed_of, Reach,
}
use linux_learning_by_doing.JobQueue.Invariant.{c_holds, p_holds, IsSound, Inv, Reach-Inv}

-- In every reachable state at most one of the two threads has the mutex.
pub job_exclusion :
    {cell : ℕ → Option Job} {s : System}
    → Reach cell s
    → (c_holds s.consumer && p_holds s.producer) ≡ false
job_exclusion r = (Reach-Inv r).2.apart

-- In every reachable state the heap holds a list of at most five jobs, which `queue_count` counts. Of
-- each text that the producer read, with what it left of the memory behind it, `printf` prints the
-- bytes before the first NUL (or goes past the array): this is, in order, what the consumer printed and
-- then what it would print of the jobs in the list. It has printed a multiple of five of them.
pub job_order :
    {cell : ℕ → Option Job} {s : System}
    → Reach cell s
    → (es : List Entry) × (rounds : ℕ) × Holds s.queue es
      × (length es ≤ 5)
      × (map printed_of s.sent ≡ s.received ++ map text es)
      × (length s.received ≡ 5 * rounds)
job_order r =
    let (es, n, i, k) = Reach-Inv r in
    (es, n, k.held, omega (arith, i.few, k.held.counted), k.in_order, k.fives)

-- A step that does not enqueue a new text
abbrev pub CanMove : System → Type 0
CanMove s = (t : System) × Step s t × (t.sent ≡ s.sent)

-- A thread that has the mutex can go on; the producer may be about to enqueue.
c_holds-CanMove :
    (s : System) (c : Consumer) → s.consumer ≡ c → c_holds c ≡ true → Inv s → CanMove s
c_holds-CanMove s Consumer.lock e h v = cc
c_holds-CanMove s Consumer.waiting e h v = cc
c_holds-CanMove s Consumer.woken e h v = cc
c_holds-CanMove s Consumer.test e h v = elim (dec_lt s.queue.queue_count 5) [
  | yes few ↦ (_, c_wait e few, refl)
  | no many ↦ (_, c_pass e (omega arith), refl)
]
c_holds-CanMove s Consumer.draining e h (es, n, i, k) =
    let (q, d, rest, freed) =
      dequeue_all-Holds s.queue es k.held (omega (arith, i.few, k.held.counted)) in
    (_, c_drain (map text es) q e d, refl)
c_holds-CanMove s Consumer.signal e h v = (_, c_signal e, refl)
c_holds-CanMove s Consumer.unlock e h v = (_, c_unlock e, refl)

p_holds-CanMove :
    (s : System) (p : Producer)
    → s.producer ≡ p
    → p_holds p ≡ true
    → CanMove s ⊎ (p ≡ Producer.filling)
p_holds-CanMove s Producer.lock e h = cc
p_holds-CanMove s Producer.waiting e h = cc
p_holds-CanMove s Producer.woken e h = cc
p_holds-CanMove s Producer.test e h = elim (dec_lt s.queue.queue_count 5) [
  | yes few ↦ inl (_, p_pass e few, refl)
  | no many ↦ inl (_, p_wait e (omega arith), refl)
]
p_holds-CanMove s Producer.filling e h = inr refl
p_holds-CanMove s Producer.signal e h = elim (dec_lt s.queue.queue_count 5) [
  | yes few ↦ inl (_, p_quiet e few, refl)
  | no many ↦ inl (_, p_signal e (omega arith), refl)
]
p_holds-CanMove s Producer.unlock e h = inl (_, p_unlock e, refl)

-- With the mutex free, one of the two can take it: they do not both wait.
free-CanMove :
    (s : System) (c : Consumer) (p : Producer)
    → s.consumer ≡ c
    → s.producer ≡ p
    → c_holds c ≡ false
    → p_holds p ≡ false
    → IsSound s
    → CanMove s
free-CanMove s Consumer.lock p e e' h h' i = (_, c_lock e (ground arith), refl)
free-CanMove s Consumer.woken p e e' h h' i = (_, c_relock e (ground arith), refl)
free-CanMove s Consumer.waiting Producer.lock e e' h h' i = (_, p_lock e' (ground arith), refl)
free-CanMove s Consumer.waiting Producer.woken e e' h h' i = (_, p_relock e' (ground arith), refl)
free-CanMove s Consumer.waiting Producer.waiting e e' h h' i = absurd (ground arith)
free-CanMove s c p e e' h h' i = absurd (ground arith)

-- Every thread can go on but for the producer before it enqueues.
pub moves_or_fills : (s : System) → Inv s → CanMove s ⊎ (s.producer ≡ Producer.filling)
moves_or_fills s v = elim (Bool-cases (c_holds s.consumer)) [
  | inl h ↦ inl (c_holds-CanMove s s.consumer refl h v)
  | inr h ↦ elim (Bool-cases (p_holds s.producer)) [
    | inl h' ↦ p_holds-CanMove s s.producer refl h'
    | inr h' ↦ inl (free-CanMove s s.consumer s.producer refl refl h h' v.2)
  ]
]

fills :
    (s : System) (free : ℕ)
    → s.queue.cell free ≡ none
    → s.producer ≡ Producer.filling
    → Inv s
    → (t : System) × Step s t
fills s free f e (es, n, i, k) =
    let (q, d, held) =
      enqueue-Holds s.queue es free (stored [] (replicate 2048 0)) k.held f
        (omega (arith, i.few, k.held.counted)) in
    (_, p_fill free [] (replicate 2048 0) q e f (length-replicate {A = ℕ} 2048 0) (omega arith) d)

-- No deadlock: in every reachable state a thread can go on without a wake-up that nobody sent, as
-- long as `malloc` finds a free address.
pub job_progress :
    {cell : ℕ → Option Job} {s : System} (free : ℕ)
    → Reach cell s
    → s.queue.cell free ≡ none
    → (t : System) × Step s t
job_progress {s} free r f = elim (moves_or_fills s (Reach-Inv r)) [
  | inl m ↦ (m.0, m.1)
  | inr e ↦ fills s free f e (Reach-Inv r)
]
