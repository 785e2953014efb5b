-- ===== src/JobQueue/Settles.antt =====
-- How long the two threads go on without a new text.
use linux_learning_by_doing.Prelude.{
  ℕ, suc, ◌+◌, ◌≤◌, ◌<◌, ◌≡◌, ◌⊎◌, inl, inr, false, ltb, if◌then◌else◌, Option, arith, List, [],
  ◌∷◌, ◌++◌, length, length-append, ap,
}
use linux_learning_by_doing.JobQueue.Queue.{Job}
use linux_learning_by_doing.JobQueue.Threads.{
  Consumer, Producer, System, Step, c_lock, c_wait, c_relock, c_pass, c_drain, c_signal, c_unlock,
  p_lock, p_wait, p_relock, p_pass, p_fill, p_signal, p_quiet, p_unlock, Reach, later,
}
use linux_learning_by_doing.JobQueue.Invariant.{c_holds, IsSound, Reach-Inv}
use linux_learning_by_doing.JobQueue.Safety.{CanMove, moves_or_fills}

-- The steps that are still to come: those of each thread, with the two of the other that it may wake,
-- and those of a round over a full queue
abbrev of_consumer : Consumer → ℕ
of_consumer Consumer.waiting = 0
of_consumer Consumer.test = 1
of_consumer Consumer.lock = 2
of_consumer Consumer.woken = 2
of_consumer Consumer.draining = 0
of_consumer Consumer.signal = 6
of_consumer Consumer.unlock = 3

abbrev of_producer : Producer → ℕ
of_producer Producer.waiting = 0
of_producer Producer.test = 1
of_producer Producer.lock = 2
of_producer Producer.woken = 2
of_producer Producer.filling = 0
of_producer Producer.signal = 6
of_producer Producer.unlock = 3

abbrev of_queue : ℕ → ℕ
of_queue n = if ltb n 5 then 0 else 8

abbrev to_come : System → ℕ
to_come s = of_consumer s.consumer + of_producer s.producer + of_queue s.queue.queue_count

-- So many steps with no new text
pub data Run (s : System) : ℕ → System → Type 0 where
  none : Run s 0 s
  more : {n : ℕ} {t u : System} → Run s n t → Step t u → u.sent ≡ t.sent → Run s (suc n) u

no_new_text :
    (sent : List (List ℕ × List ℕ)) (text : List ℕ × List ℕ) → sent ++ (text ∷ []) ≡ sent → ⊥
no_new_text sent text e = omega (arith, ap length e, length-append sent (text ∷ []))

step-less :
    {s t : System}
    → IsSound s
    → IsSound t
    → Step s t
    → t.sent ≡ s.sent
    → suc (to_come t) ≤ to_come s
step-less i j (c_lock e f) h = ground arith
step-less i j (c_wait e f) h = ground arith
step-less i j (c_relock e f) h = ground arith
step-less i j (c_pass e f) h = ground arith
step-less i j (c_drain out q e d) h = ground (arith, i.c_relies, j.c_relies)
step-less i j (c_signal e) h = ground arith
step-less i j (c_unlock e) h = ground arith
step-less i j (p_lock e f) h = ground arith
step-less i j (p_wait e f) h = ground arith
step-less i j (p_relock e f) h = ground arith
step-less i j (p_pass e f) h = ground arith
step-less {s} i j (p_fill a input old q e f l m d) h = absurd (no_new_text s.sent (input, old) h)
step-less i j (p_signal e f) h = ground arith
step-less i j (p_quiet e f) h = ground arith
step-less i j (p_unlock e) h = ground arith

reached : {cell : ℕ → Option Job} {s t : System} {n : ℕ} → Reach cell s → Run s n t → Reach cell t
reached r none = r
reached r (more q p h) = later (reached r q) p

run-less :
    {cell : ℕ → Option Job} {s t : System} {n : ℕ}
    → Reach cell s
    → Run s n t
    → n + to_come t ≤ to_come s
run-less r none = omega arith
run-less r (more q p h) =
    let before = reached r q in
    omega (arith, run-less r q, step-less (Reach-Inv before).2 (Reach-Inv (later before p)).2 p h)

-- The producer is before the next text, with room for it, and the consumer waits for it or the mutex.
pub record AtInput (s : System) : Type 0 where
  pub filling : s.producer ≡ Producer.filling
  pub room : s.queue.queue_count < 5
  pub consumer_out : c_holds s.consumer ≡ false

-- From every reachable state at most 20 steps follow in which no new text is enqueued and no wait ends
-- without a signal; and where no further one can follow, the producer has the mutex and reads the next
-- text, with fewer than five jobs in the queue, and the consumer has not got the mutex.
pub job_settles :
    {cell : ℕ → Option Job} {s t : System} {n : ℕ}
    → Reach cell s
    → Run s n t
    → (n ≤ 20) × (CanMove t ⊎ AtInput t)
job_settles {s = s} {t = t} r q =
    let v = Reach-Inv (reached r q) in
    (
      ground (arith, run-less r q),
      elim (moves_or_fills t v) [
        | inl m ↦ inl m
        | inr e ↦ inr (record {
          filling = e;
          room = ground (arith, v.2.p_relies);
          consumer_out = ground (arith, v.2.apart);
        })
      ],
    )
