-- ===== src/JobQueue/Queue/Dequeue.antt =====
-- `drain` takes every job, oldest first, and frees it.
use linux_learning_by_doing.Prelude.{
  ℕ, zero, suc, ◌+◌, ◌<◌, ◌^◌, ◌≡◌, refl, sym, ◌∙◌, ap, Option, none, some, List, [], ◌∷◌, ◌++◌,
  append-nil, append_assoc, map, length, arith,
}
use linux_learning_by_doing.JobQueue.Queue.{Job, Queue, shown, update, unlink, drain, dequeue_all}
use linux_learning_by_doing.JobQueue.Queue.Shape.{Entry, text, Holds, Chain-update}

-- No job is left allocated, and nothing else has changed.
abbrev pub Freed : (ℕ → Option Job) → (ℕ → Option Job) → List Entry → Type 0
Freed cell cell' [] = (b : ℕ) → cell' b ≡ cell b
Freed cell cell' ((a, s) ∷ es) = Freed (update cell a none) cell' es

drain-empty :
    (fuel : ℕ) (q : Queue) (out : List (Option (List ℕ)))
    → q.next ≡ none
    → drain (suc fuel) q out ≡ some (out, q)
unfolding drain
drain-empty fuel q out e = ground arith

drain-step :
    (fuel : ℕ) (q : Queue) (out : List (Option (List ℕ))) (a : ℕ) (job : Job)
    → q.next ≡ some a
    → q.cell a ≡ some job
    → drain (suc fuel) q out ≡ drain fuel (unlink q a job) (out ++ (shown job.str1 ∷ []))
unfolding drain
drain-step fuel q out a job e h = ground arith

unlink-Holds :
    (q : Queue) (a : ℕ) (s : List ℕ) (es : List Entry) (h : Holds q ((a, s) ∷ es))
    → length es + 1 < 2 ^ 32
    → Holds (unlink q a (record { str1 = s; next = h.chain.0 })) es
unlink-Holds q a s es h small = record {
  chain = Chain-update q.cell h.chain.0 es a none h.distinct.0 h.chain.3;
  distinct = h.distinct.1;
  counted = omega (arith, h.counted);
}

drain-Holds :
    (fuel : ℕ) (q : Queue) (es : List Entry) (out : List (Option (List ℕ)))
    → Holds q es
    → length es < fuel
    → length es < 2 ^ 32
    → (q' : Queue) × (drain fuel q out ≡ some (out ++ map text es, q'))
      × Holds q' []
      × Freed q.cell q'.cell es
drain-Holds zero q es out h enough small = absurd (omega arith)
drain-Holds (suc fuel) q [] out h enough small =
    (q, drain-empty fuel q out h.chain ∙ ap (λ o. some (o, q)) (sym (append-nil out)), h, λ b. refl)
drain-Holds (suc fuel) q ((a, s) ∷ es) out h enough small =
    let job : Job = record { str1 = s; next = h.chain.0 } in
    let (q', e, empty, freed) =
      drain-Holds fuel (unlink q a job) es (out ++ (shown s ∷ []))
        (unlink-Holds q a s es h (omega arith)) (omega arith) (omega arith) in
    (
      q',
      drain-step fuel q out a job h.chain.1 h.chain.2
          ∙ e
          ∙ ap (λ o. some (o, q')) (append_assoc out (shown s ∷ []) (map text es)),
      empty,
      freed,
    )

-- The consumer's inner loop ends, with the fuel that is given: it prints all the jobs,
-- oldest first, leaves the queue empty with its count at 0, frees every job and changes no other
-- address. The queue holds fewer than 2 ^ 32 jobs.
pub dequeue_all-Holds :
    (q : Queue) (es : List Entry)
    → Holds q es
    → length es < 2 ^ 32
    → (q' : Queue) × (dequeue_all q ≡ some (map text es, q'))
      × Holds q' []
      × Freed q.cell q'.cell es
dequeue_all-Holds q es h small =
    drain-Holds (suc q.queue_count) q es [] h (omega (arith, h.counted)) small
