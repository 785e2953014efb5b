-- ===== src/JobQueue/Queue/Enqueue.antt =====
-- `enqueue` appends.
use linux_learning_by_doing.Prelude.{
  ℕ, zero, suc, ◌+◌, ◌<◌, ◌^◌, ◌≡◌, ◌≢◌, refl, Option, none, some, List, [], ◌∷◌, ◌++◌, length,
  length-append, arith,
}
use linux_learning_by_doing.JobQueue.Queue.{Job, Queue, update, last_job, link, count_up, enqueue}
use linux_learning_by_doing.JobQueue.Queue.Shape.{
  Entry, Chain, Avoids, Distinct, Holds, Chain-update, Avoids-of_free, Distinct-append,
}

abbrev job : List ℕ → Job
job t = record { str1 = t; next = none }

-- The address of the last job.
abbrev last_of : ℕ → List Entry → ℕ
last_of a [] = a
last_of a ((b, s) ∷ es) = last_of b es

-- The walk finds the last job, with fuel for the whole chain.
last_job-eq :
    (fuel : ℕ) (cell : ℕ → Option Job) (a : ℕ) (s : List ℕ) (es : List Entry)
    → Chain cell (some a) ((a, s) ∷ es)
    → length es < fuel
    → last_job fuel cell a ≡ some (last_of a es)
unfolding last_job
last_job-eq zero cell a s es c h = absurd (omega arith)
last_job-eq (suc fuel) cell a s [] c h = ground arith
last_job-eq (suc fuel) cell a s ((b, t) ∷ es) c h =
    ground (arith, last_job-eq fuel cell b t es (c.3.0, refl, c.3.2, c.3.3) (omega arith))

ne-last_of : (x a : ℕ) (es : List Entry) → x ≢ a → Avoids x es → x ≢ last_of a es
ne-last_of x a [] ne h = ne
ne-last_of x a ((b, s) ∷ es) ne h = ne-last_of x b es h.0 h.1

-- The last job is linked to the job `b`, which ends the chain.
link-last :
    (cell : ℕ → Option Job) (a : ℕ) (s : List ℕ) (es : List Entry) (b : ℕ) (t : List ℕ)
    → Chain cell (some a) ((a, s) ∷ es)
    → Distinct ((a, s) ∷ es)
    → Avoids b ((a, s) ∷ es)
    → cell b ≡ some (record { str1 = t; next = none })
    → (v : Option Job) × (link cell (last_of a es) b ≡ some (update cell (last_of a es) v))
      × Chain (update cell (last_of a es) v) (some a) ((a, s) ∷ es ++ ((b, t) ∷ []))
unfolding link
link-last cell a s [] b t c d f hb = (
  some (record { str1 = s; next = some b }),
  ground arith,
  (some b, refl, ground arith, (none, refl, ground arith, refl)),
)
link-last cell a s ((a', s') ∷ es) b t c d f hb =
    let (v, e, chain) = link-last cell a' s' es b t (c.3.0, refl, c.3.2, c.3.3) d.1 f.1 hb in
    (v, e, (c.0, refl, ground (arith, ne-last_of a a' es d.0.0 d.0.1), rw (c.3.1) chain))

-- What `enqueue` does where the list is not empty, by what its two steps return.
enqueue-eq :
    (q : Queue) (a b : ℕ) (t : List ℕ) (x : ℕ) (linked : ℕ → Option Job)
    → q.next ≡ some a
    → last_job (suc q.queue_count) (update q.cell b (some (job t))) a ≡ some x
    → link (update q.cell b (some (job t))) x b ≡ some linked
    → enqueue q b t ≡ some (count_up (record q { cell = linked }))
unfolding enqueue
enqueue-eq q a b t x linked e w l = ground arith

-- A job at a free address is appended: with room in the counter, `enqueue` returns, and the queue
-- then holds the old jobs and after them the new one.
pub enqueue-Holds :
    (q : Queue) (es : List Entry) (b : ℕ) (t : List ℕ)
    → Holds q es
    → q.cell b ≡ none
    → length es + 1 < 2 ^ 32
    → (q' : Queue) × (enqueue q b t ≡ some q') × Holds q' (es ++ ((b, t) ∷ []))
unfolding enqueue
enqueue-Holds q [] b t h free room = (
  count_up (record q { next = some b; cell = update q.cell b (some (job t)) }),
  ground arith,
  record {
    chain = (none, refl, ground arith, refl);
    distinct = (tt, tt);
    counted = omega (arith, h.counted);
  },
)
enqueue-Holds q ((a, s) ∷ es) b t h free room =
    let cell : ℕ → Option Job = update q.cell b (some (job t)) in
    let avoids : Avoids b ((a, s) ∷ es) =
      Avoids-of_free q.cell q.next ((a, s) ∷ es) b free h.chain in
    let chain : Chain cell (some a) ((a, s) ∷ es) =
      Chain-update q.cell (some a) ((a, s) ∷ es) b (some (job t)) avoids
        (h.chain.0, refl, h.chain.2, h.chain.3) in
    let (v, linked, chain') = link-last cell a s es b t chain h.distinct avoids (ground arith) in
    let walked : last_job (suc q.queue_count) cell a ≡ some (last_of a es) =
      last_job-eq (suc q.queue_count) cell a s es chain (omega (arith, h.counted)) in
    (
      count_up (record q { cell = update cell (last_of a es) v }),
      enqueue-eq q a b t (last_of a es) (update cell (last_of a es) v) (h.chain.1) walked linked,
      record {
        chain = (chain'.0, h.chain.1, chain'.2, chain'.3);
        distinct = Distinct-append ((a, s) ∷ es) b t h.distinct avoids;
        counted = omega (arith, h.counted, length-append es ((b, t) ∷ []));
      },
    )
