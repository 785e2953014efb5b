-- ===== src/JobQueue/Invariant.antt =====
-- What holds in every state that the two threads reach.
use linux_learning_by_doing.Prelude.{
  ℕ, suc, ◌+◌, ◌*◌, ◌≤◌, ◌<◌, ◌≡◌, ◌⊎◌, refl, sym, subst, ◌∙◌, ap, Bool, true, false, ◌&&◌, Option,
  none, some, List, [], ◌∷◌, ◌++◌, append_assoc, append-nil, map, map-append, length, length-append,
  length-map, arith,
}
use linux_learning_by_doing.JobQueue.Queue.{Job, Queue, stored, enqueue, drain}
use linux_learning_by_doing.JobQueue.Queue.Shape.{Entry, text, Holds}
use linux_learning_by_doing.JobQueue.Queue.Enqueue.{enqueue-Holds}
use linux_learning_by_doing.JobQueue.Queue.Dequeue.{dequeue_all-Holds}
use linux_learning_by_doing.JobQueue.Threads.{
  Consumer, Producer, Owner, nobody, the_consumer, the_producer, System, Step, c_lock, c_wait,
  c_relock, c_pass, c_drain, c_signal, c_unlock, p_lock, p_wait, p_relock, p_pass, p_fill, p_signal,
  p_quiet, p_unlock, printed_of, Spurious, wake_c, wake_p, Reach, start, later, woken, initial,
}

-- Between taking the mutex and giving it up.
abbrev pub c_holds : Consumer → Bool
c_holds Consumer.lock = false
c_holds Consumer.waiting = false
c_holds Consumer.woken = false
c_holds _ = true

abbrev pub p_holds : Producer → Bool
p_holds Producer.lock = false
p_holds Producer.waiting = false
p_holds Producer.woken = false
p_holds _ = true

abbrev pub owner_of : Bool → Bool → Owner
owner_of true p = the_consumer
owner_of false true = the_producer
owner_of false false = nobody

-- What a thread may rely on at each place. A thread that waits although its condition has come true
-- has a signal under way.
abbrev pub CRelies : Consumer → Producer → ℕ → Type 0
CRelies Consumer.waiting p n = (n < 5) ⊎ (p ≡ Producer.signal)
CRelies Consumer.draining p n = n ≡ 5
CRelies Consumer.signal p n = n ≡ 0
CRelies Consumer.unlock p n = n ≡ 0
CRelies _ p n = Unit

abbrev pub PRelies : Producer → Consumer → ℕ → Type 0
PRelies Producer.waiting c n = (n ≡ 5) ⊎ (c ≡ Consumer.signal)
PRelies Producer.filling c n = n < 5
PRelies _ c n = Unit

pub record IsSound (s : System) : Type 0 where
  pub few : s.queue.queue_count ≤ 5
  pub apart : (c_holds s.consumer && p_holds s.producer) ≡ false
  pub owned : s.owner ≡ owner_of (c_holds s.consumer) (p_holds s.producer)
  pub c_relies : CRelies s.consumer s.producer s.queue.queue_count
  pub p_relies : PRelies s.producer s.consumer s.queue.queue_count

-- The queue holds these jobs; what was read is, as it is printed, what was printed and then what is queued; what was
-- received came in fives.
pub record Carries (s : System) (es : List Entry) (rounds : ℕ) : Type 0 where
  pub held : Holds s.queue es
  pub in_order : map printed_of s.sent ≡ s.received ++ map text es
  pub fives : length s.received ≡ 5 * rounds

abbrev pub Inv : System → Type 0
Inv s = (es : List Entry) × (rounds : ℕ) × IsSound s × Carries s es rounds

initial-Inv : (cell : ℕ → Option Job) → Inv (initial cell)
initial-Inv cell = (
  [],
  0,
  ground arith,
  record {
    held = record { chain = refl; distinct = tt; counted = refl };
    in_order = refl;
    fives = refl;
  },
)

-- The steps that change the queue, given what they do to its count.
drain-IsSound :
    (s : System) (out : List (Option (List ℕ))) (q : Queue)
    → s.consumer ≡ Consumer.draining
    → q.queue_count ≡ 0
    → IsSound s
    → IsSound (record s { queue = q; consumer = Consumer.signal; received = s.received ++ out })
drain-IsSound s out q e n i = ground arith

fill-IsSound :
    (s : System) (t : List ℕ × List ℕ) (q : Queue)
    → s.producer ≡ Producer.filling
    → q.queue_count ≡ s.queue.queue_count + 1
    → IsSound s
    → IsSound (record s { queue = q; producer = Producer.signal; sent = s.sent ++ (t ∷ []) })
fill-IsSound s t q e n i = ground arith

-- The steps that touch only the mutex and the places of the threads.
keep :
    {s : System} {es : List Entry} {n : ℕ} {o : Owner} {c : Consumer} {p : Producer}
    → Carries s es n
    → Carries (record s { owner = o; consumer = c; producer = p }) es n
keep k = record { held = k.held; in_order = k.in_order; fives = k.fives }

drain-Inv :
    (s : System) (out : List (Option (List ℕ))) (q : Queue)
    → s.consumer ≡ Consumer.draining
    → drain (suc s.queue.queue_count) s.queue [] ≡ some (out, q)
    → Inv s
    → Inv (record s { queue = q; consumer = Consumer.signal; received = s.received ++ out })
drain-Inv s out q e d (es, n, i, k) =
    let (q', d', empty, freed) =
      dequeue_all-Holds s.queue es k.held (omega (arith, i.few, k.held.counted)) in
    let five : s.queue.queue_count ≡ 5 = ground arith in
    let same : (out ≡ map text es) × (q ≡ q') = ground arith in
    (
      [],
      n + 1,
      drain-IsSound s out q e (ap (λ (r : Queue). r.queue_count) same.1 ∙ empty.counted) i,
      record {
        held = subst (λ r. Holds r []) (sym same.1) empty;
        in_order =
            k.in_order
            ∙ ap (λ o. s.received ++ o) (sym same.0)
            ∙ sym (append-nil (s.received ++ out));
        fives = omega (
          arith,
          length-append s.received out,
          ap length same.0,
          length-map es text,
          k.held.counted,
          k.fives,
          five,
        );
      },
    )

fill-Inv :
    (s : System) (b : ℕ) (t : List ℕ × List ℕ) (q : Queue)
    → s.producer ≡ Producer.filling
    → s.queue.cell b ≡ none
    → enqueue s.queue b (stored t.0 t.1) ≡ some q
    → Inv s
    → Inv (record s { queue = q; producer = Producer.signal; sent = s.sent ++ (t ∷ []) })
fill-Inv s b t q e f h (es, n, i, k) =
    let (q', h', held) =
      enqueue-Holds s.queue es b (stored t.0 t.1) k.held f (omega (arith, i.few, k.held.counted)) in
    let same : q ≡ q' = ground arith in
    let held' : Holds q (es ++ ((b, stored t.0 t.1) ∷ [])) =
      subst (λ r. Holds r (es ++ ((b, stored t.0 t.1) ∷ []))) (sym same) held in
    (
      es ++ ((b, stored t.0 t.1) ∷ []),
      n,
      fill-IsSound s t q e
          (omega
            (arith, held'.counted, k.held.counted, length-append es ((b, stored t.0 t.1) ∷ [])))
          i,
      record {
        held = held';
        in_order =
            map-append printed_of s.sent (t ∷ [])
            ∙ ap (λ l. l ++ (printed_of t ∷ [])) k.in_order
            ∙ append_assoc s.received (map text es) (printed_of t ∷ [])
            ∙ ap (λ l. s.received ++ l) (sym (map-append text es ((b, stored t.0 t.1) ∷ [])));
        fives = k.fives;
      },
    )

-- Every step keeps the invariant.
pub Step-Inv : {s t : System} → Step s t → Inv s → Inv t
Step-Inv (c_lock e o) (es, n, i, k) = (es, n, ground arith, keep k)
Step-Inv (c_wait e h) (es, n, i, k) = (es, n, ground arith, keep k)
Step-Inv (c_relock e o) (es, n, i, k) = (es, n, ground arith, keep k)
Step-Inv (c_pass e h) (es, n, i, k) = (es, n, ground arith, keep k)
Step-Inv {s} (c_drain out q e d) v = drain-Inv s out q e d v
Step-Inv (c_signal e) (es, n, i, k) = (es, n, ground arith, keep k)
Step-Inv (c_unlock e) (es, n, i, k) = (es, n, ground arith, keep k)
Step-Inv (p_lock e o) (es, n, i, k) = (es, n, ground arith, keep k)
Step-Inv (p_wait e h) (es, n, i, k) = (es, n, ground arith, keep k)
Step-Inv (p_relock e o) (es, n, i, k) = (es, n, ground arith, keep k)
Step-Inv (p_pass e h) (es, n, i, k) = (es, n, ground arith, keep k)
Step-Inv {s} (p_fill b input old q e f l m h) v = fill-Inv s b (input, old) q e f h v
Step-Inv (p_signal e h) (es, n, i, k) = (es, n, ground arith, keep k)
Step-Inv (p_quiet e h) (es, n, i, k) = (es, n, ground arith, keep k)
Step-Inv (p_unlock e) (es, n, i, k) = (es, n, ground arith, keep k)

pub Spurious-Inv : {s t : System} → Spurious s t → Inv s → Inv t
Spurious-Inv (wake_c e) (es, n, i, k) = (es, n, ground arith, keep k)
Spurious-Inv (wake_p e) (es, n, i, k) = (es, n, ground arith, keep k)

pub Reach-Inv : {cell : ℕ → Option Job} {s : System} → Reach cell s → Inv s
Reach-Inv {cell} start = initial-Inv cell
Reach-Inv (later r st) = Step-Inv st (Reach-Inv r)
Reach-Inv (woken r st) = Spurious-Inv st (Reach-Inv r)
