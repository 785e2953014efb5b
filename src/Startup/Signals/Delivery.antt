-- ===== src/Startup/Signals/Delivery.antt =====
-- sigwait2.c: which signals its threads answer.
use linux_learning_by_doing.Prelude.{
  ℕ, suc, ◌+◌, ◌≤◌, ◌<◌, ◌≡◌, ◌≢◌, ◌⊎◌, inl, inr, refl, Bool, true, false, ltb, arith, Bool-cases,
  ℕ_discrete, ap, ◌-◌,
}
use linux_learning_by_doing.Startup.{sigint, sigpipe, sigterm, job_control, discards_lem}
use linux_learning_by_doing.Startup.Signals.Waits.{
  System, take, Take, fun1, fun2, fun3, send, Reach, start, sends, takes, Takes, rest, more,
}

abbrev number : Bool → ℕ
number true = 1
number false = 0

-- What holds of one signal: none is answered that was not sent, and not all of them are lost, unless it is one
-- that another discards.
abbrev Counts : System → ℕ → Type 0
Counts st s =
    (st.taken s + number (st.pending s) ≤ st.sent s)
    × (job_control s ≡ false → 0 < st.sent s → 0 < st.taken s + number (st.pending s))

record Inv (st : System) : Type 0 where
  counts : (s : ℕ) → Counts st s
  once2 : st.taken sigterm ≡ number st.fun2_ended
  once3 : st.taken sigpipe ≡ number st.fun3_ended
  others : (s : ℕ) → s ≢ sigint → s ≢ sigterm → s ≢ sigpipe → st.taken s ≡ 0

send-Counts : (st : System) (s j : ℕ) → Counts st j → Counts (send s st) j
send-Counts st s j c = (ground arith, λ g h. ground (arith, discards_lem s j g))

take-Counts : (st : System) (s j : ℕ) → st.pending s ≡ true → Counts st j → Counts (take s st) j
take-Counts st s j p c = elim (ℕ_discrete s j) [
  | yes e ↦ (ground (arith, ap st.pending e), λ g h. ground arith)
  | no e ↦ (ground arith, λ g h. ground arith)
]

take-others : (st : System) (s j : ℕ) → j ≢ s → st.taken j ≡ 0 → (take s st).taken j ≡ 0
take-others st s j d e = ground arith

Take-Inv : (st u : System) → Inv st → Take st u → Inv u
Take-Inv st u i (fun1 p) = record {
  counts = λ j. take-Counts st sigint j p (i.counts j);
  once2 = i.once2;
  once3 = i.once3;
  others = λ s a b c. take-others st sigint s a (i.others s a b c);
}
Take-Inv st u i (fun2 e p) = record {
  counts = λ j. take-Counts st sigterm j p (i.counts j);
  once2 = ground (arith, i.once2);
  once3 = i.once3;
  others = λ s a b c. take-others st sigterm s b (i.others s a b c);
}
Take-Inv st u i (fun3 e p) = record {
  counts = λ j. take-Counts st sigpipe j p (i.counts j);
  once2 = i.once2;
  once3 = ground (arith, i.once3);
  others = λ s a b c. take-others st sigpipe s c (i.others s a b c);
}

reach-Inv : {st : System} → Reach st → Inv st
reach-Inv start = record {
  counts = λ s. (omega arith, λ g h. h);
  once2 = refl;
  once3 = refl;
  others = λ s a b c. refl;
}
reach-Inv (sends {st = st} r s a b) =
    let i = reach-Inv r in
    record {
      counts = λ j. send-Counts st s j (i.counts j);
      once2 = i.once2;
      once3 = i.once3;
      others = i.others;
    }
reach-Inv (takes {st = st} {u = u} r t) = Take-Inv st u (reach-Inv r) t

-- How many answers may follow with no further signal sent
abbrev left : System → ℕ
left st = number (st.pending sigint) + (1 - number st.fun2_ended) + (1 - number st.fun3_ended)

Take-less : {st u : System} → Take st u → suc (left u) ≤ left st
Take-less (fun1 p) = ground arith
Take-less (fun2 e p) = ground arith
Take-less (fun3 e p) = ground arith

takes-less : {st u : System} {n : ℕ} → Takes st n u → n + left u ≤ left st
takes-less rest = omega arith
takes-less (more r t) = omega (arith, takes-less r, Take-less t)

takes-reach : {st u : System} {n : ℕ} → Reach st → Takes st n u → Reach u
takes-reach q rest = q
takes-reach q (more r t) = takes (takes-reach q r) t

-- Nothing is lost or made up: SIGINT has been answered if it was sent, SIGTERM and SIGPIPE once and no
-- more, and no other signal; what was sent besides stays pending, but for SIGCONT and the
-- stop signals.
pub record Settled (st : System) : Type 0 where
  pub bounded : (s : ℕ) → st.taken s ≤ st.sent s
  pub int : (st.pending sigint ≡ false) × (0 < st.sent sigint → 0 < st.taken sigint)
  pub term :
      (st.taken sigterm ≡ number (ltb 0 (st.sent sigterm)))
      × (st.fun2_ended ≡ ltb 0 (st.sent sigterm))
  pub pipe :
      (st.taken sigpipe ≡ number (ltb 0 (st.sent sigpipe)))
      × (st.fun3_ended ≡ ltb 0 (st.sent sigpipe))
  pub others :
      (s : ℕ)
      → s ≢ sigint
      → s ≢ sigterm
      → s ≢ sigpipe
      → (st.taken s ≡ 0) × (job_control s ≡ false → st.pending s ≡ ltb 0 (st.sent s))

-- One signal of a thread that waits once
once :
    (taken sent : ℕ) (pending ended : Bool)
    → (taken + number pending ≤ sent) × (0 < sent → 0 < taken + number pending)
    → taken ≡ number ended
    → (ended ≡ true) ⊎ (pending ≡ false)
    → (taken ≡ number (ltb 0 sent)) × (ended ≡ ltb 0 sent)
once taken sent pending ended c e h = (ground arith, ground arith)

quiet-Settled :
    (st : System)
    → Inv st
    → st.pending sigint ≡ false
    → (st.fun2_ended ≡ true) ⊎ (st.pending sigterm ≡ false)
    → (st.fun3_ended ≡ true) ⊎ (st.pending sigpipe ≡ false)
    → Settled st
quiet-Settled st i p q r = record {
  bounded = λ s. omega (arith, (i.counts s).0);
  int = (p, λ h. ground (arith, (i.counts sigint).1 refl h));
  term =
      once (st.taken sigterm) (st.sent sigterm) (st.pending sigterm) st.fun2_ended
        ((i.counts sigterm).0, (i.counts sigterm).1 refl) i.once2 q;
  pipe =
      once (st.taken sigpipe) (st.sent sigpipe) (st.pending sigpipe) st.fun3_ended
        ((i.counts sigpipe).0, (i.counts sigpipe).1 refl) i.once3 r;
  others = λ s a b c.
      (i.others s a b c, λ g. ground (arith, (i.counts s).0, (i.counts s).1 g, i.others s a b c));
}

-- A thread that waits once can go on, or it has ended or its signal is not there.
ready :
    (ended pending : Bool)
    → ((ended ≡ false) × (pending ≡ true)) ⊎ ((ended ≡ true) ⊎ (pending ≡ false))
ready true pending = inr (inl refl)
ready false true = inl (refl, refl)
ready false false = inr (inr refl)

goes_on : (st : System) → Inv st → ((u : System) × Take st u) ⊎ Settled st
goes_on st i = elim (Bool-cases (st.pending sigint)) [
  | inl p ↦ inl (_, fun1 p)
  | inr p ↦ elim (ready st.fun2_ended (st.pending sigterm)) [
    | inl q ↦ inl (_, fun2 q.0 q.1)
    | inr q ↦ elim (ready st.fun3_ended (st.pending sigpipe)) [
      | inl r ↦ inl (_, fun3 r.0 r.1)
      | inr r ↦ inr (quiet-Settled st i p q r)
    ]
  ]
]

-- Whatever signals have been sent to the process of sigwait2.c, other than SIGKILL and SIGSTOP, at most
-- three answers of `sigwait` follow with no further one sent. Where no answer can follow, SIGINT is not
-- pending, and has been answered if it was sent; SIGTERM and SIGPIPE have each been answered once if they
-- were sent and never otherwise, and exactly then `thread_fun2` and `thread_fun3` have returned; no
-- other signal has been answered, and each of them that was sent is pending, unless it is SIGCONT or a
-- stop signal, which discard one another. No signal has been answered
-- more often than it was sent.
pub signals_answered :
    {st u : System} {n : ℕ}
    → Reach st
    → Takes st n u
    → (n ≤ 3) × (((v : System) × Take u v) ⊎ Settled u)
signals_answered {st = st} {u = u} q r =
    (ground (arith, takes-less r), goes_on u (reach-Inv (takes-reach q r)))
