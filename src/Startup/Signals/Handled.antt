-- ===== src/Startup/Signals/Handled.antt =====
-- thread_sig_handler.c: what a signal that is sent to the process does.
use linux_learning_by_doing.Prelude.{
  sym, ◌∙◌, ℕ, ◌≡◌, ◌≢◌, ◌⊎◌, inl, inr, refl, true, false, Option, none, some, arith, Bool-cases,
  ap,
}
use linux_learning_by_doing.Startup.{Signals, sigint, sigkill, sigstop, job_control, discards_lem}
use linux_learning_by_doing.Startup.Signals.{handler_mask}
use linux_learning_by_doing.Startup.Signals.Handling.{
  Place, Ending, System, inherited, masks, taken, Step, send, deliver, func3_mask, func3_greet,
  func3_policy, func3_print, func1_greet, func1_policy, func1_print, fifo_fails, Reach, start, next,
}

-- The mask of `thread_func3`, by where it is
abbrev Masked : System → Type 0
Masked st =
    ((st.func3 ≡ Place.masking) × (st.mask3 ≡ inherited))
    ⊎ ((st.func3 ≢ Place.masking) × (st.mask3 ≡ handler_mask))

record Inv (st : System) : Type 0 where
  mask : Masked st
  kill : st.sent sigkill ≡ false
  stop : st.sent sigstop ≡ false
  sent_before : (s : ℕ) → st.pending s ≡ true → st.sent s ≡ true
  kept : st.ended ≡ none → (s : ℕ) → job_control s ≡ false → st.pending s ≡ st.sent s
  killed :
      (s : ℕ)
      → st.ended ≡ some (Ending.killed s)
      → (s ≡ sigint) × (st.sent sigint ≡ true) × (st.func3 ≢ Place.masking)
  exited : (c : ℕ) → st.ended ≡ some (Ending.exited c) → (c ≡ 4) ⊎ (c ≡ 5)

-- Where SIGKILL and SIGSTOP are aside, the mask of `thread_func3` is the only one that lets a signal through,
-- and only SIGINT.
lets_through :
    (st : System) (s : ℕ)
    → Masked st
    → s ≢ sigkill
    → s ≢ sigstop
    → taken (masks st) s ≡ true
    → (s ≡ sigint) × (st.func3 ≢ Place.masking)
unfolding handler_mask
lets_through st s (inl m) k p t = absurd (ground (arith, ap (λ f. f s) m.1))
lets_through st s (inr m) k p t = (ground (arith, ap (λ f. f s) m.1), m.0)

unsent : (st : System) (s j : ℕ) → st.sent j ≡ false → st.sent s ≡ true → s ≢ j
unsent st s j f t e = ground (arith, ap st.sent e)

taken_lem :
    (st : System) (s : ℕ)
    → Inv st
    → st.sent s ≡ true
    → taken (masks st) s ≡ true
    → (s ≡ sigint) × (st.func3 ≢ Place.masking)
taken_lem st s i h t =
    lets_through st s i.mask (unsent st s sigkill i.kill h) (unsent st s sigstop i.stop h) t

-- `thread_func3` goes on.
moved-Inv :
    {st : System} {p : Place}
    → Inv st
    → st.func3 ≢ Place.masking
    → p ≢ Place.masking
    → Inv (record st { func3 = p })
moved-Inv i f p = record {
  mask = inr (p, ground (arith, i.mask));
  kill = i.kill;
  stop = i.stop;
  sent_before = i.sent_before;
  kept = i.kept;
  killed = λ s h. ((i.killed s h).0, (i.killed s h).1, p);
  exited = i.exited;
}

printed-Inv :
    {st : System} (p : Place) (m n : ℕ)
    → Inv st
    → Inv (record st { func1 = p; lines1 = m; lines3 = n })
printed-Inv p m n i = record {
  mask = i.mask;
  kill = i.kill;
  stop = i.stop;
  sent_before = i.sent_before;
  kept = i.kept;
  killed = i.killed;
  exited = i.exited;
}

step-Inv : {ends : Signals} → ends sigint ≡ true → {st u : System} → Inv st → Step ends st u → Inv u
step-Inv e i (send a s k p) = record {
  mask = i.mask;
  kill = ground (arith, i.kill);
  stop = ground (arith, i.stop);
  sent_before = λ j h. ground (arith, i.sent_before j);
  kept = λ n j g. ground (arith, i.kept n j g, discards_lem s j g);
  killed = λ s h. ground (arith);
  exited = λ c h. ground (arith);
}
step-Inv {ends} e {st} i (deliver a s h t) =
    let was_sent : st.sent s ≡ true = i.sent_before s h in
    let l = taken_lem st s i was_sent t in
    let killed : ends s ≡ true = ap ends l.0 ∙ e in
    record {
      mask = i.mask;
      kill = i.kill;
      stop = i.stop;
      sent_before = λ j g. i.sent_before j (ground arith);
      kept = λ n j g. ground (arith, killed);
      killed = λ j g. (ground (arith, killed, l.0), sym (ap st.sent l.0) ∙ was_sent, l.1);
      exited = λ c g. ground (arith, killed);
    }
step-Inv e i (func3_mask a f) = record {
  mask = inr (ground arith, refl);
  kill = i.kill;
  stop = i.stop;
  sent_before = i.sent_before;
  kept = i.kept;
  killed = λ s h. ground arith;
  exited = i.exited;
}
step-Inv e i (func3_greet a f) = moved-Inv i (ground arith) (λ h. ground arith)
step-Inv e i (func3_policy a f) = moved-Inv i (ground arith) (λ h. ground arith)
step-Inv e i (func3_print a f) = printed-Inv _ _ _ i
step-Inv e i (func1_greet a f) = printed-Inv _ _ _ i
step-Inv e i (func1_policy a f) = printed-Inv _ _ _ i
step-Inv e i (func1_print a f) = printed-Inv _ _ _ i
step-Inv e i (fifo_fails a code f) = record {
  mask = i.mask;
  kill = i.kill;
  stop = i.stop;
  sent_before = i.sent_before;
  kept = λ n j g. ground arith;
  killed = λ s h. ground arith;
  exited = λ c h. ground (arith, f);
}

reach-Inv : {ends : Signals} → ends sigint ≡ true → {st : System} → Reach ends st → Inv st
reach-Inv e start = record {
  mask = inl (refl, refl);
  kill = refl;
  stop = refl;
  sent_before = λ s h. ground arith;
  kept = λ n s g. refl;
  killed = λ s h. ground arith;
  exited = λ c h. ground arith;
}
reach-Inv e (next r t) = step-Inv e (reach-Inv e r) t

-- The process goes on, and no signal has been taken (those of job control may have discarded one another): SIGINT has not been sent, or `thread_func3` has not set its
-- mask yet, or the next step can be that SIGINT ends the process.
abbrev pub GoesOn : Signals → System → Type 0
GoesOn ends st =
    (st.ended ≡ none)
    × ((s : ℕ) → job_control s ≡ false → st.pending s ≡ st.sent s)
    × ((st.sent sigint ≡ false)
        ⊎ ((st.func3 ≡ Place.masking)
            ⊎ ((u : System) × Step ends st u × (u.ended ≡ some (Ending.killed sigint)))))

goes_on :
    {ends : Signals} {st : System} → ends sigint ≡ true → Inv st → st.ended ≡ none → GoesOn ends st
unfolding handler_mask
goes_on {ends} {st} e i n = (
  n,
  i.kept n,
  elim (Bool-cases (st.sent sigint)) [
    | inr f ↦ inl f
    | inl t ↦ elim i.mask [
      | inl m ↦ inr (inl m.0)
      | inr m ↦ inr (
          inr (
            _,
            deliver n sigint (i.kept n sigint refl ∙ t) (ground (arith, ap (λ f. f sigint) m.1)),
            ground (arith, e),
          ))
    ]
  ],
)

-- SIGINT ended the process, or a `thread_fifo`.
abbrev pub Ended : System → Type 0
Ended st =
    ((st.ended ≡ some (Ending.killed sigint))
      × (st.sent sigint ≡ true)
      × (st.func3 ≢ Place.masking))
    ⊎ ((st.ended ≡ some (Ending.exited 4)) ⊎ (st.ended ≡ some (Ending.exited 5)))

by_ending :
    {ends : Signals} {st : System}
    → ends sigint ≡ true
    → Inv st
    → (o : Option Ending) → st.ended ≡ o
    → GoesOn ends st ⊎ Ended st
by_ending e i none h = inl (goes_on e i h)
by_ending e i (some (Ending.killed s)) h =
    let k = i.killed s h in inr (inl (h ∙ ap (λ s. some (Ending.killed s)) k.0, k.1, k.2))
by_ending e i (some (Ending.exited c)) h = inr (inr (ground (arith, h, i.exited c h)))

-- thread_sig_handler.c, once its threads are created, where the default action of SIGINT ends a process: in
-- every state that is reached the process goes on, and every signal that was sent is pending, unless it
-- is SIGCONT or a stop signal, which discard one another; or SIGINT was sent and has ended it, no other
-- signal, and only after `thread_func3` has set its mask; or a `thread_fifo` has ended it with status 4
-- or 5. If it goes on, SIGINT has been sent and the mask is set, SIGINT can end it.
pub sigint_ends_process :
    {ends : Signals} {st : System} → ends sigint ≡ true → Reach ends st → GoesOn ends st ⊎ Ended st
sigint_ends_process {st = st} e r = by_ending e (reach-Inv e r) st.ended refl
