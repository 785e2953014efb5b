-- ===== src/Startup/Signals/Sigwait.antt =====
-- sigwait2.c: the masks of its threads, and how the process ends.
use linux_learning_by_doing.Prelude.{
  ℕ, zero, suc, ◌+◌, ◌≡◌, ◌≢◌, refl, Bool, true, some, List, [], ◌∷◌, ◌++◌, arith, Bool-cases, inl,
  inr, Option-cases,
}
use linux_learning_by_doing.Startup.{
  Signals, sigfillset, maskable, Process, Run, fresh, status, process, exited, going, waiting, ◌>>◌,
  create, join,
}
use linux_learning_by_doing.Startup.Signals.{
  SigwaitThread, waits_on, create_from, join_from, main_sigwait2,
}

-- Each thread has been created with the signals blocked that it waits for.
abbrev pub Masked : List (SigwaitThread × Signals) → Type 0
Masked [] = Unit
Masked ((t, m) ∷ ts) = ((s : ℕ) → waits_on t s ≡ true → m s ≡ true) × Masked ts

waits_on-maskable : (t : SigwaitThread) (s : ℕ) → waits_on t s ≡ true → maskable sigfillset s ≡ true
unfolding waits_on
waits_on-maskable SigwaitThread.thread_fun1 s h = ground arith
waits_on-maskable SigwaitThread.thread_fun2 s h = ground arith
waits_on-maskable SigwaitThread.thread_fun3 s h = ground arith
waits_on-maskable (SigwaitThread.thread i) s h = ground arith

Masked-append :
    (ts : List (SigwaitThread × Signals)) (t : SigwaitThread)
    → Masked ts
    → Masked (ts ++ ((t, maskable sigfillset) ∷ []))
Masked-append [] t h = (waits_on-maskable t, tt)
Masked-append ((u, m) ∷ ts) t h = (h.0, Masked-append ts t h.1)

-- What each call keeps: the mask, the masks of the threads, and that no status is 0.
record Good (r : Run SigwaitThread) : Type 0 where
  pub mask : (process r).blocked ≡ maskable sigfillset
  pub masked : Masked (process r).created
  pub status_ne : status r ≢ some 0

abbrev Keeps : (Process SigwaitThread → Run SigwaitThread) → Type 0
Keeps c = (p : Process SigwaitThread) → Good (going p) → Good (c p)

then-Good :
    (r : Run SigwaitThread) (d : Process SigwaitThread → Run SigwaitThread)
    → Good r
    → Keeps d
    → Good (elim r [ exited n q ↦ exited n q | waiting t q ↦ waiting t q | going q ↦ d q ])
then-Good (exited n q) d g k = g
then-Good (waiting t q) d g k = g
then-Good (going q) d g k = k q g

create-Keeps : (i : ℕ) (t : SigwaitThread) (answer : ℕ) → Keeps (create i t answer 1)
create-Keeps i t zero p g = record {
  mask = g.mask;
  masked = rw g.mask (Masked-append p.created t g.masked);
  status_ne = λ e. ground arith;
}
create-Keeps i t (suc error) p g = record {
  mask = g.mask;
  masked = g.masked;
  status_ne = λ e. ground arith;
}

join-Keeps : (ends : SigwaitThread → Bool) (i : ℕ) → Keeps (join ends i)
join-Keeps ends i p g = elim (Option-cases (p.id i)) [
  | inl e ↦ rw (join, e) g
  | inr (t, e) ↦ elim (Bool-cases (ends t)) [
    | inl f ↦
        rw (join, e, f) (record { mask = g.mask; masked = g.masked; status_ne = λ h. ground arith })
    | inr f ↦
        rw (join, e, f) (record { mask = g.mask; masked = g.masked; status_ne = λ h. ground arith })
  ]
]

create_from-Keeps : (n i : ℕ) (answer : ℕ → ℕ) → Keeps (create_from n i answer)
unfolding create_from
create_from-Keeps zero i answer p g = g
create_from-Keeps (suc n) i answer p g =
    then-Good (create i (SigwaitThread.thread i) (answer i) 1 p) (create_from n (i + 1) answer)
      (create-Keeps i (SigwaitThread.thread i) (answer i) p g) (create_from-Keeps n (i + 1) answer)

join_from-Keeps : (n i : ℕ) (ends : SigwaitThread → Bool) → Keeps (join_from n i ends)
unfolding join_from
join_from-Keeps zero i ends p g = g
join_from-Keeps (suc n) i ends p g =
    then-Good (join ends i p) (join_from n (i + 1) ends) (join-Keeps ends i p g)
      (join_from-Keeps n (i + 1) ends)

then-Keeps : (c d : Process SigwaitThread → Run SigwaitThread) → Keeps c → Keeps d → Keeps (c >> d)
then-Keeps c d k l p g = then-Good (c p) d (k p g) l

main-Good : (ends : SigwaitThread → Bool) (answer : ℕ → ℕ) → Good (main_sigwait2 ends answer)
unfolding main_sigwait2
main-Good ends answer =
    then-Keeps _ _
      (then-Keeps _ _
        (then-Keeps _ _
          (then-Keeps _ _ (create-Keeps 0 SigwaitThread.thread_fun1 (answer 0))
            (create-Keeps 1 SigwaitThread.thread_fun2 (answer 1)))
          (create-Keeps 2 SigwaitThread.thread_fun3 (answer 2)))
        (create_from-Keeps 7 3 answer))
      (join_from-Keeps 10 0 ends)
      (record (fresh {A = SigwaitThread}) { blocked = maskable sigfillset })
      (record { mask = refl; masked = tt; status_ne = λ h. ground arith })

-- sigwait2.c, whatever the creations answer and whichever functions return: each thread that is created
-- has the signals blocked that it passes to `sigwait`; and the process never exits with 0, since `main`
-- ends in a loop.
pub sigwait2_masks_and_stays :
    (ends : SigwaitThread → Bool) (answer : ℕ → ℕ)
    → Masked (process (main_sigwait2 ends answer)).created
      × (status (main_sigwait2 ends answer) ≢ some 0)
sigwait2_masks_and_stays ends answer = let g = main-Good ends answer in (g.masked, g.status_ne)
