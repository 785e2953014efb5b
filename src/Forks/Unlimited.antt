-- ===== src/Forks/Unlimited.antt =====
-- Assignment/2_1/a1.c: children until `fork` fails, and `waitpid` until there is none.
use linux_learning_by_doing.Prelude.{
  ℕ, suc, ◌+◌, ◌<◌, ◌≤◌, ◌≡◌, ◌⊎◌, ◌≢◌, ◌*◌, inl, inr, dec_lt, refl, arith,
}
use linux_learning_by_doing.Forks.Children.{Children, no_children, born, dies, waited}

pub data Parent : Type 0 where
  forking : Parent
  waiting : Parent
  ended : Parent  -- "all pds deleted"

-- With `i` of the successful calls, and the children that `waitpid` has given
pub record System : Type 0 where
  pub parent : Parent
  pub children : Children
  pub i : ℕ
  pub given : ℕ

abbrev pub initial : System
initial = record { parent = forking; children = no_children; i = 0; given = 0 }

pub data Step (s : System) : System → Type 0 where
  fork_ok : s.parent ≡ forking → Step s (record s { children = born s.children; i = s.i + 1 })
  fork_fails : s.parent ≡ forking → Step s (record s { parent = waiting })
  child_exits : 0 < (s.children).running → Step s (record s { children = dies s.children })
  wait_child :
      s.parent ≡ waiting
      → 0 < (s.children).zombies
      → Step s (record s { children = waited s.children; given = s.given + 1 })
  wait_fails :
      s.parent ≡ waiting
      → (s.children).running ≡ 0
      → (s.children).zombies ≡ 0
      → Step s (record s { parent = ended })

pub data Reach (s : System) : System → Type 0 where
  start : Reach s s
  later : {t u : System} → Reach s t → Step t u → Reach s u

-- What `waitpid` is to have left
abbrev Left : System → Parent → Type 0
Left s forking = s.given ≡ 0
Left s waiting = Unit
Left s ended = (s.children).running + (s.children).zombies ≡ 0

record Inv (s : System) : Type 0 where
  counted : s.i ≡ s.given + (s.children).running + (s.children).zombies
  left : Left s s.parent

step-Inv : {s t : System} → Inv s → Step s t → Inv t
step-Inv i (fork_ok p) = ground arith
step-Inv i (fork_fails p) = ground arith
step-Inv i (child_exits r) = ground arith
step-Inv i (wait_child p z) = ground arith
step-Inv i (wait_fails p r z) = ground arith

reach-Inv : {s : System} → Reach initial s → Inv s
reach-Inv start = ground arith
reach-Inv (later r p) = step-Inv (reach-Inv r) p

-- When a1.c ends, `waitpid` has given it every child that it has forked, and none is left.
pub ends_childless :
    {s : System}
    → Reach initial s
    → s.parent ≡ ended
    → (s.given ≡ s.i) × ((s.children).running ≡ 0) × ((s.children).zombies ≡ 0)
ends_childless r e = let i = reach-Inv r in (ground arith, ground arith, ground arith)

-- So many steps
pub data Run (s : System) : ℕ → System → Type 0 where
  none : Run s 0 s
  more : {n : ℕ} {t u : System} → Run s n t → Step t u → Run s (suc n) u

-- The steps that can be left, and whether `fork` has failed
abbrev fuel_of : System → ℕ
fuel_of s =
    2 * (s.children).running
    + (s.children).zombies
    + elim s.parent [ ended ↦ 0 | forking ↦ 1 | waiting ↦ 1 ]

-- Since `fork` has failed, a step leaves fewer.
step_less :
    {s t : System}
    → s.parent ≢ forking
    → Step s t
    → (t.parent ≢ forking) × (suc (fuel_of t) ≤ fuel_of s)
step_less n (fork_ok p) = absurd (n p)
step_less n (fork_fails p) = absurd (n p)
step_less n (child_exits r) = (n, ground arith)
step_less n (wait_child p z) = (n, ground arith)
step_less n (wait_fails p r z) = (λ e. ground arith, ground arith)

run_less :
    {s t : System} {n : ℕ}
    → s.parent ≢ forking
    → Run s n t
    → (t.parent ≢ forking) × (n + fuel_of t ≤ fuel_of s)
run_less w none = (w, omega arith)
run_less w (more r p) =
    let (w', le) = run_less w r in let (w'', lt) = step_less w' p in (w'', omega arith)

Parent-cases : (p : Parent) → (p ≡ forking) ⊎ ((p ≡ waiting) ⊎ (p ≡ ended))
Parent-cases forking = inl refl
Parent-cases waiting = inr (inl refl)
Parent-cases ended = inr (inr refl)

can_step : (s : System) → (s.parent ≡ ended) ⊎ ((t : System) × Step s t)
can_step s = elim (Parent-cases s.parent) [
  | inl p ↦ inr (_, fork_fails p)
  | inr (inr p) ↦ inl p
  | inr (inl p) ↦ elim (dec_lt 0 (s.children).zombies) [
    | yes z ↦ inr (_, wait_child p z)
    | no z ↦ elim (dec_lt 0 (s.children).running) [
      | yes r ↦ inr (_, child_exits r)
      | no r ↦ inr (_, wait_fails p (omega arith) (omega arith))
    ]
  ]
]

-- Once `fork` has failed, a1.c ends: with `r` children running and `z` ended, no run has more than
-- 2 * r + z + 1 steps, and where a run can go no further the parent has ended.
pub waits_terminate :
    {s t : System} {n : ℕ}
    → s.parent ≡ waiting
    → Run s n t
    → (n ≤ 2 * (s.children).running + (s.children).zombies + 1)
      × ((t.parent ≡ ended) ⊎ ((u : System) × Step t u))
waits_terminate {s} {t} w r =
    let le = (run_less (λ e. ground arith) r).1 in (ground arith, can_step t)
