-- ===== src/Forks/Compile.antt =====
-- Assignment/2_2/a4.c: a compiler in each of five children, and the linker when there is no child left.
use linux_learning_by_doing.Prelude.{
  ◌⊎◌, inl, inr, dec_lt, suc, zero, ◌*◌, ◌-◌, ◌+◌, ◌<◌, ◌≤◌, ◌≡◌, ◌∙◌, ap, ℕ, List, [], ◌∷◌, ◌++◌,
  refl, arith,
}
use linux_learning_by_doing.Forks.Children.{Children, no_children, born, dies, waited}

pub data Parent : Type 0 where
  loop : ℕ → Parent  -- before `i++<5`
  waiting : Parent
  linking : Parent  -- the linker in its place
  exited : ℕ → Parent

-- With the arguments that have been given to a compiler
pub record System : Type 0 where
  pub parent : Parent
  pub children : Children
  pub compiled : List ℕ

abbrev pub initial : System
initial = record { parent = loop 0; children = no_children; compiled = [] }

-- The child becomes the compiler, or exits where `execl` fails; either way it ends.
pub data Step (s : System) : System → Type 0 where
  fork_ok :
      (i : ℕ)
      → s.parent ≡ loop i
      → i < 5
      → Step s (record s {
        parent = loop (i + 1);
        children = born s.children;
        compiled = s.compiled ++ ((i + 1) ∷ []);
      })
  fork_fails : (i : ℕ) → s.parent ≡ loop i → i < 5 → Step s (record s { parent = exited 0 })
  loop_over : (i : ℕ) → s.parent ≡ loop i → 5 ≤ i → Step s (record s { parent = waiting })
  child_ends : 0 < (s.children).running → Step s (record s { children = dies s.children })
  wait_child :
      s.parent ≡ waiting
      → 0 < (s.children).zombies
      → Step s (record s { children = waited s.children })
  link :
      s.parent ≡ waiting
      → (s.children).running ≡ 0
      → (s.children).zombies ≡ 0
      → Step s (record s { parent = linking })
  link_fails :
      s.parent ≡ waiting
      → (s.children).running ≡ 0
      → (s.children).zombies ≡ 0
      → Step s (record s { parent = exited 1 })

pub data Reach (s : System) : System → Type 0 where
  start : Reach s s
  later : {t u : System} → Reach s t → Step t u → Reach s u

infixl 5 ◌▷◌
abbrev pub ◌▷◌ : {s t u : System} → Reach s t → Step t u → Reach s u
◌▷◌ = later

-- 1 to `n`
abbrev pub upto : ℕ → List ℕ
upto zero = []
upto (suc n) = upto n ++ (suc n ∷ [])

upto_next : (i : ℕ) → upto (i + 1) ≡ upto i ++ ((i + 1) ∷ [])
upto_next i = let next : i + 1 ≡ suc i = omega arith in rw next refl

-- What has been compiled, and what is left of the children
abbrev Known : System → Parent → Type 0
Known s (loop i) = (s.compiled ≡ upto i) × (i ≤ 5)
Known s waiting = s.compiled ≡ upto 5
Known s linking = (s.compiled ≡ upto 5) × ((s.children).running + (s.children).zombies ≡ 0)
Known s (exited zero) = Unit
Known s (exited (suc n)) =
    (n ≡ 0) × (s.compiled ≡ upto 5) × ((s.children).running + (s.children).zombies ≡ 0)

record Inv (s : System) : Type 0 where
  known : Known s s.parent

step-Inv : {s t : System} → Inv s → Step s t → Inv t
step-Inv i (fork_ok n p lt) = ground (arith, upto_next n)
step-Inv i (fork_fails n p lt) = ground arith
step-Inv i (loop_over n p le) = ground arith
step-Inv i (child_ends r) = ground arith
step-Inv i (wait_child p z) = ground arith
step-Inv i (link p r z) = ground arith
step-Inv i (link_fails p r z) = ground arith

reach-Inv : {s : System} → Reach initial s → Inv s
reach-Inv start = ground arith
reach-Inv (later r p) = step-Inv (reach-Inv r) p

-- When a4.c links, a child has been made for each of its arguments 1 to 5, in this order, and all of
-- them have ended and been waited for.
pub links_after_all :
    {s : System}
    → Reach initial s
    → s.parent ≡ linking
    → (s.compiled ≡ 1 ∷ 2 ∷ 3 ∷ 4 ∷ 5 ∷ [])
      × ((s.children).running ≡ 0)
      × ((s.children).zombies ≡ 0)
links_after_all r e = let i = reach-Inv r in (ground arith, ground arith, ground arith)

-- When a `fork` fails after another one, a4.c exits with status 0 and neither waits nor links, though a
-- compiler may still run.
pub failed_fork_abandons :
    (s : System) × Reach initial s
    × (s.parent ≡ exited 0)
    × (s.compiled ≡ 1 ∷ [])
    × ((s.children).running ≡ 1)
failed_fork_abandons = (
  record { parent = exited 0; children = record { running = 1; zombies = 0 }; compiled = 1 ∷ [] },
  start ▷ fork_ok 0 refl (omega arith) ▷ fork_fails 1 refl (omega arith),
  refl,
  refl,
  refl,
)

-- So many steps from the start
pub data Run : ℕ → System → Type 0 where
  none : Run 0 initial
  more : {n : ℕ} {s t : System} → Run n s → Step s t → Run (suc n) t

-- The steps that may still come: three for a child
abbrev of_parent : Parent → ℕ
of_parent (loop i) = 3 * (5 - i) + 2
of_parent waiting = 1
of_parent linking = 0
of_parent (exited n) = 0

abbrev to_come : System → ℕ
to_come s = of_parent s.parent + 2 * (s.children).running + (s.children).zombies

step-less : {s t : System} → Step s t → suc (to_come t) ≤ to_come s
step-less (fork_ok i p lt) = ground arith
step-less (fork_fails i p lt) = ground arith
step-less (loop_over i p le) = ground arith
step-less (child_ends r) = ground arith
step-less (wait_child p z) = ground arith
step-less (link p r z) = ground arith
step-less (link_fails p r z) = ground arith

run-less : {n : ℕ} {s : System} → Run n s → n + to_come s ≤ 17
run-less none = omega arith
run-less (more r p) = omega (arith, run-less r, step-less p)

run-reach : {n : ℕ} {s : System} → Run n s → Reach initial s
run-reach none = start
run-reach (more r p) = later (run-reach r) p

-- All five have been compiled, and no child is left.
abbrev Compiled : System → Type 0
Compiled s =
    (s.compiled ≡ 1 ∷ 2 ∷ 3 ∷ 4 ∷ 5 ∷ []) × ((s.children).running ≡ 0) × ((s.children).zombies ≡ 0)

pub data Over (s : System) : Type 0 where
  linked : s.parent ≡ linking → Compiled s → Over s
  no_linker : s.parent ≡ exited 1 → Compiled s → Over s
  no_fork : s.parent ≡ exited 0 → Over s

steps : (s : System) (p : Parent) → s.parent ≡ p → Inv s → ((t : System) × Step s t) ⊎ Over s
steps s (loop i) e v = elim (dec_lt i 5) [
  | yes lt ↦ inl (_, fork_ok i e lt)
  | no ge ↦ inl (_, loop_over i e (omega arith))
]
steps s waiting e v = elim (dec_lt 0 (s.children).zombies) [
  | yes z ↦ inl (_, wait_child e z)
  | no z ↦ elim (dec_lt 0 (s.children).running) [
    | yes r ↦ inl (_, child_ends r)
    | no r ↦ inl (_, link e (omega arith) (omega arith))
  ]
]
steps s linking e v = inr (linked e (ground arith, ground arith, ground arith))
steps s (exited zero) e v = inr (no_fork e)
steps s (exited (suc n)) e v = inr (
    no_linker (e ∙ ap (λ k. exited (suc k)) (ground arith))
      (ground arith, ground arith, ground arith))

-- A run of a4.c has at most 17 steps. Where it cannot go on, it is at one of three ends: the linker runs
-- or could not be started, and then a child has been made for each of the arguments 1 to 5, in this
-- order, and all of them have ended and been waited for; or a `fork` has failed.
pub compile_is_over :
    {n : ℕ} {s : System} → Run n s → (n ≤ 17) × (((t : System) × Step s t) ⊎ Over s)
compile_is_over {s = s} r =
    (omega (arith, run-less r), steps s s.parent refl (reach-Inv (run-reach r)))
