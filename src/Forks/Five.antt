-- ===== src/Forks/Five.antt =====
-- Assignment/2_2/a1.c: five children of one parent, and the loop that collects them.
use linux_learning_by_doing.Prelude.{
  ℕ, zero, suc, ◌+◌, ◌≤◌, ◌<◌, ◌≡◌, refl, sym, ap, ap₂, ◌∙◌, leb, Bool, true, false, Option, none,
  some, List, [], ◌∷◌, ◌++◌, append_assoc, append-nil, map, if◌then◌else◌, arith, dec_lt,
}

-- `while(i++<=5)` in the parent, with what `fork` answers for each `i`: a child, or `none` for -1.
-- Whether the loop ended without a failure, and the children. `none`: out of fuel.
pub create_children : ℕ → ℕ → (ℕ → Option ℕ) → List ℕ → Option (Bool × List ℕ)
create_children zero i fork children = none
create_children (suc fuel) i fork children =
    if leb i 5
    then elim (fork i) [
      | none ↦ some (false, children)
      | some child ↦ create_children fuel (i + 1) fork (children ++ (child ∷ []))
    ]
    else some (true, children)

-- The loop of `waitpid`, over its answers: the children that it releases before the first -1.
pub release : List (Option ℕ) → Option (List ℕ)
release [] = none
release (none ∷ waits) = some []
release (some child ∷ waits) = elim (release waits) [
  | none ↦ none
  | some children ↦ some (child ∷ children)
]

-- `main` in the parent: the status of `exit`, the children created, and those released.
pub main_five : (ℕ → Option ℕ) → List (Option ℕ) → Option (ℕ × List ℕ × List ℕ)
main_five fork waits = elim (create_children 6 1 fork []) [
  | none ↦ none
  | some (false, children) ↦ some (2, children, [])
  | some (true, children) ↦ elim (release waits) [
    | none ↦ none
    | some released ↦ some (0, children, released)
  ]
]

-- `i`, `i + 1` and so on, `n` of them
abbrev pub from : ℕ → ℕ → List ℕ
from i zero = []
from i (suc n) = i ∷ from (i + 1) n

create-past :
    (fuel i : ℕ) (fork : ℕ → Option ℕ) (children : List ℕ)
    → 5 < i
    → create_children (suc fuel) i fork children ≡ some (true, children)
unfolding create_children
create-past fuel i fork children lt = ground arith

create-failure :
    (fuel i : ℕ) (fork : ℕ → Option ℕ) (children : List ℕ)
    → i ≤ 5
    → fork i ≡ none
    → create_children (suc fuel) i fork children ≡ some (false, children)
unfolding create_children
create-failure fuel i fork children le e = ground arith

create-more :
    (fuel i child : ℕ) (fork : ℕ → Option ℕ) (children : List ℕ)
    → i ≤ 5
    → fork i ≡ some child
    → create_children (suc fuel) i fork children
      ≡ create_children fuel (i + 1) fork (children ++ (child ∷ []))
unfolding create_children
create-more fuel i child fork children le e = ground arith

create_children-from :
    (fuel i n : ℕ) (fork : ℕ → Option ℕ) (pid : ℕ → ℕ) (children : List ℕ)
    → i + fuel ≡ 7
    → i + n ≤ 6
    → ((j : ℕ) → i ≤ j → j < i + n → fork j ≡ some (pid j))
    → (i + n < 6 → fork (i + n) ≡ none)
    → create_children fuel i fork children ≡ some (leb 6 (i + n), children ++ map pid (from i n))
create_children-from zero i n fork pid children e le good bad = absurd (omega arith)
create_children-from (suc fuel) i zero fork pid children e le good bad = elim (dec_lt i 6) [
  | yes lt ↦
      create-failure fuel i fork children (omega arith) (ap fork (omega arith) ∙ bad (omega arith))
      ∙ ap₂ (λ b l. some (b, l)) (ground arith) (sym (append-nil children))
  | no ge ↦
      create-past fuel i fork children (omega arith)
      ∙ ap₂ (λ b l. some (b, l)) (ground arith) (sym (append-nil children))
]
create_children-from (suc fuel) i (suc n) fork pid children e le good bad =
    create-more fuel i (pid i) fork children (omega arith) (good i (omega arith) (omega arith))
    ∙ create_children-from fuel (i + 1) n fork pid (children ++ (pid i ∷ [])) (omega arith)
        (omega arith) (λ j l h. good j (omega arith) (omega arith))
        (λ h. ap fork (omega arith) ∙ bad (omega arith))
    ∙ ap₂ (λ b l. some (b, l)) (ap (leb 6) (omega arith))
        (append_assoc children (pid i ∷ []) (map pid (from (i + 1) n)))

release_lem : (released : List ℕ) → release (map some released ++ (none ∷ [])) ≡ some released
unfolding release
release_lem [] = refl
release_lem (c ∷ released) = rw (release_lem released) refl

ended :
    (b : Bool) (fork : ℕ → Option ℕ) (children released : List ℕ)
    → create_children 6 1 fork [] ≡ some (b, children)
    → main_five fork (map some released ++ (none ∷ []))
      ≡ some (if b then (0, children, released) else (2, children, []))
unfolding main_five
ended true fork children released e = rw (main_five, e, release_lem released) refl
ended false fork children released e = rw (main_five, e) refl

-- When the first `n` forks of at most five give children, and the next one fails, if there is one: `main`
-- creates these children; with all five it then releases what `waitpid` answers up to its first -1 and
-- exits with 0, and with fewer it exits with 2 and waits for none of them. Its first loop ends.
pub five_children :
    (n : ℕ) (fork : ℕ → Option ℕ) (pid : ℕ → ℕ) (released : List ℕ)
    → n ≤ 5
    → ((j : ℕ) → 1 ≤ j → j ≤ n → fork j ≡ some (pid j))
    → (n < 5 → fork (1 + n) ≡ none)
    → main_five fork (map some released ++ (none ∷ []))
      ≡ some
          (if leb 6 (1 + n) then (0, map pid (from 1 n), released) else (2, map pid (from 1 n), []))
five_children n fork pid released le good bad =
    ended (leb 6 (1 + n)) fork (map pid (from 1 n)) released (
      create_children-from 6 1 n fork pid [] refl (omega arith) (λ j l h. good j l (omega arith))
        (λ h. bad (omega arith)))
