-- ===== src/Forks.antt =====
-- Assignment/2_2/a1.c to a5.c and Assignment/2_1/a1.c, a2.c and a6.c: the processes that a program forks,
-- and those that it waits for.
pub mod Count
pub mod Five
pub mod Children
pub mod Unlimited
pub mod Compile
pub mod Single
mod Tests
mod WaitTests
use linux_learning_by_doing.Prelude.{
  ℕ, zero, suc, ◌+◌, leb, Bool, Option, none, some, List, [], ◌∷◌, if◌then◌else◌,
}

abbrev pub one_more : Option ℕ → Option ℕ
one_more none = none
one_more (some n) = some (suc n)

-- a2.c from `label` on, in a process with this `i`: how many processes come to be below it, with whether
-- the `fork` of each `i` succeeds. A parent waits and ends; a child adds 1 to `i` and goes back to the
-- label while that is at most 5. `none`: out of fuel.
pub chain : ℕ → ℕ → (ℕ → Bool) → Option ℕ
chain zero i fork = none
chain (suc fuel) i fork =
    let below = chain fuel (i + 1) fork in
    if fork i then (if leb (i + 1) 5 then one_more below else some 1) else some 0

-- The first loop of a5.c, over what `fork` answers to the parent: a child, or `none` for -1, which ends
-- it. The children that there are then; `none` while it goes on.
pub spawn : List (Option ℕ) → Option (List ℕ)
spawn [] = none
spawn (none ∷ forks) = some []
spawn (some child ∷ forks) = elim (spawn forks) [
  | none ↦ none
  | some children ↦ some (child ∷ children)
]

-- The second loop, over what `waitpid` answers: the `count` that it prints.
pub count_waits : ℕ → List (Option ℕ) → Option ℕ
count_waits count [] = none
count_waits count (none ∷ waits) = some (count + 1)
count_waits count (some child ∷ waits) = count_waits (count + 1) waits

-- `main` of a5.c in the parent: the children, and the number of children printed.
pub main_spawn : List (Option ℕ) → List (Option ℕ) → Option (List ℕ × ℕ)
main_spawn forks waits = elim (spawn forks) [
  | none ↦ none
  | some children ↦ elim (count_waits 0 waits) [ none ↦ none | some count ↦ some (children, count) ]
]
