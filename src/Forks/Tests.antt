-- ===== src/Forks/Tests.antt =====
-- A chain whose forks all succeed, and two children.
use linux_learning_by_doing.Prelude.{
  ℕ, ◌+◌, ◌≡◌, refl, ◌∷◌, [], leb, if◌then◌else◌, Option, true, some, none, arith,
}
use linux_learning_by_doing.Forks.{chain, main_spawn}
use linux_learning_by_doing.Forks.Five.{main_five, five_children}
use linux_learning_by_doing.Forks.Count.{chain_until_failure, count_one_too_many}

chain_until_failure_test : chain 6 0 (λ i. true) ≡ some 6
chain_until_failure_test =
    chain_until_failure 6 (λ i. true) (omega arith) (λ j h. refl) (λ h. absurd (omega arith))

count_one_too_many_test :
    main_spawn (some 101 ∷ some 102 ∷ none ∷ []) (some 102 ∷ some 101 ∷ none ∷ [])
    ≡ some (101 ∷ 102 ∷ [], 3)
count_one_too_many_test = count_one_too_many (101 ∷ 102 ∷ []) (102 ∷ 101 ∷ []) refl

-- The fourth `fork` fails.
abbrev three : ℕ → Option ℕ
three i = if leb i 3 then some (100 + i) else none

five_children_test : main_five three (some 101 ∷ none ∷ []) ≡ some (2, 101 ∷ 102 ∷ 103 ∷ [], [])
five_children_test =
    five_children 3 three (λ i. 100 + i) (101 ∷ []) (omega arith) (λ j l h. ground arith)
      (λ h. refl)
