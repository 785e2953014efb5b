-- ===== src/Forks/Count.antt =====
-- How many processes there are, and how many a program says there are.
use linux_learning_by_doing.Prelude.{
  ℕ, zero, suc, ◌+◌, ◌≤◌, ◌<◌, ◌≡◌, refl, ap, ◌∙◌, Bool, true, false, none, some, List, [], ◌∷◌,
  ◌++◌, map, length, arith, dec_lt,
}
use linux_learning_by_doing.Forks.{chain, spawn, count_waits, main_spawn}

-- The last `fork` of the chain, and one before it.
chain-stop : (fuel i : ℕ) (fork : ℕ → Bool) → fork i ≡ false → chain (suc fuel) i fork ≡ some 0
unfolding chain
chain-stop fuel i fork e = rw (chain, e) refl

chain-last :
    (fuel i : ℕ) (fork : ℕ → Bool) → 5 ≤ i → fork i ≡ true → chain (suc fuel) i fork ≡ some 1
unfolding chain
chain-last fuel i fork le e = ground arith

chain-more :
    (fuel i n : ℕ) (fork : ℕ → Bool)
    → i < 5
    → fork i ≡ true
    → chain fuel (i + 1) fork ≡ some n
    → chain (suc fuel) i fork ≡ some (suc n)
unfolding chain
chain-more fuel i n fork lt e f = ground arith

chain-from :
    (fuel i n : ℕ) (fork : ℕ → Bool)
    → i + fuel ≡ 6
    → i + n ≤ 6
    → i < 6
    → ((j : ℕ) → j < i + n → fork j ≡ true)
    → (i + n < 6 → fork (i + n) ≡ false)
    → chain fuel i fork ≡ some n
chain-from zero i n fork e le lt good bad = absurd (omega arith)
chain-from (suc fuel) i zero fork e le lt good bad =
    chain-stop fuel i fork (ap fork (omega arith) ∙ bad (omega arith))
chain-from (suc fuel) i (suc n) fork e le lt good bad = elim (dec_lt i 5) [
  | no last ↦ chain-last fuel i fork (omega arith) (good i (omega arith)) ∙ ap some (omega arith)
  | yes more ↦ chain-more fuel i n fork more (good i (omega arith)) (
      chain-from fuel (i + 1) n fork (omega arith) (omega arith) (omega arith)
        (λ j h. good j (omega arith)) (λ h. ap fork (omega arith) ∙ bad (omega arith)))
]

-- a2.c: when the first `n` forks succeed and the next, if there is one, fails, `n` processes come to be
-- below the first; with no failure these are six, one more than the comment of the program asks for.
-- The recursion ends.
pub chain_until_failure :
    (n : ℕ) (fork : ℕ → Bool)
    → n ≤ 6
    → ((j : ℕ) → j < n → fork j ≡ true)
    → (n < 6 → fork n ≡ false)
    → chain 6 0 fork ≡ some n
chain_until_failure n fork le good bad =
    chain-from 6 0 n fork refl (omega arith) (omega arith) (λ j h. good j (omega arith))
      (λ h. ap fork (omega arith) ∙ bad (omega arith))

spawn_lem : (children : List ℕ) → spawn (map some children ++ (none ∷ [])) ≡ some children
unfolding spawn
spawn_lem [] = refl
spawn_lem (c ∷ children) = rw (spawn_lem children) refl

count_waits_lem :
    (count : ℕ) (reaped : List ℕ)
    → count_waits count (map some reaped ++ (none ∷ [])) ≡ some (count + length reaped + 1)
unfolding count_waits
count_waits_lem count [] = ap some (omega arith)
count_waits_lem count (r ∷ reaped) = count_waits_lem (count + 1) reaped ∙ ap some (omega arith)

-- a5.c: when `waitpid` answers once for each child that was forked and then -1, the number of children
-- that the program prints is one too many.
pub count_one_too_many :
    (children reaped : List ℕ)
    → length reaped ≡ length children
    → main_spawn (map some children ++ (none ∷ [])) (map some reaped ++ (none ∷ []))
      ≡ some (children, length children + 1)
unfolding main_spawn
count_one_too_many children reaped e =
    rw (main_spawn, spawn_lem children, count_waits_lem 0 reaped)
      (ap (λ n. some (children, n)) (omega arith))
