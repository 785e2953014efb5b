-- ===== src/SharedMemory/Ring.antt =====
-- The ring as a queue.
use linux_learning_by_doing.Prelude.{
  ℕ, zero, suc, ◌+◌, ◌%◌, ◌<◌, ◌≡◌, ap₂, ◌==◌, List, [], ◌∷◌, ◌++◌, if◌then◌else◌, arith,
}

-- The `n` characters from index `i` on.
abbrev pub ring : (ℕ → ℕ) → ℕ → ℕ → List ℕ
ring a i zero = []
ring a i (suc n) = a i ∷ ring a ((i + 1) % 50) n

pub ring-write :
    (a : ℕ → ℕ) (i n j c : ℕ)
    → i < 50
    → n < 50
    → j ≡ (i + n) % 50
    → ring (λ k. if k == j then c else a k) i (suc n) ≡ ring a i n ++ (c ∷ [])
ring-write a i zero j c hi hn e = ground arith
ring-write a i (suc n) j c hi hn e =
    ap₂ ◌∷◌ (ground arith)
      (ring-write a ((i + 1) % 50) n j c (omega arith) (omega arith) (omega arith))
