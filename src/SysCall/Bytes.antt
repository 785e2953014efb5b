-- ===== src/SysCall/Bytes.antt =====
-- The memory of a process, byte by byte, with numbers from the lowest byte on.
use linux_learning_by_doing.Prelude.{
  ℕ, zero, suc, ◌+◌, ◌*◌, ◌/◌, ◌%◌, ◌≤◌, ◌<◌, ◌≡◌, ◌⊎◌, inl, inr, ◌^◌, ◌==◌, refl, ap, List, [],
  ◌∷◌, length, arith, if◌then◌else◌,
}

abbrev pub Memory : Type 0
Memory = ℕ → ℕ

-- The lowest `n` bytes of a number
unfoldable pub bytes : ℕ → ℕ → List ℕ
bytes zero v = []
bytes (suc n) v = (v % 256) ∷ bytes n (v / 256)

unfoldable pub read : ℕ → ℕ → Memory → ℕ
read zero a m = 0
read (suc n) a m = m a + 256 * read n (a + 1) m

unfoldable pub store : ℕ → List ℕ → Memory → Memory
store a [] m = m
store a (b ∷ bs) m = store (a + 1) bs (λ j. if a == j then b else m j)

pub length-bytes : (n v : ℕ) → length (bytes n v) ≡ n
unfolding bytes
length-bytes zero v = refl
length-bytes (suc n) v = ap suc (length-bytes n (v / 256))

-- The number has no more than `n` bytes.
abbrev pub Fits : ℕ → ℕ → Type 0
Fits zero v = v ≡ 0
Fits (suc n) v = Fits n (v / 256)

pub store_below : (a : ℕ) (bs : List ℕ) (m : Memory) (j : ℕ) → j < a → store a bs m j ≡ m j
unfolding store
store_below a [] m j h = refl
store_below a (b ∷ bs) m j h =
    ground (arith, store_below (a + 1) bs (λ i. if a == i then b else m i) j (omega arith))

pub store_above :
    (a : ℕ) (bs : List ℕ) (m : Memory) (j : ℕ) → a + length bs ≤ j → store a bs m j ≡ m j
unfolding store
store_above a [] m j h = refl
store_above a (b ∷ bs) m j h =
    ground (arith, store_above (a + 1) bs (λ i. if a == i then b else m i) j (omega arith))

store_here : (a b : ℕ) (m : Memory) → (if a == a then b else m a) ≡ b
store_here a b m = ground arith

-- What is stored is read.
pub read-store : (n a v : ℕ) (m : Memory) → Fits n v → read n a (store a (bytes n v) m) ≡ v
unfolding bytes read store
read-store zero a v m f = omega arith
read-store (suc n) a v m f =
    let m1 : Memory = λ j. if a == j then v % 256 else m j in
    omega (
      arith,
      store_below (a + 1) (bytes n (v / 256)) m1 a (omega arith),
      store_here a (v % 256) m,
      read-store n (a + 1) (v / 256) m1 f,
    )

-- The same bytes are read as the same number.
pub read_same :
    (n a : ℕ) (m m' : Memory)
    → ((j : ℕ) → a ≤ j → j < a + n → m j ≡ m' j)
    → read n a m ≡ read n a m'
unfolding read
read_same zero a m m' h = refl
read_same (suc n) a m m' h = omega (
  arith,
  h a (omega arith) (omega arith),
  read_same n (a + 1) m m' (λ j lo hi. h j (omega arith) (omega arith)),
)

-- Reading beside what is stored
pub read-store_apart :
    (n a b : ℕ) (bs : List ℕ) (m : Memory)
    → (a + n ≤ b) ⊎ (b + length bs ≤ a)
    → read n a (store b bs m) ≡ read n a m
read-store_apart n a b bs m (inl h) =
    read_same n a (store b bs m) m (λ j lo hi. store_below b bs m j (omega arith))
read-store_apart n a b bs m (inr h) =
    read_same n a (store b bs m) m (λ j lo hi. store_above b bs m j (omega arith))

-- A number below 2 ^ 32 has four bytes.
pub word-Fits : (v : ℕ) → v < 2 ^ 32 → Fits 4 v
word-Fits v h = omega arith
