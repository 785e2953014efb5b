-- ===== src/SharedMemory/Forked.antt =====
-- Assignment/2_3/a1_a.c: the ring between a parent and its child, which initialises it.
use linux_learning_by_doing.Prelude.{
  ℕ, ◌+◌, ◌-◌, ◌<◌, ◌≡◌, refl, true, false, List, [], ◌∷◌, ◌++◌, arith,
}
use linux_learning_by_doing.SharedMemory.Processes.{Shmem, Consumer, is_full, store, advance}

-- A segment that `shmget` has just made
abbrev pub fresh : Shmem
fresh = record { a = λ i. 0; count = 0; size = 0; in_ = 0; out = 0 }

-- The child: its four assignments, and its loop, in which `scanf` stands inside.
pub data Child : Type 0 where
  set_in set_out set_count set_size : Child
  wait : Child
  inside : Child
  load : Child  -- before `count` is read
  counting : ℕ → Child  -- with what was read
  post : Child

-- With the characters stored and printed. `semop` on the semaphore number 1 of a set of one fails with
-- EFBIG, and the code ignores it: no process waits, and the semaphore is left out.
pub record System : Type 0 where
  pub shm : Shmem
  pub child : Child
  pub parent : Consumer
  pub stored : List ℕ
  pub printed : List ℕ

-- After `fork`, with what is in the segment
abbrev pub forked : Shmem → System
forked m = record { shm = m; child = set_in; parent = Consumer.wait; stored = []; printed = [] }

pub data Step (s : System) : System → Type 0 where
  c_set_in :
      s.child ≡ set_in → Step s (record s { shm = record (s.shm) { in_ = 0 }; child = set_out })
  c_set_out :
      s.child ≡ set_out → Step s (record s { shm = record (s.shm) { out = 0 }; child = set_count })
  c_set_count :
      s.child ≡ set_count
      → Step s (record s { shm = record (s.shm) { count = 0 }; child = set_size })
  c_set_size :
      s.child ≡ set_size → Step s (record s { shm = record (s.shm) { size = 50 }; child = wait })
  c_wait : s.child ≡ wait → Step s (record s { child = inside })
  c_full : s.child ≡ inside → is_full s.shm ≡ true → Step s (record s { child = wait })
  c_store :
      (c : ℕ)
      → s.child ≡ inside
      → is_full s.shm ≡ false
      → Step s (record s { shm = store c s.shm; stored = s.stored ++ (c ∷ []); child = load })
  c_load : s.child ≡ load → Step s (record s { child = counting (s.shm).count })
  c_count :
      (n : ℕ)
      → s.child ≡ counting n
      → Step s (record s { shm = record (s.shm) { count = n + 1 }; child = post })
  c_post : s.child ≡ post → Step s (record s { child = wait })
  p_wait : s.parent ≡ Consumer.wait → Step s (record s { parent = Consumer.inside })
  p_empty :
      s.parent ≡ Consumer.inside → (s.shm).count ≡ 0 → Step s (record s { parent = Consumer.wait })
  p_print :
      s.parent ≡ Consumer.inside
      → 0 < (s.shm).count
      → Step s (record s {
        shm = advance s.shm;
        printed = s.printed ++ ((s.shm).a (s.shm).in_ ∷ []);
        parent = Consumer.load;
      })
  p_load : s.parent ≡ Consumer.load → Step s (record s { parent = Consumer.counting (s.shm).count })
  p_count :
      (n : ℕ)
      → s.parent ≡ Consumer.counting n
      → Step s (record s { shm = record (s.shm) { count = n - 1 }; parent = Consumer.post })
  p_post : s.parent ≡ Consumer.post → Step s (record s { parent = Consumer.wait })

pub data Reach (s : System) : System → Type 0 where
  start : Reach s s
  later : {t u : System} → Reach s t → Step t u → Reach s u

infixl 5 ◌▷◌
abbrev pub ◌▷◌ : {s t u : System} → Reach s t → Step t u → Reach s u
◌▷◌ = later

-- The parent has not found a character.
abbrev pub Idle : Consumer → Type 0
Idle Consumer.wait = Unit
Idle Consumer.inside = Unit
Idle Consumer.load = ⊥
Idle (Consumer.counting n) = ⊥
Idle Consumer.post = ⊥

-- Until the child stores its first character
abbrev Quiet : System → Type 0
Quiet s = ((s.shm).count ≡ 0) × Idle s.parent × (s.printed ≡ [])

abbrev Before : Child → System → Type 0
Before set_in s = Quiet s × (s.stored ≡ [])
Before set_out s = Quiet s × (s.stored ≡ []) × ((s.shm).in_ ≡ 0)
Before set_count s = Quiet s × (s.stored ≡ []) × ((s.shm).in_ ≡ 0) × ((s.shm).out ≡ 0)
Before set_size s = Quiet s × (s.stored ≡ []) × ((s.shm).in_ ≡ 0) × ((s.shm).out ≡ 0)
Before _ s = Unit

step-Before : {s t : System} → Before s.child s → Step s t → Before t.child t
step-Before b (c_set_in e) = ground arith
step-Before b (c_set_out e) = ground arith
step-Before b (c_set_count e) = ground arith
step-Before b (c_set_size e) = ground arith
step-Before b (c_wait e) = ground arith
step-Before b (c_full e f) = ground arith
step-Before b (c_store c e f) = ground arith
step-Before b (c_load e) = ground arith
step-Before b (c_count n e) = ground arith
step-Before b (c_post e) = ground arith
step-Before b (p_wait e) = ground arith
step-Before b (p_empty e f) = ground arith
step-Before b (p_print e f) = ground arith
step-Before b (p_load e) = ground arith
step-Before b (p_count n e) = ground arith
step-Before b (p_post e) = ground arith

reach-Before : {m : Shmem} {s : System} → m.count ≡ 0 → Reach (forked m) s → Before s.child s
reach-Before e start = ground arith
reach-Before e (later r p) = step-Before (reach-Before e r) p

-- In a segment whose `count` is 0, as in a new one: when the child of a1_a.c makes the last of its
-- assignments, the ring is the empty one, and the parent, which has been reading it all the time, has
-- printed nothing and waits or is about to find `count` 0.
pub empty_until_init :
    {m : Shmem} {s : System}
    → m.count ≡ 0
    → Reach (forked m) s
    → s.child ≡ set_size
    → ((s.shm).in_ ≡ 0)
      × ((s.shm).out ≡ 0)
      × ((s.shm).count ≡ 0)
      × (s.printed ≡ [])
      × (s.stored ≡ [])
      × Idle s.parent
empty_until_init e r c =
    let b = reach-Before e r in
    (ground arith, ground arith, ground arith, ground arith, ground arith, ground arith)

-- The segment outlives the program: with one character left in it
abbrev pub left_over : (ℕ → ℕ) → Shmem
left_over a = record { a = a; count = 1; size = 50; in_ = 0; out = 1 }

-- With a character left from an earlier run, the parent of a1_a.c can print it while the child
-- initialises, which moves the ring apart: a character that the child then stores is not the one
-- that the parent prints next.
pub left_over_misleads :
    (a : ℕ → ℕ) (c : ℕ)
    → (s : System) × Reach (forked (left_over a)) s
      × (s.stored ≡ c ∷ [])
      × (s.printed ≡ a 0 ∷ a 1 ∷ [])
      × ((s.shm).in_ ≡ 2)
      × ((s.shm).out ≡ 1)
unfolding is_full store advance
left_over_misleads a c = (
  _,
  start
      ▷ p_wait refl
      ▷ c_set_in refl
      ▷ p_print refl (omega arith)
      ▷ p_load refl
      ▷ c_set_out refl
      ▷ c_set_count refl
      ▷ p_count 1 refl
      ▷ p_post refl
      ▷ c_set_size refl
      ▷ c_wait refl
      ▷ c_store c refl refl
      ▷ c_load refl
      ▷ c_count 0 refl
      ▷ p_wait refl
      ▷ p_print refl (omega arith),
  refl,
  refl,
  refl,
  refl,
)
