-- ===== src/SharedMemory/Processes.antt =====
-- a1_p.c and a1_c.c as a step relation.
use linux_learning_by_doing.Prelude.{
  ℕ, suc, ◌+◌, ◌-◌, ◌%◌, ◌<◌, ◌≡◌, ◌==◌, Bool, true, false, ◌&&◌, List, [], ◌∷◌, ◌++◌,
  if◌then◌else◌,
}

-- `struct shmem`, with its array as a function of the index
pub record Shmem : Type 0 where
  pub a : ℕ → ℕ
  pub count : ℕ
  pub size : ℕ
  pub in_ : ℕ
  pub out : ℕ

-- What `main` of a1_p.c stores before its loop.
abbrev pub empty_shmem : Shmem
empty_shmem = record { a = λ i. 0; count = 0; size = 50; in_ = 0; out = 0 }

-- `shma->in==shma->out && shma->count==shma->size`
unfoldable pub is_full : Shmem → Bool
is_full m = (m.in_ == m.out) && (m.count == m.size)

-- `shma->a[shma->out]=ret; shma->out=((shma->out)+1)% (shma->size);`
unfoldable pub store : ℕ → Shmem → Shmem
store c m = record m { a = λ i. if i == m.out then c else m.a i; out = (m.out + 1) % m.size }

-- `shma->in=(shma->in+1)% (shma->size);`
unfoldable pub advance : Shmem → Shmem
advance m = record m { in_ = (m.in_ + 1) % m.size }

-- The loop of a1_p.c. `count+=1` reads `count` and then writes it.
pub data Producer : Type 0 where
  scan : Producer
  wait : ℕ → Producer  -- with the character, before `semop` with -1
  inside : ℕ → Producer
  load : Producer  -- before `count` is read
  counting : ℕ → Producer  -- with what was read
  post : Producer  -- before `semop` with +1

-- The loop of a1_c.c
pub data Consumer : Type 0 where
  wait : Consumer
  inside : Consumer
  load : Consumer
  counting : ℕ → Consumer
  post : Consumer

-- The memory, the semaphore, the processes, and the characters stored and printed.
pub record System : Type 0 where
  pub shm : Shmem
  pub sem : ℕ
  pub producer : Producer
  pub consumer : Consumer
  pub stored : List ℕ
  pub printed : List ℕ

-- After the initialisation of a1_p.c. The value of the semaphore is not set: `semctl` with SETALL is given the
-- number 1 as a pointer.
abbrev pub initial : System
initial = record {
  shm = empty_shmem;
  sem = 0;
  producer = Producer.scan;
  consumer = Consumer.wait;
  stored = [];
  printed = [];
}

-- Not what the code does: the semaphore at 1, which it means.
abbrev pub with_semaphore : System
with_semaphore = record initial { sem = 1 }

abbrev pub released : Bool → ℕ → ℕ
released works sem = if works then suc sem else sem

-- `works`: whether `semop` does what the code means. It does not: with the semaphore number 1 in a set of one
-- it fails with EFBIG and changes nothing, and the code ignores its answer. `true` is for comparison.
module _ (works : Bool) where
  pub data Step (s : System) : System → Type 0 where
    p_scan : (c : ℕ) → s.producer ≡ Producer.scan → Step s (record s { producer = Producer.wait c })
    p_wait :
        (c : ℕ)
        → s.producer ≡ Producer.wait c
        → works ≡ true
        → 0 < s.sem
        → Step s (record s { sem = s.sem - 1; producer = Producer.inside c })
    p_no_wait :
        (c : ℕ)
        → s.producer ≡ Producer.wait c
        → works ≡ false
        → Step s (record s { producer = Producer.inside c })
    p_full :
        (c : ℕ)
        → s.producer ≡ Producer.inside c
        → is_full s.shm ≡ true
        → Step s (record s { producer = Producer.scan })
    p_store :
        (c : ℕ)
        → s.producer ≡ Producer.inside c
        → is_full s.shm ≡ false
        → Step s (record s {
          shm = store c s.shm;
          stored = s.stored ++ (c ∷ []);
          producer = Producer.load;
        })
    p_load :
        s.producer ≡ Producer.load
        → Step s (record s { producer = Producer.counting (s.shm).count })
    p_count :
        (n : ℕ)
        → s.producer ≡ Producer.counting n
        → Step s (record s { shm = record (s.shm) { count = n + 1 }; producer = Producer.post })
    p_post :
        s.producer ≡ Producer.post
        → Step s (record s { sem = released works s.sem; producer = Producer.scan })
    c_wait :
        s.consumer ≡ Consumer.wait
        → works ≡ true
        → 0 < s.sem
        → Step s (record s { sem = s.sem - 1; consumer = Consumer.inside })
    c_no_wait :
        s.consumer ≡ Consumer.wait
        → works ≡ false
        → Step s (record s { consumer = Consumer.inside })
    c_empty :
        s.consumer ≡ Consumer.inside
        → (s.shm).count ≡ 0
        → Step s (record s { consumer = Consumer.wait })
    c_print :
        s.consumer ≡ Consumer.inside
        → 0 < (s.shm).count
        → Step s (record s {
          shm = advance s.shm;
          printed = s.printed ++ ((s.shm).a (s.shm).in_ ∷ []);
          consumer = Consumer.load;
        })
    c_load :
        s.consumer ≡ Consumer.load
        → Step s (record s { consumer = Consumer.counting (s.shm).count })
    c_count :
        (n : ℕ)
        → s.consumer ≡ Consumer.counting n
        → Step s (record s { shm = record (s.shm) { count = n - 1 }; consumer = Consumer.post })
    c_post :
        s.consumer ≡ Consumer.post
        → Step s (record s { sem = released works s.sem; consumer = Consumer.wait })

  -- From one state to another
  pub data Reach (s : System) : System → Type 0 where
    start : Reach s s
    later : {t u : System} → Reach s t → Step t u → Reach s u

infixl 5 ◌▷◌
abbrev pub ◌▷◌ :
    {works : Bool} {s t u : System} → Reach works s t → Step works t u → Reach works s u
r ▷ st = later r st
