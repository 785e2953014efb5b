-- ===== src/SharedMemory/Token.antt =====
-- a1_p.c and a1_c.c with a semaphore that works: what `continue` does to its one unit.
use linux_learning_by_doing.Prelude.{
  ℕ, ◌+◌, ◌≡◌, ◌⊎◌, inl, inr, refl, Bool, true, false, Bool-cases, arith, dec_lt,
}
use linux_learning_by_doing.SharedMemory.Processes.{
  Producer, Consumer, System, with_semaphore, is_full, Step, p_scan, p_wait, p_no_wait, p_full,
  p_store, p_load, p_count, p_post, c_wait, c_no_wait, c_empty, c_print, c_load, c_count, c_post,
  Reach, start, later,
}
use linux_learning_by_doing.SharedMemory.Invariant.{p_in, c_in}

-- Whether the step is one of the two `continue`
abbrev pub skipped : {s t : System} → Step true s t → ℕ
skipped (p_full c e f) = 1
skipped (c_empty e f) = 1
skipped _ = 0

abbrev pub skips : {s : System} → Reach true with_semaphore s → ℕ
skips start = 0
skips (later r p) = skips r + skipped p

abbrev units : System → ℕ
units s = s.sem + p_in s.producer + c_in s.consumer

step-units : {s t : System} (p : Step true s t) → units t + skipped p ≡ units s
step-units (p_scan c e) = ground arith
step-units (p_wait c e w f) = ground arith
step-units (p_no_wait c e w) = ground arith
step-units (p_full c e f) = ground arith
step-units (p_store c e f) = ground arith
step-units (p_load e) = ground arith
step-units (p_count n e) = ground arith
step-units (p_post e) = ground arith
step-units (c_wait e w f) = ground arith
step-units (c_no_wait e w) = ground arith
step-units (c_empty e f) = ground arith
step-units (c_print e f) = ground arith
step-units (c_load e) = ground arith
step-units (c_count n e) = ground arith
step-units (c_post e) = ground arith

reach-units : {s : System} (r : Reach true with_semaphore s) → units s + skips r ≡ 1
reach-units start = refl
reach-units (later r p) = omega (arith, reach-units r, step-units p)

abbrev pub reads : {s t : System} → Step true s t → Bool
reads (p_scan c e) = true
reads _ = false

-- A step that waits for no character of the input
abbrev pub CanMove : System → Type 0
CanMove s = (t : System) × (p : Step true s t) × (reads p ≡ false)

producer-moves : (s : System) (p : Producer) → s.producer ≡ p → p_in p ≡ 1 → CanMove s
producer-moves s Producer.scan e i = absurd (omega arith)
producer-moves s (Producer.wait c) e i = absurd (omega arith)
producer-moves s (Producer.inside c) e i = elim (Bool-cases (is_full s.shm)) [
  | inl f ↦ (_, p_full c e f, refl)
  | inr f ↦ (_, p_store c e f, refl)
]
producer-moves s Producer.load e i = (_, p_load e, refl)
producer-moves s (Producer.counting n) e i = (_, p_count n e, refl)
producer-moves s Producer.post e i = (_, p_post e, refl)

consumer-moves : (s : System) (c : Consumer) → s.consumer ≡ c → s.sem + c_in c ≡ 1 → CanMove s
consumer-moves s Consumer.wait e i = (_, c_wait e refl (omega arith), refl)
consumer-moves s Consumer.inside e i = elim (dec_lt 0 (s.shm).count) [
  | yes some ↦ (_, c_print e some, refl)
  | no none ↦ (_, c_empty e (omega arith), refl)
]
consumer-moves s Consumer.load e i = (_, c_load e, refl)
consumer-moves s (Consumer.counting n) e i = (_, c_count n e, refl)
consumer-moves s Consumer.post e i = (_, c_post e, refl)

-- With a semaphore that works, in every reachable state at most one `continue` has been made. If none
-- has, a process can go on, with no wait for the input. If one has, the unit of the semaphore is gone,
-- and neither process is between its two `semop`, where it would store or print.
pub one_continue_stops :
    {s : System} (r : Reach true with_semaphore s)
    → ((skips r ≡ 0) × CanMove s)
      ⊎ ((skips r ≡ 1) × (s.sem ≡ 0) × (p_in s.producer ≡ 0) × (c_in s.consumer ≡ 0))
one_continue_stops {s} r = elim (dec_lt 0 (skips r)) [
  | yes some ↦ inr (
    omega (arith, reach-units r),
    omega (arith, reach-units r),
    omega (arith, reach-units r),
    omega (arith, reach-units r),
  )
  | no none ↦ elim (dec_lt 0 (p_in s.producer)) [
    | yes inside ↦
        inl (omega arith, producer-moves s s.producer refl (omega (arith, reach-units r)))
    | no outside ↦
        inl (omega arith, consumer-moves s s.consumer refl (omega (arith, reach-units r)))
  ]
]
