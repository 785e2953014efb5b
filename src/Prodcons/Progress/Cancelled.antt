-- ===== src/Prodcons/Progress/Cancelled.antt =====
-- prodcons_threads.c after `display_status_thread` has been cancelled with `data_buffer_lock`.
use linux_learning_by_doing.Prelude.{ℕ, suc, ◌+◌, ◌≤◌, ◌≡◌, refl, arith}
use linux_learning_by_doing.Prodcons.Threads.{
  User, Producer, Consumer, Display, InputOwner, DataOwner, System, Step, u_read, u_lock, u_copy,
  u_unlock, u_post, p_wait_input, p_lock_input, p_init, p_no_init, p_wait_slot, p_lock_data, p_put,
  p_unlock_data, p_post, p_unlock_input, c_init, c_no_init, c_wait, c_lock, c_get, c_unlock, c_post,
  d_lock, d_unlock, Reach,
}
use linux_learning_by_doing.Prodcons.Invariant.{Reach-Kept}
use linux_learning_by_doing.Prodcons.Invariant.Places.{u_input, p_data, c_data}

-- So many steps in which the display thread, once cancelled, has none
pub data Run (s : System) : ℕ → System → Type 0 where
  none : Run s 0 s
  more : {n : ℕ} {t u : System} → Run s n t → Step t u → u.display ≡ t.display → Run s (suc n) u

record Held (s t : System) : Type 0 where
  display : t.display ≡ Display.inside
  owned : t.data_lock ≡ DataOwner.the_display
  p_out : p_data t.producer ≡ 0
  c_out : c_data t.consumer ≡ 0
  put : t.put ≡ s.put
  got : t.got ≡ s.got
  buffer : t.buffer ≡ s.buffer

Held-start : {s : System} → Reach s → s.display ≡ Display.inside → Held s s
Held-start {s} r e =
    let (items, i) = Reach-Kept r in
    let c = i.control in
    record {
      display = e;
      owned = ground arith;
      p_out = ground arith;
      c_out = ground arith;
      put = refl;
      got = refl;
      buffer = refl;
    }

step-Held : {s t u : System} → Held s t → Step t u → u.display ≡ t.display → Held s u
step-Held h (u_read l e) d = ground arith
step-Held h (u_lock l e f) d = ground arith
step-Held h (u_copy l e) d = ground arith
step-Held h (u_unlock e) d = ground arith
step-Held h (u_post e) d = ground arith
step-Held h (p_wait_input e f) d = ground arith
step-Held h (p_lock_input e f) d = ground arith
step-Held h (p_init e f) d = ground arith
step-Held h (p_no_init e f) d = ground arith
step-Held h (p_wait_slot e f) d = ground arith
step-Held h (p_lock_data e f) d = ground arith
step-Held h (p_put e) d = ground arith
step-Held h (p_unlock_data e) d = ground arith
step-Held h (p_post e) d = ground arith
step-Held h (p_unlock_input e) d = ground arith
step-Held h (c_init e f) d = ground arith
step-Held h (c_no_init e f) d = ground arith
step-Held h (c_wait e f) d = ground arith
step-Held h (c_lock e f) d = ground arith
step-Held h (c_get e) d = ground arith
step-Held h (c_unlock e) d = ground arith
step-Held h (c_post e) d = ground arith
step-Held h (d_lock e f) d = ground arith
step-Held h (d_unlock e) d = ground arith

run-Held : {s t : System} {n : ℕ} → Reach s → s.display ≡ Display.inside → Run s n t → Held s t
run-Held r e none = Held-start r e
run-Held r e (more q p d) = step-Held (run-Held r e q) p d

-- Once `display_status_thread` has been cancelled with `data_buffer_lock`, in any reachable state and for any
-- steps of the other threads that follow: nothing is put into the buffer or got from it any more.
pub cancelled_display_stops_buffer :
    {s t : System} {n : ℕ}
    → Reach s
    → s.display ≡ Display.inside
    → Run s n t
    → (t.put ≡ s.put) × (t.got ≡ s.got) × (t.buffer ≡ s.buffer)
cancelled_display_stops_buffer r e q = let h = run-Held r e q in (h.put, h.got, h.buffer)

-- The producer waits for `data_buffer_lock` and has the other one.
record Blocked (s : System) : Type 0 where
  producer : s.producer ≡ Producer.lock_data
  user_out : u_input s.user ≡ 0
  input : s.input_lock ≡ InputOwner.the_producer
  display : s.display ≡ Display.inside
  c_out : c_data s.consumer ≡ 0
  owned : s.data_lock ≡ DataOwner.the_display

-- The steps until a thread waits for a lock or a semaphore
abbrev of_user : User → ℕ
of_user User.reading = 1
of_user User.posting = 2
of_user _ = 0

abbrev of_consumer : Consumer → ℕ
of_consumer Consumer.lock_data = 0
of_consumer Consumer.wait_item = 1
of_consumer Consumer.check_init = 2
of_consumer Consumer.post_slot = 3
of_consumer _ = 0

abbrev left : System → ℕ
left s = of_user s.user + of_consumer s.consumer

record Shorter (s t : System) : Type 0 where
  blocked : Blocked t
  less : suc (left t) ≤ left s

step-Shorter : {s t : System} → Blocked s → Step s t → t.display ≡ s.display → Shorter s t
step-Shorter b (u_read l e) d = ground arith
step-Shorter b (u_lock l e f) d = ground arith
step-Shorter b (u_copy l e) d = ground arith
step-Shorter b (u_unlock e) d = ground arith
step-Shorter b (u_post e) d = ground arith
step-Shorter b (p_wait_input e f) d = ground arith
step-Shorter b (p_lock_input e f) d = ground arith
step-Shorter b (p_init e f) d = ground arith
step-Shorter b (p_no_init e f) d = ground arith
step-Shorter b (p_wait_slot e f) d = ground arith
step-Shorter b (p_lock_data e f) d = ground arith
step-Shorter b (p_put e) d = ground arith
step-Shorter b (p_unlock_data e) d = ground arith
step-Shorter b (p_post e) d = ground arith
step-Shorter b (p_unlock_input e) d = ground arith
step-Shorter b (c_init e f) d = ground arith
step-Shorter b (c_no_init e f) d = ground arith
step-Shorter b (c_wait e f) d = ground arith
step-Shorter b (c_lock e f) d = ground arith
step-Shorter b (c_get e) d = ground arith
step-Shorter b (c_unlock e) d = ground arith
step-Shorter b (c_post e) d = ground arith
step-Shorter b (d_lock e f) d = ground arith
step-Shorter b (d_unlock e) d = ground arith

record RunBlocked (s : System) (n : ℕ) (t : System) : Type 0 where
  blocked : Blocked t
  less : n + left t ≤ left s

run-Blocked : {s t : System} {n : ℕ} → Blocked s → Run s n t → RunBlocked s n t
run-Blocked b none = record { blocked = b; less = omega arith }
run-Blocked b (more q p d) =
    let h = run-Blocked b q in
    let k = step-Shorter h.blocked p d in
    record { blocked = k.blocked; less = omega (arith, h.less, k.less) }

start-Blocked :
    {s : System}
    → Reach s
    → s.display ≡ Display.inside
    → s.producer ≡ Producer.lock_data
    → Blocked s
start-Blocked {s} r e p =
    let (items, i) = Reach-Kept r in
    let c = i.control in
    record {
      producer = p;
      user_out = ground arith;
      input = ground arith;
      display = e;
      c_out = ground arith;
      owned = ground arith;
    }

-- Once `display_status_thread` has been cancelled with `data_buffer_lock`, in any reachable state where the
-- producer has come to wait for that lock inside `putitem`, with the lock of the input, the whole
-- program stops: at most five more steps of any threads follow, and the producer still waits with the
-- lock of the input.
pub cancelled_display_stops_all :
    {s t : System} {n : ℕ}
    → Reach s
    → s.display ≡ Display.inside
    → s.producer ≡ Producer.lock_data
    → Run s n t
    → (n ≤ 5) × (t.producer ≡ Producer.lock_data) × (t.input_lock ≡ InputOwner.the_producer)
cancelled_display_stops_all {s = s} r e p q =
    let h = run-Blocked (start-Blocked r e p) q in
    (ground (arith, h.less), h.blocked.producer, h.blocked.input)
