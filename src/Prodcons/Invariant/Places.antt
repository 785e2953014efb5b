-- ===== src/Prodcons/Invariant/Places.antt =====
-- The locks, the semaphores and the places of the threads, against the number of stored items.
use linux_learning_by_doing.Prelude.{
  ℕ, zero, suc, ◌+◌, ◌≤◌, ◌≡◌, Bool, true, false, ◌&&◌, [], ◌∷◌, ◌++◌, arith,
}
use linux_learning_by_doing.Prodcons.Buffer.{bufsize, strncpy, put_slot, get_slot}
use linux_learning_by_doing.Prodcons.Threads.{
  User, Producer, Consumer, Display, InputOwner, DataOwner, System, initial,
}

-- 1 while the thread holds `input_buffer_lock`
abbrev pub u_input : User → ℕ
u_input (User.copying _) = 1
u_input User.leaving = 1
u_input _ = 0

abbrev pub p_input : Producer → ℕ
p_input Producer.wait_input = 0
p_input Producer.lock_input = 0
p_input _ = 1

-- 1 while the thread holds `data_buffer_lock`
abbrev pub p_data : Producer → ℕ
p_data Producer.putting = 1
p_data Producer.unlock_data = 1
p_data _ = 0

abbrev pub c_data : Consumer → ℕ
c_data Consumer.getting = 1
c_data Consumer.unlock_data = 1
c_data _ = 0

abbrev pub d_data : Display → ℕ
d_data Display.inside = 1
d_data Display.outside = 0

-- 1 while the producer has a unit of `semslots` that it has not passed on, and while its item is
-- stored and not yet posted
abbrev pub p_slot : Producer → ℕ
p_slot Producer.lock_data = 1
p_slot Producer.putting = 1
p_slot Producer.unlock_data = 1
p_slot Producer.post_item = 1
p_slot _ = 0

abbrev pub p_stored : Producer → ℕ
p_stored Producer.unlock_data = 1
p_stored Producer.post_item = 1
p_stored _ = 0

-- the same for the consumer and `semitems`, and while the item that it has waited for is still there
abbrev pub c_item : Consumer → ℕ
c_item Consumer.lock_data = 1
c_item Consumer.getting = 1
c_item Consumer.unlock_data = 1
c_item Consumer.post_slot = 1
c_item _ = 0

abbrev pub c_stored : Consumer → ℕ
c_stored Consumer.lock_data = 1
c_stored Consumer.getting = 1
c_stored _ = 0

-- Before the semaphores are initialised nobody is past the test of `initdone`.
abbrev pub p_early : Producer → Bool
p_early Producer.wait_input = true
p_early Producer.lock_input = true
p_early Producer.check_init = true
p_early _ = false

abbrev pub c_early : Consumer → Bool
c_early Consumer.check_init = true
c_early _ = false

abbrev pub input_owner : ℕ → ℕ → InputOwner
input_owner zero zero = InputOwner.nobody
input_owner zero (suc p) = InputOwner.the_producer
input_owner (suc u) p = InputOwner.the_user

abbrev pub data_owner : ℕ → ℕ → ℕ → DataOwner
data_owner zero zero zero = DataOwner.nobody
data_owner zero zero (suc d) = DataOwner.the_display
data_owner zero (suc c) d = DataOwner.the_consumer
data_owner (suc p) c d = DataOwner.the_producer

-- The units of the semaphores, with `n` items stored.
abbrev pub Units : Bool → ℕ → ℕ → Producer → Consumer → ℕ → Type 0
Units true items slots p c n =
    (items + slots + p_slot p + c_item c ≡ 5) × (n ≡ items + p_stored p + c_stored c)
Units false items slots p c n =
    (items ≡ 0) × (slots ≡ 0) × (n ≡ 0) × ((p_early p && c_early c) ≡ true)

pub record Control (s : System) (n : ℕ) : Type 0 where
  pub one_input : u_input s.user + p_input s.producer ≤ 1
  pub input_owned : s.input_lock ≡ input_owner (u_input s.user) (p_input s.producer)
  pub one_data : p_data s.producer + c_data s.consumer + d_data s.display ≤ 1
  pub data_owned :
      s.data_lock ≡ data_owner (p_data s.producer) (c_data s.consumer) (d_data s.display)
  pub units : Units s.initdone s.semitems s.semslots s.producer s.consumer n

pub initial-Control : Control initial 0
initial-Control = ground arith

-- The two steps that change the number of items.
pub p_put-Control :
    (s : System) (n : ℕ)
    → s.producer ≡ Producer.putting
    → Control s n
    → Control
        (record s {
          buffer = put_slot s.user_input_buffer s.buffer;
          put = s.put ++ (strncpy bufsize s.user_input_buffer ∷ []);
          producer = Producer.unlock_data;
        })
        (n + 1)
p_put-Control s n e k = ground arith

pub c_get-Control :
    (s : System) (n : ℕ)
    → s.consumer ≡ Consumer.getting
    → Control s (suc n)
    → Control
        (record s {
          buffer = (get_slot s.buffer).1;
          got = s.got ++ ((get_slot s.buffer).0 ∷ []);
          consumer = Consumer.unlock_data;
        })
        n
c_get-Control s n e k = ground arith

-- There is room for what the producer puts, and an item for the consumer.
pub putting-lt : (s : System) (n : ℕ) → s.producer ≡ Producer.putting → Control s n → n + 1 ≤ 5
putting-lt s n e k = ground arith

pub getting-pos : (s : System) (n : ℕ) → s.consumer ≡ Consumer.getting → Control s n → 1 ≤ n
getting-pos s n e k = ground arith
