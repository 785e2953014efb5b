-- ===== src/Prodcons/Safety.antt =====
-- The theorems on the four threads as a whole.
use linux_learning_by_doing.Prelude.{
  ℕ, suc, ◌+◌, ◌-◌, ◌≤◌, ◌<◌, ◌≡◌, refl, ap₂, true, List, [], ◌∷◌, ◌++◌, length, pos, neg, arith,
}
use mathlib.Core.List.{Memᴰ}
use linux_learning_by_doing.Prodcons.Buffer.{bufsize, strncpy, put_slot}
use linux_learning_by_doing.Prodcons.Buffer.Text.{strncpy-strncpy}
use linux_learning_by_doing.Prodcons.Buffer.Ring.{Keeps}
use linux_learning_by_doing.Prodcons.Threads.{
  User, Producer, InputOwner, DataOwner, System, u_read, u_lock, u_copy, u_unlock, u_post,
  p_wait_input, p_lock_input, p_no_init, p_wait_slot, p_lock_data, p_put, p_unlock_data, p_post,
  p_unlock_input, c_init, Reach, start, later, ◌▷◌,
}
use linux_learning_by_doing.Prodcons.Invariant.{Reach-Kept}
use linux_learning_by_doing.Prodcons.Invariant.Places.{u_input, p_input, p_data, c_data, d_data}
use linux_learning_by_doing.Prodcons.Invariant.Posts.{Reach-Posts}
use linux_learning_by_doing.Prodcons.Invariant.Input.{Copied, Reach-From}

-- In every reachable state at most one thread is between lock and unlock of `input_buffer_lock`, and
-- at most one between those
-- of `data_buffer_lock`.
pub buffer_exclusion :
    {s : System}
    → Reach s
    → (u_input s.user + p_input s.producer ≤ 1)
      × (p_data s.producer + c_data s.consumer + d_data s.display ≤ 1)
buffer_exclusion r = let (items, i) = Reach-Kept r in (i.control.one_input, i.control.one_data)

-- In every reachable state the slots hold a list of at most five items, oldest first, and what was put
-- is, in order, what was got and then these items; `filledslots` is their number, and `freeslots` is
-- its negation and so never the number of free slots.
pub buffer_fifo :
    {s : System}
    → Reach s
    → (items : List (List ℕ)) × Keeps s.buffer items
      × (length items ≤ 5)
      × (s.put ≡ s.got ++ items)
      × (s.buffer.filledslots ≡ pos (length items))
      × (s.buffer.freeslots ≡ neg (length items))
buffer_fifo {s} r =
    let (items, i) = Reach-Kept r in
    (items, i.keeps, ground arith, i.in_order, i.keeps.filled, i.keeps.free)

-- In every reachable state each item that was put is the copy of a line that was read, and no more
-- items were put than lines read.
pub put_comes_from_input :
    {s : System}
    → Reach s
    → ((x : List ℕ) → Memᴰ x s.put → Copied s.lines x) × (length s.put ≤ length s.lines)
put_comes_from_input r = ((Reach-From r).all_put, omega (arith, Reach-Posts r))

-- The steps of the user with one line, with the semaphores as they are.
pub user_line :
    (s : System) (line : List ℕ)
    → Reach s
    → s.user ≡ User.reading
    → s.input_lock ≡ InputOwner.nobody
    → Reach (record s {
      lines = s.lines ++ (line ∷ []);
      user_input_buffer = strncpy bufsize line;
      seminput = suc s.seminput;
      user = User.reading;
      input_lock = InputOwner.nobody;
    })
user_line s line r e f =
    (r ▷ u_read line e ▷ u_lock line refl f ▷ u_copy line refl ▷ u_unlock refl ▷ u_post refl)

-- The steps of the producer with one post, when nothing is in its way.
pub producer_item :
    (s : System)
    → Reach s
    → s.producer ≡ Producer.wait_input
    → 0 < s.seminput
    → s.input_lock ≡ InputOwner.nobody
    → s.initdone ≡ true
    → 0 < s.semslots
    → s.data_lock ≡ DataOwner.nobody
    → Reach (record s {
      buffer = put_slot s.user_input_buffer s.buffer;
      put = s.put ++ (strncpy bufsize s.user_input_buffer ∷ []);
      seminput = s.seminput - 1;
      semslots = s.semslots - 1;
      semitems = suc s.semitems;
      input_lock = InputOwner.nobody;
      data_lock = DataOwner.nobody;
      producer = Producer.wait_input;
    })
producer_item s r e posted free init slots unlocked =
    (r
      ▷ p_wait_input e posted
      ▷ p_lock_input refl free
      ▷ p_no_init refl init
      ▷ p_wait_slot refl slots
      ▷ p_lock_data refl unlocked
      ▷ p_put refl
      ▷ p_unlock_data refl
      ▷ p_post refl
      ▷ p_unlock_input refl)

-- Two lines that are read before the producer runs: in a reachable state both posts have been
-- consumed, the second line has been put twice, and the first not at all.
pub input_overwritten :
    (a b : List ℕ)
    → (s : System) × Reach s
      × (s.lines ≡ a ∷ b ∷ [])
      × (s.seminput ≡ 0)
      × (s.user ≡ User.reading)
      × (s.put ≡ strncpy bufsize b ∷ strncpy bufsize b ∷ [])
input_overwritten a b = (
  _,
  producer_item _
      (producer_item _
        (user_line _ b (user_line _ a (later start (c_init refl refl)) refl refl) refl refl) refl
        (omega arith) refl refl (omega arith) refl)
      refl (omega arith) refl refl (omega arith) refl,
  refl,
  refl,
  refl,
  ap₂ (λ x y. x ∷ y ∷ []) (strncpy-strncpy bufsize b) (strncpy-strncpy bufsize b),
)

-- A line that is read and posted before the semaphores are initialised: in a reachable state its post
-- is gone, nothing has been put, and the producer waits for the next one.
pub input_post_lost :
    (line : List ℕ)
    → (s : System) × Reach s
      × (s.lines ≡ line ∷ [])
      × (s.user ≡ User.reading)
      × (s.seminput ≡ 0)
      × (s.producer ≡ Producer.wait_input)
      × (s.put ≡ [])
input_post_lost line =
    (_, (user_line _ line start refl refl ▷ c_init refl refl), refl, refl, refl, refl, refl)
