-- ===== src/Prodcons/Variants/Tests.antt =====
-- Rounds of the display threads, a step of each program, and the display thread cancelled at a bad time.
use linux_learning_by_doing.Prelude.{
  ℕ, ◌+◌, ◌≤◌, ◌≡◌, refl, true, List, [], ◌∷◌, ◌++◌, length, pos, neg, arith,
}
use linux_learning_by_doing.Cancellation.{fresh, cancelled, run}
use linux_learning_by_doing.Prodcons.Buffer.{bufsize, strncpy}
use linux_learning_by_doing.Prodcons.Buffer.Ring.{Keeps}
use linux_learning_by_doing.Prodcons.Threads.{
  User, Producer, Consumer, Display, InputOwner, DataOwner, System, initial, u_read, p_wait_input,
  p_lock_input, p_no_init, p_wait_slot, c_init, d_lock, Reach, start, later, ◌▷◌,
}
use linux_learning_by_doing.Prodcons.Invariant.Places.{p_data, c_data, d_data}
use linux_learning_by_doing.Prodcons.Safety.{user_line}
use linux_learning_by_doing.Prodcons.Progress.Cancelled.{
  Run, none, more, cancelled_display_stops_buffer, cancelled_display_stops_all,
}
use linux_learning_by_doing.Prodcons.Variants.{threads1, threads2, display_round_of}
use linux_learning_by_doing.Prodcons.Variants.Display.{rounds, display_cancelled_with_lock}
use linux_learning_by_doing.Prodcons.Variants.Order.{begin, next, variants_fifo}

display_cancelled_with_lock_example :
    run true 1 (rounds 3 (display_round_of threads2)) fresh
    ≡ cancelled (record fresh { holds = true })
display_cancelled_with_lock_example = display_cancelled_with_lock threads2 true 3 1

-- The producer at the lock of the buffer, with the line "hi" in its hands.
abbrev hi : List ℕ
hi = 104 ∷ 105 ∷ []

abbrev display_first : System
display_first = record initial {
  user_input_buffer = strncpy bufsize hi;
  initdone = true;
  semslots = 4;
  input_lock = InputOwner.the_producer;
  data_lock = DataOwner.the_display;
  producer = Producer.lock_data;
  consumer = Consumer.wait_item;
  display = Display.inside;
  lines = hi ∷ [];
}

display_first-Reach : Reach display_first
display_first-Reach =
    user_line _ hi (later start (c_init refl refl)) refl refl
    ▷ p_wait_input refl (omega arith)
    ▷ p_lock_input refl refl
    ▷ p_no_init refl refl
    ▷ p_wait_slot refl (omega arith)
    ▷ d_lock refl refl

-- One more line is read, which the user cannot pass on.
abbrev one_more : System
one_more = record display_first { lines = hi ∷ hi ∷ []; user = User.typed hi }

reads_on : Run display_first 1 one_more
reads_on = more none (u_read hi refl) refl

cancelled_display_stops_buffer_test :
    (one_more.put ≡ display_first.put)
    × (one_more.got ≡ display_first.got)
    × (one_more.buffer ≡ display_first.buffer)
cancelled_display_stops_buffer_test =
    cancelled_display_stops_buffer display_first-Reach refl reads_on

cancelled_display_stops_all_example :
    (1 ≤ 5)
    × (one_more.producer ≡ Producer.lock_data)
    × (one_more.input_lock ≡ InputOwner.the_producer)
cancelled_display_stops_all_example =
    cancelled_display_stops_all display_first-Reach refl refl reads_on

-- A line has been read by prodcons_threads1.c.
abbrev typed : System
typed = record initial { lines = hi ∷ []; user = User.typed hi }

variants_fifo_test :
    (items : List (List ℕ)) × Keeps typed.buffer items
    × (length items ≤ 5)
    × (typed.put ≡ typed.got ++ items)
    × (typed.buffer.filledslots ≡ pos (length items))
    × (typed.buffer.freeslots ≡ neg (length items))
    × (p_data typed.producer + c_data typed.consumer + d_data typed.display ≤ 1)
variants_fifo_test = variants_fifo threads1 (next begin (u_read hi refl))
