-- ===== src/Prodcons/Tests.antt =====
-- The theorems at a run of prodcons_threads.c: two lines are put, and one of them is got.
use linux_learning_by_doing.Prelude.{
  ℕ, ◌+◌, ◌≤◌, ◌≡◌, refl, some, List, [], ◌∷◌, ◌++◌, length, pos, neg, arith,
}
use mathlib.Core.List.{Memᴰ}
use linux_learning_by_doing.Prodcons.Buffer.{bufsize, strncpy, empty_buffer}
use linux_learning_by_doing.Prodcons.Buffer.Ring.{Keeps, empty-Keeps}
use linux_learning_by_doing.Fifo.{putting, getting, run, spec}
use linux_learning_by_doing.Prodcons.Buffer.Queue.{slots, buffer_runs_as_list}
use linux_learning_by_doing.Prodcons.Threads.{
  User, Producer, System, Reach, start, later, ◌▷◌, c_init, c_no_init, c_wait, c_lock, c_get,
  c_unlock, c_post,
}
use linux_learning_by_doing.Prodcons.Invariant.Places.{u_input, p_input, p_data, c_data, d_data}
use linux_learning_by_doing.Prodcons.Invariant.Input.{Copied}
use linux_learning_by_doing.Prodcons.Progress.Settles.{Run, more}
use linux_learning_by_doing.Prodcons.Safety.{
  buffer_exclusion, buffer_fifo, put_comes_from_input, user_line, producer_item, input_overwritten,
  input_post_lost,
}

abbrev hi : List ℕ
hi = 104 ∷ 105 ∷ 10 ∷ []

abbrev fed : (s : System) × Reach s
fed = (
  _,
  (producer_item _ (user_line _ hi (later start (c_init refl refl)) refl refl) refl (omega arith)
        refl refl (omega arith) refl
      ▷ c_wait refl (omega arith)
      ▷ c_lock refl refl
      ▷ c_get refl),
)

buffer_exclusion_example :
    (u_input (fed.0).user + p_input (fed.0).producer ≤ 1)
    × (p_data (fed.0).producer + c_data (fed.0).consumer + d_data (fed.0).display ≤ 1)
buffer_exclusion_example = buffer_exclusion fed.1

buffer_fifo_example :
    (items : List (List ℕ)) × Keeps (fed.0).buffer items
    × (length items ≤ 5)
    × ((fed.0).put ≡ (fed.0).got ++ items)
    × ((fed.0).buffer.filledslots ≡ pos (length items))
    × ((fed.0).buffer.freeslots ≡ neg (length items))
buffer_fifo_example = buffer_fifo fed.1

put_comes_from_input_example :
    ((x : List ℕ) → Memᴰ x (fed.0).put → Copied (fed.0).lines x)
    × (length (fed.0).put ≤ length (fed.0).lines)
put_comes_from_input_example = put_comes_from_input fed.1

input_overwritten_test :
    (s : System) × Reach s
    × (s.lines ≡ hi ∷ (98 ∷ 10 ∷ []) ∷ [])
    × (s.seminput ≡ 0)
    × (s.user ≡ User.reading)
    × (s.put ≡ strncpy bufsize (98 ∷ 10 ∷ []) ∷ strncpy bufsize (98 ∷ 10 ∷ []) ∷ [])
input_overwritten_test = input_overwritten hi (98 ∷ 10 ∷ [])

input_post_lost_test :
    (s : System) × Reach s
    × (s.lines ≡ hi ∷ [])
    × (s.user ≡ User.reading)
    × (s.seminput ≡ 0)
    × (s.producer ≡ Producer.wait_input)
    × (s.put ≡ [])
input_post_lost_test = input_post_lost hi

put_got : spec slots (putting hi ∷ getting ∷ []) [] ≡ some (strncpy bufsize hi ∷ [], [])
unfolding spec
put_got = refl

-- A line put, and got.
buffer_runs_as_list_example :
    ((run slots (putting hi ∷ getting ∷ []) empty_buffer).0 ≡ strncpy bufsize hi ∷ [])
    × Keeps (run slots (putting hi ∷ getting ∷ []) empty_buffer).1 []
buffer_runs_as_list_example =
    buffer_runs_as_list (putting hi ∷ getting ∷ []) empty_buffer [] (strncpy bufsize hi ∷ []) []
      empty-Keeps put_got

-- The consumer comes back to `sem_wait(&semitems)`.
abbrev got_one : (t : System) × Run fed.0 3 t
got_one = (
  _,
  more (more (more Run.none (c_unlock refl) refl (omega arith)) (c_post refl) refl (omega arith))
      (c_no_init refl refl) refl (omega arith),
)
