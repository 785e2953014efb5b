-- ===== src/Prodcons/Variants.antt =====
-- prodcons_threads1.c, prodcons_threads2.c and prodcons_threads3.c beside prodcons_threads.c: the functions of
-- the buffer and three of the threads have the same text in all four; `display_status_thread` has not.
pub mod Display
pub mod Order
mod Tests
use linux_learning_by_doing.Prelude.{ℕ, Option, List, [], ◌∷◌}
use linux_learning_by_doing.Cancellation.{Call, printf, lock, unlock, testcancel}
use linux_learning_by_doing.Prodcons.Calls.{
  Shared, InitAnswers, Answers, bufferinit, bufferinitonce, getitem, putitem,
}
use linux_learning_by_doing.Prodcons.Threads.{System, Step}

-- The programs by the ends of their names
pub data Variant : Type 0 where
  threads threads1 threads2 threads3 : Variant

pub record Calls : Type 0 where
  pub bufferinit : InitAnswers → Shared → ℕ × Shared
  pub bufferinitonce : ℕ → InitAnswers → Shared → ℕ × Shared
  pub getitem : Answers → Shared → Option (ℕ × Option (List ℕ) × Shared)
  pub putitem : Answers → List ℕ → Shared → Option (ℕ × Shared)

abbrev pub calls : Calls
calls = record {
  bufferinit = bufferinit;
  bufferinitonce = bufferinitonce;
  getitem = getitem;
  putitem = putitem;
}

abbrev pub calls1 : Calls
calls1 = calls

abbrev pub calls2 : Calls
calls2 = calls

abbrev pub calls3 : Calls
calls3 = calls

abbrev pub calls_of : Variant → Calls
calls_of threads = calls
calls_of threads1 = calls1
calls_of threads2 = calls2
calls_of threads3 = calls3

-- The steps of the four threads; of `display_status_thread` the lock and the unlock.
abbrev pub Step1 : System → System → Type 0
Step1 = Step

abbrev pub Step2 : System → System → Type 0
Step2 = Step

abbrev pub Step3 : System → System → Type 0
Step3 = Step

abbrev pub StepOf : Variant → System → System → Type 0
StepOf threads = Step
StepOf threads1 = Step1
StepOf threads2 = Step2
StepOf threads3 = Step3

-- A round of `display_status_thread`
abbrev pub display_round : List Call
display_round = lock ∷ testcancel ∷ unlock ∷ []

abbrev pub display_round1 : List Call
display_round1 = lock ∷ unlock ∷ []

abbrev pub display_round2 : List Call
display_round2 = lock ∷ printf ∷ unlock ∷ []

abbrev pub display_round3 : List Call
display_round3 = lock ∷ testcancel ∷ unlock ∷ []

abbrev pub display_round_of : Variant → List Call
display_round_of threads = display_round
display_round_of threads1 = display_round1
display_round_of threads2 = display_round2
display_round_of threads3 = display_round3
