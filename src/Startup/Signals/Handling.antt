-- ===== src/Startup/Signals/Handling.antt =====
-- thread_sig_handler.c, once its threads are created: `thread_func1` and `thread_func3`, with the signals that are
-- sent to the process. No handler is installed, so a signal that some thread lets through has its default action.
use linux_learning_by_doing.Prelude.{
  ℕ, ◌+◌, ◌==◌, ◌≡◌, ◌≢◌, ◌⊎◌, Bool, true, false, not, ◌||◌, Option, none, some, List, [], ◌∷◌,
  if◌then◌else◌,
}
use linux_learning_by_doing.Startup.{Signals, sigkill, sigstop, sigfillset, maskable, generate}
use linux_learning_by_doing.Startup.Signals.{handler_mask}

-- Where a thread function is: before it sets its mask (`thread_func3` only), before its first line, before
-- the line of the scheduling policy, or in its loop.
pub data Place : Type 0 where
  masking greeting asking looping : Place

pub data Ending : Type 0 where
  killed : ℕ → Ending
  exited : ℕ → Ending

-- The two places, the mask of `thread_func3`, which signals have been sent and which are pending, how often
-- each function has printed its line, and how the process has ended.
pub record System : Type 0 where
  pub func1 : Place
  pub func3 : Place
  pub mask3 : Signals
  pub sent : Signals
  pub pending : Signals
  pub lines1 : ℕ
  pub lines3 : ℕ
  pub ended : Option Ending

abbrev pub inherited : Signals
inherited = maskable sigfillset

abbrev pub initial : System
initial = record {
  func1 = Place.greeting;
  func3 = Place.masking;
  mask3 = inherited;
  sent = λ s. false;
  pending = λ s. false;
  lines1 = 0;
  lines3 = 0;
  ended = none;
}

-- The masks of the main thread, of `thread_func1`, of the two that run `thread_fifo`, and of `thread_func3`.
abbrev pub masks : System → List Signals
masks st = inherited ∷ inherited ∷ inherited ∷ inherited ∷ st.mask3 ∷ []

abbrev pub taken : List Signals → ℕ → Bool
taken [] s = false
taken (m ∷ ms) s = not (m s) || taken ms s

abbrev pub put : ℕ → Bool → Signals → Signals
put s b f j = if s == j then b else f j

-- The steps of a process that has not ended; `ends` tells which signals end a process by default, and the
-- others that come here are taken and ignored.
pub data Step (ends : Signals) (st : System) : System → Type 0 where
  send :
      st.ended ≡ none
      → (s : ℕ) → s ≢ sigkill
      → s ≢ sigstop
      → Step ends st (record st { sent = put s true st.sent; pending = generate s st.pending })
  deliver :
      st.ended ≡ none
      → (s : ℕ) → st.pending s ≡ true
      → taken (masks st) s ≡ true
      → Step ends st (record st {
        pending = put s false st.pending;
        ended = if ends s then some (Ending.killed s) else none;
      })
  func3_mask :
      st.ended ≡ none
      → st.func3 ≡ Place.masking
      → Step ends st (record st { func3 = Place.greeting; mask3 = handler_mask })
  func3_greet :
      st.ended ≡ none
      → st.func3 ≡ Place.greeting
      → Step ends st (record st { func3 = Place.asking })
  func3_policy :
      st.ended ≡ none → st.func3 ≡ Place.asking → Step ends st (record st { func3 = Place.looping })
  func3_print :
      st.ended ≡ none
      → st.func3 ≡ Place.looping
      → Step ends st (record st { lines3 = st.lines3 + 1 })
  func1_greet :
      st.ended ≡ none
      → st.func1 ≡ Place.greeting
      → Step ends st (record st { func1 = Place.asking })
  func1_policy :
      st.ended ≡ none → st.func1 ≡ Place.asking → Step ends st (record st { func1 = Place.looping })
  func1_print :
      st.ended ≡ none
      → st.func1 ≡ Place.looping
      → Step ends st (record st { lines1 = st.lines1 + 1 })
  fifo_fails :
      st.ended ≡ none
      → (code : ℕ) → (code ≡ 4) ⊎ (code ≡ 5)
      → Step ends st (record st { ended = some (Ending.exited code) })

pub data Reach (ends : Signals) : System → Type 0 where
  start : Reach ends initial
  next : {st u : System} → Reach ends st → Step ends st u → Reach ends u
