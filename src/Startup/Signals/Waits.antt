-- ===== src/Startup/Signals/Waits.antt =====
-- sigwait2.c: `thread_fun1` to `thread_fun3`, once they are created, and the signals sent to the process.
use linux_learning_by_doing.Prelude.{ℕ, suc, ◌+◌, ◌==◌, ◌≡◌, ◌≢◌, Bool, true, false, if◌then◌else◌}
use linux_learning_by_doing.Startup.{Signals, sigint, sigpipe, sigterm, sigkill, sigstop, generate}

-- For each signal how often it was sent, whether it is pending, since a second one is not queued, and how
-- often a `sigwait` has answered it; and which functions have returned.
pub record System : Type 0 where
  pub sent : ℕ → ℕ
  pub pending : Signals
  pub taken : ℕ → ℕ
  pub fun2_ended : Bool
  pub fun3_ended : Bool

abbrev pub initial : System
initial = record {
  sent = λ s. 0;
  pending = λ s. false;
  taken = λ s. 0;
  fun2_ended = false;
  fun3_ended = false;
}

abbrev pub more_of : ℕ → (ℕ → ℕ) → ℕ → ℕ
more_of s f j = if s == j then f j + 1 else f j

abbrev pub set : ℕ → Bool → Signals → Signals
set s b f j = if s == j then b else f j

-- `sigwait` answers the signal.
abbrev pub take : ℕ → System → System
take s st = record st { pending = set s false st.pending; taken = more_of s st.taken }

-- All threads block the signals, so each one stays pending until a `sigwait` answers it: that of
-- `thread_fun1` in its loop, those of the others once.
pub data Take (st : System) : System → Type 0 where
  fun1 : st.pending sigint ≡ true → Take st (take sigint st)
  fun2 :
      st.fun2_ended ≡ false
      → st.pending sigterm ≡ true
      → Take st (record (take sigterm st) { fun2_ended = true })
  fun3 :
      st.fun3_ended ≡ false
      → st.pending sigpipe ≡ true
      → Take st (record (take sigpipe st) { fun3_ended = true })

abbrev pub send : ℕ → System → System
send s st = record st { sent = more_of s st.sent; pending = generate s st.pending }

pub data Reach : System → Type 0 where
  start : Reach initial
  sends : {st : System} → Reach st → (s : ℕ) → s ≢ sigkill → s ≢ sigstop → Reach (send s st)
  takes : {st u : System} → Reach st → Take st u → Reach u

-- So many answers in a row
pub data Takes (st : System) : ℕ → System → Type 0 where
  rest : Takes st 0 st
  more : {n : ℕ} {u v : System} → Takes st n u → Take u v → Takes st (suc n) v
