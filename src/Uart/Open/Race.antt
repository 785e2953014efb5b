-- ===== src/Uart/Open/Race.antt =====
-- `uart_open` of uart_pci_latest_March2011.c called twice at a time on one port: each counter is atomic, the
-- tests and the increments together are not.
pub mod Accesses
pub mod Outcome
use linux_learning_by_doing.Prelude.{ℕ, suc, ◌+◌, ◌≤◌, ◌<◌, ◌≡◌, refl, ◌⊎◌, inl, inr, arith}

-- The two ways of opening that the code serves: O_RDWR, and O_WRONLY alone
pub data Mode : Type 0 where
  rdwr wronly : Mode

-- Where a call stands: before the test of a counter, before an increment, returned with 0, or with
-- -EBUSY. A file that is opened stays open here.
pub data At : Type 0 where
  test_rw test_r test_w inc_rw inc_r inc_w granted busy : At

pub record Port : Type 0 where
  pub rw_count : ℕ
  pub r_count : ℕ
  pub w_count : ℕ

-- A port and its two callers
pub record System : Type 0 where
  pub port : Port
  pub first : At
  pub second : At

abbrev pub enter : Mode → At
enter rdwr = test_rw
enter wronly = test_w

abbrev pub initial : Mode → Mode → System
initial m n = record {
  port = record { rw_count = 0; r_count = 0; w_count = 0 };
  first = enter m;
  second = enter n;
}

-- One access of a call that opens in this way
pub data Access (m : Mode) (p : Port) : At → Port → At → Type 0 where
  rw_zero : p.rw_count ≡ 0 → Access m p test_rw p test_r
  rw_busy : 0 < p.rw_count → Access m p test_rw p busy
  r_zero : p.r_count ≡ 0 → Access m p test_r p test_w
  r_busy : 0 < p.r_count → Access m p test_r p busy
  w_zero_rdwr : m ≡ rdwr → p.w_count ≡ 0 → Access m p test_w p inc_rw
  w_zero_wronly : m ≡ wronly → p.w_count ≡ 0 → Access m p test_w p inc_w
  w_busy : 0 < p.w_count → Access m p test_w p busy
  add_rw : Access m p inc_rw (record p { rw_count = suc p.rw_count }) inc_r
  add_r : Access m p inc_r (record p { r_count = suc p.r_count }) inc_w
  add_w : Access m p inc_w (record p { w_count = suc p.w_count }) granted

module _ (m n : Mode) where
  pub data Step (s : System) : System → Type 0 where
    by_first :
        (p : Port) (a : At)
        → Access m s.port s.first p a
        → Step s (record s { port = p; first = a })
    by_second :
        (p : Port) (a : At)
        → Access n s.port s.second p a
        → Step s (record s { port = p; second = a })

  pub data Reach : System → Type 0 where
    start : Reach (initial m n)
    later : {s t : System} → Reach s → Step s t → Reach t

-- 1 once the call has made its increment of the counter
abbrev pub past_rw : Mode → At → ℕ
past_rw rdwr inc_r = 1
past_rw rdwr inc_w = 1
past_rw rdwr granted = 1
past_rw _ _ = 0

abbrev pub past_r : Mode → At → ℕ
past_r rdwr inc_w = 1
past_r rdwr granted = 1
past_r _ _ = 0

abbrev pub past_w : At → ℕ
past_w granted = 1
past_w _ = 0

-- A call that opens for writing alone is never at the counters of readers.
abbrev pub Stands : Mode → At → Type 0
Stands wronly test_rw = ⊥
Stands wronly test_r = ⊥
Stands wronly inc_rw = ⊥
Stands wronly inc_r = ⊥
Stands _ _ = Unit

-- Each counter is the number of its increments.
pub record Counted (m n : Mode) (s : System) : Type 0 where
  pub rw : s.port.rw_count ≡ past_rw m s.first + past_rw n s.second
  pub r : s.port.r_count ≡ past_r m s.first + past_r n s.second
  pub w : s.port.w_count ≡ past_w s.first + past_w s.second
  pub first_at : Stands m s.first
  pub second_at : Stands n s.second

-- 1 once the call has passed its tests, which ends with 0
abbrev pub past_tests : At → ℕ
past_tests inc_rw = 1
past_tests inc_r = 1
past_tests inc_w = 1
past_tests granted = 1
past_tests _ = 0

abbrev pub refused : At → ℕ
refused busy = 1
refused _ = 0

-- Both have been granted.
pub record BothGranted (m n : Mode) : Type 0 where
  pub state : System
  pub reached : Reach m n state
  pub first : state.first ≡ granted
  pub second : state.second ≡ granted
