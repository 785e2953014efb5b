-- ===== src/Uart/Open/Sharing.antt =====
-- How many files may have a port open at once.
use linux_learning_by_doing.Prelude.{
  ℕ, ◌+◌, ◌≤◌, ◌≡◌, true, false, Option, none, some, List, [], ◌∷◌, has, bit_and-zero,
  if◌then◌else◌, ℤ, pos, neg, is_zero, arith, ◌⊎◌,
}
use linux_learning_by_doing.Uart.State.{PDev, ebusy}
use linux_learning_by_doing.Uart.Open.{o_rdonly, o_rdwr, o_wronly, uart_open}

-- A port, and the flags of the files that have it open.
pub record Session : Type 0 where
  pub port : PDev
  pub files : List ℕ

-- What the caller of `uart_open` sees: `junk` is what stands where no value was returned.
abbrev pub value_or : ℤ → Option ℤ → ℤ
value_or junk none = junk
value_or junk (some r) = r

abbrev pub after_open : PDev × Option ℤ → ℤ → ℕ → List ℕ → Session
after_open r junk flags files = record {
  port = r.0;
  files = if is_zero (value_or junk r.1) then flags ∷ files else files;
}

-- An `open` with any flags, granted if it returns 0.
pub data Step (s : Session) : Session → Type 0 where
  opened : (flags : ℕ) (junk : ℤ) → Step s (after_open (uart_open s.port flags) junk flags s.files)

pub record IsIdle (d : PDev) : Type 0 where
  pub no_readers : d.r_count ≡ pos 0
  pub no_sharers : d.rw_count ≡ pos 0
  pub no_writers : d.w_count ≡ pos 0

pub data Reach (d : PDev) : Session → Type 0 where
  fresh : Reach d (record { port = d; files = [] })
  later : {s t : Session} → Reach d s → Step s t → Reach d t

-- A file with O_RDWR, and one with O_WRONLY alone.
abbrev pub shares : ℕ → ℕ
shares f = if has f o_rdwr then 1 else 0

abbrev pub writes : ℕ → ℕ
writes f = if has f o_rdwr then 0 else if has f o_wronly then 1 else 0

pub total : (ℕ → ℕ) → List ℕ → ℕ
total w [] = 0
total w (f ∷ fs) = w f + total w fs

-- The counters of the port are the numbers of open files, and at most one file may write.
pub record IsCounted (s : Session) : Type 0 where
  pub sharers : s.port.rw_count ≡ pos (total shares s.files)
  pub readers : s.port.r_count ≡ pos (total shares s.files)
  pub writers : s.port.w_count ≡ pos (total shares s.files + total writes s.files)
  pub exclusive : total shares s.files + total writes s.files ≤ 1

has-rdonly : (flags : ℕ) → has flags o_rdonly ≡ false
has-rdonly flags = ground (arith, bit_and-zero flags)

opened-IsCounted :
    (s : Session) (flags : ℕ) (junk : ℤ)
    → IsCounted s
    → IsCounted (after_open (uart_open s.port flags) junk flags s.files)
unfolding uart_open total
opened-IsCounted s flags junk c = ground (arith, has-rdonly flags)

Step-IsCounted : {s t : Session} → Step s t → IsCounted s → IsCounted t
Step-IsCounted {s} (opened flags junk) c = opened-IsCounted s flags junk c

-- From an idle port, whatever is opened in any order with nothing released, and whatever the value is
-- where `uart_open` returns none: the counters are the numbers of open files of their kind, and at most one open file
-- may write.
pub one_writer : {d : PDev} {s : Session} → IsIdle d → Reach d s → IsCounted s
unfolding total
one_writer i fresh = ground arith
one_writer i (later r st) = Step-IsCounted st (one_writer i r)

-- With neither access bit, which is how O_RDONLY opens, `uart_open` does nothing and returns no
-- value, on every port; so no read-only open is ever counted.
pub read_only_unserved :
    (d : PDev) (flags : ℕ)
    → has flags o_rdwr ≡ false
    → has flags o_wronly ≡ false
    → uart_open d flags ≡ (d, none)
unfolding uart_open
read_only_unserved d flags rw w = ground (arith, has-rdonly flags)

-- An `open` of an idle port with O_RDWR is granted; any further `open` for writing is then refused
-- and changes nothing.
pub busy_while_shared :
    (d : PDev) (flags more : ℕ)
    → has flags o_rdwr ≡ true
    → IsIdle d
    → (has more o_rdwr ≡ true) ⊎ (has more o_wronly ≡ true)
    → let d' = (uart_open d flags).0 in
      ((uart_open d flags).1 ≡ some (pos 0)) × (uart_open d' more ≡ (d', some (neg ebusy)))
unfolding uart_open
busy_while_shared d flags more rw i h = (ground arith, ground (arith, has-rdonly more))
