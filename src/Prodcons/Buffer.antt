-- ===== src/Prodcons/Buffer.antt =====
-- prodcons_threads.c: the shared buffer, and the critical sections of `putitem` and `getitem`.
pub mod Ring
pub mod Text
pub mod Queue
use linux_learning_by_doing.Prelude.{
  ℕ, zero, suc, ◌+◌, ◌%◌, ◌==◌, List, [], ◌∷◌, if◌then◌else◌, ℤ, pos, inc, dec,
}

-- `BUFSIZE` of buffer.h, also the size of `user_input_buffer`
abbrev pub bufsize : ℕ
bufsize = 1024

-- The array that `strncpy(dest, src, n)` leaves in `dest`: `src` to its first NUL, then NULs.
pub strncpy : ℕ → List ℕ → List ℕ
strncpy zero src = []
strncpy (suc n) [] = 0 ∷ strncpy n []
strncpy (suc n) (zero ∷ src) = 0 ∷ strncpy n []
strncpy (suc n) (suc c ∷ src) = suc c ∷ strncpy n src

-- The string in a `char` array: what stands before the first NUL.
abbrev pub c_string : List ℕ → List ℕ
c_string [] = []
c_string (zero ∷ cs) = []
c_string (suc c ∷ cs) = suc c ∷ c_string cs

-- `buffer`, as a function of the index, and the counters.
pub record Buffer : Type 0 where
  pub slot : ℕ → List ℕ
  pub bufin : ℕ
  pub bufout : ℕ
  pub freeslots : ℤ
  pub filledslots : ℤ

abbrev pub write_slot : (ℕ → List ℕ) → ℕ → List ℕ → ℕ → List ℕ
write_slot slot i item j = if i == j then item else slot j

-- `putitem` between the lock and the unlock of `data_buffer_lock`
unfoldable pub put_slot : List ℕ → Buffer → Buffer
put_slot item b = record b {
  slot = write_slot b.slot b.bufin (strncpy bufsize item);
  bufin = (b.bufin + 1) % 5;
  filledslots = inc b.filledslots;
  freeslots = dec b.freeslots;
}

-- `getitem` there: the array that it leaves in `item`, and the buffer.
unfoldable pub get_slot : Buffer → List ℕ × Buffer
get_slot b = (
  strncpy bufsize (b.slot b.bufout),
  record b {
    bufout = (b.bufout + 1) % 5;
    filledslots = dec b.filledslots;
    freeslots = inc b.freeslots;
  },
)

-- The globals before anything is stored; the slots are zeroed.
abbrev pub empty_buffer : Buffer
empty_buffer = record {
  slot = λ i. [];
  bufin = 0;
  bufout = 0;
  freeslots = pos 0;
  filledslots = pos 0;
}
