-- ===== src/ProcSeq/Tasks/Text.antt =====
-- The text of proc_seq_example2.c: its size, and what it is as a format.
use linux_learning_by_doing.Prelude.{
  ◌≢◌, dec_lt, ℤ, pos, neg, as_int, ◌*◌, ◌-◌, ◌^◌, ◌<◌, ◌==◌, if◌then◌else◌, ℕ, zero, suc, ◌+◌, ◌/◌,
  ◌%◌, ◌≤◌, ◌≡◌, refl, ap, ◌∙◌, some, List, [], ◌∷◌, ◌++◌, length, length-append, arith,
}
use linux_learning_by_doing.ProcSeq.Module.{decimal}
use linux_learning_by_doing.ProcSeq.Format.{as_format, Plain, Plain-append, put, as_format-append}
use linux_learning_by_doing.ProcSeq.Tasks.{int_text, info_str}

pub decimal-Plain : (digits n : ℕ) → Plain (decimal digits n)
unfolding decimal
decimal-Plain zero n = tt
decimal-Plain (suc digits) n =
    let p =
      Plain-append (decimal digits (n / 10)) ((48 + n % 10) ∷ []) (decimal-Plain digits (n / 10))
        (omega arith, omega arith, tt) in
    ground arith

pub length-decimal : (digits n : ℕ) → length (decimal digits n) ≤ digits
unfolding decimal
length-decimal zero n = omega arith
length-decimal (suc digits) n =
    let h = length-decimal digits (n / 10) in
    let l = length-append (decimal digits (n / 10)) ((48 + n % 10) ∷ []) in ground arith

pub int_text-Plain : (n : ℕ) → Plain (int_text n)
unfolding int_text
int_text-Plain n =
    ground (arith, decimal-Plain 10 (n % 2 ^ 32), decimal-Plain 10 (2 ^ 32 - n % 2 ^ 32))

length-int_text : (n : ℕ) → length (int_text n) ≤ 11
unfolding int_text
length-int_text n =
    ground (arith, length-decimal 10 (n % 2 ^ 32), length-decimal 10 (2 ^ 32 - n % 2 ^ 32))

-- The number that digits stand for, after some that stand for `a`
abbrev pub value : ℕ → List ℕ → ℕ
value a [] = a
value a (c ∷ cs) = value (10 * a + (c - 48)) cs

value-append : (a : ℕ) (xs ys : List ℕ) → value a (xs ++ ys) ≡ value (value a xs) ys
value-append a [] ys = refl
value-append a (x ∷ xs) ys = value-append (10 * a + (x - 48)) xs ys

abbrev ten_to : ℕ → ℕ
ten_to zero = 1
ten_to (suc d) = 10 * ten_to d

-- No digit is missing.
value-decimal : (digits n : ℕ) → n < ten_to digits → value 0 (decimal digits n) ≡ n
unfolding decimal
value-decimal zero n h = omega (arith, h)
value-decimal (suc digits) n h =
    let tens = value-decimal digits (n / 10) (omega (arith, h)) in
    let all = value-append 0 (decimal digits (n / 10)) ((48 + n % 10) ∷ []) in
    ground (arith, tens, all, h)

-- An `int` as it is read
abbrev pub int_value : List ℕ → ℤ
int_value [] = pos 0
int_value (c ∷ cs) = if c == 45 then neg (value 0 cs) else pos (value 0 (c ∷ cs))

-- No minus sign
abbrev Unsigned : List ℕ → Type 0
Unsigned [] = Unit
Unsigned (c ∷ cs) = (c ≢ 45) × Unsigned cs

Unsigned-append : (xs ys : List ℕ) → Unsigned xs → Unsigned ys → Unsigned (xs ++ ys)
Unsigned-append [] ys p q = q
Unsigned-append (x ∷ xs) ys p q = (p.0, Unsigned-append xs ys p.1 q)

decimal-Unsigned : (digits n : ℕ) → Unsigned (decimal digits n)
unfolding decimal
decimal-Unsigned zero n = tt
decimal-Unsigned (suc digits) n =
    let p =
      Unsigned-append (decimal digits (n / 10)) ((48 + n % 10) ∷ [])
        (decimal-Unsigned digits (n / 10)) (omega arith, tt) in
    ground arith

int_value-Unsigned : (cs : List ℕ) → Unsigned cs → int_value cs ≡ pos (value 0 cs)
int_value-Unsigned [] u = refl
int_value-Unsigned (c ∷ cs) u = ground (arith, u.0)

value-word : (w : ℕ) → w ≤ 2 ^ 32 → value 0 (decimal 10 w) ≡ w
value-word w h = value-decimal 10 w (omega (arith, h))

int_value-int_text : (n : ℕ) → int_value (int_text n) ≡ as_int (n % 2 ^ 32)
unfolding int_text
int_value-int_text n =
    let w = n % 2 ^ 32 in
    elim (dec_lt w (2 ^ 31)) [
      | yes small ↦
          let v : int_value (decimal 10 w) ≡ pos w =
            int_value-Unsigned (decimal 10 w) (decimal-Unsigned 10 w)
            ∙ ap pos (value-word w (omega arith)) in
          ground (arith, v)
      | no large ↦ let v = value-word (2 ^ 32 - w) (omega arith) in ground (arith, ap neg v)
    ]

-- "pid is " and " ppid is "
abbrev pub pid_is : List ℕ
pid_is = 112 ∷ 105 ∷ 100 ∷ 32 ∷ 105 ∷ 115 ∷ 32 ∷ []

abbrev pub ppid_is : List ℕ
ppid_is = 32 ∷ 112 ∷ 112 ∷ 105 ∷ 100 ∷ 32 ∷ 105 ∷ 115 ∷ 32 ∷ []

-- The text without its NUL
abbrev pub line : ℕ → ℕ → List ℕ
line pid ppid = pid_is ++ (int_text pid ++ (ppid_is ++ (int_text ppid ++ (10 ∷ []))))

pid_is-Plain : Plain pid_is
pid_is-Plain = ground arith

ppid_is-Plain : Plain ppid_is
ppid_is-Plain = ground arith

as_format_end : as_format (10 ∷ 0 ∷ []) ≡ some (10 ∷ [])
unfolding as_format
as_format_end = refl

-- Whatever the two numbers are, negative ones included, `sprintf` stores at most 40 of the 256 bytes; the
-- text, used as a format, prints itself up to the NUL: it has no `%` of its own; and the digits of
-- either number are all there.
pub info_str_fits :
    (pid ppid : ℕ)
    → (length (info_str pid ppid) ≤ 40)
      × (as_format (info_str pid ppid) ≡ some (line pid ppid))
      × (int_value (int_text pid) ≡ as_int (pid % 2 ^ 32))
      × (int_value (int_text ppid) ≡ as_int (ppid % 2 ^ 32))
unfolding info_str
info_str_fits pid ppid = (
  let l1 = length-append (int_text pid) (ppid_is ++ (int_text ppid ++ (10 ∷ 0 ∷ []))) in
      let l2 = length-append (int_text ppid) (10 ∷ 0 ∷ []) in
      omega (arith, length-int_text pid, length-int_text ppid),
  as_format-append pid_is _ pid_is-Plain
      ∙ ap (put pid_is) (
          as_format-append (int_text pid) _ (int_text-Plain pid)
          ∙ ap (put (int_text pid)) (
              as_format-append ppid_is _ ppid_is-Plain
              ∙ ap (put ppid_is) (
                  as_format-append (int_text ppid) (10 ∷ 0 ∷ []) (int_text-Plain ppid)
                  ∙ ap (put (int_text ppid)) as_format_end))),
  int_value-int_text pid,
  int_value-int_text ppid,
)
