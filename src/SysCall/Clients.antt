-- ===== src/SysCall/Clients.antt =====
-- syscall_example1.c and syscall_example2.c, which print their process id through `write`, and
-- syscall_custom2.c.
use linux_learning_by_doing.Prelude.{
  ℕ, suc, ◌+◌, ◌-◌, true, ◌≤◌, ◌<◌, ◌≡◌, refl, ap, ◌∙◌, List, [], ◌∷◌, ◌++◌, length, length-append,
  take, take-all, drop, ℤ, is_neg, arith, if◌then◌else◌,
}
use linux_learning_by_doing.ProcSeq.Module.{decimal}
use linux_learning_by_doing.ProcSeq.Tasks.Text.{length-decimal}

-- `snprintf(str, size, ...)` of a text: what `str` then holds in place of `old`. It answers the length of
-- the whole text.
abbrev snprintf : ℕ → List ℕ → List ℕ → List ℕ
snprintf size text old = let kept = take (size - 1) text in kept ++ (0 ∷ drop (length kept + 1) old)

-- "the pid of the process is %d\n"
unfoldable text : ℕ → List ℕ
text pid =
    116
    ∷ 104
    ∷ 101
    ∷ 32
    ∷ 112
    ∷ 105
    ∷ 100
    ∷ 32
    ∷ 111
    ∷ 102
    ∷ 32
    ∷ 116
    ∷ 104
    ∷ 101
    ∷ 32
    ∷ 112
    ∷ 114
    ∷ 111
    ∷ 99
    ∷ 101
    ∷ 115
    ∷ 115
    ∷ 32
    ∷ 105
    ∷ 115
    ∷ 32
    ∷ (decimal 10 pid ++ (10 ∷ []))

-- What reached the output, and the exit status
pub record Printed : Type 0 where
  pub output : List ℕ
  pub status : ℕ

-- The answer of `write` to these bytes, and what of them reached the output
abbrev Write : Type 0
Write = List ℕ → ℤ × List ℕ

-- `main` of syscall_example2.c with the process id, the answer of `syscall(SYS_getpid)`, and what the
-- array `str` held before.
unfoldable main_example2 : Write → ℕ → ℤ → List ℕ → Printed
main_example2 write pid getpid old =
    let str = snprintf 1024 (text pid) old in
    let ret = length (text pid) in
    let (ret1, output) = write (take (ret + 1) str) in
    if is_neg ret1
    then record { output = output; status = 1 }
    else if is_neg getpid
    then record { output = output; status = 2 }
    else record { output = output; status = 0 }

-- `main` of syscall_example1.c: the same with `write` and `getpid` made by its macros.
unfoldable main_example1 : Write → ℕ → ℤ → List ℕ → Printed
main_example1 = main_example2

take_with_nul : (xs rest : List ℕ) → take (length xs + 1) (xs ++ (0 ∷ rest)) ≡ xs ++ (0 ∷ [])
take_with_nul [] rest = refl
take_with_nul (x ∷ xs) rest =
    let next : suc (length xs) + 1 ≡ suc (length xs + 1) = omega arith in
    rw next (ap (λ ys. x ∷ ys) (take_with_nul xs rest))

length-text : (pid : ℕ) → length (text pid) ≤ 37
unfolding text
length-text pid = omega (arith, length-decimal 10 pid, length-append (decimal 10 pid) (10 ∷ []))

written :
    (pid : ℕ) (old : List ℕ)
    → take (length (text pid) + 1) (snprintf 1024 (text pid) old) ≡ text pid ++ (0 ∷ [])
written pid old =
    let whole : take 1023 (text pid) ≡ text pid =
      take-all 1023 (text pid) (omega (arith, length-text pid)) in
    ap (λ kept. take (length (text pid) + 1) (kept ++ (0 ∷ drop (length kept + 1) old))) whole
    ∙ take_with_nul (text pid) (drop (length (text pid) + 1) old)

-- What is printed and the status, from the answers
abbrev line_printed : Write → ℕ → ℤ → Printed
line_printed write pid getpid =
    let (ret1, output) = write (text pid ++ (0 ∷ [])) in
    record { output = output; status = if is_neg ret1 then 1 else if is_neg getpid then 2 else 0 }

-- Whatever the array held before, both programs hand the whole line to `write` with the NUL at its end,
-- which therefore is printed too, and nothing after it, and the bytes lie in the array. They exit with 1
-- where `write` fails, else with 2 where `getpid` does, else with 0.
clients_print_line :
    (write : Write) (pid : ℕ) (getpid : ℤ) (old : List ℕ)
    → (length (text pid) + 1 < 1024)
      × (main_example1 write pid getpid old ≡ line_printed write pid getpid)
      × (main_example2 write pid getpid old ≡ line_printed write pid getpid)
unfolding main_example2 main_example1
clients_print_line write pid getpid old =
    let both : main_example2 write pid getpid old ≡ line_printed write pid getpid =
      rw (main_example2, written pid old) (ground arith) in
    (omega (arith, length-text pid), both, both)

-- `main` of syscall_custom2.c, with the answer of `syscall` to a number and an argument. It fills an array with
-- the line and prints none of it.
pub main_custom2 : (ℕ → ℕ → ℤ) → Printed
main_custom2 syscall =
    if is_neg (syscall 328 777)
    then record { output = []; status = 1 }
    else record { output = []; status = 0 }

-- On a kernel whose last system call is number 327, that of `sys_test_call`, syscall_custom2.c exits with 1
-- and prints nothing.
pub custom2_fails :
    (syscall : ℕ → ℕ → ℤ)
    → ((n a : ℕ) → 327 < n → is_neg (syscall n a) ≡ true)
    → main_custom2 syscall ≡ record { output = []; status = 1 }
unfolding main_custom2
custom2_fails syscall h = rw (h 328 777 (omega arith)) refl
