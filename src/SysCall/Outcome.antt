-- ===== src/SysCall/Outcome.antt =====
-- What the system call answers, and what the programs print of it.
use linux_learning_by_doing.Prelude.{
  as_int, ℕ, ◌+◌, ◌^◌, ◌≤◌, ◌<◌, ◌≡◌, ◌⊎◌, refl, ap, ◌∙◌, List, [], ◌∷◌, pos, neg, arith,
}
use linux_learning_by_doing.SysCall.{
  efault, CopyToUser, sys_test_call, TestSyscall, syscall_return, syscall2, main_custom1, main_fork,
}
use linux_learning_by_doing.SysCall.Bytes.{
  Memory, bytes, read, store, read-store, read-store_apart, word-Fits, length-bytes,
}

-- What the kernel documents of `copy_to_user`: with no byte left the bytes are in the memory.
abbrev pub Copies : CopyToUser → Type 0
Copies copy_to_user =
    (to : ℕ) (bs : List ℕ) (m : Memory)
    → (copy_to_user to bs m).0 ≡ 0
    → (copy_to_user to bs m).1 ≡ store to bs m

-- Two numbers of that many bytes lie apart.
abbrev pub Disjoint : ℕ → ℕ → ℕ → Type 0
Disjoint n a b = (a + n ≤ b) ⊎ (b + n ≤ a)

module _ (copy_to_user : CopyToUser) (current_pid current_tgid pid tgid : ℕ) (m : Memory) where
  -- The answers of the two copies
  abbrev pub left_first : ℕ
  left_first = (copy_to_user pid (bytes 4 current_pid) m).0

  abbrev pub after_first : Memory
  after_first = (copy_to_user pid (bytes 4 current_pid) m).1

  abbrev pub left_second : ℕ
  left_second = (copy_to_user tgid (bytes 4 current_tgid) after_first).0

  copied :
      Copies copy_to_user
      → left_first ≡ 0
      → left_second ≡ 0
      → sys_test_call copy_to_user current_pid current_tgid pid tgid m
        ≡ (pos 0, store tgid (bytes 4 current_tgid) (store pid (bytes 4 current_pid) m))
  unfolding sys_test_call
  copied c e e' =
      rw (sys_test_call, e, e')
        (ap (λ u. (pos 0, u))
          (c tgid (bytes 4 current_tgid) after_first e'
            ∙ ap (store tgid (bytes 4 current_tgid)) (c pid (bytes 4 current_pid) m e)))

  refused :
      (0 < left_first) ⊎ ((left_first ≡ 0) × (0 < left_second))
      → (sys_test_call copy_to_user current_pid current_tgid pid tgid m).0 ≡ neg efault
  unfolding sys_test_call
  refused h = ground arith

-- What the two numbers are after both are stored
module _ (x y pid tgid : ℕ) (m : Memory) (fx : x < 2 ^ 32) (fy : y < 2 ^ 32) where
  abbrev both : Memory
  both = store tgid (bytes 4 y) (store pid (bytes 4 x) m)

  read_first : Disjoint 4 pid tgid → read 4 pid both ≡ x
  read_first d =
      read-store_apart 4 pid tgid (bytes 4 y) (store pid (bytes 4 x) m)
        (ground (arith, length-bytes 4 y))
      ∙ read-store 4 pid x m (word-Fits x fx)

  read_second : read 4 tgid both ≡ y
  read_second = read-store 4 tgid y (store pid (bytes 4 x) m) (word-Fits y fy)

main_fork_prints :
    (test : TestSyscall) (pid tgid x y : ℕ) (m : Memory)
    → (test pid tgid m).0 ≡ pos 0
    → read 4 pid (test pid tgid m).1 ≡ x
    → read 4 tgid (test pid tgid m).1 ≡ y
    → main_fork test pid tgid m ≡ record { printed = as_int x ∷ as_int y ∷ []; status = 0 }
unfolding main_fork
main_fork_prints test pid tgid x y m e f g = rw (main_fork, e, f, g) refl

main_custom1_prints :
    (test : TestSyscall) (pid tgid x y : ℕ) (m : Memory)
    → (test pid tgid m).0 ≡ pos 0
    → read 4 pid (test pid tgid m).1 ≡ x
    → read 4 tgid (test pid tgid m).1 ≡ y
    → main_custom1 test pid tgid m ≡ record { printed = pos x ∷ pos y ∷ []; status = 0 }
unfolding main_custom1
main_custom1_prints test pid tgid x y m e f g = rw (main_custom1, e, f, g) refl

-- When both copies succeed (`copy_to_user` is as documented, the numbers of the process are of 32 bits,
-- and the two variables lie apart), both programs print the kernel's two numbers and exit with 0:
-- syscall_custom1.c as they are, syscall_fork.c with "%d", so that a number from 2 ^ 31 on is printed as
-- a negative one.
pub programs_print_ids :
    (copy_to_user : CopyToUser) (x y pid tgid : ℕ) (m : Memory)
    → Copies copy_to_user
    → x < 2 ^ 32
    → y < 2 ^ 32
    → Disjoint 4 pid tgid
    → left_first copy_to_user x y pid tgid m ≡ 0
    → left_second copy_to_user x y pid tgid m ≡ 0
    → (main_fork (syscall2 copy_to_user x y) pid tgid m
        ≡ record { printed = as_int x ∷ as_int y ∷ []; status = 0 })
      × (main_custom1 (syscall2 copy_to_user x y) pid tgid m
          ≡ record { printed = pos x ∷ pos y ∷ []; status = 0 })
unfolding syscall2
programs_print_ids copy_to_user x y pid tgid m c fx fy d e e' =
    let test : TestSyscall = syscall2 copy_to_user x y in
    let done = copied copy_to_user x y pid tgid m c e e' in
    let r0 : (test pid tgid m).0 ≡ pos 0 = ap (λ r. syscall_return r.0) done in
    let r1 : (test pid tgid m).1 ≡ both x y pid tgid m fx fy = ap (λ r. r.1) done in
    let p : read 4 pid (test pid tgid m).1 ≡ x =
      ap (read 4 pid) r1 ∙ read_first x y pid tgid m fx fy d in
    let t : read 4 tgid (test pid tgid m).1 ≡ y =
      ap (read 4 tgid) r1 ∙ read_second x y pid tgid m fx fy in
    (main_fork_prints test pid tgid x y m r0 p t, main_custom1_prints test pid tgid x y m r0 p t)

-- When a byte of either copy is left, whatever `copy_to_user` then does to the memory, the system call
-- answers -EFAULT, and both programs print no numbers and exit with their error statuses.
pub programs_report_fault :
    (copy_to_user : CopyToUser) (x y pid tgid : ℕ) (m : Memory)
    → (0 < left_first copy_to_user x y pid tgid m)
      ⊎ ((left_first copy_to_user x y pid tgid m ≡ 0)
          × (0 < left_second copy_to_user x y pid tgid m))
    → ((sys_test_call copy_to_user x y pid tgid m).0 ≡ neg efault)
      × (main_custom1 (syscall2 copy_to_user x y) pid tgid m ≡ record { printed = []; status = 2 })
      × (main_fork (syscall2 copy_to_user x y) pid tgid m ≡ record { printed = []; status = 1 })
unfolding main_custom1 main_fork syscall2
programs_report_fault copy_to_user x y pid tgid m h =
    let no = refused copy_to_user x y pid tgid m h in
    let r0 : (syscall2 copy_to_user x y pid tgid m).0 ≡ neg 1 = ap syscall_return no in
    (no, rw (main_custom1, r0) refl, rw (main_fork, r0) refl)
