-- ===== src/SysCall.antt =====
-- The system call that KernelDrivers_March2011/sys.c adds to its kernel, and the programs that call it.
pub mod Bytes
pub mod Outcome
mod Clients
mod Tests
use linux_learning_by_doing.Prelude.{
  ℕ, zero, suc, ◌+◌, ◌-◌, ◌%◌, ◌^◌, ltb, leb, negsuc, as_int, Bool, true, false, List, [], ◌∷◌, ℤ,
  pos, neg, is_neg, if◌then◌else◌,
}
use linux_learning_by_doing.SysCall.Bytes.{Memory, bytes, read}

-- <errno.h>
abbrev pub efault : ℕ
efault = 14

-- How many bytes are left uncopied, and the memory
abbrev pub CopyToUser : Type 0
CopyToUser = ℕ → List ℕ → Memory → ℕ × Memory

-- `sys_test_call`, with `current->pid` and `current->tgid`, which are 32-bit, and the two pointers
unfoldable pub sys_test_call : CopyToUser → ℕ → ℕ → ℕ → ℕ → Memory → ℤ × Memory
sys_test_call copy_to_user current_pid current_tgid pid tgid m =
    let (ret, m1) = copy_to_user pid (bytes 4 current_pid) m in
    if ltb 0 ret
    then (neg efault, m1)
    else (let (ret2, m2) = copy_to_user tgid (bytes 4 current_tgid) m1 in
        if ltb 0 ret2 then (neg efault, m2) else (pos 0, m2))

-- A `long` of the i386 kernel as `unsigned long`
abbrev pub to_unsigned : ℤ → ℕ
to_unsigned (pos n) = n % 2 ^ 32
to_unsigned (negsuc n) = 2 ^ 32 - 1 - n % 2 ^ 32

-- `__syscall_return` of syscallmacros.h, but for `errno`
abbrev pub syscall_return : ℤ → ℤ
syscall_return res = if leb (2 ^ 32 - 4095) (to_unsigned res) then neg 1 else res

-- What a program prints of the two numbers, and its exit status
pub record Exit : Type 0 where
  pub printed : List ℤ
  pub status : ℕ

-- A system call of two pointers as the program makes it: its answer, and the memory
abbrev pub TestSyscall : Type 0
TestSyscall = ℕ → ℕ → Memory → ℤ × Memory

-- `_syscall2`, which makes the call through `int $0x80`, with the kernel behind it
unfoldable pub syscall2 : CopyToUser → ℕ → ℕ → TestSyscall
syscall2 copy_to_user current_pid current_tgid pid tgid m =
    let (res, m1) = sys_test_call copy_to_user current_pid current_tgid pid tgid m in
    (syscall_return res, m1)

-- `main` of syscall_custom1.c, whose `long pid, tgid` at these addresses have four bytes on the i386
unfoldable pub main_custom1 : TestSyscall → ℕ → ℕ → Memory → Exit
main_custom1 test_syscall pid tgid m =
    let (ret, m1) = test_syscall pid tgid m in
    if is_neg ret
    then record { printed = []; status = 2 }
    else record { printed = pos (read 4 pid m1) ∷ pos (read 4 tgid m1) ∷ []; status = 0 }

-- `main` of syscall_fork.c, whose `unsigned int pid, tgid` have four bytes and are printed with "%d"
unfoldable pub main_fork : TestSyscall → ℕ → ℕ → Memory → Exit
main_fork test_syscall1 pid tgid m =
    let (ret1, m1) = test_syscall1 pid tgid m in
    if is_neg ret1
    then record { printed = []; status = 1 }
    else record { printed = as_int (read 4 pid m1) ∷ as_int (read 4 tgid m1) ∷ []; status = 0 }
