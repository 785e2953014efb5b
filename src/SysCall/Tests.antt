-- ===== src/SysCall/Tests.antt =====
-- A process with the numbers 25 and 7, on a kernel whose `copy_to_user` always copies, and on one whose never does.
use linux_learning_by_doing.Prelude.{
  ◌≡◌, refl, inl, [], ◌∷◌, neg, ltb, pos, if◌then◌else◌, length, arith,
}
use linux_learning_by_doing.SysCall.{
  CopyToUser, efault, sys_test_call, syscall2, main_custom1, main_fork,
}
use linux_learning_by_doing.SysCall.Bytes.{Memory, bytes, store}
use linux_learning_by_doing.SysCall.Clients.{main_custom2, custom2_fails}
use linux_learning_by_doing.SysCall.Outcome.{programs_print_ids, programs_report_fault}

abbrev copies_all : CopyToUser
copies_all to bs m = (0, store to bs m)

abbrev copies_none : CopyToUser
copies_none to bs m = (length bs, m)

-- Every byte is 1 before.
abbrev ones : Memory
ones = λ a. 1

programs_print_ids_example :
    (main_fork (syscall2 copies_all 25 7) 100 104 ones
      ≡ record { printed = pos 25 ∷ pos 7 ∷ []; status = 0 })
    × (main_custom1 (syscall2 copies_all 25 7) 100 104 ones
        ≡ record { printed = pos 25 ∷ pos 7 ∷ []; status = 0 })
programs_print_ids_example =
    programs_print_ids copies_all 25 7 100 104 ones (λ to bs m e. refl) (omega arith) (omega arith)
      (inl (omega arith)) refl refl

programs_report_fault_test :
    ((sys_test_call copies_none 25 7 100 104 ones).0 ≡ neg efault)
    × (main_custom1 (syscall2 copies_none 25 7) 100 104 ones ≡ record { printed = []; status = 2 })
    × (main_fork (syscall2 copies_none 25 7) 100 104 ones ≡ record { printed = []; status = 1 })
unfolding bytes
programs_report_fault_test = programs_report_fault copies_none 25 7 100 104 ones (inl (omega arith))

-- A kernel with the system calls up to 327
custom2_fails_test :
    main_custom2 (λ n a. if ltb 327 n then neg 38 else pos 0) ≡ record { output = []; status = 1 }
custom2_fails_test =
    custom2_fails (λ n a. if ltb 327 n then neg 38 else pos 0) (λ n a h. ground arith)
