-- ===== src/Uart/Diagnos/Tests.antt =====
-- The loopback test on a chip that echoes, and on one that reports a framing error.
use linux_learning_by_doing.Prelude.{ℕ, zero, suc, ◌≡◌, refl, [], ◌∷◌, ◌++◌, replicate, neg}
use linux_learning_by_doing.Uart.Diagnos.{
  polling, returned, diagnos_read, send, device_diagnos_start,
}
use linux_learning_by_doing.Uart.Diagnos.Verdict.{Frame, Comes, reads, diagnos_verdict}

abbrev echo : Frame
echo = record { waits = 0x60 ∷ []; status = 0x61; byte = 0xff }

abbrev framing_error : Frame
framing_error = record { waits = []; status = 0x69; byte = 0 }

still_polling : device_diagnos_start 0xd000 (0 ∷ 0x20 ∷ 0x61 ∷ 0xff ∷ 0x60 ∷ []) [] ≡ polling
unfolding device_diagnos_start diagnos_read send
still_polling = refl

echo-Comes : (n : ℕ) → Comes (replicate n echo)
echo-Comes zero = tt
echo-Comes (suc n) = ((refl, tt), refl, echo-Comes n)

diagnos_verdict_example :
    device_diagnos_start 0xd000
      ((0 ∷ []) ++ (0x20 ∷ reads (framing_error ∷ replicate 15 echo) []))
      []
    ≡ returned (neg 1) (reads (replicate 15 echo) []) ([] ++ replicate 16 (0xd000, 0xff))
diagnos_verdict_example =
    diagnos_verdict 0xd000 (0 ∷ []) 0x20 (framing_error ∷ replicate 15 echo) [] [] (refl, tt) refl
      (tt, refl, echo-Comes 15) refl
