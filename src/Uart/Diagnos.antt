-- ===== src/Uart/Diagnos.antt =====
-- uart_pci_latest_March2011.c: `device_diagnos_start`, the loopback test of one port.
pub mod Verdict
mod Tests
use linux_learning_by_doing.Prelude.{
  ℕ, zero, suc, ◌+◌, ◌*◌, ◌^◌, Bool, List, [], ◌∷◌, ◌++◌, ltb, if◌then◌else◌, has, ℤ, pos, neg,
}
use linux_learning_by_doing.Uart.State.{outb}

-- How the function ends, given what the `inb` calls return in turn: it still polls when those run
-- out, or it returns a code, with the values not read yet and the port writes so far.
pub data Diagnos : Type 0 where
  polling : Diagnos
  returned : ℤ → List ℕ → List (ℕ × ℕ) → Diagnos

-- `while (r < 16)`: the status is read, and if it has bit 0, the byte. The byte is only printed.
pub diagnos_read : List ℕ → ℕ → List (ℕ × ℕ) → Diagnos
diagnos_read [] r log = if ltb r 16 then polling else returned (pos 0) [] log
diagnos_read (s ∷ []) r log = if ltb r 16 then polling else returned (pos 0) (s ∷ []) log
diagnos_read (s ∷ byte ∷ reads) r log =
    let again = diagnos_read (byte ∷ reads) r log in
    let next = diagnos_read reads (r + 1) log in
    if ltb r 16
    then (if has s 0x01 then (if has s 0x0e then returned (neg 1) reads log else next) else again)
    else returned (pos 0) (s ∷ byte ∷ reads) log

-- `while (w < 16) outb(0xff, addr)`, with the rounds left
pub send : ℕ → ℕ → List (ℕ × ℕ) → List (ℕ × ℕ)
send zero addr log = log
send (suc w) addr log = send w addr (outb 0xff addr log)

-- `while (i < 1)`: wait for bit 5 of the status, then send and read back.
pub device_diagnos_start : ℕ → List ℕ → List (ℕ × ℕ) → Diagnos
device_diagnos_start addr [] log = polling
device_diagnos_start addr (a ∷ reads) log =
    let again = device_diagnos_start addr reads log in
    if has a 0x20 then diagnos_read reads 0 (send 16 addr log) else again
