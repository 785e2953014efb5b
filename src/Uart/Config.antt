-- ===== src/Uart/Config.antt =====
-- uart_pci_latest_March2011.c: what `device_diagnos_config` and `device_nondiagnos_config` write,
-- and the registers of the chip after it.
mod Tests
use linux_learning_by_doing.Prelude.{
  ℕ, ◌+◌, ◌/◌, ◌%◌, ◌^◌, ◌<◌, ◌≡◌, ◌==◌, Bool, List, [], ◌∷◌, if◌then◌else◌, arith, refl,
}
use linux_learning_by_doing.Uart.State.{add_u32, outb}

pub device_diagnos_config : ℕ → List (ℕ × ℕ) → List (ℕ × ℕ)
device_diagnos_config addr log =
    let log = outb 0x80 (add_u32 addr 3) log in
    let log = outb 0x00 (add_u32 addr 1) log in
    let log = outb 0x0c (add_u32 addr 0) log in
    let log = outb 0x03 (add_u32 addr 3) log in
    let log = outb 0xc7 (add_u32 addr 2) log in
    let log = outb 0x00 (add_u32 addr 1) log in outb 0x10 (add_u32 addr 4) log

pub device_nondiagnos_config : ℕ → List (ℕ × ℕ) → List (ℕ × ℕ)
device_nondiagnos_config addr log =
    let log = outb 0x80 (add_u32 addr 3) log in
    let log = outb 0x00 (add_u32 addr 1) log in
    let log = outb 0x0c (add_u32 addr 0) log in
    let log = outb 0x03 (add_u32 addr 3) log in
    let log = outb 0xc7 (add_u32 addr 2) log in
    let log = outb 0x03 (add_u32 addr 1) log in outb 0x08 (add_u32 addr 4) log

-- The registers that the source's comments name.
pub record Chip : Type 0 where
  pub lcr : ℕ
  pub dlm : ℕ
  pub dll : ℕ
  pub fcr : ℕ
  pub ier : ℕ
  pub mcr : ℕ
  pub thr : List ℕ

-- One port write, by the registers that the comments name: while bit 7 of LCR (DLAB) is set, the ports `base`
-- and `base + 1` are the two halves of the baud divisor.
pub write_reg : ℕ → ℕ → ℕ → Chip → Chip
write_reg base p v c =
    let dlab : Bool = c.lcr / 128 % 2 == 1 in
    if p == base + 3
    then record c { lcr = v }
    else if p == base + 2
    then record c { fcr = v }
    else if p == base + 4
    then record c { mcr = v }
    else if p == base + 1
    then (if dlab then record c { dlm = v } else record c { ier = v })
    else if p == base
    then (if dlab then record c { dll = v } else record c { thr = v ∷ c.thr })
    else c

pub write_regs : ℕ → List (ℕ × ℕ) → Chip → Chip
write_regs base [] c = c
write_regs base ((p, v) ∷ ws) c = write_regs base ws (write_reg base p v c)

abbrev dlab : Chip → Bool
dlab c = c.lcr / 128 % 2 == 1

module _ (base : ℕ) (fits : base + 7 < 2 ^ 32) where
  at_lcr : (v : ℕ) (c : Chip) → write_reg base (add_u32 base 3) v c ≡ record c { lcr = v }
  unfolding write_reg
  at_lcr v c = ground arith

  at_fcr : (v : ℕ) (c : Chip) → write_reg base (add_u32 base 2) v c ≡ record c { fcr = v }
  unfolding write_reg
  at_fcr v c = ground arith

  at_mcr : (v : ℕ) (c : Chip) → write_reg base (add_u32 base 4) v c ≡ record c { mcr = v }
  unfolding write_reg
  at_mcr v c = ground arith

  at_ier :
      (v : ℕ) (c : Chip)
      → write_reg base (add_u32 base 1) v c
        ≡ (if dlab c then record c { dlm = v } else record c { ier = v })
  unfolding write_reg
  at_ier v c = ground arith

  at_thr :
      (v : ℕ) (c : Chip)
      → write_reg base (add_u32 base 0) v c
        ≡ (if dlab c then record c { dll = v } else record c { thr = v ∷ c.thr })
  unfolding write_reg
  at_thr v c = ground arith

  -- From any state of the chip, both configurations leave DLAB off, eight data bits with no parity
  -- and one stop bit, divisor 12 and the fifos on, and send nothing. The diagnostic one masks every
  -- interrupt and loops the line back; the other enables the receive and transmit interrupts. It is
  -- for a base from which no port address wraps.
  pub config_registers :
      (c : Chip)
      → (write_regs base (device_diagnos_config base []) c ≡ record {
        lcr = 0x03;
        dlm = 0;
        dll = 12;
        fcr = 0xc7;
        ier = 0x00;
        mcr = 0x10;
        thr = c.thr;
      })
        × (write_regs base (device_nondiagnos_config base []) c ≡ record {
          lcr = 0x03;
          dlm = 0;
          dll = 12;
          fcr = 0xc7;
          ier = 0x03;
          mcr = 0x08;
          thr = c.thr;
        })
  unfolding device_diagnos_config device_nondiagnos_config write_regs
  config_registers c =
      (simp (at_lcr, at_fcr, at_mcr, at_ier, at_thr), simp (at_lcr, at_fcr, at_mcr, at_ier, at_thr))
