-- ===== src/Uart/Config/Tests.antt =====
-- The configuration writes at a port of the card.
use linux_learning_by_doing.Prelude.{◌≡◌, [], arith}
use linux_learning_by_doing.Uart.Config.{
  Chip, device_diagnos_config, device_nondiagnos_config, write_regs, config_registers,
}

abbrev powered_up : Chip
powered_up = record { lcr = 0; dlm = 0; dll = 0; fcr = 0; ier = 0; mcr = 0; thr = [] }

config_registers_example :
    (write_regs 0xd000 (device_diagnos_config 0xd000 []) powered_up
      ≡ record { lcr = 0x03; dlm = 0; dll = 12; fcr = 0xc7; ier = 0x00; mcr = 0x10; thr = [] })
    × (write_regs 0xd000 (device_nondiagnos_config 0xd000 []) powered_up
        ≡ record { lcr = 0x03; dlm = 0; dll = 12; fcr = 0xc7; ier = 0x03; mcr = 0x08; thr = [] })
config_registers_example = config_registers 0xd000 (omega arith) powered_up
