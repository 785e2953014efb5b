-- ===== src/Uart/Probe/Table.antt =====
-- Where `pci_probe` stops, and what it answers and leaves held there.
use linux_learning_by_doing.Prelude.{
  ◌+◌, ◌-◌, Bool, true, false, not, if◌then◌else◌, ℤ, pos, neg, is_neg,
}
use linux_learning_by_doing.Uart.State.{Claims, enomem, ebusy, enodev}
use linux_learning_by_doing.Uart.Device.Balance.{both_given}
use linux_learning_by_doing.Uart.Probe.{Env}

-- The first thing that fails, in the order of the code.
pub data Stop : Type 0 where
  no_device no_enable no_region_0 no_region_1 port_0_broken port_1_broken no_chrdev : Stop
  no_dev_1 no_dev_2 no_irq_1 no_irq_2 no_cdev_1 no_cdev_2 nowhere : Stop

abbrev pub cdevs_stop : Env → Stop
cdevs_stop e = if is_neg e.cdev_1 then no_cdev_1 else if is_neg e.cdev_2 then no_cdev_2 else nowhere

abbrev pub irqs_stop : Env → Stop
irqs_stop e = if is_neg e.irq_1 then no_irq_1 else if is_neg e.irq_2 then no_irq_2 else cdevs_stop e

abbrev pub devices_stop : Env → Stop
devices_stop e =
    if not (both_given e.allocs_1)
    then no_dev_1
    else if not (both_given e.allocs_2)
    then no_dev_2
    else irqs_stop e

abbrev pub chrdev_stop : Env → Stop
chrdev_stop e = if is_neg e.chrdev then no_chrdev else devices_stop e

-- `d0` and `d1` are the codes of the two loopback tests.
abbrev pub ports_stop : Env → ℤ → ℤ → Stop
ports_stop e d0 d1 =
    if is_neg d0 then port_0_broken else if is_neg d1 then port_1_broken else chrdev_stop e

abbrev pub stop : Env → ℤ → ℤ → Stop
stop e d0 d1 =
    if not e.present
    then no_device
    else if is_neg e.enable
    then no_enable
    else if is_neg e.region_0
    then no_region_0
    else if is_neg e.region_1
    then no_region_1
    else ports_stop e d0 d1

abbrev pub code_at : Stop → ℤ
code_at no_device = neg enodev
code_at no_enable = neg 1
code_at port_0_broken = neg enodev
code_at port_1_broken = neg enodev
code_at no_irq_1 = neg ebusy
code_at no_irq_2 = neg ebusy
code_at no_cdev_1 = neg ebusy
code_at no_cdev_2 = neg ebusy
code_at nowhere = pos 1
code_at _ = neg enomem

-- Everything but the two character devices.
abbrev pub card_claims : Claims → Claims
card_claims c = record c {
  device = c.device + 1;
  region_1 = c.region_1 + 1;
  region_2 = c.region_2 + 1;
}

abbrev pub all_claims : Claims → Claims
all_claims c = record (card_claims c) {
  chrdev = c.chrdev + 1;
  irq_1 = c.irq_1 + 1;
  irq_2 = c.irq_2 + 1;
  cdev_1 = c.cdev_1 + 1;
  cdev_2 = c.cdev_2 + 1;
}

-- A failure takes the driver off the bus and gives back the rest, but for region 0 when region 1 is
-- refused, and for the first character device when the second is.
abbrev pub claims_at : Stop → Claims → Claims
claims_at nowhere c = all_claims c
claims_at no_region_1 c = record c { driver = c.driver - 1; region_1 = c.region_1 + 1 }
claims_at no_cdev_2 c = record c { driver = c.driver - 1; cdev_1 = c.cdev_1 + 1 }
claims_at _ c = record c { driver = c.driver - 1 }

-- Whether something was released that was not held: a character device that was never added.
abbrev pub fault_at : Stop → Bool → Bool
fault_at no_cdev_2 f = true
fault_at _ f = f

-- Whether the buffers of the two ports are left allocated.
abbrev pub dev_1_kept : Stop → Bool
dev_1_kept no_dev_2 = true
dev_1_kept no_irq_1 = true
dev_1_kept no_irq_2 = true
dev_1_kept no_cdev_1 = true
dev_1_kept no_cdev_2 = true
dev_1_kept nowhere = true
dev_1_kept _ = false

abbrev pub dev_2_kept : Stop → Bool
dev_2_kept no_irq_1 = true
dev_2_kept no_irq_2 = true
dev_2_kept no_cdev_1 = true
dev_2_kept no_cdev_2 = true
dev_2_kept nowhere = true
dev_2_kept _ = false
