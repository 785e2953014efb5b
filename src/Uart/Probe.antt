-- ===== src/Uart/Probe.antt =====
-- uart_pci_latest_March2011.c: `pci_probe`, stage by stage as it is written, and what undoes it.
mod Table
mod Stages
mod Outcome
mod Lifetime
mod Tests
use linux_learning_by_doing.Prelude.{
  ℕ, ◌+◌, ◌-◌, ◌^◌, Bool, not, Option, none, some, List, if◌then◌else◌, ltb, ℤ, pos, negsuc, neg,
  is_neg,
}
use linux_learning_by_doing.Uart.State.{
  Kernel, enomem, ebusy, enodev, pci_unregister_driver, pci_disable_device, pci_release_region_0,
  pci_release_region_1, unregister_chrdev_region, free_irq_1, free_irq_2, cdev_del_1, cdev_del_2,
}
use linux_learning_by_doing.Uart.Config.{device_diagnos_config, device_nondiagnos_config}
use linux_learning_by_doing.Uart.Diagnos.{polling, returned, device_diagnos_start}
use linux_learning_by_doing.Uart.Device.{Allocs, pci_dev_init}

-- What the kernel and the card answer: whether `dev` is a pointer, the return values of the calls,
-- the start of the two regions, and what `inb` reads on each port.
pub record Env : Type 0 where
  pub present : Bool
  pub enable : ℤ
  pub region_0 : ℤ
  pub region_1 : ℤ
  pub start_0 : ℕ
  pub start_1 : ℕ
  pub inb_0 : List ℕ
  pub inb_1 : List ℕ
  pub chrdev : ℤ
  pub allocs_1 : Allocs
  pub allocs_2 : Allocs
  pub irq_1 : ℤ
  pub irq_2 : ℤ
  pub cdev_1 : ℤ
  pub cdev_2 : ℤ

-- The last four calls of most of the error paths.
abbrev pub release_card : Kernel → Kernel
release_card k =
    pci_unregister_driver (pci_disable_device (pci_release_region_1 (pci_release_region_0 k)))

abbrev pub claim_device : Kernel → Kernel
claim_device k = record k { claims = record (k.claims) { device = k.claims.device + 1 } }

abbrev pub claim_region_0 : Kernel → Kernel
claim_region_0 k = record k { claims = record (k.claims) { region_1 = k.claims.region_1 + 1 } }

abbrev pub claim_region_1 : Kernel → Kernel
claim_region_1 k = record k { claims = record (k.claims) { region_2 = k.claims.region_2 + 1 } }

abbrev pub claim_chrdev : Kernel → Kernel
claim_chrdev k = record k { claims = record (k.claims) { chrdev = k.claims.chrdev + 1 } }

abbrev pub claim_irq_1 : Kernel → Kernel
claim_irq_1 k = record k { claims = record (k.claims) { irq_1 = k.claims.irq_1 + 1 } }

abbrev pub claim_irq_2 : Kernel → Kernel
claim_irq_2 k = record k { claims = record (k.claims) { irq_2 = k.claims.irq_2 + 1 } }

abbrev pub claim_cdev_1 : Kernel → Kernel
claim_cdev_1 k = record k { claims = record (k.claims) { cdev_1 = k.claims.cdev_1 + 1 } }

abbrev pub claim_cdev_2 : Kernel → Kernel
claim_cdev_2 k = record k { claims = record (k.claims) { cdev_2 = k.claims.cdev_2 + 1 } }

pub probe_cdevs : Env → Kernel → ℤ × Kernel
probe_cdevs e k =
    let k1 = claim_cdev_1 k in
    if is_neg e.cdev_1
    then (neg ebusy, release_card (unregister_chrdev_region (free_irq_2 (free_irq_1 k))))
    else if is_neg e.cdev_2
    then (
      neg ebusy,
      release_card (cdev_del_1 (unregister_chrdev_region (free_irq_2 (free_irq_1 k1)))),
    )
    else (pos 1, claim_cdev_2 k1)

pub probe_irqs : Env → Kernel → ℤ × Kernel
probe_irqs e k0 =
    let k = record k0 {
      ports =
          device_nondiagnos_config k0.pci_bar_1 (device_nondiagnos_config k0.pci_bar_0 k0.ports);
    } in
    let k1 = claim_irq_1 k in
    if is_neg e.irq_1
    then (neg ebusy, release_card (unregister_chrdev_region k))
    else if is_neg e.irq_2
    then (neg ebusy, release_card (unregister_chrdev_region (free_irq_1 k1)))
    else probe_cdevs e (claim_irq_2 k1)

pub init_dev_1 : Env → Kernel → ℤ × Kernel
init_dev_1 e k =
    let (ret, d) =
      pci_dev_init e.allocs_1 k.irq_line k.pci_bar_0
        (record { dev = k.my_dev_1; live = k.blocks_1; fault = k.fault }) in
    (ret, record k { my_dev_1 = d.dev; blocks_1 = d.live; fault = d.fault })

pub init_dev_2 : Env → Kernel → ℤ × Kernel
init_dev_2 e k =
    let (ret, d) =
      pci_dev_init e.allocs_2 k.irq_line k.pci_bar_1
        (record { dev = k.my_dev_2; live = k.blocks_2; fault = k.fault }) in
    (ret, record k { my_dev_2 = d.dev; blocks_2 = d.live; fault = d.fault })

pub probe_devices : Env → Kernel → ℤ × Kernel
probe_devices e k =
    let (ret_1, k1) = init_dev_1 e k in
    let (ret_2, k2) = init_dev_2 e k1 in
    if is_neg ret_1
    then (neg enomem, release_card (unregister_chrdev_region k1))
    else if is_neg ret_2
    then (neg enomem, release_card (unregister_chrdev_region k2))
    else probe_irqs e k2

pub probe_chrdev : Env → Kernel → ℤ × Kernel
probe_chrdev e k =
    if is_neg e.chrdev then (neg enomem, release_card k) else probe_devices e (claim_chrdev k)

-- One round of the loop over the ports, then `next`. `none` is a test that polls for ever.
pub probe_port : ℕ → List ℕ → (Kernel → Option (ℤ × Kernel)) → Kernel → Option (ℤ × Kernel)
probe_port bar reads next k =
    elim (device_diagnos_start bar reads (device_diagnos_config bar k.ports)) [
      | polling ↦ none
      | returned ret rest log ↦
          let k' = record k { ports = log } in
          if is_neg ret then some (neg enodev, release_card k') else next k'
    ]

pub probe_ports : Env → Kernel → Option (ℤ × Kernel)
probe_ports e k =
    probe_port k.pci_bar_0 e.inb_0 (probe_port k.pci_bar_1 e.inb_1 (λ k'. some (probe_chrdev e k')))
      k

pub pci_probe : Env → Kernel → Option (ℤ × Kernel)
pci_probe e k =
    let k1 = claim_device k in
    let k2 = claim_region_0 k1 in
    let k3 = claim_region_1 k2 in
    if not e.present
    then some (neg enodev, pci_unregister_driver k)
    else if is_neg e.enable
    then some (neg 1, pci_unregister_driver k)
    else if is_neg e.region_0
    then some (neg enomem, pci_unregister_driver (pci_disable_device k1))
    else if is_neg e.region_1
    then some (neg enomem, pci_unregister_driver (pci_disable_device k2))
    else probe_ports e (record k3 { pci_bar_0 = e.start_0; pci_bar_1 = e.start_1 })

pub pci_remove : Kernel → Kernel
pci_remove k = pci_disable_device (
    pci_release_region_1 (
      pci_release_region_0
        (cdev_del_2 (cdev_del_1 (unregister_chrdev_region (free_irq_2 (free_irq_1 k)))))))

pub exit_pci : Kernel → Kernel
exit_pci k = pci_unregister_driver k

-- The conversion of an `int` to `unsigned long`.
abbrev pub to_unsigned : ℤ → ℕ
to_unsigned (pos n) = n
to_unsigned (negsuc n) = 2 ^ 64 - n - 1

-- `ret` is an `unsigned long`, so that `ret < 0` is a comparison of unsigned numbers.
pub init_pci : ℤ → Kernel → ℤ × Kernel
init_pci register k =
    let ret = to_unsigned register in
    let k' =
      if is_neg register
      then k
      else record k { claims = record (k.claims) { driver = k.claims.driver + 1 } } in
    if ltb ret 0 then (pos ret, k') else (pos 0, k')
