-- ===== src/Uart/Probe/Lifetime.antt =====
-- uart_pci_latest_March2011.c from `module_init` to `module_exit`, with what the PCI core does between.
mod Tests
use linux_learning_by_doing.Prelude.{
  ℕ, ◌+◌, ◌-◌, ◌≡◌, ◌∙◌, subst, refl, ap, Bool, Bool-cases, true, false, not, ◌&&◌, inl, inr,
  Option, none, some, ℤ, pos, neg, is_neg, is_zero, if◌then◌else◌, arith,
}
use linux_learning_by_doing.Uart.State.{Kernel, Claims, Blocks, lost}
use linux_learning_by_doing.Uart.Probe.{Env, init_pci, pci_probe, pci_remove, exit_pci}
use linux_learning_by_doing.Uart.Probe.Table.{
  Stop, no_device, no_enable, no_region_0, no_region_1, port_0_broken, port_1_broken, no_chrdev,
  no_dev_1, no_dev_2, no_irq_1, no_irq_2, no_cdev_1, no_cdev_2, nowhere, stop, dev_1_kept,
  dev_2_kept,
}
use linux_learning_by_doing.Uart.Probe.Stages.{Ends, kept}
use linux_learning_by_doing.Uart.Probe.Outcome.{Answers, probe_outcome, init_pci_hides_failure}

-- `pci_unregister_driver` in `exit_pci` first removes the card from the driver, if a probe has bound it.
abbrev pub unload : ℤ × Kernel → Kernel
unload (code, k) = if is_neg code then exit_pci k else exit_pci (pci_remove k)

-- The card is in the machine when the module is loaded; `register` is the answer of
-- `pci_register_driver`, which probes it. `none` is a probe that polls for ever.
pub life : Env → ℤ → Kernel → Option Kernel
unfolding init_pci
life e register k =
    let (ret, k1) = init_pci register k in
    if not (is_zero ret)
    then some k1
    else if is_neg register
    then some (exit_pci k1)
    else elim (pci_probe e k1) [ none ↦ none | some r ↦ some (unload r) ]

abbrev pub region_left : ℤ → Stop → ℕ
region_left register no_region_1 = if is_neg register then 0 else 1
region_left register _ = 0

-- The character devices that were added are never deleted.
abbrev pub cdev_1_left : ℤ → Stop → ℕ
cdev_1_left register no_cdev_2 = if is_neg register then 0 else 1
cdev_1_left register nowhere = if is_neg register then 0 else 1
cdev_1_left register _ = 0

abbrev pub cdev_2_left : ℤ → Stop → ℕ
cdev_2_left register nowhere = if is_neg register then 0 else 1
cdev_2_left register _ = 0

pub record Leaves (e : Env) (register : ℤ) (s : Stop) (k k' : Kernel) : Type 0 where
  pub fault : k'.fault ≡ true
  pub claims : k'.claims ≡ record (k.claims) {
    region_1 = k.claims.region_1 + region_left register s;
    cdev_1 = k.claims.cdev_1 + cdev_1_left register s;
    cdev_2 = k.claims.cdev_2 + cdev_2_left register s;
  }
  pub blocks_1 : k'.blocks_1 ≡ kept e.allocs_1 (not (is_neg register) && dev_1_kept s) k.blocks_1
  pub blocks_2 : k'.blocks_2 ≡ kept e.allocs_2 (not (is_neg register) && dev_2_kept s) k.blocks_2

abbrev registered : Claims → Claims
registered c = record c { driver = c.driver + 1 }

unload-Leaves :
    (e : Env) (register : ℤ) (s : Stop) (k : Kernel) (r : ℤ × Kernel)
    → is_neg register ≡ false
    → k.claims.driver ≡ 0
    → Ends e s (registered k.claims) k.blocks_1 k.blocks_2 false r
    → Leaves e register s k (unload r)
unfolding exit_pci pci_remove lost
unload-Leaves e register no_device k r n z h =
    ground (arith, h.code, h.held, h.live_1, h.live_2, h.clean)
unload-Leaves e register nowhere k r n z h =
    ground (arith, h.code, h.held, h.live_1, h.live_2, h.clean)
unload-Leaves e register s k r n z h = ground (arith, h.code, h.held, h.live_1, h.live_2, h.clean)

init_pci-registers :
    (register : ℤ) (k : Kernel)
    → is_neg register ≡ false
    → init_pci register k ≡ (pos 0, record k { claims = registered k.claims })
unfolding init_pci
init_pci-registers register k n = ground arith

no_driver-Leaves :
    (e : Env) (register : ℤ) (s : Stop) (k : Kernel)
    → is_neg register ≡ true
    → k.claims.driver ≡ 0
    → Leaves e register s k (exit_pci k)
unfolding exit_pci lost
no_driver-Leaves e register nowhere k n z = ground arith
no_driver-Leaves e register s k n z = ground arith

-- The module is loaded with no driver registered and nothing released wrongly yet, and the two loopback
-- tests end. Then, from loading to unloading: something is released that is not held, whatever fails
-- or succeeds; every claim is given back, but for region 0 where the probe was refused region 1, and for
-- each character device that was added; and the blocks of a device stay allocated wherever the probe
-- got so far, also where all succeeds.
pub lifetime :
    (e : Env) (register : ℤ) (k : Kernel) {d0 d1 : ℤ}
    → k.claims.driver ≡ 0
    → k.fault ≡ false
    → Answers e.start_0 e.inb_0 d0
    → Answers e.start_1 e.inb_1 d1
    → (k' : Kernel) × (life e register k ≡ some k') × Leaves e register (stop e d0 d1) k k'
unfolding life
lifetime e register k {d0} {d1} z f a0 a1 = elim (Bool-cases (is_neg register)) [
  | inl n ↦ (
    exit_pci k,
    rw (life, init_pci_hides_failure register k n, n) refl,
    no_driver-Leaves e register (stop e d0 d1) k n z,
  )
  | inr n ↦
      let k1 : Kernel = record k { claims = registered k.claims } in
      let (v, q, r) = probe_outcome e k1 (omega arith) a0 a1 in
      (
        unload v,
        rw (life, init_pci-registers register k n, n, q) refl,
        unload-Leaves e register (stop e d0 d1) k v n z (
            subst (λ g. Ends e (stop e d0 d1) (registered k.claims) k.blocks_1 k.blocks_2 g v) f r),
      )
]
