-- ===== src/Uart/Probe/Stages.antt =====
-- Each stage of `pci_probe` against the table, from the last to the first.
use linux_learning_by_doing.Prelude.{
  ◌+◌, ◌<◌, ◌≡◌, ◌⊎◌, Bool, true, false, if◌then◌else◌, Bool-cases, inl, inr, refl, ap, ◌∙◌, ℤ, pos,
  neg, is_neg,
}
use linux_learning_by_doing.Uart.State.{Claims, Blocks, Kernel, undo, lost, lost-pos}
use linux_learning_by_doing.Uart.Config.{device_nondiagnos_config}
use linux_learning_by_doing.Uart.Device.Balance.{one_more, both_given, pci_dev_init_balance}
use linux_learning_by_doing.Uart.Device.{Allocs}
use linux_learning_by_doing.Uart.Probe.{
  Env, probe_cdevs, probe_irqs, probe_devices, probe_chrdev, init_dev_1, init_dev_2, claim_irq_1,
  claim_irq_2, claim_chrdev,
}
use linux_learning_by_doing.Uart.Probe.Table.{
  Stop, no_chrdev, no_dev_1, no_dev_2, no_irq_1, no_irq_2, no_cdev_1, no_cdev_2, nowhere, code_at,
  claims_at, fault_at, card_claims, dev_1_kept, dev_2_kept, cdevs_stop, irqs_stop, devices_stop,
  chrdev_stop,
}

abbrev pub kept : Allocs → Bool → Blocks → Blocks
kept m b live = if b then one_more m live else live

-- The result of a run that began with claims `c` and blocks `b1`, `b2`, and stopped at `s`.
pub record Ends (e : Env) (s : Stop) (c : Claims) (b1 b2 : Blocks) (f : Bool) (r : ℤ × Kernel)
    : Type 0 where
  pub code : r.0 ≡ code_at s
  pub held : r.1.claims ≡ claims_at s c
  pub live_1 : r.1.blocks_1 ≡ kept e.allocs_1 (dev_1_kept s) b1
  pub live_2 : r.1.blocks_2 ≡ kept e.allocs_2 (dev_2_kept s) b2
  pub clean : r.1.fault ≡ fault_at s f

abbrev ports_set : Kernel → Kernel
ports_set k = record k {
  ports = device_nondiagnos_config k.pci_bar_1 (device_nondiagnos_config k.pci_bar_0 k.ports);
}

init_1 :
    (e : Env) (k : Kernel)
    → let (code, k') = init_dev_1 e k in
      (both_given e.allocs_1 ≡ false)
        × (code ≡ neg 1)
        × (k'.claims ≡ k.claims)
        × (k'.blocks_1 ≡ k.blocks_1)
        × (k'.blocks_2 ≡ k.blocks_2)
        × (k'.fault ≡ k.fault)
      ⊎ (both_given e.allocs_1 ≡ true)
        × (code ≡ pos 0)
        × (k'.claims ≡ k.claims)
        × (k'.blocks_1 ≡ one_more e.allocs_1 k.blocks_1)
        × (k'.blocks_2 ≡ k.blocks_2)
        × (k'.fault ≡ k.fault)
unfolding init_dev_1
init_1 e k =
    elim (pci_dev_init_balance e.allocs_1 k.irq_line k.pci_bar_0
      (record { dev = k.my_dev_1; live = k.blocks_1; fault = k.fault })) [
        | inl p ↦ inl (p.0, p.1, refl, p.2, refl, p.3)
        | inr p ↦ inr (p.0, p.1, refl, p.2, refl, p.3)
      ]

init_2 :
    (e : Env) (k : Kernel)
    → let (code, k') = init_dev_2 e k in
      (both_given e.allocs_2 ≡ false)
        × (code ≡ neg 1)
        × (k'.claims ≡ k.claims)
        × (k'.blocks_1 ≡ k.blocks_1)
        × (k'.blocks_2 ≡ k.blocks_2)
        × (k'.fault ≡ k.fault)
      ⊎ (both_given e.allocs_2 ≡ true)
        × (code ≡ pos 0)
        × (k'.claims ≡ k.claims)
        × (k'.blocks_1 ≡ k.blocks_1)
        × (k'.blocks_2 ≡ one_more e.allocs_2 k.blocks_2)
        × (k'.fault ≡ k.fault)
unfolding init_dev_2
init_2 e k =
    elim (pci_dev_init_balance e.allocs_2 k.irq_line k.pci_bar_1
      (record { dev = k.my_dev_2; live = k.blocks_2; fault = k.fault })) [
        | inl p ↦ inl (p.0, p.1, refl, refl, p.2, p.3)
        | inr p ↦ inr (p.0, p.1, refl, refl, p.2, p.3)
      ]

module _ (e : Env) (c : Claims) (b1 b2 : Blocks) (f : Bool) (registered : 0 < c.driver) where
  driver-lost : lost f c.driver ≡ f
  driver-lost = lost-pos f c.driver registered

  pub stopped :
      (s : Stop) (k : Kernel)
      → Ends e s c b1 b2 f (
        code_at s,
        record k {
          claims = claims_at s c;
          blocks_1 = kept e.allocs_1 (dev_1_kept s) b1;
          blocks_2 = kept e.allocs_2 (dev_2_kept s) b2;
          fault = fault_at s f;
        },
      )
  stopped s k = record { code = refl; held = refl; live_1 = refl; live_2 = refl; clean = refl }

  cdevs-Ends :
      (k : Kernel)
      → k.claims
        ≡ record (card_claims c) { chrdev = c.chrdev + 1; irq_1 = c.irq_1 + 1; irq_2 = c.irq_2 + 1 }
      → k.blocks_1 ≡ one_more e.allocs_1 b1
      → k.blocks_2 ≡ one_more e.allocs_2 b2
      → k.fault ≡ f
      → Ends e (cdevs_stop e) c b1 b2 f (probe_cdevs e k)
  unfolding probe_cdevs
  cdevs-Ends k h h1 h2 hf = elim (Bool-cases (is_neg e.cdev_1)) [
    | inl n ↦ simp (n, h, h1, h2, hf, undo, driver-lost) (stopped no_cdev_1 k)
    | inr n ↦ elim (Bool-cases (is_neg e.cdev_2)) [
      | inl n' ↦ simp (n, n', h, h1, h2, hf, undo) (stopped no_cdev_2 k)
      | inr n' ↦ simp (n, n', h, h1, h2, hf) (stopped nowhere k)
    ]
  ]

  irqs-Ends :
      (k : Kernel)
      → k.claims ≡ record (card_claims c) { chrdev = c.chrdev + 1 }
      → k.blocks_1 ≡ one_more e.allocs_1 b1
      → k.blocks_2 ≡ one_more e.allocs_2 b2
      → k.fault ≡ f
      → Ends e (irqs_stop e) c b1 b2 f (probe_irqs e k)
  unfolding probe_irqs
  irqs-Ends k h h1 h2 hf = elim (Bool-cases (is_neg e.irq_1)) [
    | inl n ↦ simp (n, h, h1, h2, hf, undo, driver-lost) (stopped no_irq_1 (ports_set k))
    | inr n ↦ elim (Bool-cases (is_neg e.irq_2)) [
      | inl n' ↦ simp (n, n', h, h1, h2, hf, undo, driver-lost) (stopped no_irq_2 (ports_set k))
      | inr n' ↦ rw (n, n') (cdevs-Ends (claim_irq_2 (claim_irq_1 (ports_set k))) (simp h) h1 h2 hf)
    ]
  ]

  devices-Ends :
      (k : Kernel)
      → k.claims ≡ record (card_claims c) { chrdev = c.chrdev + 1 }
      → k.blocks_1 ≡ b1
      → k.blocks_2 ≡ b2
      → k.fault ≡ f
      → Ends e (devices_stop e) c b1 b2 f (probe_devices e k)
  unfolding probe_devices
  devices-Ends k h h1 h2 hf = elim (init_1 e k) [
    | inl p ↦
        simp (p.0, p.1, p.2, p.3, p.4, p.5, h, h1, h2, hf, undo, driver-lost)
          (stopped no_dev_1 (init_dev_1 e k).1)
    | inr p ↦ elim (init_2 e (init_dev_1 e k).1) [
      | inl q ↦
          simp (q.0, q.1, q.2, q.3, q.4, q.5)
            (simp (p.0, p.1, p.2, p.3, p.4, p.5, h, h1, h2, hf, undo, driver-lost)
              (stopped no_dev_2 (init_dev_2 e (init_dev_1 e k).1).1))
      | inr q ↦
          rw (p.0, p.1, q.0, q.1)
            (irqs-Ends (init_dev_2 e (init_dev_1 e k).1).1 (q.2 ∙ p.2 ∙ h)
              (q.3 ∙ p.3 ∙ ap (one_more e.allocs_1) h1) (q.4 ∙ ap (one_more e.allocs_2) (p.4 ∙ h2))
              (q.5 ∙ p.5 ∙ hf))
    ]
  ]

  pub chrdev-Ends :
      (k : Kernel)
      → k.claims ≡ card_claims c
      → k.blocks_1 ≡ b1
      → k.blocks_2 ≡ b2
      → k.fault ≡ f
      → Ends e (chrdev_stop e) c b1 b2 f (probe_chrdev e k)
  unfolding probe_chrdev
  chrdev-Ends k h h1 h2 hf = elim (Bool-cases (is_neg e.chrdev)) [
    | inl n ↦ simp (n, h, h1, h2, hf, undo, driver-lost) (stopped no_chrdev k)
    | inr n ↦ rw n (devices-Ends (claim_chrdev k) (simp h) h1 h2 hf)
  ]
