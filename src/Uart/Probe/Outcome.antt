-- ===== src/Uart/Probe/Outcome.antt =====
-- What `pci_probe` returns and leaves held, for every answer of the kernel and the card.
use linux_learning_by_doing.Prelude.{
  ℕ, ◌+◌, ◌<◌, ◌≡◌, refl, ap, ◌∙◌, inl, inr, Bool, Bool-cases, true, false, List, Option, some, ℤ,
  neg, is_neg, pos, arith,
}
use linux_learning_by_doing.Uart.State.{Claims, Blocks, Kernel, enodev, undo, lost-pos, lost}
use linux_learning_by_doing.Uart.Config.{device_diagnos_config}
use linux_learning_by_doing.Uart.Diagnos.{returned, device_diagnos_start}
use linux_learning_by_doing.Uart.Device.Balance.{one_more}
use linux_learning_by_doing.Uart.Probe.{
  Env, probe_port, probe_ports, probe_chrdev, pci_probe, pci_remove, init_pci, claim_device,
  claim_region_0, claim_region_1, release_card,
}
use linux_learning_by_doing.Uart.Probe.Table.{
  Stop, no_device, no_enable, no_region_0, no_region_1, port_0_broken, port_1_broken, nowhere,
  card_claims, ports_stop, stop,
}
use linux_learning_by_doing.Uart.Probe.Stages.{Ends, chrdev-Ends, stopped}

-- The loopback test on this port, whatever was written before, returns `d`.
abbrev pub Answers : ℕ → List ℕ → ℤ → Type 0
Answers bar reads d =
    (log : List (ℕ × ℕ))
    → (rest : List ℕ) × (out : List (ℕ × ℕ)) × (device_diagnos_start bar reads log
        ≡ returned d rest out)

-- `r` is a result, not a test that polls for ever.
abbrev pub Returns : Env → Stop → Claims → Blocks → Blocks → Bool → Option (ℤ × Kernel) → Type 0
Returns e s c b1 b2 f r = (v : ℤ × Kernel) × (r ≡ some v) × Ends e s c b1 b2 f v

probe_port-broken :
    (bar : ℕ) (reads : List ℕ) (next : Kernel → Option (ℤ × Kernel)) (k : Kernel) {d : ℤ}
    → Answers bar reads d
    → is_neg d ≡ true
    → (log : List (ℕ × ℕ)) × (probe_port bar reads next k
        ≡ some (neg enodev, release_card (record k { ports = log })))
unfolding probe_port
probe_port-broken bar reads next k a n =
    let (rest, out, e) = a (device_diagnos_config bar k.ports) in (out, rw (e, probe_port) (rw n))

probe_port-works :
    (bar : ℕ) (reads : List ℕ) (next : Kernel → Option (ℤ × Kernel)) (k : Kernel) {d : ℤ}
    → Answers bar reads d
    → is_neg d ≡ false
    → (log : List (ℕ × ℕ)) × (probe_port bar reads next k ≡ next (record k { ports = log }))
unfolding probe_port
probe_port-works bar reads next k a n =
    let (rest, out, e) = a (device_diagnos_config bar k.ports) in (out, rw (e, probe_port) (rw n))

module _ (e : Env) (c : Claims) (b1 b2 : Blocks) (f : Bool) (registered : 0 < c.driver) where
  driver-lost : lost f c.driver ≡ f
  driver-lost = lost-pos f c.driver registered

  broken-Ends :
      (k : Kernel)
      → k.claims ≡ card_claims c
      → k.blocks_1 ≡ b1
      → k.blocks_2 ≡ b2
      → k.fault ≡ f
      → Ends e port_0_broken c b1 b2 f (neg enodev, release_card k)
        × Ends e port_1_broken c b1 b2 f (neg enodev, release_card k)
  broken-Ends k h h1 h2 hf = (
    simp (h, h1, h2, hf, undo, driver-lost) (stopped e c b1 b2 f registered port_0_broken k),
    simp (h, h1, h2, hf, undo, driver-lost) (stopped e c b1 b2 f registered port_1_broken k),
  )

  ports-Ends :
      (k : Kernel) {d0 d1 : ℤ}
      → Answers k.pci_bar_0 e.inb_0 d0
      → Answers k.pci_bar_1 e.inb_1 d1
      → k.claims ≡ card_claims c
      → k.blocks_1 ≡ b1
      → k.blocks_2 ≡ b2
      → k.fault ≡ f
      → Returns e (ports_stop e d0 d1) c b1 b2 f (probe_ports e k)
  unfolding probe_ports
  ports-Ends k {d0} {d1} a0 a1 h h1 h2 hf = elim (Bool-cases (is_neg d0)) [
    | inl n ↦
        let (log, q) = probe_port-broken k.pci_bar_0 e.inb_0 second k a0 n in
        (_, q, rw n (broken-Ends (record k { ports = log }) h h1 h2 hf).0)
    | inr n ↦
        let (log, q) = probe_port-works k.pci_bar_0 e.inb_0 second k a0 n in
        let k1 : Kernel = record k { ports = log } in
        elim (Bool-cases (is_neg d1)) [
          | inl n' ↦
              let (log', q') = probe_port-broken k.pci_bar_1 e.inb_1 last k1 a1 n' in
              (_, q ∙ q', rw (n, n') (broken-Ends (record k { ports = log' }) h h1 h2 hf).1)
          | inr n' ↦
              let (log', q') = probe_port-works k.pci_bar_1 e.inb_1 last k1 a1 n' in
              let k2 : Kernel = record k { ports = log' } in
              (_, q ∙ q', rw (n, n') (chrdev-Ends e c b1 b2 f registered k2 h h1 h2 hf))
        ]
  ]
    where
      last : Kernel → Option (ℤ × Kernel)
      last k' = some (probe_chrdev e k')

      second : Kernel → Option (ℤ × Kernel)
      second = probe_port k.pci_bar_1 e.inb_1 last

module _ (e : Env) (k : Kernel) (registered : 0 < k.claims.driver) where
  open k use {claims, blocks_1, blocks_2, fault}

  clean : lost fault claims.driver ≡ fault
  clean = lost-pos fault claims.driver registered

  -- Once the driver is registered and the two loopback tests end, `pci_probe` returns, with the code,
  -- the claims and the allocated blocks that the table gives for the first thing that failed, and
  -- it has released nothing that it did not hold, but for a character device that was never added,
  -- if the second cannot be registered. So a failure holds nothing more than before, but for region 0
  -- if region 1 is refused, for the first character device if the second is, and for the blocks of each
  -- device that was prepared.
  pub probe_outcome :
      {d0 d1 : ℤ}
      → Answers e.start_0 e.inb_0 d0
      → Answers e.start_1 e.inb_1 d1
      → Returns e (stop e d0 d1) claims blocks_1 blocks_2 fault (pci_probe e k)
  unfolding pci_probe
  probe_outcome a0 a1 = elim (Bool-cases e.present) [
    | inr n ↦
        simp n
          (_, refl, simp clean (stopped e claims blocks_1 blocks_2 fault registered no_device k))
    | inl n ↦ elim (Bool-cases (is_neg e.enable)) [
      | inl n1 ↦
          simp (n, n1)
            (_, refl, simp clean (stopped e claims blocks_1 blocks_2 fault registered no_enable k))
      | inr n1 ↦ elim (Bool-cases (is_neg e.region_0)) [
        | inl n2 ↦
            simp (n, n1, n2)
              (
                _,
                refl,
                simp (undo, clean)
                    (stopped e claims blocks_1 blocks_2 fault registered no_region_0 k),
              )
        | inr n2 ↦ elim (Bool-cases (is_neg e.region_1)) [
          | inl n3 ↦
              simp (n, n1, n2, n3)
                (
                  _,
                  refl,
                  simp (undo, clean)
                      (stopped e claims blocks_1 blocks_2 fault registered no_region_1 k),
                )
          | inr n3 ↦
              simp (n, n1, n2, n3)
                (ports-Ends e claims blocks_1 blocks_2 fault registered
                  (record (claim_region_1 (claim_region_0 (claim_device k))) {
                    pci_bar_0 = e.start_0;
                    pci_bar_1 = e.start_1;
                  })
                  a0 a1 refl refl refl refl)
        ]
      ]
    ]
  ]

  -- If nothing fails, `pci_probe` returns 1, and `pci_remove` then gives back every claim that it
  -- took but the two character devices, for which it deletes others that were never added; the blocks
  -- of both devices stay allocated.
  pub remove_after_probe :
      {d0 d1 : ℤ}
      → Answers e.start_0 e.inb_0 d0
      → Answers e.start_1 e.inb_1 d1
      → stop e d0 d1 ≡ nowhere
      → (k' : Kernel) × (pci_probe e k ≡ some (pos 1, k'))
        × ((pci_remove k').claims
            ≡ record claims { cdev_1 = claims.cdev_1 + 1; cdev_2 = claims.cdev_2 + 1 })
        × ((pci_remove k').fault ≡ true)
        × ((pci_remove k').blocks_1 ≡ one_more e.allocs_1 blocks_1)
        × ((pci_remove k').blocks_2 ≡ one_more e.allocs_2 blocks_2)
  unfolding pci_remove
  remove_after_probe a0 a1 all =
      let (v, q, r) = probe_outcome a0 a1 in
      let ends : Ends e nowhere claims blocks_1 blocks_2 fault v = rw all at r in
      (
        v.1,
        q ∙ ap (λ z. some (z, v.1)) ends.code,
        simp (ends.held, undo),
        simp (ends.held, ends.clean, undo),
        ends.live_1,
        ends.live_2,
      )

-- `init_pci` returns 0 whatever `pci_register_driver` returns: a failure is reported as success, with
-- no driver registered.
pub init_pci_hides_failure :
    (register : ℤ) (k : Kernel) → is_neg register ≡ true → init_pci register k ≡ (pos 0, k)
unfolding init_pci
init_pci_hides_failure register k n = ground arith
