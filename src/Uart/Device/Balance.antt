-- ===== src/Uart/Device/Balance.antt =====
-- What a call of `pci_dev_init` leaves allocated.
use linux_learning_by_doing.Prelude.{
  ℕ, ◌+◌, ◌≡◌, ◌⊎◌, Bool, true, false, ◌&&◌, is_some, pos, neg, arith,
}
use linux_learning_by_doing.Uart.State.{PDev, Blocks, Kfifo, made, err_ptr, lost}
use linux_learning_by_doing.Uart.Device.{Allocs, Device, pci_dev_init}

-- A fifo, if one was made
abbrev pub fifos : Kfifo → ℕ
fifos (made p) = 1
fifos (err_ptr e) = 0

-- One more of each buffer, and of each fifo that was made.
abbrev pub one_more : Allocs → Blocks → Blocks
one_more m b = record {
  wr_buffs = b.wr_buffs + 1;
  rd_buffs = b.rd_buffs + 1;
  write_kfifos = b.write_kfifos + fifos m.write_kfifo;
  read_kfifos = b.read_kfifos + fifos m.read_kfifo;
}

-- The device has its base address and interrupt, no open file, and what the allocations returned.
pub record IsReady (m : Allocs) (irq addr : ℕ) (d : PDev) : Type 0 where
  pub base : d.base_addr ≡ addr
  pub line : d.irq_num ≡ irq
  pub readers : d.r_count ≡ pos 0
  pub sharers : d.rw_count ≡ pos 0
  pub writers : d.w_count ≡ pos 0
  pub wr_buff : d.wr_buff ≡ m.wr_buff
  pub rd_buff : d.rd_buff ≡ m.rd_buff
  pub write_kfifo : d.write_kfifo ≡ m.write_kfifo
  pub read_kfifo : d.read_kfifo ≡ m.read_kfifo

-- Both buffers are allocated.
unfoldable pub both_given : Allocs → Bool
both_given m = is_some m.wr_buff && is_some m.rd_buff

-- If a buffer cannot be allocated, `pci_dev_init` returns -1 and has freed what it allocated. Otherwise
-- it returns 0, also where `kfifo_init` has failed, since an error is not NULL: one more of each buffer
-- is live, and of the fifos those that were made, and the device has its address, its line, its cleared
-- counters and the four pointers that it was given, errors included. It frees nothing that is not live.
pub pci_dev_init_balance :
    (m : Allocs) (irq addr : ℕ) (d : Device)
    → let (code, d') = pci_dev_init m irq addr d in
      (both_given m ≡ false) × (code ≡ neg 1) × (d'.live ≡ d.live) × (d'.fault ≡ d.fault)
      ⊎ (both_given m ≡ true)
        × (code ≡ pos 0)
        × (d'.live ≡ one_more m d.live)
        × (d'.fault ≡ d.fault)
        × IsReady m irq addr d'.dev
unfolding pci_dev_init lost both_given
pci_dev_init_balance m irq addr d = ground arith
