-- ===== src/Uart/Device.antt =====
-- uart_pci_latest_March2011.c: `pci_dev_init`, which prepares a `P_DEV` and allocates its buffers.
pub mod Balance
mod Tests
use linux_learning_by_doing.Prelude.{
  ℕ, ◌+◌, ◌-◌, Bool, true, false, not, is_some, Option, none, some, if◌then◌else◌, ℤ, pos, neg,
}
use linux_learning_by_doing.Uart.State.{PDev, Blocks, Kfifo, made, err_ptr, lost}

-- What the two calls of `kmalloc` and the two of `kfifo_init` return.
pub record Allocs : Type 0 where
  pub wr_buff : Option ℕ
  pub rd_buff : Option ℕ
  pub write_kfifo : Kfifo
  pub read_kfifo : Kfifo

-- The device, its live blocks, and whether a block was freed that was not live.
pub record Device : Type 0 where
  pub dev : PDev
  pub live : Blocks
  pub fault : Bool

abbrev pub kfree_wr_buff : Device → Device
kfree_wr_buff d = record d {
  live = record (d.live) { wr_buffs = d.live.wr_buffs - 1 };
  fault = lost d.fault d.live.wr_buffs;
}

abbrev pub kfree_rd_buff : Device → Device
kfree_rd_buff d = record d {
  live = record (d.live) { rd_buffs = d.live.rd_buffs - 1 };
  fault = lost d.fault d.live.rd_buffs;
}

-- `kfifo_free` frees the fifo and the buffer that it was made over.
abbrev pub kfifo_free_write : Kfifo → Device → Device
kfifo_free_write (made p) d = record d {
  live = record (d.live) { write_kfifos = d.live.write_kfifos - 1; wr_buffs = d.live.wr_buffs - 1 };
  fault = lost (lost d.fault d.live.write_kfifos) d.live.wr_buffs;
}
kfifo_free_write (err_ptr e) d = record d { fault = true }

-- The test of a fifo for NULL, which is never true
abbrev is_null : Kfifo → Bool
is_null (made p) = false
is_null (err_ptr e) = false

-- The fields that are set before anything is allocated.
abbrev pub cleared : PDev → ℕ → ℕ → PDev
cleared dev addr irq_line = record dev {
  base_addr = addr;
  irq_num = irq_line;
  r_count = pos 0;
  rw_count = pos 0;
  w_count = pos 0;
  read_flag = 0;
  write_flag = 0;
}

abbrev got_wr_buff : Device → Option ℕ → Device
got_wr_buff d none = record d { dev = record (d.dev) { wr_buff = none } }
got_wr_buff d (some p) = record d {
  dev = record (d.dev) { wr_buff = some p };
  live = record (d.live) { wr_buffs = d.live.wr_buffs + 1 };
}

abbrev got_rd_buff : Device → Option ℕ → Device
got_rd_buff d none = record d { dev = record (d.dev) { rd_buff = none } }
got_rd_buff d (some p) = record d {
  dev = record (d.dev) { rd_buff = some p };
  live = record (d.live) { rd_buffs = d.live.rd_buffs + 1 };
}

abbrev got_write_kfifo : Device → Kfifo → Device
got_write_kfifo d (err_ptr e) = record d { dev = record (d.dev) { write_kfifo = err_ptr e } }
got_write_kfifo d (made p) = record d {
  dev = record (d.dev) { write_kfifo = made p };
  live = record (d.live) { write_kfifos = d.live.write_kfifos + 1 };
}

abbrev got_read_kfifo : Device → Kfifo → Device
got_read_kfifo d (err_ptr e) = record d { dev = record (d.dev) { read_kfifo = err_ptr e } }
got_read_kfifo d (made p) = record d {
  dev = record (d.dev) { read_kfifo = made p };
  live = record (d.live) { read_kfifos = d.live.read_kfifos + 1 };
}

-- The name is only stored, and is left out.
pub pci_dev_init : Allocs → ℕ → ℕ → Device → ℤ × Device
pci_dev_init m irq_line addr d0 =
    let d1 = got_wr_buff (record d0 { dev = cleared d0.dev addr irq_line }) m.wr_buff in
    let d2 = got_rd_buff d1 m.rd_buff in
    let d3 = got_write_kfifo d2 m.write_kfifo in
    let d4 = got_read_kfifo d3 m.read_kfifo in
    if not (is_some m.wr_buff)
    then (neg 1, d1)
    else if not (is_some m.rd_buff)
    then (neg 1, kfree_wr_buff d2)
    else if is_null m.write_kfifo
    then (neg 1, kfree_rd_buff (kfree_wr_buff d3))
    else if is_null m.read_kfifo
    then (neg 1, kfree_rd_buff (kfifo_free_write m.write_kfifo d4))
    else (pos 0, d4)
