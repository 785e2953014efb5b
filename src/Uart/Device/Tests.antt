-- ===== src/Uart/Device/Tests.antt =====
-- A device whose last fifo cannot be made, which is not noticed.
use linux_learning_by_doing.Prelude.{◌≡◌, ◌⊎◌, true, false, none, some, pos, neg}
use linux_learning_by_doing.Uart.State.{made, err_ptr}
use linux_learning_by_doing.Uart.Device.{Allocs, Device, pci_dev_init}
use linux_learning_by_doing.Uart.Device.Balance.{
  one_more, both_given, IsReady, pci_dev_init_balance,
}

abbrev short : Allocs
short = record { wr_buff = some 1; rd_buff = some 2; write_kfifo = made 3; read_kfifo = err_ptr 12 }

abbrev raw : Device
raw = record {
  dev = record {
    base_addr = 0;
    irq_num = 0;
    rd_buff = none;
    wr_buff = none;
    read_kfifo = err_ptr 0;
    write_kfifo = err_ptr 0;
    read_flag = 0;
    write_flag = 0;
    r_count = pos 7;
    rw_count = pos 0;
    w_count = pos 0;
  };
  live = record { wr_buffs = 0; rd_buffs = 0; write_kfifos = 0; read_kfifos = 0 };
  fault = false;
}

pci_dev_init_balance_example :
    let (code, d') = pci_dev_init short 5 0xd000 raw in
    (both_given short ≡ false) × (code ≡ neg 1) × (d'.live ≡ raw.live) × (d'.fault ≡ false)
    ⊎ (both_given short ≡ true)
      × (code ≡ pos 0)
      × (d'.live ≡ one_more short raw.live)
      × (d'.fault ≡ false)
      × IsReady short 5 0xd000 d'.dev
pci_dev_init_balance_example = pci_dev_init_balance short 5 0xd000 raw
