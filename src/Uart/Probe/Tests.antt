-- ===== src/Uart/Probe/Tests.antt =====
-- A probe that succeeds, one whose last registration fails, and what stays behind.
use linux_learning_by_doing.Prelude.{
  ℕ, zero, suc, ◌≡◌, refl, true, false, List, [], ◌∷◌, replicate, none, some, pos, neg, arith,
}
use linux_learning_by_doing.Uart.State.{PDev, made, err_ptr, Claims, Blocks, Kernel}
use linux_learning_by_doing.Uart.Device.{Allocs}
use linux_learning_by_doing.Uart.Device.Balance.{one_more, both_given}
use linux_learning_by_doing.Uart.Diagnos.Verdict.{Frame, Comes, reads, diagnos_verdict}
use linux_learning_by_doing.Uart.Probe.{Env, pci_probe, pci_remove, init_pci}
use linux_learning_by_doing.Uart.Probe.Table.{no_cdev_2, nowhere, stop}
use linux_learning_by_doing.Uart.Probe.Outcome.{
  Answers, Returns, probe_outcome, remove_after_probe, init_pci_hides_failure,
}

abbrev pub echo : Frame
echo = record { waits = []; status = 0x61; byte = 0xff }

echo-Comes : (n : ℕ) → Comes (replicate n echo)
echo-Comes zero = tt
echo-Comes (suc n) = (tt, refl, echo-Comes n)

abbrev pub inb : List ℕ
inb = 0 ∷ 0x20 ∷ reads (replicate 16 echo) []

pub works : (bar : ℕ) → Answers bar inb (pos 0)
works bar log = (
  _,
  _,
  diagnos_verdict bar (0 ∷ []) 0x20 (replicate 16 echo) [] log (refl, tt) refl (echo-Comes 16) refl,
)

abbrev pub given : Allocs
given = record { wr_buff = some 1; rd_buff = some 2; write_kfifo = made 3; read_kfifo = made 4 }

abbrev pub good : Env
good = record {
  present = true;
  enable = pos 0;
  region_0 = pos 0;
  region_1 = pos 0;
  start_0 = 0xd000;
  start_1 = 0xd008;
  inb_0 = inb;
  inb_1 = inb;
  chrdev = pos 0;
  allocs_1 = given;
  allocs_2 = given;
  irq_1 = pos 0;
  irq_2 = pos 0;
  cdev_1 = pos 0;
  cdev_2 = pos 0;
}

abbrev pub blank : PDev
blank = record {
  base_addr = 0;
  irq_num = 0;
  rd_buff = none;
  wr_buff = none;
  read_kfifo = err_ptr 0;
  write_kfifo = err_ptr 0;
  read_flag = 0;
  write_flag = 0;
  r_count = pos 0;
  rw_count = pos 0;
  w_count = pos 0;
}

abbrev pub no_blocks : Blocks
no_blocks = record { wr_buffs = 0; rd_buffs = 0; write_kfifos = 0; read_kfifos = 0 }

abbrev pub loaded : Claims
loaded = record {
  driver = 1;
  device = 0;
  region_1 = 0;
  region_2 = 0;
  chrdev = 0;
  irq_1 = 0;
  irq_2 = 0;
  cdev_1 = 0;
  cdev_2 = 0;
}

abbrev pub start : Kernel
start = record {
  claims = loaded;
  blocks_1 = no_blocks;
  blocks_2 = no_blocks;
  fault = false;
  ports = [];
  my_dev_1 = blank;
  my_dev_2 = blank;
  pci_bar_0 = 0;
  pci_bar_1 = 0;
  irq_line = 0;
}

pci_dev_init_balance_test : both_given (record given { rd_buff = none }) ≡ false
unfolding both_given
pci_dev_init_balance_test = refl

stops_at_end : stop (record good { cdev_2 = neg 16 }) (pos 0) (pos 0) ≡ no_cdev_2
unfolding both_given
stops_at_end = refl

probe_outcome_example :
    Returns
      (record good { cdev_2 = neg 16 })
      (stop (record good { cdev_2 = neg 16 }) (pos 0) (pos 0))
      loaded
      no_blocks
      no_blocks
      false
      (pci_probe (record good { cdev_2 = neg 16 }) start)
probe_outcome_example =
    probe_outcome (record good { cdev_2 = neg 16 }) start (omega arith) (works 0xd000)
      (works 0xd008)

stops_nowhere : stop good (pos 0) (pos 0) ≡ nowhere
unfolding both_given
stops_nowhere = refl

remove_after_probe_test :
    (k' : Kernel) × (pci_probe good start ≡ some (pos 1, k'))
    × ((pci_remove k').claims ≡ record loaded { cdev_1 = 1; cdev_2 = 1 })
    × ((pci_remove k').fault ≡ true)
    × ((pci_remove k').blocks_1 ≡ one_more given no_blocks)
    × ((pci_remove k').blocks_2 ≡ one_more given no_blocks)
remove_after_probe_test =
    remove_after_probe good start (omega arith) (works 0xd000) (works 0xd008) stops_nowhere

init_pci_hides_failure_test : init_pci (neg 16) start ≡ (pos 0, start)
init_pci_hides_failure_test = init_pci_hides_failure (neg 16) start refl
