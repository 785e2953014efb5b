-- ===== src/Uart/Open/Tests.antt =====
-- One port in use: a writer, a refused second one, a read-only open.
use linux_learning_by_doing.Prelude.{◌≤◌, arith, ◌+◌, ◌≡◌, refl, none, some, [], ◌∷◌, pos, neg, inr}
use linux_learning_by_doing.Uart.State.{PDev, err_ptr, ebusy}
use linux_learning_by_doing.Uart.Open.Race
use linux_learning_by_doing.Uart.Open.Race.Outcome.{open_race}
use linux_learning_by_doing.Uart.Open.{o_rdwr, o_wronly, o_rdonly, uart_open}
use linux_learning_by_doing.Uart.Open.Sharing.{
  Session, opened, Reach, fresh, later, IsCounted, one_writer, read_only_unserved,
  busy_while_shared,
}

abbrev idle : PDev
idle = record {
  base_addr = 0xd000;
  irq_num = 0;
  rd_buff = none;
  wr_buff = none;
  read_kfifo = err_ptr 0;
  write_kfifo = err_ptr 0;
  read_flag = 0;
  write_flag = 0;
  r_count = pos 0;
  rw_count = pos 0;
  w_count = pos 0;
}

abbrev writing : Session
writing = record { port = record idle { w_count = pos 1 }; files = o_wronly ∷ [] }

-- A write-only open, then a refused one.
writing_reached : Reach idle writing
unfolding uart_open
writing_reached = later (later fresh (opened o_wronly (pos 0))) (opened o_rdwr (pos 0))

one_writer_example : IsCounted writing
one_writer_example =
    one_writer (record { no_readers = refl; no_sharers = refl; no_writers = refl }) writing_reached

read_only_unserved_test : uart_open idle o_rdonly ≡ (idle, none)
read_only_unserved_test = read_only_unserved idle o_rdonly refl refl

busy_while_shared_test :
    let d' = (uart_open idle o_rdwr).0 in
    ((uart_open idle o_rdwr).1 ≡ some (pos 0)) × (uart_open d' 5 ≡ (d', some (neg ebusy)))
busy_while_shared_test =
    busy_while_shared idle o_rdwr 5 refl
      (record { no_readers = refl; no_sharers = refl; no_writers = refl }) (inr refl)

-- The first caller has opened the port for writing before the second one comes.
abbrev one_after_the_other : Race.System
one_after_the_other = record {
  port = record { rw_count = 0; r_count = 0; w_count = 1 };
  first = Race.At.granted;
  second = Race.At.busy;
}

one_after_the_other-Reach : Race.Reach Race.Mode.wronly Race.Mode.wronly one_after_the_other
one_after_the_other-Reach =
    Race.Reach.later
      (Race.Reach.later
        (Race.Reach.later Race.Reach.start
          (Race.Step.by_first _ _ (Race.Access.w_zero_wronly refl refl)))
        (Race.Step.by_first _ _ Race.Access.add_w))
      (Race.Step.by_second _ _ (Race.Access.w_busy (omega arith)))

open_race_example :
    Race.Counted Race.Mode.wronly Race.Mode.wronly one_after_the_other
    × (Race.refused one_after_the_other.first + Race.refused one_after_the_other.second ≤ 1)
    × Race.BothGranted Race.Mode.wronly Race.Mode.wronly
open_race_example = open_race Race.Mode.wronly Race.Mode.wronly one_after_the_other-Reach
