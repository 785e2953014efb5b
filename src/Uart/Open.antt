-- ===== src/Uart/Open.antt =====
-- uart_pci_latest_March2011.c: `uart_open`, which counts the open files of a port.
pub mod Sharing
pub mod Race
mod Tests
use linux_learning_by_doing.Prelude.{
  ℕ, Bool, true, false, ◌&&◌, Option, none, some, has, if◌then◌else◌, ℤ, pos, neg, is_zero, inc,
  dec,
}
use linux_learning_by_doing.Uart.State.{PDev, ebusy}

-- <fcntl.h>
abbrev pub o_rdonly : ℕ
o_rdonly = 0

abbrev pub o_wronly : ℕ
o_wronly = 1

abbrev pub o_rdwr : ℕ
o_rdwr = 2

-- The port that `container_of` finds, and `file->f_flags`. The result is the port and what is
-- returned; `none` is the end of the function with no `return`, an indeterminate value.
pub uart_open : PDev → ℕ → PDev × Option ℤ
uart_open dev f_flags =
    if has f_flags o_rdwr
    then (if is_zero dev.rw_count && is_zero dev.r_count && is_zero dev.w_count
        then (
          record dev {
            r_count = inc dev.r_count;
            rw_count = inc dev.rw_count;
            w_count = inc dev.w_count;
          },
          some (pos 0),
        )
        else (dev, some (neg ebusy)))
    else if has f_flags o_rdonly
    then (if is_zero dev.r_count
        then (record dev { r_count = inc dev.r_count }, some (pos 0))
        else (dev, some (neg ebusy)))
    else if has f_flags o_wronly
    then (if is_zero dev.w_count
        then (record dev { w_count = inc dev.w_count }, some (pos 0))
        else (dev, some (neg ebusy)))
    else (dev, none)
