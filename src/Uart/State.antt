-- ===== src/Uart/State.antt =====
-- uart_pci_latest_March2011.c: the driver's globals, and what it holds of the kernel.
use linux_learning_by_doing.Prelude.{
  ℕ, ◌+◌, ◌-◌, ◌%◌, ◌^◌, ◌<◌, ◌≡◌, ◌==◌, ◌||◌, Bool, true, Option, List, ◌++◌, ◌∷◌, [], ℤ, arith,
  refl,
}

abbrev pub max_buffer : ℕ
max_buffer = 2048

-- error numbers of <linux/errno.h>
abbrev pub enomem : ℕ
enomem = 12

abbrev pub ebusy : ℕ
ebusy = 16

abbrev pub enodev : ℕ
enodev = 19

-- What `kfifo_init` gives: a fifo, or an error number as a pointer. It is documented never to give NULL.
pub data Kfifo : Type 0 where
  made : ℕ → Kfifo
  err_ptr : ℕ → Kfifo

-- `P_DEV`. A pointer is an address or NULL (`none`). The locks and the wait queues are only
-- initialised, so they are left out.
pub record PDev : Type 0 where
  pub base_addr : ℕ
  pub irq_num : ℕ
  pub rd_buff : Option ℕ
  pub wr_buff : Option ℕ
  pub read_kfifo : Kfifo
  pub write_kfifo : Kfifo
  pub read_flag : ℕ
  pub write_flag : ℕ
  pub r_count : ℤ
  pub rw_count : ℤ
  pub w_count : ℤ

-- How often the driver holds each claim on the kernel.
pub record Claims : Type 0 where
  pub driver : ℕ
  pub device : ℕ
  pub region_1 : ℕ
  pub region_2 : ℕ
  pub chrdev : ℕ
  pub irq_1 : ℕ
  pub irq_2 : ℕ
  pub cdev_1 : ℕ  -- what `cdev_add(&my_dev_1, ...)` has added
  pub cdev_2 : ℕ

-- How many heap blocks of each kind are allocated for a device and not freed.
pub record Blocks : Type 0 where
  pub wr_buffs : ℕ
  pub rd_buffs : ℕ
  pub write_kfifos : ℕ
  pub read_kfifos : ℕ

-- The globals of the file, the claims and blocks that are held, the port writes, oldest first, and
-- whether anything was released that was not held.
pub record Kernel : Type 0 where
  pub claims : Claims
  pub blocks_1 : Blocks
  pub blocks_2 : Blocks
  pub fault : Bool
  pub ports : List (ℕ × ℕ)
  pub my_dev_1 : PDev
  pub my_dev_2 : PDev
  pub pci_bar_0 : ℕ
  pub pci_bar_1 : ℕ
  pub irq_line : ℕ

-- `unsigned int` addition
abbrev pub add_u32 : ℕ → ℕ → ℕ
add_u32 a b = (a + b) % 2 ^ 32

-- `outb(value, port)`
abbrev pub outb : ℕ → ℕ → List (ℕ × ℕ) → List (ℕ × ℕ)
outb v p log = log ++ ((p, v) ∷ [])

-- A claim is given back: one fewer is held, and it is a fault if none was.
unfoldable pub lost : Bool → ℕ → Bool
lost fault n = fault || (n == 0)

pub lost-pos : (fault : Bool) (n : ℕ) → 0 < n → lost fault n ≡ fault
unfolding lost
lost-pos fault n h = ground arith

pub lost-add : (fault : Bool) (n : ℕ) → lost fault (n + 1) ≡ fault
unfolding lost
lost-add fault n = ground arith

pub lost-true : (n : ℕ) → lost true n ≡ true
unfolding lost
lost-true n = refl

pub add-sub : (n : ℕ) → n + 1 - 1 ≡ n
add-sub n = omega arith

pub ruleset undo = (lost-add, add-sub, lost-true)

abbrev pub pci_unregister_driver : Kernel → Kernel
pci_unregister_driver k = record k {
  claims = record (k.claims) { driver = k.claims.driver - 1 };
  fault = lost k.fault k.claims.driver;
}

abbrev pub pci_disable_device : Kernel → Kernel
pci_disable_device k = record k {
  claims = record (k.claims) { device = k.claims.device - 1 };
  fault = lost k.fault k.claims.device;
}

abbrev pub pci_release_region_0 : Kernel → Kernel
pci_release_region_0 k = record k {
  claims = record (k.claims) { region_1 = k.claims.region_1 - 1 };
  fault = lost k.fault k.claims.region_1;
}

abbrev pub pci_release_region_1 : Kernel → Kernel
pci_release_region_1 k = record k {
  claims = record (k.claims) { region_2 = k.claims.region_2 - 1 };
  fault = lost k.fault k.claims.region_2;
}

abbrev pub unregister_chrdev_region : Kernel → Kernel
unregister_chrdev_region k = record k {
  claims = record (k.claims) { chrdev = k.claims.chrdev - 1 };
  fault = lost k.fault k.claims.chrdev;
}

abbrev pub free_irq_1 : Kernel → Kernel
free_irq_1 k = record k {
  claims = record (k.claims) { irq_1 = k.claims.irq_1 - 1 };
  fault = lost k.fault k.claims.irq_1;
}

abbrev pub free_irq_2 : Kernel → Kernel
free_irq_2 k = record k {
  claims = record (k.claims) { irq_2 = k.claims.irq_2 - 1 };
  fault = lost k.fault k.claims.irq_2;
}

-- `cdev_del(&my_dev_1.cdev)`. `cdev_add` is nowhere given that object, but the address of `my_dev_1`, which
-- begins with another field: what is deleted was never added, and what was added stays.
abbrev pub cdev_del_1 : Kernel → Kernel
cdev_del_1 k = record k { fault = true }

abbrev pub cdev_del_2 : Kernel → Kernel
cdev_del_2 k = record k { fault = true }
