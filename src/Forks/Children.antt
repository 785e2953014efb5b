-- ===== src/Forks/Children.antt =====
-- Assignment/2_1/a1.c and Assignment/2_2/a4.c: the children of a process.
use linux_learning_by_doing.Prelude.{ℕ, ◌+◌, ◌-◌}

-- The children that run, and those that have ended and are not waited for
pub record Children : Type 0 where
  pub running : ℕ
  pub zombies : ℕ

abbrev pub no_children : Children
no_children = record { running = 0; zombies = 0 }

abbrev pub born : Children → Children
born c = record c { running = c.running + 1 }

abbrev pub dies : Children → Children
dies c = record { running = c.running - 1; zombies = c.zombies + 1 }

abbrev pub waited : Children → Children
waited c = record c { zombies = c.zombies - 1 }
