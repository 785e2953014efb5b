-- ===== src/Hello/Tests.antt =====
-- Both modules loaded, and the second one unloaded.
use linux_learning_by_doing.Prelude.{ℕ, ◌≡◌, ◌≢◌, refl, some, ◌++◌}
use linux_learning_by_doing.Hello.{
  Kernel, booted, absent, loaded, going, hello_init, hello1_init, insmod_hello, insmod_hello1,
  rmmod_hello1_killed, Reach, start, later,
}
use linux_learning_by_doing.Hello.Pinned.{hello1_pins_hello}

abbrev both : Kernel
both = record {
  hello = some 5;
  hello1 = loaded 5;
  log = booted.log ++ hello_init.1 ++ (hello1_init 5).2;
}

both-Reach : Reach booted both
both-Reach = later (later start (insmod_hello refl)) (insmod_hello1 5 refl refl)

abbrev killed : Kernel
killed = record both { hello1 = going 5 }

hello1_pins_hello_test : (◌≡◌ {A = ℕ} 5 5) × (killed.hello ≡ some 5) × (killed.hello1 ≢ absent)
hello1_pins_hello_test =
    hello1_pins_hello both-Reach 5 refl (later start (rmmod_hello1_killed 5 refl refl))
