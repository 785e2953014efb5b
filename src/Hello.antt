-- ===== src/Hello.antt =====
-- KernelDrivers_March2011/hello.c and hello1.c, two kernel modules of which the second uses a symbol of the first,
-- and setconsole.c, which chooses the console that shows their messages.
mod Pinned
mod Tests
use linux_learning_by_doing.Prelude.{
  ℕ, ◌≡◌, Option, none, some, List, [], ◌∷◌, ◌++◌, ℤ, pos, is_neg, if◌then◌else◌,
}

-- What the modules print to the kernel log
pub data Message : Type 0 where
  hello_world : Message
  string_is : Option (List ℕ) → Message  -- of a pointer, which is NULL
  goodbye : Message
  hello_world1 : Message

-- `hello_init` of hello.c, where `str1` is NULL: the answer and the messages.
abbrev pub hello_init : ℤ × List Message
hello_init = (
  pos 0,
  hello_world ∷ hello_world ∷ hello_world ∷ hello_world ∷ hello_world ∷ string_is none ∷ [],
)

abbrev pub hello_exit : List Message
hello_exit = goodbye ∷ []

-- `hello_init` of hello1.c, with the value of `new_symbol`: the answer, `new_symbol1` and the messages.
abbrev pub hello1_init : ℕ → ℤ × ℕ × List Message
hello1_init new_symbol = (pos 0, new_symbol, hello_world1 ∷ [])

-- `hello_exit` of hello1.c writes through `var1`. `none`: the kernel kills the caller there.
abbrev pub hello1_exit : Option ℕ → Option (List Message)
hello1_exit none = none
hello1_exit (some var1) = some (goodbye ∷ [])

-- hello1.c in the kernel: it is not there, or has its `new_symbol1`, or is being unloaded for ever since
-- its function for that did not return.
pub data Hello1 : Type 0 where
  absent : Hello1
  loaded : ℕ → Hello1
  going : ℕ → Hello1

-- Whether hello.c is loaded, with its `new_symbol`, and hello1.c, and the log.
pub record Kernel : Type 0 where
  pub hello : Option ℕ
  pub hello1 : Hello1
  pub log : List Message

abbrev pub booted : Kernel
booted = record { hello = none; hello1 = absent; log = [] }

-- What root does, where the kernel lets it: a module is loaded only if the symbols that it uses are there,
-- and unloaded only if no other uses its symbols. `new_symbol` begins with 5.
pub data Step (k : Kernel) : Kernel → Type 0 where
  insmod_hello : k.hello ≡ none → Step k (record k { hello = some 5; log = k.log ++ hello_init.1 })
  insmod_hello1 :
      (new_symbol : ℕ)
      → k.hello ≡ some new_symbol
      → k.hello1 ≡ absent
      → Step k (record k {
        hello1 = loaded (hello1_init new_symbol).1;
        log = k.log ++ (hello1_init new_symbol).2;
      })
  rmmod_hello :
      (new_symbol : ℕ)
      → k.hello ≡ some new_symbol
      → k.hello1 ≡ absent
      → Step k (record k { hello = none; log = k.log ++ hello_exit })
  rmmod_hello1 :
      (new_symbol1 : ℕ) (messages : List Message)
      → k.hello1 ≡ loaded new_symbol1
      → hello1_exit none ≡ some messages
      → Step k (record k { hello1 = absent; log = k.log ++ messages })
  rmmod_hello1_killed :
      (new_symbol1 : ℕ)
      → k.hello1 ≡ loaded new_symbol1
      → hello1_exit none ≡ none
      → Step k (record k { hello1 = going new_symbol1 })

pub data Reach (k : Kernel) : Kernel → Type 0 where
  start : Reach k k
  later : {l m : Kernel} → Reach k l → Step l m → Reach k m

-- `main` of setconsole.c: the bytes that it passes to `ioctl`, and with its answer the exit status and the
-- number that it prints.
abbrev pub bytes : List ℕ
bytes = 11 ∷ 1 ∷ []

unfoldable pub main_setconsole : ℤ → ℕ × Option ℕ
main_setconsole ret = if is_neg ret then (1, none) else (0, some 1)
