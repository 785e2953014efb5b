-- ===== src/SharedMemory/Queue.antt =====
-- The ring, with its count, fills the interface of a bounded store.
use linux_learning_by_doing.Prelude.{
  ℕ, ◌+◌, ◌-◌, ◌%◌, ◌<◌, ◌≡◌, ap, ◌∙◌, some, List, [], ◌∷◌, ◌++◌, length, length-append, arith,
}
use native.Mathlib.Numerals.{add-one}
use linux_learning_by_doing.Fifo.{Fifo, Op, run, spec, run_lem}
use linux_learning_by_doing.SharedMemory.Processes.{Shmem, store, advance}
use linux_learning_by_doing.SharedMemory.Ring.{ring, ring-write}

-- The bodies of the two loops between the `semop` calls, where the ring is not full and not empty.
pub put_char : ℕ → Shmem → Shmem
put_char c m = let m' = store c m in record m' { count = m'.count + 1 }

pub get_char : Shmem → ℕ × Shmem
get_char m = let m' = advance m in (m.a m.in_, record m' { count = m'.count - 1 })

pub record Keeps (m : Shmem) (items : List ℕ) : Type 0 where
  pub size : m.size ≡ 50
  pub in_range : m.in_ < 50
  pub next_out : m.out ≡ (m.in_ + length items) % 50
  pub counted : m.count ≡ length items
  pub contents : ring m.a m.in_ (length items) ≡ items

pub put_char-Keeps :
    (m : Shmem) (items : List ℕ) (c : ℕ)
    → Keeps m items
    → length items < 50
    → Keeps (put_char c m) (items ++ (c ∷ []))
unfolding put_char store
put_char-Keeps m items c k room =
    let longer = length-append items (c ∷ []) in
    record {
      size = k.size;
      in_range = k.in_range;
      next_out = rw (longer, k.size) (omega (arith, k.next_out));
      counted = omega (arith, k.counted, longer);
      contents = rw longer (
          rw add-one (
            ring-write m.a m.in_ (length items) m.out c k.in_range room k.next_out
            ∙ ap (λ l. l ++ (c ∷ [])) k.contents));
    }

pub get_char-Keeps :
    (m : Shmem) (c : ℕ) (items : List ℕ)
    → Keeps m (c ∷ items)
    → ((get_char m).0 ≡ c) × Keeps (get_char m).1 items
unfolding get_char advance
get_char-Keeps m c items k = (
  cc k.contents,
  record {
    size = k.size;
    in_range = rw k.size (omega arith);
    next_out = rw k.size (omega (arith, k.next_out, k.in_range));
    counted = omega (arith, k.counted);
    contents = rw k.size (cc k.contents);
  },
)

abbrev pub chars : Fifo Shmem ℕ
chars = record {
  Holds = Keeps;
  capacity = 50;
  kept = λ c. c;
  put = put_char;
  get = get_char;
  put-Holds = put_char-Keeps;
  get-Holds = get_char-Keeps;
}

-- From a ring that holds some characters, any sequence of whole rounds of the two loops that never stores into 50 characters nor prints from
-- none prints what a list gives, oldest first, and leaves the ring holding that list and counting it.
pub ring_runs_as_list :
    (ops : List (Op ℕ)) (m : Shmem) (items outs items' : List ℕ)
    → Keeps m items
    → spec chars ops items ≡ some (outs, items')
    → ((run chars ops m).0 ≡ outs) × Keeps (run chars ops m).1 items'
ring_runs_as_list ops m items outs items' k e = run_lem chars ops m items outs items' k e
