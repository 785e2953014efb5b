-- ===== src/SharedMemory/Invariant.antt =====
-- What holds when the semaphore works.
use linux_learning_by_doing.Prelude.{
  ℕ, suc, ◌+◌, ◌%◌, ◌<◌, ◌≤◌, ◌≡◌, refl, sym, ap, ◌∙◌, true, false, List, [], ◌∷◌, ◌++◌,
  append_assoc, length, length-append, arith,
}
use native.Mathlib.Numerals.{add-one}
use linux_learning_by_doing.SharedMemory.Processes.{
  is_full, store, advance, Producer, Consumer, System, with_semaphore, Step, p_scan, p_wait,
  p_no_wait, p_full, p_store, p_load, p_count, p_post, c_wait, c_no_wait, c_empty, c_print, c_load,
  c_count, c_post, Reach, start, later,
}
use linux_learning_by_doing.SharedMemory.Ring.{ring, ring-write}

-- 1 between the two `semop`
abbrev pub p_in : Producer → ℕ
p_in Producer.scan = 0
p_in (Producer.wait c) = 0
p_in _ = 1

abbrev pub c_in : Consumer → ℕ
c_in Consumer.wait = 0
c_in _ = 1

-- 1 while the ring has changed and `count` has not, and what has been read of `count`
abbrev pub p_behind : Producer → ℕ
p_behind Producer.load = 1
p_behind (Producer.counting n) = 1
p_behind _ = 0

abbrev pub c_behind : Consumer → ℕ
c_behind Consumer.load = 1
c_behind (Consumer.counting n) = 1
c_behind _ = 0

abbrev pub PRead : Producer → ℕ → Type 0
PRead (Producer.counting n) count = n ≡ count
PRead _ count = Unit

abbrev pub CRead : Consumer → ℕ → Type 0
CRead (Consumer.counting n) count = n ≡ count
CRead _ count = Unit

pub record Control (s : System) (n : ℕ) : Type 0 where
  pub one : p_in s.producer + c_in s.consumer + s.sem ≤ 1
  pub size : (s.shm).size ≡ 50
  pub in_range : (s.shm).in_ < 50
  pub next_out : (s.shm).out ≡ ((s.shm).in_ + n) % 50
  pub counted : (s.shm).count + p_behind s.producer ≡ n + c_behind s.consumer
  pub p_read : PRead s.producer (s.shm).count
  pub c_read : CRead s.consumer (s.shm).count
  pub few : n ≤ 50

-- The ring holds these characters, and what was stored is what was printed and then they.
pub record Inv (s : System) (items : List ℕ) : Type 0 where
  pub control : Control s (length items)
  pub contents : ring (s.shm).a (s.shm).in_ (length items) ≡ items
  pub in_order : s.stored ≡ s.printed ++ items

abbrev pub Kept : System → Type 0
Kept s = (items : List ℕ) × Inv s items

store-Control :
    (s : System) (n c : ℕ)
    → s.producer ≡ Producer.inside c
    → is_full s.shm ≡ false
    → Control s n
    → Control
        (record s { shm = store c s.shm; stored = s.stored ++ (c ∷ []); producer = Producer.load })
        (n + 1)
unfolding is_full store
store-Control s n c e f k = ground arith

room :
    (s : System) (n c : ℕ)
    → s.producer ≡ Producer.inside c
    → is_full s.shm ≡ false
    → Control s n
    → n < 50
unfolding is_full
room s n c e f k = ground arith

print-Control :
    (s : System) (n : ℕ)
    → s.consumer ≡ Consumer.inside
    → Control s (suc n)
    → Control
        (record s {
          shm = advance s.shm;
          printed = s.printed ++ ((s.shm).a (s.shm).in_ ∷ []);
          consumer = Consumer.load;
        })
        n
unfolding advance
print-Control s n e k = ground arith

something :
    (s : System) (n : ℕ) → s.consumer ≡ Consumer.inside → 0 < (s.shm).count → Control s n → 0 < n
something s n e f k = ground arith

store-Kept :
    (s : System) (items : List ℕ) (c : ℕ)
    → s.producer ≡ Producer.inside c
    → is_full s.shm ≡ false
    → Inv s items
    → Kept
        (record s { shm = store c s.shm; stored = s.stored ++ (c ∷ []); producer = Producer.load })
unfolding store
store-Kept s items c e f i = (
  items ++ (c ∷ []),
  record {
    control = rw longer (store-Control s (length items) c e f i.control);
    contents = rw longer (
        rw add-one (
          ring-write (s.shm).a (s.shm).in_ (length items) (s.shm).out c i.control.in_range
            (room s (length items) c e f i.control) i.control.next_out
          ∙ ap (λ l. l ++ (c ∷ [])) i.contents));
    in_order = ap (λ l. l ++ (c ∷ [])) i.in_order ∙ append_assoc s.printed items (c ∷ []);
  },
)
  where
    longer : length (items ++ (c ∷ [])) ≡ length items + 1
    longer = length-append items (c ∷ [])

first : (s : System) (c : ℕ) (items : List ℕ) → Inv s (c ∷ items) → (s.shm).a (s.shm).in_ ≡ c
first s c items i = cc i.contents

next :
    (s : System) (c : ℕ) (items : List ℕ)
    → Inv s (c ∷ items)
    → ring (advance s.shm).a (advance s.shm).in_ (length items) ≡ items
unfolding advance
next s c items i = rw i.control.size (cc i.contents)

print-Kept :
    (s : System) (items : List ℕ)
    → s.consumer ≡ Consumer.inside
    → 0 < (s.shm).count
    → Inv s items
    → Kept (record s {
      shm = advance s.shm;
      printed = s.printed ++ ((s.shm).a (s.shm).in_ ∷ []);
      consumer = Consumer.load;
    })
print-Kept s [] e f i = absurd (omega (arith, something s 0 e f i.control))
print-Kept s (c ∷ items) e f i = (
  items,
  record {
    control = print-Control s (length items) e i.control;
    contents = next s c items i;
    in_order =
        i.in_order
        ∙ sym (append_assoc s.printed (c ∷ []) items)
        ∙ ap (λ x. (s.printed ++ (x ∷ [])) ++ items) (sym (first s c items i));
  },
)

-- A step that changes neither the ring nor the history.
same_items :
    {t : System} {items : List ℕ}
    → ring (t.shm).a (t.shm).in_ (length items) ≡ items
    → t.stored ≡ t.printed ++ items
    → Control t (length items)
    → Kept t
same_items {items = items} r o c = (items, record { control = c; contents = r; in_order = o })

Step-Kept : {s t : System} (items : List ℕ) → Step true s t → Inv s items → Kept t
Step-Kept items (p_scan c e) i = same_items i.contents i.in_order (ground arith)
Step-Kept items (p_wait c e w f) i = same_items i.contents i.in_order (ground arith)
Step-Kept items (p_no_wait c e w) i = absurd (ground arith)
Step-Kept items (p_full c e f) i = same_items i.contents i.in_order (ground arith)
Step-Kept {s} items (p_store c e f) i = store-Kept s items c e f i
Step-Kept items (p_load e) i = same_items i.contents i.in_order (ground arith)
Step-Kept items (p_count n e) i = same_items i.contents i.in_order (ground arith)
Step-Kept items (p_post e) i = same_items i.contents i.in_order (ground arith)
Step-Kept items (c_wait e w f) i = same_items i.contents i.in_order (ground arith)
Step-Kept items (c_no_wait e w) i = absurd (ground arith)
Step-Kept items (c_empty e f) i = same_items i.contents i.in_order (ground arith)
Step-Kept {s} items (c_print e f) i = print-Kept s items e f i
Step-Kept items (c_load e) i = same_items i.contents i.in_order (ground arith)
Step-Kept items (c_count n e) i = same_items i.contents i.in_order (ground arith)
Step-Kept items (c_post e) i = same_items i.contents i.in_order (ground arith)

pub Reach-Kept : {s : System} → Reach true with_semaphore s → Kept s
Reach-Kept start = ([], record { control = ground arith; contents = refl; in_order = refl })
Reach-Kept (later r st) = let (items, i) = Reach-Kept r in Step-Kept items st i
