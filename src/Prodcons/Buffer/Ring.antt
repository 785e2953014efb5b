-- ===== src/Prodcons/Buffer/Ring.antt =====
-- The slots as a queue.
use linux_learning_by_doing.Prelude.{
  ℕ, zero, suc, ◌+◌, ◌%◌, ◌<◌, ◌≡◌, refl, sym, ap, ap₂, ◌∙◌, List, [], ◌∷◌, ◌++◌, length,
  length-append, pos, neg, inc, dec, arith,
}
use native.Mathlib.Numerals.{add-one}
use linux_learning_by_doing.Prodcons.Buffer.{
  Buffer, bufsize, strncpy, write_slot, put_slot, get_slot, empty_buffer,
}
use linux_learning_by_doing.Prodcons.Buffer.Text.{strncpy-strncpy}

-- The `n` slots from index `i` on, round the buffer.
abbrev pub stored : (ℕ → List ℕ) → ℕ → ℕ → List (List ℕ)
stored slot i zero = []
stored slot i (suc n) = slot i ∷ stored slot ((i + 1) % 5) n

-- Whole arrays, which a further `strncpy` does not change.
abbrev pub Arrays : List (List ℕ) → Type 0
Arrays [] = Unit
Arrays (x ∷ xs) = (strncpy bufsize x ≡ x) × Arrays xs

-- The buffer holds these items, oldest first; an item is what `strncpy` wrote. The counters are
-- their number and its negation.
pub record Keeps (b : Buffer) (items : List (List ℕ)) : Type 0 where
  pub in_range : b.bufout < 5
  pub next_in : b.bufin ≡ (b.bufout + length items) % 5
  pub contents : stored b.slot b.bufout (length items) ≡ items
  pub filled : b.filledslots ≡ pos (length items)
  pub free : b.freeslots ≡ neg (length items)
  pub arrays : Arrays items

stored-write :
    (slot : ℕ → List ℕ) (i n j : ℕ) (item : List ℕ)
    → i < 5
    → n < 5
    → j ≡ (i + n) % 5
    → stored (write_slot slot j item) i (suc n) ≡ stored slot i n ++ (item ∷ [])
stored-write slot i zero j item hi hn e = ground arith
stored-write slot i (suc n) j item hi hn e =
    ap₂ ◌∷◌ (ground arith)
      (stored-write slot ((i + 1) % 5) n j item (omega arith) (omega arith) (omega arith))

pub empty-Keeps : Keeps empty_buffer []
empty-Keeps = record {
  in_range = omega arith;
  next_in = refl;
  contents = refl;
  filled = refl;
  free = refl;
  arrays = tt;
}

inc-pos : (n : ℕ) → inc (pos n) ≡ pos (n + 1)
inc-pos n = ground arith

dec-neg : (n : ℕ) → dec (neg n) ≡ neg (n + 1)
dec-neg zero = refl
dec-neg (suc n) = ground arith

inc-neg : (n : ℕ) → inc (neg (suc n)) ≡ neg n
inc-neg zero = refl
inc-neg (suc n) = refl

Arrays-append :
    (items : List (List ℕ)) (item : List ℕ)
    → Arrays items
    → Arrays (items ++ (strncpy bufsize item ∷ []))
Arrays-append [] item h = (strncpy-strncpy bufsize item, tt)
Arrays-append (x ∷ items) item h = (h.0, Arrays-append items item h.1)

-- Putting an item into a buffer that is not full appends it, as `strncpy` copies it.
pub put_slot-Keeps :
    (b : Buffer) (items : List (List ℕ)) (item : List ℕ)
    → Keeps b items
    → length items < 5
    → Keeps (put_slot item b) (items ++ (strncpy bufsize item ∷ []))
unfolding put_slot
put_slot-Keeps b items item k room = record {
  in_range = k.in_range;
  next_in = omega (arith, k.next_in, longer);
  contents = rw longer (
      rw add-one (
        stored-write b.slot b.bufout n b.bufin (strncpy bufsize item) k.in_range room k.next_in
        ∙ ap (λ l. l ++ (strncpy bufsize item ∷ [])) k.contents));
  filled = ap inc k.filled ∙ inc-pos n ∙ ap pos (sym longer);
  free = ap dec k.free ∙ dec-neg n ∙ ap neg (sym longer);
  arrays = Arrays-append items item k.arrays;
}
  where
    n : ℕ
    n = length items

    longer : length (items ++ (strncpy bufsize item ∷ [])) ≡ n + 1
    longer = length-append items (strncpy bufsize item ∷ [])

-- Getting an item from a buffer that is not empty gives the oldest, and leaves the others.
pub get_slot-Keeps :
    (b : Buffer) (item : List ℕ) (items : List (List ℕ))
    → Keeps b (item ∷ items)
    → ((get_slot b).0 ≡ item) × Keeps (get_slot b).1 items
unfolding get_slot
get_slot-Keeps b item items k = (
  ap (strncpy bufsize) (cc k.contents) ∙ k.arrays.0,
  record {
    in_range = omega arith;
    next_in = omega (arith, k.next_in, k.in_range);
    contents = cc k.contents;
    filled = ap dec k.filled;
    free = ap inc k.free ∙ inc-neg (length items);
    arrays = k.arrays.1;
  },
)
