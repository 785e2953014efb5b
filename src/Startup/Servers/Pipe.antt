-- ===== src/Startup/Servers/Pipe.antt =====
-- A FIFO between the clients of thread_fifo_cl.c and the thread of thread_fifo_server1.c that reads it.
use linux_learning_by_doing.Prelude.{
  ℕ, zero, suc, ◌+◌, ◌≤◌, ◌<◌, ◌≡◌, ◌⊎◌, inl, inr, refl, sym, ap, ap₂, ◌∙◌, Bool, true, false, List,
  [], ◌∷◌, ◌++◌, append_assoc, map, map-append, length, length-append, take, drop, drop-all, arith,
}
use linux_learning_by_doing.Startup.Servers.{Output, write_string, fill}
use linux_learning_by_doing.Startup.Servers.Echo.{NoNul, write_string-first}

-- The bytes in the FIFO, the array of the thread, and what has been sent and printed
pub record System : Type 0 where
  pub pipe : List ℕ
  pub buf : List ℕ
  pub sent : List (List ℕ)
  pub printed : List Output

abbrev pub initial : List ℕ → System
initial buf = record { pipe = []; buf = buf; sent = []; printed = [] }

-- A client writes its string with the NUL, in one piece as the kernel does with so few bytes; the thread
-- reads what is there, at most the size of its array, and prints. `paced`: clients write only when the
-- FIFO is empty.
module _ (paced : Bool) where
  pub data Step (s : System) : System → Type 0 where
    writes :
        (string : List ℕ)
        → NoNul string
        → length string < 512
        → (paced ≡ false) ⊎ (s.pipe ≡ [])
        → Step s
            (record s { pipe = s.pipe ++ (string ++ (0 ∷ [])); sent = s.sent ++ (string ∷ []) })
    reads :
        0 < length s.pipe
        → Step s (record s {
          pipe = drop 512 s.pipe;
          buf = fill (take 512 s.pipe) s.buf;
          printed = s.printed ++ (write_string (fill (take 512 s.pipe) s.buf) ∷ []);
        })

  pub data Reach (s : System) : System → Type 0 where
    start : Reach s s
    later : {t u : System} → Reach s t → Step t u → Reach s u

-- What is printed of a string
abbrev pub line : List ℕ → Output
line s = record { bytes = s ++ (0 ∷ []); in_bounds = true }

take_string :
    (n : ℕ) (s t : List ℕ) → length s < n → (r : List ℕ) × (take n (s ++ (0 ∷ t)) ≡ s ++ (0 ∷ r))
take_string zero s t h = absurd (omega arith)
take_string (suc n) [] t h = (take n t, refl)
take_string (suc n) (x ∷ s) t h =
    let (r, e) = take_string n s t (omega arith) in (r, ap (λ l. x ∷ l) e)

-- A `read` of a FIFO that begins with a string: it is printed, and nothing that follows it.
read_first :
    (buf s t : List ℕ)
    → NoNul s
    → length s < 512
    → write_string (fill (take 512 (s ++ (0 ∷ t))) buf) ≡ line s
read_first buf s t n lt =
    let (r, e) = take_string 512 s t lt in
    let chunk = s ++ (0 ∷ r) in
    ap (λ c. write_string (fill c buf)) e
    ∙ ap write_string (append_assoc s (0 ∷ r) (drop (length chunk) buf))
    ∙ write_string-first s (r ++ drop (length chunk) buf) n

-- What has been printed, with nothing or one string left in the FIFO
abbrev pub NonePending : System → Type 0
NonePending s = (s.pipe ≡ []) × (s.printed ≡ map line s.sent)

abbrev pub OnePending : System → Type 0
OnePending s =
    (before : List (List ℕ)) × (string : List ℕ) × NoNul string
    × (length string < 512)
    × (s.pipe ≡ string ++ (0 ∷ []))
    × (s.sent ≡ before ++ (string ∷ []))
    × (s.printed ≡ map line before)

step-Pending :
    {s t : System} → NonePending s ⊎ OnePending s → Step true s t → NonePending t ⊎ OnePending t
step-Pending {s} (inl (e, p)) (writes string n lt h) =
    inr (s.sent, string, n, lt, ap (λ l. l ++ (string ++ (0 ∷ []))) e, refl, p)
step-Pending {s} (inl (e, p)) (reads h) = absurd (omega (arith, ap length e))
step-Pending {s} (inr (before, string, n, lt, e, f, p)) (writes other m lt' (inl b)) = absurd (cc)
step-Pending {s} (inr (before, string, n, lt, e, f, p)) (writes other m lt' (inr b)) =
    absurd (omega (arith, ap length (sym e ∙ b), length-append string (0 ∷ [])))
step-Pending {s} (inr (before, string, n, lt, e, f, p)) (reads h) = inl (
  ap (drop 512) e
      ∙ drop-all (string ++ (0 ∷ [])) 512 (omega (arith, length-append string (0 ∷ []))),
  ap₂ (λ l o. l ++ (o ∷ [])) p
        (ap (λ q. write_string (fill (take 512 q) s.buf)) e ∙ read_first s.buf string [] n lt)
      ∙ sym (ap (map line) f ∙ map-append line before (string ∷ [])),
)

reach-Pending :
    {buf : List ℕ} {s : System} → Reach true (initial buf) s → NonePending s ⊎ OnePending s
reach-Pending start = inl (refl, refl)
reach-Pending (later r p) = step-Pending (reach-Pending r) p

-- Where clients write only into an empty FIFO, in every reachable state everything that was sent has been
-- printed, line by line in order, and the FIFO is empty; or everything but the last string, which is in
-- the FIFO.
pub paced_all_printed :
    {buf : List ℕ} {s : System} → Reach true (initial buf) s → NonePending s ⊎ OnePending s
paced_all_printed r = reach-Pending r

-- Without that, any two strings that fit into the array together: when both are written before the thread
-- reads, the FIFO is empty after one `read`, and the second string is never printed.
pub second_string_lost :
    (buf a b : List ℕ)
    → NoNul a
    → NoNul b
    → length a + length b + 2 ≤ 512
    → (s : System) × Reach false (initial buf) s
      × (s.pipe ≡ [])
      × (s.sent ≡ a ∷ b ∷ [])
      × (s.printed ≡ line a ∷ [])
second_string_lost buf a b n m le =
    let both : List ℕ = (a ++ (0 ∷ [])) ++ (b ++ (0 ∷ [])) in
    let whole : length both ≤ 512 = omega (
      arith,
      length-append (a ++ (0 ∷ [])) (b ++ (0 ∷ [])),
      length-append a (0 ∷ []),
      length-append b (0 ∷ []),
    ) in
    (
      _,
      later
          (later (later start (writes a n (omega arith) (inl refl)))
            (writes b m (omega arith) (inl refl)))
          (reads (
            omega
              (arith, length-append (a ++ (0 ∷ [])) (b ++ (0 ∷ [])), length-append a (0 ∷ [])))),
      drop-all both 512 whole,
      refl,
      ap (λ q. write_string (fill (take 512 q) buf) ∷ []) (append_assoc a (0 ∷ []) (b ++ (0 ∷ [])))
          ∙ ap (λ o. o ∷ []) (read_first buf a (b ++ (0 ∷ [])) n (omega arith)),
    )
