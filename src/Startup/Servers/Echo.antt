-- ===== src/Startup/Servers/Echo.antt =====
-- What a server prints of what a client writes.
use linux_learning_by_doing.Prelude.{
  ℕ, zero, suc, ◌≤◌, ◌<◌, ◌≡◌, ◌≢◌, ◌↔◌, ◌⊎◌, refl, ap, ◌∙◌, Bool, true, false, Option, none, some,
  List, [], ◌∷◌, ◌++◌, append_assoc, append-nil, length, length-append, drop, drop-all, arith,
}
use linux_learning_by_doing.Prodcons.Buffer.{c_string}
use linux_learning_by_doing.Startup.{status}
use linux_learning_by_doing.Startup.Servers.{
  Output, write_string, fill, fifo_loop, thread_fifo, client_loop, main_client, eexist,
  main_server1,
}

abbrev pub NoNul : List ℕ → Type 0
NoNul [] = Unit
NoNul (c ∷ cs) = (c ≢ 0) × NoNul cs

c_string-append : (s t : List ℕ) → NoNul s → c_string (s ++ (0 ∷ t)) ≡ s
c_string-append [] t h = refl
c_string-append (zero ∷ s) t h = absurd (h.0 refl)
c_string-append (suc c ∷ s) t h = ap (λ l. suc c ∷ l) (c_string-append s t h.1)

c_string-NoNul : (s : List ℕ) → NoNul s → c_string s ≡ s
c_string-NoNul [] h = refl
c_string-NoNul (zero ∷ s) h = absurd (h.0 refl)
c_string-NoNul (suc c ∷ s) h = ap (λ l. suc c ∷ l) (c_string-NoNul s h.1)

c_string-is_NoNul : (s : List ℕ) → NoNul (c_string s)
c_string-is_NoNul [] = tt
c_string-is_NoNul (zero ∷ s) = tt
c_string-is_NoNul (suc c ∷ s) = ((λ e. omega arith), c_string-is_NoNul s)

pub write_string-first :
    (s t : List ℕ)
    → NoNul s
    → write_string (s ++ (0 ∷ t)) ≡ record { bytes = s ++ (0 ∷ []); in_bounds = true }
write_string-first s t h = rw (c_string-append s t h, length-append s (0 ∷ t)) (ground arith)

fifo_loop-more :
    (buf chunk : List ℕ) (answers : List (Option (List ℕ)))
    → 0 < length chunk
    → fifo_loop buf (some chunk ∷ answers) ≡ (
      (fifo_loop (fill chunk buf) answers).0,
      write_string (fill chunk buf) ∷ (fifo_loop (fill chunk buf) answers).1,
    )
unfolding fifo_loop
fifo_loop-more buf [] answers h = absurd (omega arith)
fifo_loop-more buf (c ∷ chunk) answers h = refl

-- A chunk that fits into `buf` and begins with a string `s` and its NUL: the server writes exactly these bytes of it, and
-- nothing of what the same `read` brought after them; then it reads on.
pub fifo_first_string :
    (buf s t : List ℕ) (answers : List (Option (List ℕ)))
    → NoNul s
    → length (s ++ (0 ∷ t)) ≤ length buf
    → (buf' : List ℕ) × (thread_fifo true buf (some (s ++ (0 ∷ t)) ∷ answers) ≡ (
      (thread_fifo true buf' answers).0,
      record { bytes = s ++ (0 ∷ []); in_bounds = true } ∷ (thread_fifo true buf' answers).1,
    ))
unfolding thread_fifo
fifo_first_string buf s t answers h fits =
    let chunk = s ++ (0 ∷ t) in
    (
      fill chunk buf,
      fifo_loop-more buf chunk answers (rw (length-append s (0 ∷ t)) (omega arith))
          ∙ ap
              (λ o. (
                (fifo_loop (fill chunk buf) answers).0,
                o ∷ (fifo_loop (fill chunk buf) answers).1,
              ))
              (ap write_string (append_assoc s (0 ∷ t) (drop (length chunk) buf))
                ∙ write_string-first s (t ++ drop (length chunk) buf) h),
    )

-- A chunk without a NUL that fills the array: `strlen` reads on behind the array.
pub fifo_reads_past_array :
    (buf chunk : List ℕ) (answers : List (Option (List ℕ)))
    → NoNul chunk
    → 0 < length chunk
    → length buf ≡ length chunk
    → (rest : List Output) × ((thread_fifo true buf (some chunk ∷ answers)).1
        ≡ record { bytes = chunk ++ (0 ∷ []); in_bounds = false } ∷ rest)
unfolding thread_fifo
fifo_reads_past_array buf chunk answers h pos full = (
  _,
  ap (λ r. r.1) (fifo_loop-more buf chunk answers pos)
      ∙ ap (λ o. o ∷ (fifo_loop (fill chunk buf) answers).1)
          (rw (drop-all buf (length chunk) (omega (arith, full)), append-nil chunk)
            (rw (c_string-NoNul chunk h) (ground arith))),
)

first_write :
    (argc : ℕ) (data_string : List ℕ) (writes : List Bool)
    → 3 ≤ argc
    → (main_client argc true data_string (true ∷ writes)).1
      ≡ write_string (c_string data_string ++ (0 ∷ []))
        ∷ (client_loop (c_string data_string ++ (0 ∷ [])) writes).1
unfolding main_client client_loop
first_write argc data_string writes enough = ground arith

-- A client with enough arguments whose `open` succeeds, and whose string fits into an array as long as
-- that of the server: what its first `write` sends, as one chunk, the
-- server writes unchanged and within its array, and it is the client's string with its NUL.
pub client_to_server :
    (argc : ℕ) (data_string : List ℕ) (writes : List Bool) (buf : List ℕ)
    (reads : List (Option (List ℕ)))
    → 3 ≤ argc
    → length (c_string data_string) < length buf
    → (message : Output) × (sent printed : List Output) × ((main_client argc true data_string
          (true ∷ writes)).1
        ≡ message ∷ sent)
      × ((thread_fifo true buf (some message.bytes ∷ reads)).1 ≡ message ∷ printed)
      × (message.bytes ≡ c_string data_string ++ (0 ∷ []))
client_to_server argc data_string writes buf reads enough fits =
    let s = c_string data_string in
    let echo =
      fifo_first_string buf s [] reads (c_string-is_NoNul data_string)
        (rw (length-append s (0 ∷ [])) (omega arith)) in
    (
      record { bytes = s ++ (0 ∷ []); in_bounds = true },
      (client_loop (s ++ (0 ∷ [])) writes).1,
      _,
      first_write argc data_string writes enough
          ∙ ap (λ o. o ∷ (client_loop (s ++ (0 ∷ [])) writes).1)
              (write_string-first s [] (c_string-is_NoNul data_string)),
      ap (λ r. r.1) echo.1,
      refl,
    )

-- `main` of thread_fifo_server1.c exits with 1 exactly when a `mkfifo` fails with another error than
-- EEXIST or a creation fails, given threads that never return; otherwise it waits for the first thread.
pub main_server1_outcome :
    (fifo1 fifo2 fifo3 th1 th2 th3 : ℕ)
    → ((status (main_server1 (λ t. false) fifo1 fifo2 fifo3 th1 th2 th3) ≡ none) ↔ (
        ((fifo1 ≡ 0) ⊎ (fifo1 ≡ eexist))
        × ((fifo2 ≡ 0) ⊎ (fifo2 ≡ eexist))
        × ((fifo3 ≡ 0) ⊎ (fifo3 ≡ eexist))
        × (th1 ≡ 0)
        × (th2 ≡ 0)
        × (th3 ≡ 0)))
unfolding main_server1
main_server1_outcome fifo1 fifo2 fifo3 th1 th2 th3 = ground arith
