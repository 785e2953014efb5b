-- ===== src/ProcSeq/Readers.antt =====
-- proc_seq_test.c and proc_seq_test1.c: programs that read /proc/readme and write what they get.
pub mod Copies
use linux_learning_by_doing.Prelude.{
  ℕ, zero, suc, ◌+◌, ◌≤◌, ◌≡◌, refl, sym, ap, ◌∙◌, Bool, true, false, Option, none, some, List, [],
  ◌∷◌, ◌++◌, append_assoc, append-nil, length, length-append, arith,
}

-- `read(fd, buf, 11)` in a state of the open file: the bytes, or `none` where it fails, and the next state
abbrev pub ReadFile : Type 0 → Type 0
ReadFile State = State → Option (List ℕ) × State

-- What a program has written, its exit status
pub record Exit : Type 0 where
  pub written : List ℕ
  pub status : ℕ

module _ {State : Type 0} (read_11 : ReadFile State) where
  -- One `read`, and the `write` of what it has given if that is anything
  unfoldable pub copy_once : State → List ℕ → State × List ℕ
  copy_once s written =
      let (got, s') = read_11 s in (s', elim got [ none ↦ written | some bytes ↦ written ++ bytes ])

  -- `while(1)` of proc_seq_test.c, which only an answer of 0 ends. `none`: out of fuel.
  unfoldable pub copy_rest : ℕ → State → List ℕ → Option Exit
  copy_rest zero s written = none
  copy_rest (suc fuel) s written =
      let (got, s') = read_11 s in
      elim got [
        | none ↦ copy_rest fuel s' written
        | some bytes ↦ elim bytes [
          | [] ↦ some (record { written = written; status = 0 })
          | b ∷ bs ↦ copy_rest fuel s' (written ++ (b ∷ bs))
        ]
      ]

  -- `main` of proc_seq_test.c, with the open file or `none` where `open` fails
  unfoldable pub main_test : ℕ → Option State → Option Exit
  unfolding copy_once copy_rest
  main_test fuel none = some (record { written = []; status = 1 })
  main_test fuel (some s) =
      let (s1, out1) = copy_once s [] in
      let (s2, out2) = copy_once s1 out1 in copy_rest fuel s2 out2

  -- `main` of proc_seq_test1.c
  unfoldable pub main_test1 : Option State → Exit
  unfolding copy_once
  main_test1 none = record { written = []; status = 1 }
  main_test1 (some s) =
      let (s1, out1) = copy_once s [] in
      let (s2, out2) = copy_once s1 out1 in record { written = out2; status = 0 }

-- The file still has the text to give: what the kernel documents of `read` on it. `read` gives some of
-- it, at most 11 bytes, and nothing only at its end.
pub record Gives {State : Type 0} (read_11 : ReadFile State) (Holds : State → List ℕ → Type 0)
    : Type 0 where
  pub gives :
      (s : State) (text : List ℕ)
      → Holds s text
      → (bytes : List ℕ) × (rest : List ℕ) × (s' : State) × (read_11 s ≡ (some bytes, s'))
        × Holds s' rest
        × (text ≡ bytes ++ rest)
        × (length bytes ≤ 11)
        × (bytes ≡ [] → text ≡ [])
