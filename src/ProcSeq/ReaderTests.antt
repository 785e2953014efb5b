-- ===== src/ProcSeq/ReaderTests.antt =====
-- A file whose state is the text that is left, read up to 11 bytes at a time.
use linux_learning_by_doing.Prelude.{
  ℕ, zero, suc, ◌≤◌, ◌≡◌, refl, sym, ◌∙◌, none, some, List, [], ◌∷◌, ◌++◌, length, take, drop,
  take-append-drop, length-take, map, Option, ap, ◌+◌, ◌*◌, length-append, pos, true, ◌<◌, arith,
}
use linux_learning_by_doing.ProcSeq.Nodes.{Nodes}
use linux_learning_by_doing.ProcSeq.Iterator.{mydrv_seq_start, shown}
use linux_learning_by_doing.ProcSeq.Module.{Driver, decimal}
use linux_learning_by_doing.ProcSeq.Tasks.Text.{length-decimal}
use linux_learning_by_doing.ProcSeq.Module.Build.{from}
use linux_learning_by_doing.ProcSeq.Readme.{node_line, concat, Opens}
use linux_learning_by_doing.ProcSeq.Examples.{
  example3, module_of, with_cache, not_loaded, examples_to_reader,
}
use linux_learning_by_doing.ProcSeq.Readers.{ReadFile, main_test, main_test1, Gives}
use linux_learning_by_doing.ProcSeq.Readers.Copies.{readers_copy, failing_read_spins}

abbrev rest_of_text : ReadFile (List ℕ)
rest_of_text text = (some (take 11 text), drop 11 text)

abbrev Left : List ℕ → List ℕ → Type 0
Left s text = s ≡ text

take_nothing : (text : List ℕ) → take 11 text ≡ [] → text ≡ []
take_nothing [] e = refl
take_nothing (b ∷ bs) e = ground arith

rest_of_text-Gives : Gives rest_of_text Left
rest_of_text-Gives = record {
  gives = λ s text h. (
    take 11 s,
    drop 11 s,
    drop 11 s,
    refl,
    refl,
    sym h ∙ sym (take-append-drop 11 s),
    omega (arith, length-take 11 s),
    λ e. sym h ∙ take_nothing s e,
  );
}

-- Thirteen bytes
abbrev thirteen : List ℕ
thirteen = 78 ∷ 111 ∷ 100 ∷ 101 ∷ 32 ∷ 78 ∷ 111 ∷ 58 ∷ 32 ∷ 49 ∷ 50 ∷ 51 ∷ 10 ∷ []

readers_copy_test :
    (main_test rest_of_text 14 (some thirteen) ≡ some (record { written = thirteen; status = 0 }))
    × ((rest : List ℕ) × (thirteen ≡ (main_test1 rest_of_text (some thirteen)).written ++ rest)
        × (length (main_test1 rest_of_text (some thirteen)).written ≤ 22))
readers_copy_test =
    readers_copy rest_of_text Left thirteen thirteen 14 rest_of_text-Gives refl (omega arith)

abbrev broken : ReadFile ℕ
broken s = (none, s)

failing_read_spins_test : main_test broken 1000 (some 3) ≡ none
failing_read_spins_test = failing_read_spins broken 3 1000 refl

-- The text of the nodes, or nothing
abbrev text_of : Option (List (List ℕ)) → List ℕ
text_of none = []
text_of (some lines) = concat lines

abbrev shown_from : Nodes → Option (Option ℕ) → Option (List (List ℕ))
shown_from h none = none
shown_from h (some first) = shown 101 h first 0

abbrev open_text : Nodes → List ℕ
open_text h = text_of (shown_from h (mydrv_seq_start 101 h 0))

open_text-Opens : Opens 101 open_text Left
open_text-Opens = record {
  opens = λ h first lines at all. ap (λ f. text_of (shown_from h f)) at ∙ ap text_of all;
}

-- A line has at most twenty bytes.
length-lines : (is : List ℕ) → length (concat (map node_line is)) ≤ 20 * length is
length-lines [] = omega arith
length-lines (i ∷ is) = omega (
  arith,
  length-lines is,
  length-decimal 10 i,
  length-append (decimal 10 i) (10 ∷ []),
  length-append (node_line i) (concat (map node_line is)),
)

length-from : (i n : ℕ) → length (from i n) ≡ n
length-from i zero = refl
length-from i (suc n) = omega (arith, length-from (i + 1) n)

many_lines : length (concat (map node_line (from 0 100))) < 2001
many_lines = omega (arith, length-lines (from 0 100), length-from 0 100)

examples_to_reader_example :
    (d : Driver) × ((module_of example3).init true (λ i. some (i + 1)) not_loaded
      ≡ some (pos 0, with_cache example3 d))
    × (main_test rest_of_text 2001 (some (open_text d.nodes))
        ≡ some (record { written = concat (map node_line (from 0 100)); status = 0 }))
examples_to_reader_example =
    examples_to_reader example3 rest_of_text Left open_text (λ i. i + 1) 2001 (λ i e. omega arith)
      (λ i j lt e. omega arith) open_text-Opens rest_of_text-Gives many_lines
