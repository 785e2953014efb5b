-- ===== src/ProcSeq/Readme.antt =====
-- proc_seq_example1.c and proc_seq_test.c together: what a reader gets of a loaded module.
use linux_learning_by_doing.Prelude.{
  ℕ, ◌<◌, ◌≡◌, ◌≢◌, refl, sym, ap, ap₂, ◌∙◌, true, false, Option, none, some, List, [], ◌∷◌, ◌++◌,
  map, length, pos, arith,
}
use linux_learning_by_doing.ProcSeq.Format.{as_format, Plain, put, as_format-append}
use linux_learning_by_doing.ProcSeq.Nodes.{mydrv_list, Nodes, no_nodes}
use linux_learning_by_doing.ProcSeq.Iterator.{mydrv_seq_start, shown}
use linux_learning_by_doing.ProcSeq.Iterator.Walk.{Prints, read_from}
use linux_learning_by_doing.ProcSeq.Module.{Driver, decimal, label, mydrv_init}
use linux_learning_by_doing.ProcSeq.Module.Build.{from, init_builds_list}
use linux_learning_by_doing.ProcSeq.Tasks.Text.{decimal-Plain}
use linux_learning_by_doing.ProcSeq.Readers.{ReadFile, main_test, Gives}
use linux_learning_by_doing.ProcSeq.Readers.Copies.{readers_copy}

-- "Node No: "
abbrev node_no : List ℕ
node_no = 78 ∷ 111 ∷ 100 ∷ 101 ∷ 32 ∷ 78 ∷ 111 ∷ 58 ∷ 32 ∷ []

-- The line of the i-th node
abbrev pub node_line : ℕ → List ℕ
node_line i = node_no ++ (decimal 10 i ++ (10 ∷ []))

abbrev pub concat : List (List ℕ) → List ℕ
concat [] = []
concat (l ∷ ls) = l ++ concat ls

node_no-Plain : Plain node_no
node_no-Plain = ground arith

as_format_end : as_format (10 ∷ 0 ∷ []) ≡ some (10 ∷ [])
unfolding as_format
as_format_end = refl

as_format-label : (i : ℕ) → as_format (label i) ≡ some (node_line i)
unfolding label
as_format-label i =
    as_format-append node_no _ node_no-Plain
    ∙ ap (put node_no) (
        as_format-append (decimal 10 i) (10 ∷ 0 ∷ []) (decimal-Plain 10 i)
        ∙ ap (put (decimal 10 i)) as_format_end)

abbrev pub or_empty : Option (List ℕ) → List ℕ
or_empty none = []
or_empty (some line) = line

-- What the node at an address prints
abbrev pub line_at : Nodes → ℕ → List ℕ
line_at h v = or_empty (as_format (h.info v))

line_at-label :
    (h : Nodes) (x i : ℕ)
    → h.info x ≡ label i
    → (as_format (h.info x) ≡ some (line_at h x)) × (line_at h x ≡ node_line i)
line_at-label h x i e =
    let p : as_format (h.info x) ≡ some (node_line i) = ap as_format e ∙ as_format-label i in
    let l : line_at h x ≡ node_line i = ap or_empty p in (p ∙ ap some (sym l), l)

pub lines-labels :
    (h : Nodes) (xs is : List ℕ)
    → map h.info xs ≡ map label is
    → Prints h (line_at h) xs × (map (line_at h) xs ≡ map node_line is)
lines-labels h [] [] e = (tt, refl)
lines-labels h [] (i ∷ is) e = ground arith
lines-labels h (x ∷ xs) [] e = ground arith
lines-labels h (x ∷ xs) (i ∷ is) e =
    let first : h.info x ≡ label i = cc in
    let others : map h.info xs ≡ map label is = cc in
    let (p, l) = line_at-label h x i first in
    let (ps, ls) = lines-labels h xs is others in ((p, ps), ap₂ ◌∷◌ l ls)

-- Loading where /proc/readme is created and `kmalloc` gives distinct addresses, and then reading from the
-- start: the protocol of `seq_read` shows a hundred lines, the i-th with the number i, and ends.
pub readme_shows_lines :
    (address : ℕ → ℕ)
    → ((i : ℕ) → address i ≢ mydrv_list)
    → ((i j : ℕ) → i < j → address j ≢ address i)
    → (d : Driver) × (mydrv_init true
          (λ i. some (address i))
          (record { nodes = no_nodes; readme = false; cache = false })
        ≡ some (pos 0, d))
      × ((first : Option ℕ) × (mydrv_seq_start 101 d.nodes 0 ≡ some first)
          × (shown 101 d.nodes first 0 ≡ some (map node_line (from 0 100))))
readme_shows_lines address on_heap fresh =
    let (d, done, linked, infos, there) = init_builds_list address on_heap fresh in
    let (p, l) = lines-labels d.nodes (map address (from 0 100)) (from 0 100) infos in
    let (first, at, lines) =
      read_from d.nodes (line_at d.nodes) (map address (from 0 100)) 101 0 linked p (omega arith) in
    (d, done, (first, at, lines ∙ ap some l))

-- An open file of the nodes in the kernel: what it holds is what the iterator shows from the start on,
-- for lists that are shown with this fuel.
pub record Opens {State : Type 0} (fuel : ℕ) (open_file : Nodes → State)
    (Holds : State → List ℕ → Type 0) : Type 0 where
  pub opens :
      (h : Nodes) (first : Option ℕ) (lines : List (List ℕ))
      → mydrv_seq_start fuel h 0 ≡ some first
      → shown fuel h first 0 ≡ some lines
      → Holds (open_file h) (concat lines)

-- Loading as before, and then proc_seq_test.c on the file, which the kernel serves from the iterator in
-- pieces of at most 11 bytes: the program ends with status 0 and has written exactly the hundred lines
-- in order.
pub readme_to_reader :
    {State : Type 0} (read_11 : ReadFile State) (Holds : State → List ℕ → Type 0)
    (open_file : Nodes → State) (address : ℕ → ℕ) (fuel : ℕ)
    → ((i : ℕ) → address i ≢ mydrv_list)
    → ((i j : ℕ) → i < j → address j ≢ address i)
    → Opens 101 open_file Holds
    → Gives read_11 Holds
    → length (concat (map node_line (from 0 100))) < fuel
    → (d : Driver) × (mydrv_init true
          (λ i. some (address i))
          (record { nodes = no_nodes; readme = false; cache = false })
        ≡ some (pos 0, d))
      × (main_test read_11 fuel (some (open_file d.nodes))
          ≡ some (record { written = concat (map node_line (from 0 100)); status = 0 }))
readme_to_reader read_11 Holds open_file address fuel on_heap fresh o g le =
    let (d, done, (first, at, lines)) = readme_shows_lines address on_heap fresh in
    (
      d,
      done,
      (readers_copy read_11 Holds (open_file d.nodes) (concat (map node_line (from 0 100))) fuel g
          (o.opens d.nodes first (map node_line (from 0 100)) at lines) le).0,
    )
