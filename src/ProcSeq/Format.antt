-- ===== src/ProcSeq/Format.antt =====
-- The strings that KernelDrivers_March2011/proc_seq_example1.c, 2.c and 3.c pass to `seq_printf` as formats.
use linux_learning_by_doing.Prelude.{
  ℕ, ◌≡◌, ◌≢◌, ◌==◌, Option, none, some, List, [], ◌∷◌, ◌++◌, if◌then◌else◌, arith,
}

-- What a string prints as the format of `seq_printf` without arguments: up to its NUL, and nothing that
-- is determined if there is a `%` before it.
unfoldable pub as_format : List ℕ → Option (List ℕ)
as_format [] = none
as_format (c ∷ cs) =
    let rest = as_format cs in
    if c == 0
    then some []
    else if c == 37
    then none
    else elim rest [ none ↦ none | some out ↦ some (c ∷ out) ]

-- No NUL and no `%`
abbrev pub Plain : List ℕ → Type 0
Plain [] = Unit
Plain (c ∷ cs) = (c ≢ 0) × (c ≢ 37) × Plain cs

pub Plain-append : (xs ys : List ℕ) → Plain xs → Plain ys → Plain (xs ++ ys)
Plain-append [] ys p q = q
Plain-append (x ∷ xs) ys p q = ground (arith, Plain-append xs ys)

abbrev pub put : List ℕ → Option (List ℕ) → Option (List ℕ)
put xs none = none
put xs (some out) = some (xs ++ out)

pub as_format-append : (xs ys : List ℕ) → Plain xs → as_format (xs ++ ys) ≡ put xs (as_format ys)
unfolding as_format
as_format-append [] ys p = ground arith
as_format-append (x ∷ xs) ys p = ground (arith, as_format-append xs ys)
