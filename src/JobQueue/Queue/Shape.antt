-- ===== src/JobQueue/Queue/Shape.antt =====
-- What it is for a heap to hold a list of jobs.
use linux_learning_by_doing.Prelude.{
  ℕ, ◌≡◌, ◌≢◌, sym, Option, none, some, List, [], ◌∷◌, ◌++◌, length, arith,
}
use linux_learning_by_doing.JobQueue.Queue.{Job, Queue, shown, update}

-- A job by its address and what is in `str1`.
abbrev pub Entry : Type 0
Entry = ℕ × List ℕ

-- What is printed of it
abbrev pub text : Entry → Option (List ℕ)
text e = shown e.1

-- The pointer `p` leads through exactly these jobs, in this order, to NULL.
abbrev pub Chain : (ℕ → Option Job) → Option ℕ → List Entry → Type 0
Chain cell p [] = p ≡ none
Chain cell p ((a, s) ∷ es) =
    (n : Option ℕ) × (p ≡ some a)
    × (cell a ≡ some (record { str1 = s; next = n }))
    × Chain cell n es

abbrev pub Avoids : ℕ → List Entry → Type 0
Avoids a [] = Unit
Avoids a ((b, s) ∷ es) = (a ≢ b) × Avoids a es

abbrev pub Distinct : List Entry → Type 0
Distinct [] = Unit
Distinct ((a, s) ∷ es) = Avoids a es × Distinct es

-- The queue holds these jobs, at distinct addresses, and counts them.
pub record Holds (q : Queue) (es : List Entry) : Type 0 where
  pub chain : Chain q.cell q.next es
  pub distinct : Distinct es
  pub counted : q.queue_count ≡ length es

-- A change elsewhere leaves the chain alone.
pub Chain-update :
    (cell : ℕ → Option Job) (p : Option ℕ) (es : List Entry) (b : ℕ) (v : Option Job)
    → Avoids b es
    → Chain cell p es
    → Chain (update cell b v) p es
Chain-update cell p [] b v h c = c
Chain-update cell p ((a, s) ∷ es) b v h c =
    (c.0, c.1, ground arith, Chain-update cell c.0 es b v h.1 c.3)

-- An address that is not allocated is on no chain.
pub Avoids-of_free :
    (cell : ℕ → Option Job) (p : Option ℕ) (es : List Entry) (b : ℕ)
    → cell b ≡ none
    → Chain cell p es
    → Avoids b es
Avoids-of_free cell p [] b h c = tt
Avoids-of_free cell p ((a, s) ∷ es) b h c = (ground arith, Avoids-of_free cell c.0 es b h c.3)

pub Avoids-append :
    (a : ℕ) (es : List Entry) (b : ℕ) (s : List ℕ)
    → Avoids a es
    → a ≢ b
    → Avoids a (es ++ ((b, s) ∷ []))
Avoids-append a [] b s h ne = (ne, tt)
Avoids-append a (e ∷ es) b s h ne = (h.0, Avoids-append a es b s h.1 ne)

pub Distinct-append :
    (es : List Entry) (b : ℕ) (s : List ℕ)
    → Distinct es
    → Avoids b es
    → Distinct (es ++ ((b, s) ∷ []))
Distinct-append [] b s d h = (tt, tt)
Distinct-append ((a, t) ∷ es) b s d h =
    (Avoids-append a es b s d.0 (λ e. h.0 (sym e)), Distinct-append es b s d.1 h.1)
