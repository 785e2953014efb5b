-- ===== src/SharedMemory/Handshake.antt =====
-- Assignment/2_3/a2.c: a parent and a child that meet at a semaphore which starts at 0.
use linux_learning_by_doing.Prelude.{
  ℕ, ◌+◌, ◌-◌, ◌<◌, ◌≤◌, ◌≡◌, ◌⊎◌, inl, inr, refl, List, [], ◌∷◌, ◌++◌, arith,
}

-- What is printed of the semaphore's value
pub data Line : Type 0 where
  p_before p_after c_before c_after : ℕ → Line

-- Either process: before the first GETVAL, the `semop`, the second GETVAL, and the exit
pub data At : Type 0 where
  before : At
  semop : At
  after : At
  ended : At

pub record System : Type 0 where
  pub sem : ℕ
  pub parent : At
  pub child : At
  pub lines : List Line

-- After a `fork` that succeeds
abbrev pub initial : System
initial = record { sem = 0; parent = before; child = before; lines = [] }

pub data Step (s : System) : System → Type 0 where
  p_get :
      s.parent ≡ before
      → Step s (record s { parent = semop; lines = s.lines ++ (p_before s.sem ∷ []) })
  p_post : s.parent ≡ semop → Step s (record s { parent = after; sem = s.sem + 1 })
  p_get_again :
      s.parent ≡ after
      → Step s (record s { parent = ended; lines = s.lines ++ (p_after s.sem ∷ []) })
  c_get :
      s.child ≡ before
      → Step s (record s { child = semop; lines = s.lines ++ (c_before s.sem ∷ []) })
  c_wait : s.child ≡ semop → 0 < s.sem → Step s (record s { child = after; sem = s.sem - 1 })
  c_get_again :
      s.child ≡ after → Step s (record s { child = ended; lines = s.lines ++ (c_after s.sem ∷ []) })

pub data Reach (s : System) : System → Type 0 where
  start : Reach s s
  later : {t u : System} → Reach s t → Step t u → Reach s u

-- 1 once the `semop` is done
abbrev pub done : At → ℕ
done before = 0
done semop = 0
done after = 1
done ended = 1

-- The values that the lines can show
abbrev pub Shows : Line → Type 0
Shows (p_before n) = n ≡ 0
Shows (p_after n) = n ≤ 1
Shows (c_before n) = n ≤ 1
Shows (c_after n) = n ≡ 0

abbrev pub All : List Line → Type 0
All [] = Unit
All (l ∷ ls) = Shows l × All ls

All-append : (ls : List Line) (l : Line) → All ls → Shows l → All (ls ++ (l ∷ []))
All-append [] l a h = (h, tt)
All-append (x ∷ ls) l a h = (a.0, All-append ls l a.1 h)

record Inv (s : System) : Type 0 where
  balance : s.sem + done s.child ≡ done s.parent
  shown : All s.lines

step-Inv : {s t : System} → Inv s → Step s t → Inv t
step-Inv {s} i (p_get p) = record {
  balance = ground arith;
  shown = All-append s.lines (p_before s.sem) i.shown (ground arith);
}
step-Inv i (p_post p) = ground arith
step-Inv {s} i (p_get_again p) = record {
  balance = ground arith;
  shown = All-append s.lines (p_after s.sem) i.shown (ground arith);
}
step-Inv {s} i (c_get p) = record {
  balance = ground arith;
  shown = All-append s.lines (c_before s.sem) i.shown (ground arith);
}
step-Inv i (c_wait p h) = ground arith
step-Inv {s} i (c_get_again p) = record {
  balance = ground arith;
  shown = All-append s.lines (c_after s.sem) i.shown (ground arith);
}

reach-Inv : {s : System} → Reach initial s → Inv s
reach-Inv start = record { balance = ground arith; shown = tt }
reach-Inv (later r p) = step-Inv (reach-Inv r) p

At-cases : (a : At) → (a ≡ before) ⊎ ((a ≡ semop) ⊎ ((a ≡ after) ⊎ (a ≡ ended)))
At-cases before = inl refl
At-cases semop = inr (inl refl)
At-cases after = inr (inr (inl refl))
At-cases ended = inr (inr (inr refl))

-- In every reachable state of a2.c after the fork: the child is past its `semop` only if the parent is
-- past its own; "p:sem before" and "c:sem after" show 0, and the other two lines at most 1; and when
-- both have ended the semaphore is 0 again.
pub child_waits_for_parent :
    {s : System}
    → Reach initial s
    → (done s.child ≤ done s.parent)
      × All s.lines
      × (s.sem ≤ 1)
      × (s.sem + done s.child ≡ done s.parent)
child_waits_for_parent r = let i = reach-Inv r in (ground arith, i.shown, ground arith, i.balance)

-- The two do not block each other: in every reachable state of a2.c after the fork both have ended, or
-- one of them can go on.
pub handshake_goes_on :
    {s : System}
    → Reach initial s
    → ((s.parent ≡ ended) × (s.child ≡ ended)) ⊎ ((t : System) × Step s t)
handshake_goes_on {s} r =
    let i = reach-Inv r in
    elim (At-cases s.parent) [
      | inl p ↦ inr (_, p_get p)
      | inr (inl p) ↦ inr (_, p_post p)
      | inr (inr (inl p)) ↦ inr (_, p_get_again p)
      | inr (inr (inr p)) ↦ elim (At-cases s.child) [
        | inl c ↦ inr (_, c_get c)
        | inr (inl c) ↦ inr (_, c_wait c (ground arith))
        | inr (inr (inl c)) ↦ inr (_, c_get_again c)
        | inr (inr (inr c)) ↦ inl (p, c)
      ]
    ]
