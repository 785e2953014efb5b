-- ===== src/Fifo.antt =====
-- The interface of a bounded first-in, first-out store, which the buffer of prodcons_threads.c and the
-- ring of a1_p.c and a1_c.c fill, and what a client may rely on.
use linux_learning_by_doing.Prelude.{
  ℕ, ◌<◌, ◌≡◌, refl, ap₂, subst, ltb, ltb→lt, Bool-cases, inl, inr, Option, none, some, List, [],
  ◌∷◌, ◌++◌, length, if◌then◌else◌,
}

-- The store is in a state that holds a list, oldest first; of an item, `kept` is stored.
pub record Fifo (S A : Type 0) : Type 1 where
  pub Holds : S → List A → Type 0
  pub capacity : ℕ
  pub kept : A → A
  pub put : A → S → S
  pub get : S → A × S
  pub put-Holds :
      (s : S) (items : List A) (a : A)
      → Holds s items
      → length items < capacity
      → Holds (put a s) (items ++ (kept a ∷ []))
  pub get-Holds :
      (s : S) (a : A) (items : List A)
      → Holds s (a ∷ items)
      → ((get s).0 ≡ a) × Holds (get s).1 items

pub data Op (A : Type 0) : Type 0 where
  putting : A → Op A
  getting : Op A

module _ {S A : Type 0} (q : Fifo S A) where
  -- The operations on the store: what they give, and the store after them.
  pub run : List (Op A) → S → List A × S
  run [] s = ([], s)
  run (putting a ∷ ops) s = run ops (q.put a s)
  run (getting ∷ ops) s = let (outs, s') = run ops (q.get s).1 in ((q.get s).0 ∷ outs, s')

  -- The same on the list. `none`: a put into a full store, or a get from an empty one.
  unfoldable pub spec : List (Op A) → List A → Option (List A × List A)
  spec [] items = some ([], items)
  spec (putting a ∷ ops) items =
      let rest = spec ops (items ++ (q.kept a ∷ [])) in
      if ltb (length items) q.capacity then rest else none
  spec (getting ∷ ops) [] = none
  spec (getting ∷ ops) (a ∷ items) = elim (spec ops items) [
    | none ↦ none
    | some (outs, items') ↦ some (a ∷ outs, items')
  ]

  abbrev Agrees : List A × S → Option (List A × List A) → Type 0
  Agrees r none = Unit
  Agrees r (some (outs, items)) = (r.0 ≡ outs) × q.Holds r.1 items

  get-Agrees :
      (r : List A × S) (t : Option (List A × List A)) (a b : A)
      → a ≡ b
      → Agrees r t
      → Agrees
          (a ∷ r.0, r.1)
          (elim t [ none ↦ none | some (outs, items') ↦ some (b ∷ outs, items') ])
  get-Agrees r none a b e h = tt
  get-Agrees r (some (outs, items)) a b e h = (ap₂ ◌∷◌ e h.0, h.1)

  -- Whatever the operations, the store gives what the list gives, and holds the list after them.
  pub run-Agrees :
      (ops : List (Op A)) (s : S) (items : List A)
      → q.Holds s items
      → Agrees (run ops s) (spec ops items)
  unfolding run spec
  run-Agrees [] s items h = (refl, h)
  run-Agrees (putting a ∷ ops) s items h = elim (Bool-cases (ltb (length items) q.capacity)) [
    | inl room ↦ rw room (
        run-Agrees ops (q.put a s) (items ++ (q.kept a ∷ []))
          (q.put-Holds s items a h (ltb→lt (length items) q.capacity room)))
    | inr full ↦ rw full tt
  ]
  run-Agrees (getting ∷ ops) s [] h = tt
  run-Agrees (getting ∷ ops) s (a ∷ items) h =
      let (first, others) = q.get-Holds s a items h in
      get-Agrees (run ops (q.get s).1) (spec ops items) (q.get s).0 a first
        (run-Agrees ops (q.get s).1 items others)

  pub run_lem :
      (ops : List (Op A)) (s : S) (items outs items' : List A)
      → q.Holds s items
      → spec ops items ≡ some (outs, items')
      → ((run ops s).0 ≡ outs) × q.Holds (run ops s).1 items'
  run_lem ops s items outs items' h e = subst (Agrees (run ops s)) e (run-Agrees ops s items h)
