-- ===== src/ProcSeq/Iterator/Walk.antt =====
-- What the iterator gives on a linked list.
use linux_learning_by_doing.Prelude.{
  ℕ, zero, suc, ◌+◌, ◌≤◌, ◌≡◌, refl, Option, none, some, List, [], ◌∷◌, map, length, get_elem?,
  drop, drop-none, drop-some, arith, ◌∙◌, ap, inl, inr, Option-cases, length-drop, sym, subst,
}
use linux_learning_by_doing.ProcSeq.Format.{as_format}
use linux_learning_by_doing.ProcSeq.Nodes.{mydrv_list, Nodes}
use linux_learning_by_doing.ProcSeq.Nodes.Chain.{Chain, Linked}
use linux_learning_by_doing.ProcSeq.Iterator.{
  find, mydrv_seq_start, mydrv_seq_next, mydrv_seq_show, shown,
}

some-inj : {a b : Option ℕ} → (some a ≡ some b) → a ≡ b
some-inj e = cc

find-Chain :
    (h : Nodes) (a : ℕ) (xs : List ℕ) (fuel off pos : ℕ)
    → Chain h.next a xs
    → suc (length xs) ≤ fuel
    → find fuel h (h.next a) off (off + pos) ≡ some (get_elem? xs pos)
unfolding find
find-Chain h a [] (suc fuel) off pos c e = ground arith
find-Chain h a (x ∷ xs) (suc fuel) off zero c e = ground arith
find-Chain h a (x ∷ xs) (suc fuel) off (suc pos) c e =
    ground (arith, find-Chain h x xs fuel (off + 1) pos c.2 (omega arith))
find-Chain h a xs zero off pos c e = absurd (omega arith)

next-Chain :
    (h : Nodes) (a : ℕ) (xs : List ℕ) (pos v : ℕ)
    → Chain h.next a xs
    → get_elem? xs pos ≡ some v
    → mydrv_seq_next h v pos ≡ (get_elem? xs (suc pos), suc pos)
unfolding mydrv_seq_next
next-Chain h a [] pos v c e = ground arith
next-Chain h a (x ∷ []) zero v c e = ground arith
next-Chain h a (x ∷ y ∷ xs) zero v c e = ground arith
next-Chain h a (x ∷ xs) (suc pos) v c e = ground (arith, next-Chain h x xs pos v c.2 e)

shown-none : (h : Nodes) (fuel pos : ℕ) → shown (suc fuel) h none pos ≡ some []
unfolding shown
shown-none h fuel pos = refl

shown-some :
    (h : Nodes) (fuel v pos : ℕ) (v' : Option ℕ) (pos' : ℕ) (line : List ℕ) (rest : List (List ℕ))
    → as_format (h.info v) ≡ some line
    → mydrv_seq_next h v pos ≡ (v', pos')
    → shown fuel h v' pos' ≡ some rest
    → shown (suc fuel) h (some v) pos ≡ some (line ∷ rest)
unfolding shown mydrv_seq_show
shown-some h fuel v pos v' pos' line rest p e f =
    rw (shown, p, ap (λ r. r.0) e, ap (λ r. r.1) e, f) refl

-- `info` of each of these nodes is a format without arguments that prints this text.
abbrev pub Prints : Nodes → (ℕ → List ℕ) → List ℕ → Type 0
Prints h text [] = Unit
Prints h text (x ∷ xs) = (as_format (h.info x) ≡ some (text x)) × Prints h text xs

Prints-get :
    (h : Nodes) (text : ℕ → List ℕ) (xs : List ℕ) (pos v : ℕ)
    → Prints h text xs
    → get_elem? xs pos ≡ some v
    → as_format (h.info v) ≡ some (text v)
Prints-get h text [] pos v p g = ground arith
Prints-get h text (x ∷ xs) zero v p g = ground arith
Prints-get h text (x ∷ xs) (suc pos) v p g = Prints-get h text xs pos v p.1 g

shown-drop :
    (h : Nodes) (text : ℕ → List ℕ) (xs : List ℕ) (fuel pos : ℕ)
    → Chain h.next mydrv_list xs
    → Prints h text xs
    → suc (length (drop pos xs)) ≤ fuel
    → shown fuel h (get_elem? xs pos) pos ≡ some (map text (drop pos xs))
shown-drop h text xs zero pos c p e = absurd (omega arith)
shown-drop h text xs (suc fuel) pos c p e = elim (Option-cases (get_elem? xs pos)) [
  | inl stop ↦ rw (stop, drop-none xs pos stop) (shown-none h fuel pos)
  | inr (v, go) ↦
      rw (go, drop-some xs pos v go)
        (shown-some h fuel v pos (get_elem? xs (suc pos)) (suc pos) (text v)
          (map text (drop (suc pos) xs)) (Prints-get h text xs pos v p go)
          (next-Chain h mydrv_list xs pos v c go)
          (shown-drop h text xs fuel (suc pos) c p
            (omega (arith, e, ap length (drop-some xs pos v go)))))
]

pub start-Chain :
    (h : Nodes) (xs : List ℕ) (fuel pos : ℕ)
    → Linked h xs
    → suc (length xs) ≤ fuel
    → mydrv_seq_start fuel h pos ≡ some (get_elem? xs pos)
unfolding mydrv_seq_start
start-Chain h xs fuel pos k e =
    subst (λ q. find fuel h (h.next mydrv_list) 0 q ≡ some (get_elem? xs pos)) (omega arith)
      (find-Chain h mydrv_list xs fuel 0 pos k.chain e)

-- On a list of these nodes, `mydrv_seq_start` at a position and `mydrv_seq_next` from the iterator there
-- agree: `next` gives what `start` gives at the next position, and moves `*pos` there. So `seq_read` may
-- stop and resume anywhere. The walk of `start` ends.
pub start_after_next :
    (h : Nodes) (xs : List ℕ) (fuel pos v : ℕ)
    → Linked h xs
    → suc (length xs) ≤ fuel
    → mydrv_seq_start fuel h pos ≡ some (some v)
    → (mydrv_seq_start fuel h (pos + 1) ≡ some (mydrv_seq_next h v pos).0)
      × ((mydrv_seq_next h v pos).1 ≡ pos + 1)
start_after_next h xs fuel pos v k e at =
    let next =
      next-Chain h mydrv_list xs pos v k.chain
        (some-inj (sym (start-Chain h xs fuel pos k e) ∙ at)) in
    (
      rw (start-Chain h xs fuel (pos + 1) k e)
          (ap some (ap (get_elem? xs) (omega arith) ∙ sym (ap (λ r. r.0) next))),
      ap (λ r. r.1) next ∙ omega arith,
    )

-- On a list of these nodes, whose `info` are formats without arguments: from any position
-- `mydrv_seq_start` ends, and the protocol of `seq_read` from there shows the texts of exactly the nodes
-- from that position on, in order, and ends; fuel for one more than the nodes is enough.
pub read_from :
    (h : Nodes) (text : ℕ → List ℕ) (xs : List ℕ) (fuel pos : ℕ)
    → Linked h xs
    → Prints h text xs
    → suc (length xs) ≤ fuel
    → (first : Option ℕ) × (mydrv_seq_start fuel h pos ≡ some first)
      × (shown fuel h first pos ≡ some (map text (drop pos xs)))
read_from h text xs fuel pos k p e = (
  _,
  start-Chain h xs fuel pos k e,
  shown-drop h text xs fuel pos k.chain p (omega (arith, length-drop pos xs)),
)
