-- ===== src/ProcSeq/Nodes/Chain.antt =====
-- The shape of the list: the nodes in order, from the head and back to it.
use linux_learning_by_doing.Prelude.{ℕ, ◌≡◌, ◌≢◌, refl, sym, List, [], ◌∷◌, ◌++◌, arith}
use linux_learning_by_doing.ProcSeq.Nodes.{mydrv_list, Nodes, no_nodes, write, list_add_tail}

-- The links from `a` on lead through these nodes to the head.
abbrev pub Chain : (ℕ → ℕ) → ℕ → List ℕ → Type 0
Chain next a [] = next a ≡ mydrv_list
Chain next a (x ∷ xs) = (next a ≡ x) × (x ≢ mydrv_list) × Chain next x xs

-- The last of `a` and the nodes
abbrev pub end : ℕ → List ℕ → ℕ
end a [] = a
end a (x ∷ xs) = end x xs

abbrev pub Apart : ℕ → List ℕ → Type 0
Apart a [] = Unit
Apart a (x ∷ xs) = (a ≢ x) × Apart a xs

abbrev pub Distinct : ℕ → List ℕ → Type 0
Distinct a [] = Unit
Distinct a (x ∷ xs) = Apart a (x ∷ xs) × Distinct x xs

-- The list of these nodes, and the head's link to the last one.
pub record Linked (h : Nodes) (xs : List ℕ) : Type 0 where
  pub chain : Chain h.next mydrv_list xs
  pub tail : h.prev mydrv_list ≡ end mydrv_list xs
  pub distinct : Distinct mydrv_list xs

pub no_nodes-Linked : Linked no_nodes []
no_nodes-Linked = record { chain = refl; tail = refl; distinct = tt }

Apart-end : (a x : ℕ) (xs : List ℕ) → Apart a (x ∷ xs) → a ≢ end x xs
Apart-end a x [] h = h.0
Apart-end a x (y ∷ xs) h = Apart-end a y xs h.1

-- Linking a new node behind the last one makes the chain longer.
Chain-append :
    (next : ℕ → ℕ) (a : ℕ) (xs : List ℕ) (p : ℕ)
    → p ≢ mydrv_list
    → a ≢ p
    → Apart p xs
    → Distinct a xs
    → Chain next a xs
    → Chain (write (write next p mydrv_list) (end a xs) p) a (xs ++ (p ∷ []))
Chain-append next a [] p h ne apart d c = (ground arith, h, ground arith)
Chain-append next a (x ∷ xs) p h ne apart d c = (
  ground (arith, Apart-end a x xs d.0),
  c.1,
  Chain-append next x xs p h (ground arith) apart.1 d.1 c.2,
)

end-append : (a : ℕ) (xs : List ℕ) (p : ℕ) → end a (xs ++ (p ∷ [])) ≡ p
end-append a [] p = refl
end-append a (x ∷ xs) p = end-append x xs p

pub Apart-append : (a : ℕ) (xs : List ℕ) (p : ℕ) → a ≢ p → Apart a xs → Apart a (xs ++ (p ∷ []))
Apart-append a [] p ne h = (ne, tt)
Apart-append a (x ∷ xs) p ne h = (h.0, Apart-append a xs p ne h.1)

Distinct-append :
    (a : ℕ) (xs : List ℕ) (p : ℕ) → a ≢ p → Apart p xs → Distinct a xs → Distinct a (xs ++ (p ∷ []))
Distinct-append a [] p ne apart d = ((ne, tt), tt)
Distinct-append a (x ∷ xs) p ne apart d =
    ((d.0.0, Apart-append a xs p ne d.0.1), Distinct-append x xs p (ground arith) apart.1 d.1)

-- `list_add_tail` appends a node that is not in the list.
pub list_add_tail-Linked :
    (h : Nodes) (xs : List ℕ) (p : ℕ)
    → p ≢ mydrv_list
    → Apart p xs
    → Linked h xs
    → Linked (list_add_tail p h) (xs ++ (p ∷ []))
unfolding list_add_tail
list_add_tail-Linked h xs p ne apart k = record {
  chain =
      rw k.tail (Chain-append h.next mydrv_list xs p ne (λ e. ne (sym e)) apart k.distinct k.chain);
  tail = rw (end-append mydrv_list xs p) (ground arith);
  distinct = Distinct-append mydrv_list xs p (λ e. ne (sym e)) apart k.distinct;
}
