-- ===== src/Audio/Sources.antt =====
-- The list of sources of SourceInterface.cpp: an unordered map, iterated in some order.
use mathlib.Core.List.{Pairwise, Memᴰ, Permᴰ}
use mathlib.Core.List.Permᴰ
use mathlib.Core.List.{mem-cons_self}
use mathlib.Core.Path.{fun_ext}
use mathlib.Core.Quot
use mathlib.Core.Quot.{Quot}
use mathlib.Core.HLevel.{¬_prop}
use linux_learning_by_doing.Prelude.{
  ℕ, ◌≡◌, refl, sym, ap, ap₂, ◌∙◌, ◌≢◌, ◌==◌, Option, some, List, [], ◌∷◌, ◌++◌, if◌then◌else◌,
  arith,
}
use linux_learning_by_doing.Audio.{
  Interface, collect, on_ent_source_list, no_entries, entries, str_entsourcelist, resource_update,
}

-- The two have different keys.
abbrev pub OtherKey : ℕ × ℕ → ℕ × ℕ → Type 0
OtherKey a b = a.0 ≢ b.0

-- The keys of a map are distinct.
abbrev pub DistinctKeys : List (ℕ × ℕ) → Type 0
DistinctKeys = Pairwise OtherKey

-- Two assignments to different keys in either order
assign_swap :
    (a b : ℕ × ℕ) (data_ : ℕ → Option ℕ) (j : ℕ)
    → a.0 ≢ b.0
    → (if b.0 == j then some b.1 else if a.0 == j then some a.1 else data_ j)
      ≡ (if a.0 == j then some a.1 else if b.0 == j then some b.1 else data_ j)
assign_swap a b data_ j h = ground arith

collect_any_order :
    {xs ys : List (ℕ × ℕ)}
    → Permᴰ xs ys
    → DistinctKeys xs
    → (data_ : ℕ → Option ℕ) → collect xs data_ ≡ collect ys data_
unfolding collect
collect_any_order Permᴰ.nil h data_ = refl
collect_any_order (Permᴰ.cons {a} {b} {l₁} {l₂} e p) (Pairwise.cons r h) data_ =
    collect_any_order p h _ ∙ ap (λ c. collect (c ∷ l₂) data_) e
collect_any_order (Permᴰ.swap {a} {b} {a'} {b'} {l} e e') (Pairwise.cons r h) data_ =
    ap (collect l) (fun_ext (λ j. assign_swap a b data_ j (r b mem-cons_self)))
    ∙ ap₂ (λ c d. collect (c ∷ d ∷ l) data_) e' e
collect_any_order (Permᴰ.trans p q) h data_ =
    collect_any_order p h data_
    ∙ collect_any_order q (Permᴰ.pairwise (λ a b. ¬_prop) (λ a b n e. n (sym e)) p h) data_

assign_other :
    (x : ℕ × ℕ) (k : ℕ) (data_ : ℕ → Option ℕ)
    → k ≢ x.0
    → (if x.0 == k then some x.1 else data_ k) ≡ data_ k
assign_other x k data_ h = ground arith

assign_same :
    (x : ℕ × ℕ) (data_ : ℕ → Option ℕ) → (if x.0 == x.0 then some x.1 else data_ x.0) ≡ some x.1
assign_same x data_ = ground arith

collect_absent :
    (xs : List (ℕ × ℕ)) (k : ℕ) (data_ : ℕ → Option ℕ)
    → ((b : ℕ × ℕ) → Memᴰ b xs → k ≢ b.0)
    → collect xs data_ k ≡ data_ k
unfolding collect
collect_absent [] k data_ h = refl
collect_absent (x ∷ xs) k data_ h =
    collect_absent xs k _ (λ b m. h b (Memᴰ.tail m)) ∙ assign_other x k data_ (h x (Memᴰ.head refl))

collect_reads :
    (xs : List (ℕ × ℕ)) (data_ : ℕ → Option ℕ) (c : ℕ × ℕ)
    → DistinctKeys xs
    → Memᴰ c xs
    → collect xs data_ c.0 ≡ some c.1
unfolding collect
collect_reads [] data_ c h m = elim m [ ]
collect_reads (x ∷ xs) data_ c (Pairwise.cons r h) (Memᴰ.head e) =
    ap (λ (b : ℕ × ℕ). collect xs (λ j. if x.0 == j then some x.1 else data_ j) b.0) e
    ∙ collect_absent xs x.0 _ (λ b m. r b ∣ m ∣₁)
    ∙ assign_same x data_
    ∙ ap (λ (b : ℕ × ℕ). some b.1) (sym e)
collect_reads (x ∷ xs) data_ c (Pairwise.cons r h) (Memᴰ.tail m) = collect_reads xs _ c h m

-- The entries of an unordered map in one order of iteration
abbrev pub Iteration : Type 0
Iteration = (xs : List (ℕ × ℕ)) × DistinctKeys xs

abbrev pub SameEntries : Iteration → Iteration → Type 0
SameEntries x y = Permᴰ x.0 y.0

-- The unordered map itself: an iteration, whose order is forgotten
abbrev pub SourceList : Type 0
SourceList = Quot SameEntries

abbrev pub map_of : Iteration → SourceList
map_of x = Quot.mk x

abbrev entries_of : Iteration → ℕ → Option ℕ
entries_of x = collect x.0 no_entries

entries_same : (x y : Iteration) → SameEntries x y → entries_of x ≡ entries_of y
entries_same x y p = collect_any_order p x.1 no_entries

-- What is reported of an unordered map
reported : SourceList → ℕ → Option ℕ
reported = Quot.lift (hlevel) entries_of entries_same

reported-map_of : (x : Iteration) → reported (map_of x) ≡ collect x.0 no_entries
unfolding reported
reported-map_of x = refl

-- Two iterations of the same unordered map of sources: `ReceiveEntSourceList` leaves the same object
-- after either. It emits one update, whose map has the availability of every source of the list.
pub source_list_reported :
    (x y : Iteration) (s : Interface)
    → map_of x ≡ map_of y
    → (on_ent_source_list y.0 s ≡ on_ent_source_list x.0 s)
      × ((on_ent_source_list x.0 s).updates
          ≡ s.updates ++ ((str_entsourcelist, entries (collect x.0 no_entries)) ∷ []))
      × ((c : ℕ × ℕ) → Memᴰ c x.0 → collect x.0 no_entries c.0 ≡ some c.1)
unfolding on_ent_source_list
source_list_reported x y s h = (
  ap (λ m. resource_update str_entsourcelist (entries m) s)
      (sym (reported-map_of y) ∙ ap reported (sym h) ∙ reported-map_of x),
  refl,
  λ c. collect_reads x.0 no_entries c x.1,
)
