-- ===== src/ProcSeq/Iterator.antt =====
-- proc_seq_example1.c: the `seq_operations` of /proc/readme.
pub mod Walk
use linux_learning_by_doing.Prelude.{
  ℕ, zero, suc, ◌+◌, ◌==◌, Option, none, some, List, [], ◌∷◌, if◌then◌else◌,
}
use linux_learning_by_doing.ProcSeq.Format.{as_format}
use linux_learning_by_doing.ProcSeq.Nodes.{mydrv_list, Nodes}

-- `list_for_each_entry` of `mydrv_seq_start` from the node `p` on, with `off` counted so far. The outer
-- `none`: out of fuel. The inner one is NULL.
pub find : ℕ → Nodes → ℕ → ℕ → ℕ → Option (Option ℕ)
find zero h p off pos = none
find (suc fuel) h p off pos =
    let later = find fuel h (h.next p) (off + 1) pos in
    if p == mydrv_list then some none else if pos == off then some (some p) else later

unfoldable pub mydrv_seq_start : ℕ → Nodes → ℕ → Option (Option ℕ)
unfolding find
mydrv_seq_start fuel h pos = find fuel h (h.next mydrv_list) 0 pos

-- The iterator, or NULL, and `*pos`.
pub mydrv_seq_next : Nodes → ℕ → ℕ → Option ℕ × ℕ
mydrv_seq_next h v pos = let n = h.next v in (if n == mydrv_list then none else some n, pos + 1)

-- What `mydrv_seq_show` prints: `info` is a format. `none`: it asks for arguments that are not there.
pub mydrv_seq_show : Nodes → ℕ → Option (List ℕ)
mydrv_seq_show h v = as_format (h.info v)

-- The protocol of `seq_read`, as documented: `show` what `start` gave, then what `next` gives, until it
-- is NULL.
pub shown : ℕ → Nodes → Option ℕ → ℕ → Option (List (List ℕ))
unfolding mydrv_seq_next mydrv_seq_show
shown zero h v pos = none
shown (suc fuel) h none pos = some []
shown (suc fuel) h (some v) pos =
    let (v', pos') = mydrv_seq_next h v pos in
    let rest = shown fuel h v' pos' in
    elim (mydrv_seq_show h v) [
      | none ↦ none
      | some line ↦ elim rest [ none ↦ none | some lines ↦ some (line ∷ lines) ]
    ]
