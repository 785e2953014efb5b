-- ===== src/ProcSeq/Nodes.antt =====
-- proc_seq_example1.c: the nodes, as <linux/list.h> links them.
pub mod Chain
use linux_learning_by_doing.Prelude.{ℕ, ◌==◌, List, [], ◌∷◌, if◌then◌else◌}

-- An address; that of the list head `mydrv_list` is 0, and a node has another one.
abbrev pub mydrv_list : ℕ
mydrv_list = 0

-- `struct _mydrv_struct` at each address: the links of its `list`, and the bytes from `info` on.
pub record Nodes : Type 0 where
  pub next : ℕ → ℕ
  pub prev : ℕ → ℕ
  pub info : ℕ → List ℕ

-- LIST_HEAD(mydrv_list)
abbrev pub no_nodes : Nodes
no_nodes = record { next = λ p. mydrv_list; prev = λ p. mydrv_list; info = λ p. [] }

abbrev pub write {ℓ} : {A : Type ℓ} → (ℕ → A) → ℕ → A → ℕ → A
write m p v q = if p == q then v else m q

-- `list_add_tail(&p->list, &mydrv_list)`
unfoldable pub list_add_tail : ℕ → Nodes → Nodes
list_add_tail p h =
    let tail = h.prev mydrv_list in
    record h {
      next = write (write h.next p mydrv_list) tail p;
      prev = write (write h.prev mydrv_list p) p tail;
    }
