-- ===== src/Prodcons/Invariant.antt =====
-- What holds in every state that the four threads reach.
pub mod Places
pub mod Posts
pub mod Input
use linux_learning_by_doing.Prelude.{
  ℕ, suc, ◌+◌, ◌<◌, ◌≡◌, refl, sym, ap, ◌∙◌, List, [], ◌∷◌, ◌++◌, append_assoc, append-nil, length,
  length-append, arith,
}
use linux_learning_by_doing.Prodcons.Buffer.{bufsize, strncpy, put_slot, get_slot}
use linux_learning_by_doing.Prodcons.Buffer.Ring.{
  Keeps, empty-Keeps, put_slot-Keeps, get_slot-Keeps,
}
use linux_learning_by_doing.Prodcons.Threads.{
  Producer, Consumer, System, Step, initial, u_read, u_lock, u_copy, u_unlock, u_post, p_wait_input,
  p_lock_input, p_init, p_no_init, p_wait_slot, p_lock_data, p_put, p_unlock_data, p_post,
  p_unlock_input, c_init, c_no_init, c_wait, c_lock, c_get, c_unlock, c_post, d_lock, d_unlock,
  Reach, start, later,
}
use linux_learning_by_doing.Prodcons.Invariant.Places.{
  Control, initial-Control, p_put-Control, c_get-Control, putting-lt, getting-pos,
}

-- The buffer keeps these items, and what was put is what was got and then these.
pub record Inv (s : System) (items : List (List ℕ)) : Type 0 where
  pub control : Control s (length items)
  pub keeps : Keeps s.buffer items
  pub in_order : s.put ≡ s.got ++ items

-- A step keeps the invariant, with items that it may change.
abbrev Kept : System → Type 0
Kept t = (items : List (List ℕ)) × Inv t items

put-Kept :
    (s : System) (items : List (List ℕ))
    → s.producer ≡ Producer.putting
    → Inv s items
    → Kept (record s {
      buffer = put_slot s.user_input_buffer s.buffer;
      put = s.put ++ (strncpy bufsize s.user_input_buffer ∷ []);
      producer = Producer.unlock_data;
    })
put-Kept s items e i = (
  items ++ (item ∷ []),
  record {
    control = rw (length-append items (item ∷ [])) (p_put-Control s (length items) e i.control);
    keeps =
        put_slot-Keeps s.buffer items s.user_input_buffer i.keeps
          (omega (arith, putting-lt s (length items) e i.control));
    in_order = ap (λ l. l ++ (item ∷ [])) i.in_order ∙ append_assoc s.got items (item ∷ []);
  },
)
  where
    item : List ℕ
    item = strncpy bufsize s.user_input_buffer

get-Kept :
    (s : System) (items : List (List ℕ))
    → s.consumer ≡ Consumer.getting
    → Inv s items
    → Kept (record s {
      buffer = (get_slot s.buffer).1;
      got = s.got ++ ((get_slot s.buffer).0 ∷ []);
      consumer = Consumer.unlock_data;
    })
get-Kept s [] e i = absurd (omega (arith, getting-pos s 0 e i.control))
get-Kept s (item ∷ items) e i = (
  items,
  record {
    control = c_get-Control s (length items) e i.control;
    keeps = (get_slot-Keeps s.buffer item items i.keeps).1;
    in_order =
        i.in_order
        ∙ sym (append_assoc s.got (item ∷ []) items)
        ∙ ap (λ x. (s.got ++ (x ∷ [])) ++ items)
            (sym (get_slot-Keeps s.buffer item items i.keeps).0);
  },
)

-- A step that changes neither the buffer nor the history.
same_items :
    {t : System} {items : List (List ℕ)}
    → Keeps t.buffer items
    → t.put ≡ t.got ++ items
    → Control t (length items)
    → Kept t
same_items {items = items} k o c = (items, record { control = c; keeps = k; in_order = o })

pub Step-Kept : {s t : System} (items : List (List ℕ)) → Step s t → Inv s items → Kept t
Step-Kept items (u_read l e) i = same_items i.keeps i.in_order (ground arith)
Step-Kept items (u_lock l e f) i = same_items i.keeps i.in_order (ground arith)
Step-Kept items (u_copy l e) i = same_items i.keeps i.in_order (ground arith)
Step-Kept items (u_unlock e) i = same_items i.keeps i.in_order (ground arith)
Step-Kept items (u_post e) i = same_items i.keeps i.in_order (ground arith)
Step-Kept items (p_wait_input e f) i = same_items i.keeps i.in_order (ground arith)
Step-Kept items (p_lock_input e f) i = same_items i.keeps i.in_order (ground arith)
Step-Kept items (p_init e f) i = same_items i.keeps i.in_order (ground arith)
Step-Kept items (p_no_init e f) i = same_items i.keeps i.in_order (ground arith)
Step-Kept items (p_wait_slot e f) i = same_items i.keeps i.in_order (ground arith)
Step-Kept items (p_lock_data e f) i = same_items i.keeps i.in_order (ground arith)
Step-Kept {s} items (p_put e) i = put-Kept s items e i
Step-Kept items (p_unlock_data e) i = same_items i.keeps i.in_order (ground arith)
Step-Kept items (p_post e) i = same_items i.keeps i.in_order (ground arith)
Step-Kept items (p_unlock_input e) i = same_items i.keeps i.in_order (ground arith)
Step-Kept items (c_init e f) i = same_items i.keeps i.in_order (ground arith)
Step-Kept items (c_no_init e f) i = same_items i.keeps i.in_order (ground arith)
Step-Kept items (c_wait e f) i = same_items i.keeps i.in_order (ground arith)
Step-Kept items (c_lock e f) i = same_items i.keeps i.in_order (ground arith)
Step-Kept {s} items (c_get e) i = get-Kept s items e i
Step-Kept items (c_unlock e) i = same_items i.keeps i.in_order (ground arith)
Step-Kept items (c_post e) i = same_items i.keeps i.in_order (ground arith)
Step-Kept items (d_lock e f) i = same_items i.keeps i.in_order (ground arith)
Step-Kept items (d_unlock e) i = same_items i.keeps i.in_order (ground arith)

pub Reach-Kept : {s : System} → Reach s → Kept s
Reach-Kept start = ([], record { control = initial-Control; keeps = empty-Keeps; in_order = refl })
Reach-Kept (later r st) = let (items, i) = Reach-Kept r in Step-Kept items st i
