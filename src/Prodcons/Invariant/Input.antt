-- ===== src/Prodcons/Invariant/Input.antt =====
-- The items put against the lines read.
use linux_learning_by_doing.Prelude.{
  ℕ, ◌≡◌, refl, sym, ap, ◌∙◌, subst, ◌⊎◌, inl, inr, List, [], ◌∷◌, ◌++◌, arith,
}
use linux_learning_by_doing.Prodcons.Buffer.{bufsize, strncpy}
use mathlib.Core.List.{Memᴰ}
use mathlib.Core.List.Memᴰ
use linux_learning_by_doing.Prodcons.Buffer.Text.{strncpy-strncpy}
use linux_learning_by_doing.Prodcons.Threads.{
  User, System, Step, u_read, u_lock, u_copy, u_unlock, u_post, p_wait_input, p_lock_input, p_init,
  p_no_init, p_wait_slot, p_lock_data, p_put, p_unlock_data, p_post, p_unlock_input, c_init,
  c_no_init, c_wait, c_lock, c_get, c_unlock, c_post, d_lock, d_unlock, Reach, start, later,
}
use linux_learning_by_doing.Prodcons.Invariant.Posts.{p_line}

-- The array is the copy of one of the lines.
abbrev pub Copied : List (List ℕ) → List ℕ → Type 0
Copied lines x = (line : List ℕ) × Memᴰ line lines × (x ≡ strncpy bufsize line)

abbrev Current : List (List ℕ) → User → Type 0
Current lines (User.typed line) = Memᴰ line lines
Current lines (User.copying line) = Memᴰ line lines
Current lines _ = Unit

-- 1 from the copy on
abbrev u_copied : User → ℕ
u_copied User.leaving = 1
u_copied User.posting = 1
u_copied _ = 0

abbrev pub NotYet : System → Type 0
NotYet s = (s.seminput ≡ 0) × (p_line s.producer ≡ 0) × (u_copied s.user ≡ 0)

-- Until the first copy the producer has nothing to put.
pub record From (s : System) : Type 0 where
  pub current : Current s.lines s.user
  pub copied : Copied s.lines s.user_input_buffer ⊎ NotYet s
  pub all_put : (x : List ℕ) → Memᴰ x s.put → Copied s.lines x

more-Copied :
    (lines : List (List ℕ)) (x line : List ℕ) → Copied lines x → Copied (lines ++ (line ∷ [])) x
more-Copied lines x line (l, m, e) = (l, Memᴰ.append_left (line ∷ []) m, e)

copy-Copied :
    (lines : List (List ℕ)) (x : List ℕ) → Copied lines x → Copied lines (strncpy bufsize x)
copy-Copied lines x (l, m, e) = (l, m, ap (strncpy bufsize) e ∙ strncpy-strncpy bufsize l)

put-Copied :
    (lines put : List (List ℕ)) (x : List ℕ)
    → ((y : List ℕ) → Memᴰ y put → Copied lines y)
    → Copied lines x
    → (y : List ℕ) → Memᴰ y (put ++ (x ∷ []))
    → Copied lines y
put-Copied lines put x all c y m = elim (Memᴰ.append_cases put m) [
  | inl old ↦ all y old
  | inr new ↦ subst (Copied lines) (sym (Memᴰ.eq_of_singleton new)) c
]

-- A step that changes neither the lines nor what was put.
same_lines :
    {t : System}
    → Current t.lines t.user
    → ((x : List ℕ) → Memᴰ x t.put → Copied t.lines x)
    → (Copied t.lines t.user_input_buffer ⊎ NotYet t)
    → From t
same_lines u p c = record { current = u; copied = c; all_put = p }

Step-From : {s t : System} → Step s t → From s → From t
Step-From {s} (u_read l e) i = record {
  current = Memᴰ.append_right s.lines (Memᴰ.head refl);
  copied = elim i.copied [
    | inl c ↦ inl (more-Copied s.lines s.user_input_buffer l c)
    | inr (a, b, c) ↦ inr (a, b, refl)
  ];
  all_put = λ x m. more-Copied s.lines x l (i.all_put x m);
}
Step-From {s} (u_lock l e f) i = record {
  current = subst (Current s.lines) e i.current;
  copied = ground arith;
  all_put = i.all_put;
}
Step-From {s} (u_copy l e) i = record {
  current = tt;
  copied = inl (l, subst (Current s.lines) e i.current, refl);
  all_put = i.all_put;
}
Step-From {s} (p_put e) i = record {
  current = i.current;
  copied = elim i.copied [ inl c ↦ inl c | inr (a, b, c) ↦ absurd (ground arith) ];
  all_put = elim i.copied [
    | inl c ↦
        put-Copied s.lines s.put (strncpy bufsize s.user_input_buffer) i.all_put
          (copy-Copied s.lines s.user_input_buffer c)
    | inr (a, b, c) ↦ absurd (ground arith)
  ];
}
Step-From (u_unlock e) i = record { current = tt; copied = ground arith; all_put = i.all_put }
Step-From (u_post e) i = record { current = tt; copied = ground arith; all_put = i.all_put }
Step-From (p_wait_input e f) i = same_lines i.current i.all_put (ground arith)
Step-From (p_lock_input e f) i = same_lines i.current i.all_put (ground arith)
Step-From (p_init e f) i = same_lines i.current i.all_put (ground arith)
Step-From (p_no_init e f) i = same_lines i.current i.all_put (ground arith)
Step-From (p_wait_slot e f) i = same_lines i.current i.all_put (ground arith)
Step-From (p_lock_data e f) i = same_lines i.current i.all_put (ground arith)
Step-From (p_unlock_data e) i = same_lines i.current i.all_put (ground arith)
Step-From (p_post e) i = same_lines i.current i.all_put (ground arith)
Step-From (p_unlock_input e) i = same_lines i.current i.all_put (ground arith)
Step-From (c_init e f) i = same_lines i.current i.all_put (ground arith)
Step-From (c_no_init e f) i = same_lines i.current i.all_put (ground arith)
Step-From (c_wait e f) i = same_lines i.current i.all_put (ground arith)
Step-From (c_lock e f) i = same_lines i.current i.all_put (ground arith)
Step-From (c_get e) i = same_lines i.current i.all_put (ground arith)
Step-From (c_unlock e) i = same_lines i.current i.all_put (ground arith)
Step-From (c_post e) i = same_lines i.current i.all_put (ground arith)
Step-From (d_lock e f) i = same_lines i.current i.all_put (ground arith)
Step-From (d_unlock e) i = same_lines i.current i.all_put (ground arith)

pub Reach-From : {s : System} → Reach s → From s
Reach-From start = record {
  current = tt;
  copied = inr (refl, refl, refl);
  all_put = λ x m. absurd (Memᴰ.not-nil m);
}
Reach-From (later r st) = Step-From st (Reach-From r)
