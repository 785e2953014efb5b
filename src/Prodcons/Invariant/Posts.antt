-- ===== src/Prodcons/Invariant/Posts.antt =====
-- The number of items put against the number of lines read.
use linux_learning_by_doing.Prelude.{ℕ, ◌+◌, ◌≤◌, [], ◌∷◌, length, length-append, arith}
use linux_learning_by_doing.Prodcons.Buffer.{bufsize, strncpy}
use linux_learning_by_doing.Prodcons.Threads.{
  User, Producer, System, Step, u_read, u_lock, u_copy, u_unlock, u_post, p_wait_input,
  p_lock_input, p_init, p_no_init, p_wait_slot, p_lock_data, p_put, p_unlock_data, p_post,
  p_unlock_input, c_init, c_no_init, c_wait, c_lock, c_get, c_unlock, c_post, d_lock, d_unlock,
  Reach, start, later,
}

-- 1 while the user has a line that it has not posted, and while the producer has taken a post and not
-- put its item
abbrev u_line : User → ℕ
u_line User.reading = 0
u_line _ = 1

abbrev pub p_line : Producer → ℕ
p_line Producer.wait_input = 0
p_line Producer.unlock_data = 0
p_line Producer.post_item = 0
p_line Producer.unlock_input = 0
p_line _ = 1

abbrev pub Posts : System → Type 0
Posts s = length s.put + p_line s.producer + s.seminput + u_line s.user ≤ length s.lines

Step-Posts : {s t : System} → Step s t → Posts s → Posts t
Step-Posts {s} (u_read l e) i = rw (length-append s.lines (l ∷ [])) (ground arith)
Step-Posts (u_lock l e f) i = ground arith
Step-Posts (u_copy l e) i = ground arith
Step-Posts (u_unlock e) i = ground arith
Step-Posts (u_post e) i = ground arith
Step-Posts (p_wait_input e f) i = ground arith
Step-Posts (p_lock_input e f) i = ground arith
Step-Posts (p_init e f) i = ground arith
Step-Posts (p_no_init e f) i = ground arith
Step-Posts (p_wait_slot e f) i = ground arith
Step-Posts (p_lock_data e f) i = ground arith
Step-Posts {s} (p_put e) i =
    rw (length-append s.put (strncpy bufsize s.user_input_buffer ∷ [])) (ground arith)
Step-Posts (p_unlock_data e) i = ground arith
Step-Posts (p_post e) i = ground arith
Step-Posts (p_unlock_input e) i = ground arith
Step-Posts (c_init e f) i = ground arith
Step-Posts (c_no_init e f) i = ground arith
Step-Posts (c_wait e f) i = ground arith
Step-Posts (c_lock e f) i = ground arith
Step-Posts (c_get e) i = ground arith
Step-Posts (c_unlock e) i = ground arith
Step-Posts (c_post e) i = ground arith
Step-Posts (d_lock e f) i = ground arith
Step-Posts (d_unlock e) i = ground arith

-- No more items are put than lines are read.
pub Reach-Posts : {s : System} → Reach s → Posts s
Reach-Posts start = omega arith
Reach-Posts (later r st) = Step-Posts st (Reach-Posts r)
