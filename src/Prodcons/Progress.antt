-- ===== src/Prodcons/Progress.antt =====
-- When the threads of prodcons_threads.c come to rest.
pub mod Settles
pub mod Cancelled
use linux_learning_by_doing.Prelude.{
  ℕ, zero, suc, ◌+◌, ◌-◌, ◌≤◌, ◌<◌, ◌≡◌, ◌⊎◌, inl, inr, refl, sym, ap, ◌∙◌, Bool, true, false,
  Bool-cases, List, [], ◌∷◌, ◌++◌, append-nil, length, pos, arith, dec_lt,
}
use linux_learning_by_doing.Prodcons.Buffer.Ring.{Keeps}
use linux_learning_by_doing.Prodcons.Threads.{
  User, Producer, Consumer, Display, InputOwner, DataOwner, System, Step, u_lock, u_copy, u_unlock,
  u_post, p_wait_input, p_lock_input, p_init, p_no_init, p_wait_slot, p_lock_data, p_put,
  p_unlock_data, p_post, p_unlock_input, c_init, c_no_init, c_wait, c_lock, c_get, c_unlock, c_post,
  d_unlock, Reach,
}
use linux_learning_by_doing.Prodcons.Invariant.{Inv, Reach-Kept}
use linux_learning_by_doing.Prodcons.Invariant.Places.{u_input, p_data, c_data, d_data, Control}

-- A step that reads no new line, and in which the display thread does not take the lock
abbrev pub CanMove : System → Type 0
CanMove s = (t : System) × Step s t × (t.lines ≡ s.lines) × (d_data t.display ≤ d_data s.display)

abbrev pub ConsumerWaits : System → Type 0
ConsumerWaits s = (s.consumer ≡ Consumer.wait_item) × (s.semitems ≡ 0)

abbrev pub ProducerWaits : System → Type 0
ProducerWaits s = (s.producer ≡ Producer.wait_input) × (s.seminput ≡ 0)

moved :
    {s t : System} → Step s t → t.lines ≡ s.lines → d_data t.display ≤ d_data s.display → CanMove s
moved {t = t} p l d = (t, p, l, d)

data-cases : (p : Producer) → (p ≡ Producer.putting) ⊎ ((p ≡ Producer.unlock_data) ⊎ (p_data p ≡ 0))
data-cases Producer.putting = inl refl
data-cases Producer.unlock_data = inr (inl refl)
data-cases Producer.wait_input = inr (inr refl)
data-cases Producer.lock_input = inr (inr refl)
data-cases Producer.check_init = inr (inr refl)
data-cases Producer.wait_slot = inr (inr refl)
data-cases Producer.lock_data = inr (inr refl)
data-cases Producer.post_item = inr (inr refl)
data-cases Producer.unlock_input = inr (inr refl)

consumer-moves :
    (s : System) (c : Consumer) (n : ℕ)
    → s.consumer ≡ c
    → s.display ≡ Display.outside
    → Control s n
    → CanMove s ⊎ ConsumerWaits s
consumer-moves s Consumer.check_init n e d k = elim (Bool-cases s.initdone) [
  | inl t ↦ inl (_, c_no_init e t, refl, omega arith)
  | inr f ↦ inl (_, c_init e f, refl, omega arith)
]
consumer-moves s Consumer.wait_item n e d k = elim (dec_lt 0 s.semitems) [
  | yes some ↦ inl (_, c_wait e some, refl, omega arith)
  | no none ↦ inr (e, omega arith)
]
consumer-moves s Consumer.lock_data n e d k = elim (data-cases s.producer) [
  | inl p ↦ inl (_, p_put p, refl, omega arith)
  | inr (inl p) ↦ inl (_, p_unlock_data p, refl, omega arith)
  | inr (inr none) ↦ inl (_, c_lock e (ground arith), refl, omega arith)
]
consumer-moves s Consumer.getting n e d k = inl (_, c_get e, refl, omega arith)
consumer-moves s Consumer.unlock_data n e d k = inl (_, c_unlock e, refl, omega arith)
consumer-moves s Consumer.post_slot n e d k = inl (_, c_post e, refl, omega arith)

producer-moves :
    (s : System) (p : Producer) (n : ℕ)
    → s.producer ≡ p
    → s.display ≡ Display.outside
    → u_input s.user ≡ 0
    → ConsumerWaits s
    → Control s n
    → CanMove s ⊎ ProducerWaits s
producer-moves s Producer.wait_input n e d u w k = elim (dec_lt 0 s.seminput) [
  | yes some ↦ inl (_, p_wait_input e some, refl, omega arith)
  | no none ↦ inr (e, omega arith)
]
producer-moves s Producer.lock_input n e d u w k =
    inl (_, p_lock_input e (ground arith), refl, omega arith)
producer-moves s Producer.check_init n e d u w k = elim (Bool-cases s.initdone) [
  | inl t ↦ inl (_, p_no_init e t, refl, omega arith)
  | inr f ↦ inl (_, p_init e f, refl, omega arith)
]
producer-moves s Producer.wait_slot n e d u w k =
    inl (_, p_wait_slot e (ground arith), refl, omega arith)
producer-moves s Producer.lock_data n e d u w k =
    inl (_, p_lock_data e (ground arith), refl, omega arith)
producer-moves s Producer.putting n e d u w k = inl (_, p_put e, refl, omega arith)
producer-moves s Producer.unlock_data n e d u w k = inl (_, p_unlock_data e, refl, omega arith)
producer-moves s Producer.post_item n e d u w k = inl (_, p_post e, refl, omega arith)
producer-moves s Producer.unlock_input n e d u w k = inl (_, p_unlock_input e, refl, omega arith)

-- Everything that was read and posted has been put and got, and the user waits for the next line.
pub record AtRest (s : System) : Type 0 where
  pub user : s.user ≡ User.reading
  pub producer : ProducerWaits s
  pub consumer : ConsumerWaits s
  pub all_got : s.put ≡ s.got
  pub empty : s.buffer.filledslots ≡ pos 0

user-moves : (s : System) (u : User) → s.user ≡ u → (CanMove s ⊎ (u_input s.user ≡ 0))
user-moves s User.reading e = inr (ground arith)
user-moves s (User.typed l) e = inr (ground arith)
user-moves s (User.copying l) e = inl (_, u_copy l e, refl, omega arith)
user-moves s User.leaving e = inl (_, u_unlock e, refl, omega arith)
user-moves s User.posting e = inl (_, u_post e, refl, omega arith)

length-zero : (items : List (List ℕ)) → length items ≡ 0 → items ≡ []
length-zero [] e = refl
length-zero (x ∷ items) e = absurd (omega arith)

rest-moves :
    (s : System) (u : User) (items : List (List ℕ))
    → s.user ≡ u
    → u_input s.user ≡ 0
    → ConsumerWaits s
    → ProducerWaits s
    → Inv s items
    → CanMove s ⊎ AtRest s
rest-moves s User.reading items e z c p i =
    let k = i.control in
    let none : length items ≡ 0 = ground arith in
    inr (record {
      user = e;
      producer = p;
      consumer = c;
      all_got = i.in_order ∙ ap (λ l. s.got ++ l) (length-zero items none) ∙ append-nil s.got;
      empty = i.keeps.filled ∙ ap pos none;
    })
rest-moves s (User.typed l) items e z c p i =
    let k = i.control in inl (_, u_lock l e (ground arith), refl, omega arith)
rest-moves s (User.copying l) items e z c p i = absurd (ground arith)
rest-moves s User.leaving items e z c p i = absurd (ground arith)
rest-moves s User.posting items e z c p i = inl (_, u_post e, refl, omega arith)

Display-cases : (d : Display) → (d ≡ Display.inside) ⊎ (d ≡ Display.outside)
Display-cases Display.inside = inl refl
Display-cases Display.outside = inr refl

-- No deadlock: from every reachable state a thread can go on without a new line of input and without
-- the display thread taking the lock again; or the program is at rest, with every semaphore that a
-- thread waits at 0, the user before its next line, and everything that was put also got.
pub buffer_progress : {s : System} → Reach s → CanMove s ⊎ AtRest s
buffer_progress {s} r =
    let (items, i) = Reach-Kept r in
    elim (Display-cases s.display) [
      | inl d ↦ inl (_, d_unlock d, refl, ground arith)
      | inr d ↦ elim (user-moves s s.user refl) [
        | inl m ↦ inl m
        | inr u ↦ elim (consumer-moves s s.consumer (length items) refl d i.control) [
          | inl m ↦ inl m
          | inr c ↦ elim (producer-moves s s.producer (length items) refl d u c i.control) [
            | inl m ↦ inl m
            | inr p ↦ rest-moves s s.user items refl u c p i
          ]
        ]
      ]
    ]
