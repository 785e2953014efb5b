-- ===== src/Prodcons/Calls/Accounts.antt =====
-- What a call leaves in the buffer and in the two semaphores that count its slots.
use linux_learning_by_doing.Prelude.{
  ℕ, zero, suc, ◌<◌, ◌≡◌, ◌≢◌, refl, ap, ◌⊎◌, inl, inr, true, false, Option, none, some, List, [],
  ◌∷◌, ◌++◌, length, replicate, arith, ℕ_discrete,
}
use linux_learning_by_doing.Prodcons.Buffer.{bufsize, strncpy, put_slot, get_slot}
use linux_learning_by_doing.Prodcons.Buffer.Ring.{Keeps, put_slot-Keeps, get_slot-Keeps}
use linux_learning_by_doing.Prodcons.Calls.{
  Shared, Answers, InitAnswers, eintr, initialization, bufferinitonce, wait_sem, putitem, getitem,
  down, up,
}

-- The buffer holds `items`, and the semaphores have the values `free` and `full`.
pub record Holds (s : Shared) (free full : ℕ) (items : List (List ℕ)) : Type 0 where
  pub done : s.initdone ≡ true
  pub slots : s.semslots ≡ some free
  pub fulls : s.semitems ≡ some full
  pub keeps : Keeps s.buffer items

-- However often a wait is interrupted by a signal, it goes on to the first other answer.
pub wait_sem_retries :
    (n e : ℕ) (rest : List ℕ) → e ≢ eintr → wait_sem (replicate n eintr ++ (e ∷ rest)) ≡ some e
unfolding wait_sem
wait_sem_retries zero e rest ne = ground arith
wait_sem_retries (suc n) e rest ne = wait_sem_retries n e rest ne

-- With a free slot, `putitem` returns 0 and has appended the item and moved one unit from `semslots`
-- to `semitems`; or returns an error, and the buffer and the semaphores are as before, or it has
-- taken the unit from `semslots` and given none to `semitems`, with the item appended or not.
pub putitem_accounts :
    (a : Answers) (item : List ℕ) (s : Shared) (free full : ℕ) (items : List (List ℕ)) (w : ℕ)
    → Holds s (suc free) full items
    → length items < 5
    → wait_sem a.waits ≡ some w
    → let stored = items ++ (strncpy bufsize item ∷ []) in
      (code : ℕ) × (s' : Shared) × (putitem a item s ≡ some (code, s'))
      × ((code ≡ 0) × Holds s' free (suc full) stored
          ⊎ (code ≢ 0)
            × (Holds s' (suc free) full items
                ⊎ (Holds s' free full items ⊎ Holds s' free full stored)))
unfolding putitem
putitem_accounts a item s free full items w h room e = elim (ℕ_discrete w 0) [
  | no w1 ↦ (w, s, ground arith, inr (w1, inl h))
  | yes w0 ↦ elim (ℕ_discrete a.lock 0) [
    | no l1 ↦ (a.lock, taken, ground arith, inr (l1, inr (inl (kept h.keeps))))
    | yes l0 ↦ elim (ℕ_discrete a.unlock 0) [
      | no u1 ↦ (a.unlock, written, ground arith, inr (u1, inr (inr added)))
      | yes u0 ↦ elim (ℕ_discrete a.post 0) [
        | no p1 ↦ (a.post, written, ground arith, inr (p1, inr (inr added)))
        | yes p0 ↦ (0, posted, ground arith, inl (refl, done added))
      ]
    ]
  ]
]
  where
    taken : Shared
    taken = record s { semslots = down s.semslots }

    written : Shared
    written = record taken { buffer = put_slot item s.buffer }

    posted : Shared
    posted = record written { semitems = up s.semitems }

    kept : Keeps s.buffer items → Holds taken free full items
    kept k = record { done = h.done; slots = ground arith; fulls = h.fulls; keeps = k }

    done :
        Holds written free full (items ++ (strncpy bufsize item ∷ []))
        → Holds posted free (suc full) (items ++ (strncpy bufsize item ∷ []))
    done k = record { done = k.done; slots = k.slots; fulls = ground arith; keeps = k.keeps }

    added : Holds written free full (items ++ (strncpy bufsize item ∷ []))
    added = record {
      done = h.done;
      slots = ground arith;
      fulls = h.fulls;
      keeps = put_slot-Keeps s.buffer items item h.keeps room;
    }

-- With an item in the buffer, `getitem` returns 0 and has given the oldest item and moved one unit
-- from `semitems` to `semslots`; or returns an error, and the buffer and the semaphores are as before,
-- or it has taken the unit from `semitems` and given none to `semslots`, with the oldest item removed,
-- and then also given, or not.
pub getitem_accounts :
    (a : Answers) (s : Shared) (free full : ℕ) (item : List ℕ) (items : List (List ℕ)) (w : ℕ)
    → Holds s free (suc full) (item ∷ items)
    → wait_sem a.waits ≡ some w
    → (code : ℕ) × (out : Option (List ℕ)) × (s' : Shared) × (getitem a s ≡ some (code, out, s'))
      × ((code ≡ 0) × (out ≡ some item) × Holds s' (suc free) full items
          ⊎ (code ≢ 0)
            × ((out ≡ none) × Holds s' free (suc full) (item ∷ items)
                ⊎ ((out ≡ none) × Holds s' free full (item ∷ items)
                    ⊎ (out ≡ some item) × Holds s' free full items)))
unfolding getitem
getitem_accounts a s free full item items w h e = elim (ℕ_discrete w 0) [
  | no w1 ↦ (w, none, s, ground arith, inr (w1, inl (refl, h)))
  | yes w0 ↦ elim (ℕ_discrete a.lock 0) [
    | no l1 ↦ (a.lock, none, taken, ground arith, inr (l1, inr (inl (refl, kept h.keeps))))
    | yes l0 ↦ elim (ℕ_discrete a.unlock 0) [
      | no u1 ↦ (a.unlock, some got, read, ground arith, inr (u1, inr (inr (is_oldest, removed))))
      | yes u0 ↦ elim (ℕ_discrete a.post 0) [
        | no p1 ↦ (a.post, some got, read, ground arith, inr (p1, inr (inr (is_oldest, removed))))
        | yes p0 ↦ (0, some got, posted, ground arith, inl (refl, is_oldest, done removed))
      ]
    ]
  ]
]
  where
    got : List ℕ
    got = (get_slot s.buffer).0

    taken : Shared
    taken = record s { semitems = down s.semitems }

    read : Shared
    read = record taken { buffer = (get_slot s.buffer).1 }

    posted : Shared
    posted = record read { semslots = up s.semslots }

    kept : Keeps s.buffer (item ∷ items) → Holds taken free full (item ∷ items)
    kept k = record { done = h.done; slots = h.slots; fulls = ground arith; keeps = k }

    is_oldest : some got ≡ some item
    is_oldest = ap some (get_slot-Keeps s.buffer item items h.keeps).0

    removed : Holds read free full items
    removed = record {
      done = h.done;
      slots = h.slots;
      fulls = ground arith;
      keeps = (get_slot-Keeps s.buffer item items h.keeps).1;
    }

    done : Holds read free full items → Holds posted (suc free) full items
    done k = record { done = k.done; slots = ground arith; fulls = k.fulls; keeps = k.keeps }

-- Whatever a second call of `bufferinitonce` is answered, it changes nothing and returns what the
-- first did, once that was allowed to run.
pub init_once :
    (a a' : InitAnswers) (s : Shared)
    → s.once ≡ false
    → bufferinitonce 0 a' (bufferinitonce 0 a s).1 ≡ bufferinitonce 0 a s
unfolding bufferinitonce
init_once a a' s o = ground arith

-- If `semslots` alone cannot be initialised, the initialisation counts as done and reports no error,
-- with `semitems` destroyed and `semslots` as it was before.
pub init_hides_failure :
    (a : InitAnswers) (s : Shared)
    → a.semitems ≡ 0
    → a.semslots ≢ 0
    → a.seminput ≡ 0
    → let s' = initialization a s in
      (s'.initdone ≡ true) × (s'.initerror ≡ 0) × (s'.semitems ≡ none) × (s'.semslots ≡ s.semslots)
unfolding initialization
init_hides_failure a s i l p = ground arith
