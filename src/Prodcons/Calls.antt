-- ===== src/Prodcons/Calls.antt =====
-- prodcons_threads.c: `bufferinit` to `putitem`, with what the library calls may answer.
pub mod Accounts
mod Tests
use linux_learning_by_doing.Prelude.{
  ℕ, ◌+◌, ◌-◌, ◌==◌, Bool, true, false, not, ◌||◌, Option, none, some, List, [], ◌∷◌, if◌then◌else◌,
}
use linux_learning_by_doing.Prodcons.Buffer.{Buffer, put_slot, get_slot}

-- <errno.h>
abbrev pub eintr : ℕ
eintr = 4

-- The globals. A semaphore that is not initialised, or destroyed, is `none`.
pub record Shared : Type 0 where
  pub buffer : Buffer
  pub semitems : Option ℕ
  pub semslots : Option ℕ
  pub seminput : Option ℕ
  pub once : Bool  -- `initonce` has been used
  pub initdone : Bool
  pub initerror : ℕ

-- An answer is an error number, or 0 where the call succeeds.
pub record InitAnswers : Type 0 where
  pub semitems : ℕ
  pub semslots : ℕ
  pub seminput : ℕ

-- After a failure for `semslots` the code goes on.
pub bufferinit : InitAnswers → Shared → ℕ × Shared
bufferinit a s =
    let s1 = record s { semitems = some 0 } in
    let s2 =
      if a.semslots == 0 then record s1 { semslots = some 5 } else record s1 { semitems = none } in
    if not (a.semitems == 0)
    then (a.semitems, s)
    else if not (a.seminput == 0)
    then (a.seminput, record s2 { semslots = none })
    else (0, record s2 { seminput = some 0 })

pub initialization : InitAnswers → Shared → Shared
unfolding bufferinit
initialization a s =
    let (error, s') = bufferinit a s in
    record s' { initerror = error; initdone = s.initdone || (error == 0) }

-- `pthread_once` runs `initialization` in the first call that succeeds.
pub bufferinitonce : ℕ → InitAnswers → Shared → ℕ × Shared
unfolding initialization
bufferinitonce once_answer a s =
    let s' = if s.once then s else record (initialization a s) { once = true } in
    if once_answer == 0 then (s'.initerror, s') else (once_answer, s)

-- `while (((error = sem_wait(...)) == -1) && (errno == EINTR)) ;` over the answers in turn: 0, or
-- the error that ends the loop. `none`: no answer ends it.
pub wait_sem : List ℕ → Option ℕ
wait_sem [] = none
wait_sem (e ∷ es) = let again = wait_sem es in if e == eintr then again else some e

pub record Answers : Type 0 where
  pub once : ℕ
  pub init : InitAnswers
  pub waits : List ℕ
  pub lock : ℕ
  pub unlock : ℕ
  pub post : ℕ

abbrev pub down : Option ℕ → Option ℕ
down none = none
down (some n) = some (n - 1)

abbrev pub up : Option ℕ → Option ℕ
up none = none
up (some n) = some (n + 1)

abbrev pub ready : Answers → Shared → Shared
ready a s = if s.initdone then s else (bufferinitonce a.once a.init s).1

-- The code returned, and the globals. `none`: `sem_wait` never ends.
pub putitem : Answers → List ℕ → Shared → Option (ℕ × Shared)
unfolding wait_sem put_slot
putitem a item s0 =
    let s = ready a s0 in
    let s1 = record s { semslots = down s.semslots } in
    let s2 = record s1 { buffer = put_slot item s1.buffer } in
    elim (wait_sem a.waits) [
      | none ↦ none
      | some error ↦
          if not (error == 0)
          then some (error, s)
          else if not (a.lock == 0)
          then some (a.lock, s1)
          else if not (a.unlock == 0)
          then some (a.unlock, s2)
          else if not (a.post == 0)
          then some (a.post, s2)
          else some (0, record s2 { semitems = up s2.semitems })
    ]

-- The code returned, the array left in `item`, if it was written, and the globals.
pub getitem : Answers → Shared → Option (ℕ × Option (List ℕ) × Shared)
unfolding wait_sem get_slot
getitem a s0 =
    let s = ready a s0 in
    let s1 = record s { semitems = down s.semitems } in
    let (item, buffer) = get_slot s1.buffer in
    let s2 = record s1 { buffer = buffer } in
    elim (wait_sem a.waits) [
      | none ↦ none
      | some error ↦
          if not (error == 0)
          then some (error, none, s)
          else if not (a.lock == 0)
          then some (a.lock, none, s1)
          else if not (a.unlock == 0)
          then some (a.unlock, some item, s2)
          else if not (a.post == 0)
          then some (a.post, some item, s2)
          else some (0, some item, record s2 { semslots = up s2.semslots })
    ]
