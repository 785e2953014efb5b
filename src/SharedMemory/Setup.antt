-- ===== src/SharedMemory/Setup.antt =====
-- a1_p.c and a1_c.c up to their loops: the segment and the semaphore that both find under the same key.
mod Tests
use linux_learning_by_doing.Prelude.{
  ℕ, ◌≡◌, ◌⊎◌, inl, inr, refl, Bool, true, false, not, Option, none, some, List, [], ◌∷◌,
  if◌then◌else◌, arith,
}
use linux_learning_by_doing.SharedMemory.Processes.{Shmem, empty_shmem}
use linux_learning_by_doing.SharedMemory.Forked.{fresh}

-- What the kernel has under the key: the segment, and the value of the semaphore, which stay when a process
-- ends.
pub record Ipc : Type 0 where
  pub segment : Option Shmem
  pub semaphore : Option ℕ

-- Whether the calls of one process succeed
pub record Answers : Type 0 where
  pub shmget : Bool
  pub semget : Bool
  pub setall : Bool
  pub shmat : Bool

-- A process exits, is killed at its first use of the segment that is not attached, or goes into its
-- loop.
pub data Start : Type 0 where
  exited : ℕ → Ipc → Start
  killed : Ipc → Start
  looping : Ipc → Start

abbrev pub ipc_of : Start → Ipc
ipc_of (exited n k) = k
ipc_of (killed k) = k
ipc_of (looping k) = k

abbrev or_new {ℓ} : {A : Type ℓ} → A → Option A → Option A
or_new a none = some a
or_new a (some b) = some b

-- With IPC_CREAT a segment or a semaphore that is not there yet is made, and zero.
abbrev pub get_segment : Bool → Ipc → Ipc
get_segment false k = k
get_segment true k = record k { segment = or_new fresh k.segment }

abbrev pub get_semaphore : Bool → Ipc → Ipc
get_semaphore false k = k
get_semaphore true k = record k { semaphore = or_new 0 k.semaphore }

-- `main` of a1_p.c: only the answer of `shmget` is tested. `semctl` with SETALL fails too where `semget` has,
-- and `shmat` answers an address that cannot be written to where it fails.
unfoldable pub setup_producer : Answers → Ipc → Start
setup_producer a k0 =
    let k = get_semaphore a.semget (get_segment a.shmget k0) in
    let k1 = if a.setall then (if a.semget then record k { semaphore = some 1 } else k) else k in
    if not a.shmget
    then exited 1 k
    else if not a.shmat
    then killed k1
    else looping (record k1 { segment = some empty_shmem })

-- `main` of a1_c.c: `shma<0` is never true of a pointer, so that its third test finds no failure.
unfoldable pub setup_consumer : Answers → Ipc → Start
setup_consumer a k0 =
    let k = get_segment a.shmget k0 in
    let k1 = get_semaphore a.semget k in
    if not a.shmget
    then exited 0 k
    else if not a.semget
    then exited 0 k1
    else if not a.shmat
    then killed k1
    else looping k1

-- Processes that are started one after the other; those that are there go on as they are.
pub data Process : Type 0 where
  producer consumer : Answers → Process

unfoldable pub start_all : List Process → Ipc → Ipc
unfolding setup_producer setup_consumer
start_all [] k = k
start_all (producer a ∷ ps) k = start_all ps (ipc_of (setup_producer a k))
start_all (consumer a ∷ ps) k = start_all ps (ipc_of (setup_consumer a k))

abbrev pub nothing : Ipc
nothing = record { segment = none; semaphore = none }

-- No `semctl` with SETALL succeeds, since it is given the number 1 as an address.
abbrev pub NoneSet : List Process → Type 0
NoneSet [] = Unit
NoneSet (producer a ∷ ps) = (a.setall ≡ false) × NoneSet ps
NoneSet (consumer a ∷ ps) = NoneSet ps

-- No segment yet, or a ring with no characters, of 50 places or, before a producer has set it, of none
abbrev pub Empty : Ipc → Type 0
Empty k = (k.segment ≡ none) ⊎ (k.segment ≡ some fresh) ⊎ (k.segment ≡ some empty_shmem)

abbrev pub Down : Ipc → Type 0
Down k = (k.semaphore ≡ none) ⊎ (k.semaphore ≡ some 0)

producer-Empty : (a : Answers) (k : Ipc) → Empty k → Empty (ipc_of (setup_producer a k))
unfolding setup_producer
producer-Empty a k e = ground arith

consumer-Empty : (a : Answers) (k : Ipc) → Empty k → Empty (ipc_of (setup_consumer a k))
unfolding setup_consumer
consumer-Empty a k e = ground arith

producer-Down :
    (a : Answers) (k : Ipc) → a.setall ≡ false → Down k → Down (ipc_of (setup_producer a k))
unfolding setup_producer
producer-Down a k f e = ground arith

consumer-Down : (a : Answers) (k : Ipc) → Down k → Down (ipc_of (setup_consumer a k))
unfolding setup_consumer
consumer-Down a k e = ground arith

starts-Empty : (ps : List Process) (k : Ipc) → Empty k → Empty (start_all ps k)
unfolding start_all
starts-Empty [] k e = e
starts-Empty (producer a ∷ ps) k e =
    starts-Empty ps (ipc_of (setup_producer a k)) (producer-Empty a k e)
starts-Empty (consumer a ∷ ps) k e =
    starts-Empty ps (ipc_of (setup_consumer a k)) (consumer-Empty a k e)

starts-Down : (ps : List Process) (k : Ipc) → NoneSet ps → Down k → Down (start_all ps k)
unfolding start_all
starts-Down [] k n e = e
starts-Down (producer a ∷ ps) k n e =
    starts-Down ps (ipc_of (setup_producer a k)) n.1 (producer-Down a k n.0 e)
starts-Down (consumer a ∷ ps) k n e =
    starts-Down ps (ipc_of (setup_consumer a k)) n (consumer-Down a k e)

-- Whatever processes are started one after the other with nothing under the key before, each with any
-- answers of the calls but for SETALL, which fails: before any takes a step of its loop, the segment is
-- not there, or holds no characters; and the semaphore is not there or is 0, and never 1 as the code
-- means.
pub starts_find_nothing :
    (ps : List Process) → NoneSet ps → Empty (start_all ps nothing) × Down (start_all ps nothing)
starts_find_nothing ps n = (starts-Empty ps nothing (inl refl), starts-Down ps nothing n (inl refl))

abbrev pub status : Start → Option ℕ
status (exited n k) = some n
status (killed k) = none
status (looping k) = none

abbrev pub loops : Start → Bool
loops (looping k) = true
loops _ = false
