-- ===== src/SharedMemory/Setup/Tests.antt =====
-- A consumer that is started first, and a producer that finds what another left.
use linux_learning_by_doing.Prelude.{refl, true, false, some, [], ◌∷◌}
use linux_learning_by_doing.SharedMemory.Processes.{Shmem, empty_shmem}
use linux_learning_by_doing.SharedMemory.Setup.{
  Answers, Ipc, producer, consumer, start_all, nothing, Empty, Down, starts_find_nothing,
}

abbrev good : Answers
good = record { shmget = true; semget = true; setall = false; shmat = true }

starts_find_nothing_test :
    Empty (start_all (consumer good ∷ producer good ∷ []) nothing)
    × Down (start_all (consumer good ∷ producer good ∷ []) nothing)
starts_find_nothing_test = starts_find_nothing (consumer good ∷ producer good ∷ []) (refl, tt)

-- Three characters that nobody has printed.
abbrev left : Shmem
left = record empty_shmem { a = λ i. 120; count = 3; out = 3 }

abbrev used : Ipc
used = record { segment = some left; semaphore = some 0 }
