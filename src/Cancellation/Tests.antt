-- ===== src/Cancellation/Tests.antt =====
-- Cancelled in the sleep, with the mutex.
use linux_learning_by_doing.Prelude.{◌+◌, ◌*◌, ◌<◌, ◌≡◌, ◌↔◌, true, false, [], ◌∷◌}
use linux_learning_by_doing.Cancellation.{cleanup1, cleanup2, fresh, run, thread_func1}
use linux_learning_by_doing.Cancellation.Releases.{
  thread_of, is_cancelled, number, thread_func1_releases,
}

thread_func1_releases_example :
    ((thread_of (run true 2 (thread_func1 true) fresh)).holds ≡ false)
    × ((thread_of (run true 2 (thread_func1 true) fresh)).handlers ≡ [])
    × ((thread_of (run true 2 (thread_func1 true) fresh)).ran ≡ cleanup2 ∷ cleanup1 ∷ [])
    × (((thread_of (run true 2 (thread_func1 true) fresh)).misused ≡ true)
        ↔ ((true ≡ true) × (2 < 1 + number true)))
    × ((is_cancelled (run true 2 (thread_func1 true) fresh) ≡ true)
        ↔ (2 < 1 + number true * (2 + number true)))
unfolding run thread_func1
thread_func1_releases_example = thread_func1_releases true true 2
