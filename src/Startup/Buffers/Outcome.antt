-- ===== src/Startup/Buffers/Outcome.antt =====
-- How those `main` functions end, and which threads run then.
use linux_learning_by_doing.Prelude.{
  ℕ, ◌≡◌, ◌<◌, refl, inl, ◌==◌, false, not, ◌&&◌, ◌↔◌, ◌⊎◌, Option, none, some, List, [], ◌∷◌, map,
  arith,
}
use linux_learning_by_doing.Startup.{
  Signals, sigint, sigterm, sigkill, sigstop, Run, status, process, waits_for, before_failure,
  first_failure,
}
use linux_learning_by_doing.Startup.Buffers.{
  BufferThread, Created, main_prodcons, main_prodcons1, main_prodcons2, main_prodcons3,
  display_mask, display_mask1, QueueThread, main_mutex_cond, malloc_attr, mmap_attr,
}

-- The creations in the order of the code, with the statuses of the code.
abbrev pub creations : Created → List (BufferThread × ℕ × ℕ)
creations a =
    (BufferThread.display, a.thid4, 4)
    ∷ (BufferThread.user, a.thid1, 1)
    ∷ (BufferThread.consumer, a.thid2, 2)
    ∷ (BufferThread.producer, a.thid3, 3)
    ∷ []

abbrev pub functions : {A : Type 0} → Run A → List A
functions r = map (λ c. c.0) (process r).created

-- As the functions of the threads never return, `main` exits exactly when a creation fails, with the
-- status of the first that does, and the threads created are those before it; otherwise it waits for
-- `user_input_thread`.
pub main_prodcons_outcome :
    (a : Created)
    → (status (main_prodcons (λ t. false) a) ≡ first_failure (creations a))
      × (functions (main_prodcons (λ t. false) a) ≡ before_failure (creations a))
      × ((waits_for (main_prodcons (λ t. false) a) ≡ some BufferThread.user)
          ↔ (first_failure (creations a) ≡ none))
unfolding main_prodcons
main_prodcons_outcome a = ground arith

attr1 :
    (ptr : Option ℕ) (init setstack : ℕ)
    → ((malloc_attr ptr init setstack).set ≡ false) ↔ ((ptr ≡ none) ⊎ (0 < init))
unfolding malloc_attr
attr1 none init setstack = (λ e. inl refl, λ e. refl)
attr1 (some p) init setstack = ground arith

-- prodcons_threads1.c and prodcons_threads2.c end in the same way. The display thread of the first is
-- created with an attribute object that nothing has set exactly when `malloc` or `pthread_attr_init` has
-- failed; that of the second exactly when `pthread_attr_init` has, since a failed `mmap` passes the test.
pub main_variants_outcome :
    (ptr : Option ℕ) (init setstack : ℕ) (a : Created)
    → (status (main_prodcons1 (λ t. false) ptr init setstack a).1 ≡ first_failure (creations a))
      × (functions (main_prodcons1 (λ t. false) ptr init setstack a).1
          ≡ before_failure (creations a))
      × (status (main_prodcons2 (λ t. false) ptr init setstack a).1 ≡ first_failure (creations a))
      × (functions (main_prodcons2 (λ t. false) ptr init setstack a).1
          ≡ before_failure (creations a))
      × (((main_prodcons1 (λ t. false) ptr init setstack a).0.set ≡ false)
          ↔ ((ptr ≡ none) ⊎ (0 < init)))
      × (((main_prodcons2 (λ t. false) ptr init setstack a).0.set ≡ false) ↔ (0 < init))
unfolding main_prodcons1 main_prodcons2 malloc_attr mmap_attr
main_variants_outcome ptr init setstack a =
    (ground arith, ground arith, ground arith, ground arith, attr1 ptr init setstack, ground arith)

-- When all four threads are created, each inherits a mask with every signal that can be blocked; after
-- its `pthread_sigmask` the display thread takes SIGINT, and in prodcons_threads1.c and 2.c SIGTERM.
pub one_thread_takes_signals :
    (a : Created) (s : ℕ)
    → first_failure (creations a) ≡ none
    → (m : Signals) × (map (λ c. c.1) (process (main_prodcons (λ t. false) a)).created
        ≡ m ∷ m ∷ m ∷ m ∷ [])
      × ((m s ≡ false) ↔ ((s ≡ sigkill) ⊎ (s ≡ sigstop)))
      × ((display_mask m s ≡ false) ↔ ((s ≡ sigkill) ⊎ (s ≡ sigstop) ⊎ (s ≡ sigint)))
      × ((display_mask1 m s ≡ false)
          ↔ ((s ≡ sigkill) ⊎ (s ≡ sigstop) ⊎ (s ≡ sigint) ⊎ (s ≡ sigterm)))
unfolding main_prodcons display_mask display_mask1
one_thread_takes_signals a s h = (
  λ s. not (s == sigkill) && not (s == sigstop),
  ground arith,
  ground arith,
  ground arith,
  ground arith,
)

-- `main` of thread_mutex_cond.c exits with 1 exactly when a creation fails, and otherwise waits for
-- `thread_func1`, whose function never returns.
pub main_mutex_cond_outcome :
    (th_id1 th_id2 : ℕ)
    → (status (main_mutex_cond (λ t. false) th_id1 th_id2)
        ≡ first_failure
            ((QueueThread.thread_func1, th_id1, 1) ∷ (QueueThread.thread_func2, th_id2, 1) ∷ []))
      × ((waits_for (main_mutex_cond (λ t. false) th_id1 th_id2) ≡ some QueueThread.thread_func1)
          ↔ ((th_id1 ≡ 0) × (th_id2 ≡ 0)))
unfolding main_mutex_cond
main_mutex_cond_outcome th_id1 th_id2 = ground arith

-- prodcons_threads3.c creates no thread, so that nothing is produced or consumed, and comes to its
-- `pause()` with exactly the signals let through that cannot be blocked.
prodcons3_does_nothing :
    (s : ℕ)
    → ((process main_prodcons3).created ≡ [])
      × (status main_prodcons3 ≡ none)
      × (((process main_prodcons3).blocked s ≡ false) ↔ ((s ≡ sigkill) ⊎ (s ≡ sigstop)))
unfolding main_prodcons3
prodcons3_does_nothing s = (refl, refl, ground arith)
