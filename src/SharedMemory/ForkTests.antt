-- ===== src/SharedMemory/ForkTests.antt =====
-- a2.c and a1_a.c, run for some steps.
use linux_learning_by_doing.Prelude.{◌+◌, ◌≤◌, ◌≡◌, ◌⊎◌, refl, [], ◌∷◌}
use linux_learning_by_doing.SharedMemory.Processes.{Consumer}
use linux_learning_by_doing.SharedMemory.Handshake
use linux_learning_by_doing.SharedMemory.Handshake.{
  At, done, All, c_before, p_before, child_waits_for_parent, handshake_goes_on,
}
use linux_learning_by_doing.SharedMemory.Forked
use linux_learning_by_doing.SharedMemory.Forked.{
  fresh, Idle, left_over, forked, empty_until_init, left_over_misleads, ◌▷◌,
}

-- The child waits, and the parent is about to post.
abbrev child_waits : Handshake.System
child_waits = record {
  sem = 0;
  parent = At.semop;
  child = At.semop;
  lines = c_before 0 ∷ p_before 0 ∷ [];
}

both_before : Handshake.Reach Handshake.initial child_waits
both_before =
    Handshake.Reach.later (Handshake.Reach.later Handshake.Reach.start (Handshake.Step.c_get refl))
      (Handshake.Step.p_get refl)

child_waits_for_parent_test :
    (done child_waits.child ≤ done child_waits.parent)
    × All child_waits.lines
    × (child_waits.sem ≤ 1)
    × (child_waits.sem + done child_waits.child ≡ done child_waits.parent)
child_waits_for_parent_test = child_waits_for_parent both_before

handshake_goes_on_test :
    ((child_waits.parent ≡ At.ended) × (child_waits.child ≡ At.ended))
    ⊎ ((t : Handshake.System) × Handshake.Step child_waits t)
handshake_goes_on_test = handshake_goes_on both_before

-- Before the last assignment, in a new segment, with the parent at its test
abbrev almost_set : Forked.System
almost_set = record {
  shm = fresh;
  child = Forked.Child.set_size;
  parent = Consumer.inside;
  stored = [];
  printed = [];
}

setting : Forked.Reach (forked fresh) almost_set
setting =
    Forked.Reach.start
    ▷ Forked.Step.p_wait refl
    ▷ Forked.Step.c_set_in refl
    ▷ Forked.Step.c_set_out refl
    ▷ Forked.Step.c_set_count refl

empty_until_init_test :
    ((almost_set.shm).in_ ≡ 0)
    × ((almost_set.shm).out ≡ 0)
    × ((almost_set.shm).count ≡ 0)
    × (almost_set.printed ≡ [])
    × (almost_set.stored ≡ [])
    × Idle almost_set.parent
empty_until_init_test = empty_until_init refl setting refl

left_over_misleads_test :
    (s : Forked.System) × Forked.Reach (forked (left_over (λ i. 65 + i))) s
    × (s.stored ≡ 90 ∷ [])
    × (s.printed ≡ 65 ∷ 66 ∷ [])
    × ((s.shm).in_ ≡ 2)
    × ((s.shm).out ≡ 1)
left_over_misleads_test = left_over_misleads (λ i. 65 + i) 90
