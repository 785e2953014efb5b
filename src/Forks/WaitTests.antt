-- ===== src/Forks/WaitTests.antt =====
-- One child of a1.c, and the five of a4.c.
use linux_learning_by_doing.Prelude.{ℕ, ◌+◌, ◌*◌, ◌≤◌, ◌≡◌, ◌⊎◌, refl, [], ◌∷◌, arith}
use linux_learning_by_doing.Forks.Children.{no_children}
use linux_learning_by_doing.Forks.Unlimited
use linux_learning_by_doing.Forks.Unlimited.{ends_childless, waits_terminate}
use linux_learning_by_doing.Forks.Compile
use linux_learning_by_doing.Forks.Compile.{links_after_all, compile_is_over, ◌▷◌}

abbrev one_waits : Unlimited.System
one_waits = record {
  parent = Unlimited.Parent.waiting;
  children = record { running = 1; zombies = 0 };
  i = 1;
  given = 0;
}

abbrev one_waited : Unlimited.System
one_waited = record { parent = Unlimited.Parent.ended; children = no_children; i = 1; given = 1 }

one_forked : Unlimited.Reach Unlimited.initial one_waits
one_forked =
    Unlimited.Reach.later
      (Unlimited.Reach.later Unlimited.Reach.start (Unlimited.Step.fork_ok refl))
      (Unlimited.Step.fork_fails refl)

one_given : Unlimited.Run one_waits 3 one_waited
one_given =
    Unlimited.Run.more
      (Unlimited.Run.more
        (Unlimited.Run.more Unlimited.Run.none (Unlimited.Step.child_exits (omega arith)))
        (Unlimited.Step.wait_child refl (omega arith)))
      (Unlimited.Step.wait_fails refl refl refl)

reached :
    {s t : Unlimited.System} {n : ℕ} {u : Unlimited.System}
    → Unlimited.Reach s t
    → Unlimited.Run t n u
    → Unlimited.Reach s u
reached r Unlimited.Run.none = r
reached r (Unlimited.Run.more q p) = Unlimited.Reach.later (reached r q) p

ends_childless_test :
    (one_waited.given ≡ one_waited.i)
    × ((one_waited.children).running ≡ 0)
    × ((one_waited.children).zombies ≡ 0)
ends_childless_test = ends_childless (reached one_forked one_given) refl

waits_terminate_test :
    (3 ≤ 2 * 1 + 0 + 1)
    × ((one_waited.parent ≡ Unlimited.Parent.ended)
        ⊎ ((u : Unlimited.System) × Unlimited.Step one_waited u))
waits_terminate_test = waits_terminate refl one_given

-- The linker runs in the place of the parent.
abbrev linked : Compile.System
linked = record {
  parent = Compile.Parent.linking;
  children = no_children;
  compiled = 1 ∷ 2 ∷ 3 ∷ 4 ∷ 5 ∷ [];
}

all_compiled : Compile.Reach Compile.initial linked
all_compiled =
    Compile.Reach.start
    ▷ Compile.Step.fork_ok 0 refl (omega arith)
    ▷ Compile.Step.child_ends (omega arith)
    ▷ Compile.Step.fork_ok 1 refl (omega arith)
    ▷ Compile.Step.child_ends (omega arith)
    ▷ Compile.Step.fork_ok 2 refl (omega arith)
    ▷ Compile.Step.child_ends (omega arith)
    ▷ Compile.Step.fork_ok 3 refl (omega arith)
    ▷ Compile.Step.child_ends (omega arith)
    ▷ Compile.Step.fork_ok 4 refl (omega arith)
    ▷ Compile.Step.child_ends (omega arith)
    ▷ Compile.Step.loop_over 5 refl (omega arith)
    ▷ Compile.Step.wait_child refl (omega arith)
    ▷ Compile.Step.wait_child refl (omega arith)
    ▷ Compile.Step.wait_child refl (omega arith)
    ▷ Compile.Step.wait_child refl (omega arith)
    ▷ Compile.Step.wait_child refl (omega arith)
    ▷ Compile.Step.link refl refl refl

links_after_all_test :
    (linked.compiled ≡ 1 ∷ 2 ∷ 3 ∷ 4 ∷ 5 ∷ [])
    × ((linked.children).running ≡ 0)
    × ((linked.children).zombies ≡ 0)
links_after_all_test = links_after_all all_compiled refl

abbrev abandoned : Compile.System
abandoned = record {
  parent = Compile.Parent.exited 0;
  children = record { running = 0; zombies = 1 };
  compiled = 1 ∷ [];
}

failed : Compile.Run 3 abandoned
failed =
    Compile.Run.more
      (Compile.Run.more
        (Compile.Run.more Compile.Run.none (Compile.Step.fork_ok 0 refl (omega arith)))
        (Compile.Step.fork_fails 1 refl (omega arith)))
      (Compile.Step.child_ends (omega arith))

compile_is_over_example :
    (3 ≤ 17) × (((t : Compile.System) × Compile.Step abandoned t) ⊎ Compile.Over abandoned)
compile_is_over_example = compile_is_over failed
