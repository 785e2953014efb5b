-- ===== src/Uart/Open/Race/Outcome.antt =====
-- How two calls of `uart_open` at a time end.
use linux_learning_by_doing.Prelude.{ℕ, ◌+◌, ◌≤◌, refl, arith}
use linux_learning_by_doing.Uart.Open.Race.{
  Mode, rdwr, wronly, At, inc_rw, inc_w, granted, Port, System, enter, rw_zero, r_zero, w_zero_rdwr,
  w_zero_wronly, add_rw, add_r, add_w, Step, by_first, by_second, Reach, start, later, Counted,
  past_tests, refused, BothGranted,
}
use linux_learning_by_doing.Uart.Open.Race.Accesses.{reach-Inv}

abbrev counted_port : ℕ → ℕ → Port
counted_port readers writers = record { rw_count = readers; r_count = readers; w_count = writers }

infixl 5 ◌▷◌
abbrev ◌▷◌ : {m n : Mode} {s t : System} → Reach m n s → Step m n s t → Reach m n t
r ▷ p = later r p

-- The tests of a call, and its increments
abbrev tested : Mode → At
tested rdwr = inc_rw
tested wronly = inc_w

first_tests :
    (m n : Mode) (b : At)
    → Reach m n (record { port = counted_port 0 0; first = enter m; second = b })
    → Reach m n (record { port = counted_port 0 0; first = tested m; second = b })
first_tests rdwr n b r =
    r
    ▷ by_first _ _ (rw_zero refl)
    ▷ by_first _ _ (r_zero refl)
    ▷ by_first _ _ (w_zero_rdwr refl refl)
first_tests wronly n b r = r ▷ by_first _ _ (w_zero_wronly refl refl)

second_tests :
    (m n : Mode) (a : At)
    → Reach m n (record { port = counted_port 0 0; first = a; second = enter n })
    → Reach m n (record { port = counted_port 0 0; first = a; second = tested n })
second_tests m rdwr a r =
    r
    ▷ by_second _ _ (rw_zero refl)
    ▷ by_second _ _ (r_zero refl)
    ▷ by_second _ _ (w_zero_rdwr refl refl)
second_tests m wronly a r = r ▷ by_second _ _ (w_zero_wronly refl refl)

first_adds :
    (m n : Mode) (p : Port) (b : At)
    → Reach m n (record { port = p; first = tested m; second = b })
    → (q : Port) × Reach m n (record { port = q; first = granted; second = b })
first_adds rdwr n p b r = (_, (r ▷ by_first _ _ add_rw ▷ by_first _ _ add_r ▷ by_first _ _ add_w))
first_adds wronly n p b r = (_, (r ▷ by_first _ _ add_w))

second_adds :
    (m n : Mode) (p : Port) (a : At)
    → Reach m n (record { port = p; first = a; second = tested n })
    → (q : Port) × Reach m n (record { port = q; first = a; second = granted })
second_adds m rdwr p a r =
    (_, (r ▷ by_second _ _ add_rw ▷ by_second _ _ add_r ▷ by_second _ _ add_w))
second_adds m wronly p a r = (_, (r ▷ by_second _ _ add_w))

pub both_granted : (m n : Mode) → BothGranted m n
both_granted m n =
    let r = second_tests m n (tested m) (first_tests m n (enter n) start) in
    let (p, r1) = first_adds m n (counted_port 0 0) (tested n) r in
    let (q, r2) = second_adds m n p granted r1 in
    record { state = _; reached = r2; first = refl; second = refl }

-- Two calls of `uart_open` for writing, in either way each, on a port that nobody has open. In every state
-- that their accesses reach in any order, each counter is the number of increments that the calls have
-- made to it, and not both calls have been refused. But both may be granted, since the tests of the
-- one can come before the increments of the other: there is then more than one open file that writes.
pub open_race :
    (m n : Mode) {s : System}
    → Reach m n s
    → Counted m n s × (refused s.first + refused s.second ≤ 1) × BothGranted m n
open_race m n {s} r =
    let i = reach-Inv r in (i.counted, not_both s.first s.second i.first_refused, both_granted m n)
  where
    not_both : (a b : At) → refused a ≤ past_tests b → refused a + refused b ≤ 1
    not_both a b h = ground arith
