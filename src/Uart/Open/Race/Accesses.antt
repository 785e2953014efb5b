-- ===== src/Uart/Open/Race/Accesses.antt =====
-- What the accesses of two calls of `uart_open` keep.
use linux_learning_by_doing.Prelude.{ℕ, ◌+◌, ◌≤◌, ◌<◌, ◌≡◌, ◌⊎◌, inl, inr, arith}
use linux_learning_by_doing.Uart.Open.Race.{
  Mode, rdwr, wronly, At, test_rw, test_r, test_w, busy, Port, System, initial, Access, rw_zero,
  rw_busy, r_zero, r_busy, w_zero_rdwr, w_zero_wronly, w_busy, add_rw, add_r, add_w, Step, by_first,
  by_second, Reach, start, later, past_rw, past_r, past_w, Stands, Counted, past_tests, refused,
}

-- What one access keeps, with what the other call has added to the counters
record Kept (m : Mode) (p : Port) (a : At) (p' : Port) (a' : At) : Type 0 where
  rw : p'.rw_count + past_rw m a ≡ p.rw_count + past_rw m a'
  r : p'.r_count + past_r m a ≡ p.r_count + past_r m a'
  w : p'.w_count + past_w a ≡ p.w_count + past_w a'
  stands : Stands m a'

Access-Kept :
    (m : Mode) {p p' : Port} {a a' : At} → Stands m a → Access m p a p' a' → Kept m p a p' a'
Access-Kept rdwr st (rw_zero e) = ground arith
Access-Kept rdwr st (rw_busy e) = ground arith
Access-Kept rdwr st (r_zero e) = ground arith
Access-Kept rdwr st (r_busy e) = ground arith
Access-Kept rdwr st (w_zero_rdwr i e) = ground arith
Access-Kept rdwr st (w_zero_wronly i e) = ground arith
Access-Kept rdwr st (w_busy e) = ground arith
Access-Kept rdwr st add_rw = ground arith
Access-Kept rdwr st add_r = ground arith
Access-Kept rdwr st add_w = ground arith
Access-Kept wronly st (rw_zero e) = absurd st
Access-Kept wronly st (rw_busy e) = absurd st
Access-Kept wronly st (r_zero e) = absurd st
Access-Kept wronly st (r_busy e) = absurd st
Access-Kept wronly st (w_zero_rdwr i e) = ground arith
Access-Kept wronly st (w_zero_wronly i e) = ground arith
Access-Kept wronly st (w_busy e) = ground arith
Access-Kept wronly st add_rw = absurd st
Access-Kept wronly st add_r = absurd st
Access-Kept wronly st add_w = ground arith

-- A call that is refused has seen an increment of the other one.
abbrev own : Mode → At → ℕ
own m a = past_rw m a + past_r m a + past_w a

Access-refused :
    (m : Mode) {p p' : Port} {a a' : At}
    → Access m p a p' a'
    → (refused a' ≤ refused a) ⊎ ((own m a ≡ 0) × (0 < p.rw_count + p.r_count + p.w_count))
Access-refused rdwr (rw_zero e) = inl (omega arith)
Access-refused rdwr (rw_busy e) = inr (ground arith)
Access-refused rdwr (r_zero e) = inl (omega arith)
Access-refused rdwr (r_busy e) = inr (ground arith)
Access-refused rdwr (w_zero_rdwr i e) = inl (omega arith)
Access-refused rdwr (w_zero_wronly i e) = inl (omega arith)
Access-refused rdwr (w_busy e) = inr (ground arith)
Access-refused rdwr add_rw = inl (omega arith)
Access-refused rdwr add_r = inl (omega arith)
Access-refused rdwr add_w = inl (omega arith)
Access-refused wronly (rw_zero e) = inl (omega arith)
Access-refused wronly (rw_busy e) = inr (ground arith)
Access-refused wronly (r_zero e) = inl (omega arith)
Access-refused wronly (r_busy e) = inr (ground arith)
Access-refused wronly (w_zero_rdwr i e) = inl (omega arith)
Access-refused wronly (w_zero_wronly i e) = inl (omega arith)
Access-refused wronly (w_busy e) = inr (ground arith)
Access-refused wronly add_rw = inl (omega arith)
Access-refused wronly add_r = inl (omega arith)
Access-refused wronly add_w = inl (omega arith)

Access-passed :
    (m : Mode) {p p' : Port} {a a' : At} → Access m p a p' a' → past_tests a ≤ past_tests a'
Access-passed m (rw_zero e) = omega arith
Access-passed m (rw_busy e) = omega arith
Access-passed m (r_zero e) = omega arith
Access-passed m (r_busy e) = omega arith
Access-passed m (w_zero_rdwr i e) = omega arith
Access-passed m (w_zero_wronly i e) = omega arith
Access-passed m (w_busy e) = omega arith
Access-passed m add_rw = omega arith
Access-passed m add_r = omega arith
Access-passed m add_w = omega arith

-- A call has added nothing before it has passed its tests.
own-passed : (m : Mode) (a : At) → 0 < own m a → past_tests a ≡ 1
own-passed rdwr test_rw h = ground arith
own-passed rdwr test_r h = ground arith
own-passed rdwr test_w h = ground arith
own-passed rdwr busy h = ground arith
own-passed wronly test_rw h = ground arith
own-passed wronly test_r h = ground arith
own-passed wronly test_w h = ground arith
own-passed wronly busy h = ground arith
own-passed m a h = ground arith

pub record Inv (m n : Mode) (s : System) : Type 0 where
  pub counted : Counted m n s
  pub first_refused : refused s.first ≤ past_tests s.second
  pub second_refused : refused s.second ≤ past_tests s.first

-- What one call sees of the other
seen :
    (m n : Mode) (p : Port) (a b : At)
    → p.rw_count + p.r_count + p.w_count ≡ own m a + own n b
    → own m a ≡ 0
    → 0 < p.rw_count + p.r_count + p.w_count
    → past_tests b ≡ 1
seen m n p a b e z h = own-passed n b (omega arith)

refused-le : (a : At) → refused a ≤ 1
refused-le busy = omega arith
refused-le test_rw = omega arith
refused-le a = ground arith

step-Inv : (m n : Mode) {s t : System} → Inv m n s → Step m n s t → Inv m n t
step-Inv m n {s} i (by_first p a x) =
    let c = i.counted in
    let k = Access-Kept m c.first_at x in
    record {
      counted = record {
        rw = omega (arith, c.rw, k.rw);
        r = omega (arith, c.r, k.r);
        w = omega (arith, c.w, k.w);
        first_at = k.stands;
        second_at = c.second_at;
      };
      first_refused = elim (Access-refused m x) [
        | inl le ↦ omega (arith, i.first_refused)
        | inr (z, h) ↦ omega (
          arith,
          refused-le a,
          seen m n s.port s.first s.second (omega (arith, c.rw, c.r, c.w)) z h,
        )
      ];
      second_refused = omega (arith, i.second_refused, Access-passed m x);
    }
step-Inv m n {s} i (by_second p a x) =
    let c = i.counted in
    let k = Access-Kept n c.second_at x in
    record {
      counted = record {
        rw = omega (arith, c.rw, k.rw);
        r = omega (arith, c.r, k.r);
        w = omega (arith, c.w, k.w);
        first_at = c.first_at;
        second_at = k.stands;
      };
      first_refused = omega (arith, i.first_refused, Access-passed n x);
      second_refused = elim (Access-refused n x) [
        | inl le ↦ omega (arith, i.second_refused)
        | inr (z, h) ↦ omega (
          arith,
          refused-le a,
          seen n m s.port s.second s.first (omega (arith, c.rw, c.r, c.w)) z h,
        )
      ];
    }

pub reach-Inv : {m n : Mode} {s : System} → Reach m n s → Inv m n s
reach-Inv {m} {n} start = initial-Inv m n
  where
    initial-Inv : (m n : Mode) → Inv m n (initial m n)
    initial-Inv rdwr rdwr = ground arith
    initial-Inv rdwr wronly = ground arith
    initial-Inv wronly rdwr = ground arith
    initial-Inv wronly wronly = ground arith
reach-Inv {m} {n} (later r p) = step-Inv m n (reach-Inv r) p
