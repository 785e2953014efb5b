-- ===== src/Prelude/Bits.antt =====
-- Masks: what the tests `x & mask` of the programs read.
use Prim.Native.Nat.{ℕ, zero, suc, ◌/◌, min, bit_and, digits, bit_and-bitwise, compare, Ordering}
use mathlib.Core.Path.{◌≡◌, refl, ◌∙◌}
use mathlib.Core.Bool.{Bool, true, false}
use native.Mathlib.Omega.{arith}

digits-zero : (n a : ℕ) → digits (λ b. zero) min n a 0 ≡ 0
digits-zero zero a = refl
digits-zero (suc n) zero = refl
digits-zero (suc n) (suc a) = omega (arith, digits-zero n (suc a / 2))

-- A mask of zero lets nothing through.
pub bit_and-zero : (a : ℕ) → bit_and a 0 ≡ 0
bit_and-zero a = bit_and-bitwise a 0 ∙ digits-zero a a

-- `if (x & mask)`
abbrev pub has : ℕ → ℕ → Bool
has x mask = elim (compare (bit_and x mask) 0) [ Ordering.eq ↦ false | _ ↦ true ]
