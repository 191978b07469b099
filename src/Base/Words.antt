-- ===== src/Base/Words.antt =====
-- `u64`: a number below `2 ^ 64`, with the saturating operations of Rust's standard library.
use Prim.Native.Nat.{ℕ, ◌+◌, ◌-◌, min}
use mathlib.Core.Path.{◌≡◌}
use native.Mathlib.Omega.{arith}

abbrev pub u64_max : ℕ
u64_max = 18446744073709551615

abbrev pub i64_max : ℕ
i64_max = 9223372036854775807

abbrev pub saturating_add : ℕ → ℕ → ℕ
saturating_add a b = min (a + b) u64_max

abbrev pub saturating_sub : ℕ → ℕ → ℕ
saturating_sub a b = a - b

pub saturating_add_assoc :
    (a b c : ℕ) → saturating_add (saturating_add a b) c ≡ saturating_add a (saturating_add b c)
saturating_add_assoc a b c = omega arith

pub saturating_add_right_comm :
    (a b c : ℕ) → saturating_add (saturating_add a b) c ≡ saturating_add (saturating_add a c) b
saturating_add_right_comm a b c = omega arith
