-- ===== src/Base/Decimal.antt =====
-- Python's finite, non-negative `Decimal` values as exact fractions. The program rejects every
-- negative price (`money` of relay/core.py). A difference stops at 0.
pub mod Order
use Prim.Native.Nat.{ℕ, suc, ◌+◌, ◌-◌, ◌*◌, ◌/◌, pred}
use mathlib.Core.Path.{◌≡◌}
use mathlib.Core.Bool.{Bool, true, false}
use native.Mathlib.Omega.{arith}
use discord_option_tailer.Base.Tests.{leb, ltb, ◌==◌, if◌then◌else◌}

-- The value is `num / suc den_pred`.
pub record Decimal : Type 0 where
  pub num : ℕ
  pub den_pred : ℕ

abbrev pub den : Decimal → ℕ
den a = suc a.den_pred

abbrev pub of_ℕ : ℕ → Decimal
of_ℕ n = record { num = n; den_pred = 0 }

-- Order and equality of values, by cross multiplication.
unfoldable pub le : Decimal → Decimal → Bool
le a b = leb (a.num * den b) (b.num * den a)

unfoldable pub lt : Decimal → Decimal → Bool
lt a b = ltb (a.num * den b) (b.num * den a)

unfoldable pub eq : Decimal → Decimal → Bool
eq a b = a.num * den b == b.num * den a

abbrev pub is_zero : Decimal → Bool
is_zero a = a.num == 0

unfoldable pub add : Decimal → Decimal → Decimal
add a b = record { num = a.num * den b + b.num * den a; den_pred = pred (den a * den b) }

-- Exact where `b ≤ a`, which every caller has tested.
unfoldable pub sub : Decimal → Decimal → Decimal
sub a b = record { num = a.num * den b - b.num * den a; den_pred = pred (den a * den b) }

unfoldable pub mul : Decimal → Decimal → Decimal
mul a b = record { num = a.num * b.num; den_pred = pred (den a * den b) }

-- Division by a value that is not 0, which every caller has tested.
unfoldable pub div : Decimal → Decimal → Decimal
div a b = record { num = a.num * den b; den_pred = pred (den a * b.num) }

-- `to_integral_value(rounding=ROUND_FLOOR)` and `ROUND_CEILING`.
unfoldable pub floor : Decimal → ℕ
floor a = a.num / den a

unfoldable pub ceiling : Decimal → ℕ
ceiling a = (a.num + a.den_pred) / den a

abbrev pub minimum : Decimal → Decimal → Decimal
minimum a b = if lt b a then b else a

-- Two values are the same number.
abbrev pub Same : Decimal → Decimal → Type 0
Same a b = a.num * den b ≡ b.num * den a

pub lt_irrefl : (a : Decimal) → lt a a ≡ false
unfolding lt
lt_irrefl a = ground arith

pub eq_refl : (a : Decimal) → eq a a ≡ true
unfolding eq
eq_refl a = ground arith

pub le_refl : (a : Decimal) → le a a ≡ true
unfolding le
le_refl a = ground arith
