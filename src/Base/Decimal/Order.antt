-- ===== src/Base/Decimal/Order.antt =====
-- The order of Decimal values, and what floors, products and minima do to it.
use Prim.Native.Nat.{ℕ, zero, suc, pred, ◌+◌, ◌*◌, ◌/◌, ◌≤◌}
use mathlib.Core.Path.{◌≡◌, ap, ◌∙◌}
use mathlib.Core.Bool.{true}
use native.Mathlib.Omega.{arith}
use native.Mathlib.Nat.{
  le_of_mul-le-mul_right, mul-le-mul_right, suc-pred-eq_of_pos, div-mul-le_self,
}
use discord_option_tailer.Base.Decimal.{Decimal, add, den, of_ℕ, le, lt, mul, div, floor, minimum}

abbrev pub Le : Decimal → Decimal → Type 0
Le a b = a.num * den b ≤ b.num * den a

pub Le_refl : (a : Decimal) → Le a a
Le_refl a = omega arith

le_scaled : (x y k l : ℕ) → x * suc k ≤ y * suc l → (z : ℕ) → x * suc k * z ≤ y * suc l * z
le_scaled x y k l h z = mul-le-mul_right z h

pub Le_trans : (a b c : Decimal) → Le a b → Le b c → Le a c
Le_trans a b c h k =
    le_of_mul-le-mul_right {k = den b}
      (omega (
        arith,
        le_scaled a.num b.num b.den_pred a.den_pred h (den c),
        le_scaled b.num c.num c.den_pred b.den_pred k (den a),
      ))
      (omega arith)

pub Le_of_le : (a b : Decimal) → le a b ≡ true → Le a b
unfolding le
Le_of_le a b h = ground arith

pub le_of_Le : (a b : Decimal) → Le a b → le a b ≡ true
unfolding le
le_of_Le a b h = ground arith

pub minimum-Le_left : (a b : Decimal) → Le (minimum a b) a
unfolding lt
minimum-Le_left a b = ground arith

pub minimum-Le_right : (a b : Decimal) → Le (minimum a b) b
unfolding lt
minimum-Le_right a b = ground arith

regroup : (q x d p : ℕ) → q * (d * p) ≤ x → q * p * d ≤ x
regroup q x d p h = omega arith

floor_bound : (x d p : ℕ) → x / suc (pred (suc d * p)) * p * suc d ≤ x
floor_bound x d zero = omega arith
floor_bound x d (suc p) =
    let exact : suc (pred (suc d * suc p)) ≡ suc d * suc p = suc-pred-eq_of_pos (grind arith) in
    rw exact (regroup (x / (suc d * suc p)) x (suc d) (suc p) (div-mul-le_self x (suc d * suc p)))

pub same_scale : (b d : ℕ) → b * suc (pred (1 * suc d)) ≡ b * suc d
same_scale b d = ap (λ n. b * n) (suc-pred-eq_of_pos {n = 1 * suc d} (omega arith) ∙ omega arith)

-- The whole multiples of a price that a budget holds cost no more than the budget.
pub floor-div-Le : (b p : Decimal) → Le (mul (of_ℕ (floor (div b p))) p) b
unfolding mul div floor
floor-div-Le b p = rw same_scale (floor_bound (b.num * den p) b.den_pred p.num)

scaled_left : (x y p q : ℕ) → x * (p * q) ≤ (x * q + y * p) * p
scaled_left x y p q = omega arith

scaled_right : (x y p q : ℕ) → y * (p * q) ≤ (x * q + y * p) * q
scaled_right x y p q = omega arith

exact_den : (a b : Decimal) → suc (pred (den a * den b)) ≡ den a * den b
exact_den a b = suc-pred-eq_of_pos (grind arith)

pub Le-add_left : (a b : Decimal) → Le a (add a b)
unfolding add
Le-add_left a b = rw (exact_den a b) (scaled_left a.num b.num (den a) (den b))

pub Le-add_right : (a b : Decimal) → Le b (add a b)
unfolding add
Le-add_right a b = rw (exact_den a b) (scaled_right a.num b.num (den a) (den b))
