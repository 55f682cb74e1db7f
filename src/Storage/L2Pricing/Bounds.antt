-- ===== src/Storage/L2Pricing/Bounds.antt =====
-- crates/arb-revm/src/storage/l2_pricing.rs: bounds and order of the base fee.
use native.Mathlib.Nat.{
  div-zero, le_refl, le_trans, le-div_iff_mul-le, mul-le-mul_left, mul-le-mul_right,
  div-le_of_le-mul, div-mul-le_self,
}
use arbitrum_revm.Prelude.{ℕ, zero, suc, ◌-◌, ◌*◌, ◌/◌, ◌^◌, ◌≤◌, ◌<◌, ◌≡◌, arith, min}
use arbitrum_revm.Prelude.Int.{ℤ, pos, negsuc, ◌≤ℤ◌, sub_ℕ}
use arbitrum_revm.Words.{
  sat_mul, mul64, i64_max, u64_max, u256_max, div_mono, sat_mul_mono, sat_mul-eq,
}
use arbitrum_revm.Signed.{quotient}
use arbitrum_revm.Storage.L2Pricing.Exponent.{
  one_in_bips, exp_rounds, exp_of_magnitude, approx_exp_basis_points, big_mul_by_bips, scaled,
  as_i64, legacy_exponent, legacy_base_fee, exponent_base_fee,
}

exp_rounds-ge : (i x r : ℕ) → one_in_bips ≤ r → one_in_bips ≤ exp_rounds i x r
unfolding exp_rounds
exp_rounds-ge zero x r h = h
exp_rounds-ge (suc i) x r h = exp_rounds-ge i x _ (omega arith)

exp_rounds_mono : (i x y r q : ℕ) → x ≤ y → r ≤ q → exp_rounds i x r ≤ exp_rounds i y q
unfolding exp_rounds
exp_rounds_mono zero x y r q xy rq = rq
exp_rounds_mono (suc i) x y r q xy rq = exp_rounds_mono i x y _ _ xy (
    omega (
      arith,
      div_mono (suc i * one_in_bips) (mul64 r x) (mul64 q y) (omega arith)
          (sat_mul_mono u64_max r q x y rq xy),
    ))

exp_of_magnitude-ge : (x accuracy : ℕ) → one_in_bips ≤ exp_of_magnitude x accuracy
unfolding exp_of_magnitude
exp_of_magnitude-ge x accuracy = exp_rounds-ge (accuracy - 1) x _ (omega arith)

pub exp_of_magnitude_mono :
    (n x y : ℕ) → 0 < n → x ≤ y → exp_of_magnitude x n ≤ exp_of_magnitude y n
unfolding exp_of_magnitude
exp_of_magnitude_mono n x y some_terms le =
    exp_rounds_mono (n - 1) x y _ _ le (omega (arith, div_mono n x y some_terms le))

pub min_mono : (top a b : ℕ) → a ≤ b → min a top ≤ min b top
min_mono top a b le = omega arith

below_base : (e : ℕ) → one_in_bips ≤ e → one_in_bips * one_in_bips / e ≤ one_in_bips
below_base e le = div-le_of_le-mul e (mul-le-mul_right one_in_bips le)

inverse_mono :
    (d e : ℕ)
    → one_in_bips ≤ d
    → d ≤ e
    → one_in_bips * one_in_bips / e ≤ one_in_bips * one_in_bips / d
inverse_mono d e base le =
    let pos_lem : 0 < d = omega arith in
    (le-div_iff_mul-le pos_lem).1 (
      le_trans (mul-le-mul_left (one_in_bips * one_in_bips / e) le)
        (div-mul-le_self (one_in_bips * one_in_bips) e))

-- The approximated exponential to four terms does not fall as its exponent rises, on both sides of
-- zero.
pub approx_exp_mono : (a b : ℤ) → a ≤ℤ b → approx_exp_basis_points a 4 ≤ approx_exp_basis_points b 4
unfolding approx_exp_basis_points
approx_exp_mono (pos x) (pos y) le =
    min_mono i64_max _ _ (exp_of_magnitude_mono 4 x y (omega arith) (omega arith))
approx_exp_mono (pos x) (negsuc y) le = absurd (omega arith)
approx_exp_mono (negsuc x) (pos y) le =
    min_mono i64_max _ _
      (le_trans (below_base _ (exp_of_magnitude-ge (suc x) 4)) (exp_of_magnitude-ge y 4))
approx_exp_mono (negsuc x) (negsuc y) le = min_mono i64_max _ _ (
    inverse_mono (exp_of_magnitude (suc y) 4) (exp_of_magnitude (suc x) 4)
      (exp_of_magnitude-ge (suc y) 4)
      (exp_of_magnitude_mono 4 (suc y) (suc x) (omega arith) (omega arith)))

approx_exp-ge : (x : ℕ) → one_in_bips ≤ approx_exp_basis_points (pos x) 4
unfolding approx_exp_basis_points
approx_exp-ge x = omega (arith, exp_of_magnitude-ge x 4)

approx_exp-le : (x : ℕ) → approx_exp_basis_points (negsuc x) 4 ≤ one_in_bips
unfolding approx_exp_basis_points
approx_exp-le x =
    omega (arith, below_base (exp_of_magnitude (suc x) 4) (exp_of_magnitude-ge (suc x) 4))

big_mul-ge :
    (value bips : ℕ)
    → value * one_in_bips ≤ u256_max
    → one_in_bips ≤ bips
    → value ≤ big_mul_by_bips value bips
unfolding big_mul_by_bips
big_mul-ge value bips fits le = omega (
  arith,
  sat_mul-eq u256_max value one_in_bips fits,
  sat_mul_mono u256_max value value one_in_bips bips (le_refl value) le,
)

big_mul-le : (value bips : ℕ) → bips ≤ one_in_bips → big_mul_by_bips value bips ≤ value
unfolding big_mul_by_bips sat_mul
big_mul-le value bips le = ground (arith, mul-le-mul_left value le)

big_mul_mono : (value a b : ℕ) → a ≤ b → big_mul_by_bips value a ≤ big_mul_by_bips value b
unfolding big_mul_by_bips
big_mul_mono value a b le = omega (arith, sat_mul_mono u256_max value value a b (le_refl value) le)

-- With constraints, the fee for any exponent is at least the minimum, and a larger exponent does
-- not lower it, as long as the minimum times 10,000 fits a U256.
pub exponent_base_fee_bounds :
    (fee : ℕ) (a b : ℤ)
    → fee * one_in_bips ≤ u256_max
    → a ≤ℤ b
    → (fee ≤ exponent_base_fee fee a) × (exponent_base_fee fee a ≤ exponent_base_fee fee b)
unfolding exponent_base_fee
exponent_base_fee_bounds fee (pos x) (pos y) fits le = ground (
  arith,
  big_mul-ge fee (approx_exp_basis_points (pos x) 4),
  big_mul-ge fee (approx_exp_basis_points (pos y) 4),
  approx_exp-ge x,
  approx_exp-ge y,
  big_mul_mono fee (approx_exp_basis_points (pos x) 4) (approx_exp_basis_points (pos y) 4),
  approx_exp_mono (pos x) (pos y),
)
exponent_base_fee_bounds fee (pos x) (negsuc y) fits le = absurd (omega arith)
exponent_base_fee_bounds fee (negsuc x) (pos y) fits le =
    ground (arith, big_mul-ge fee (approx_exp_basis_points (pos y) 4), approx_exp-ge y)
exponent_base_fee_bounds fee (negsuc x) (negsuc y) fits le = ground arith

-- Where the product of inertia and speed limit fits an i64, the legacy exponent is the scaled
-- excess over it.
legacy_exponent-eq :
    (excess divisor : ℕ)
    → divisor < 2 ^ 63
    → legacy_exponent excess divisor ≡ pos (scaled excess / divisor)
unfolding legacy_exponent as_i64 quotient
legacy_exponent-eq excess divisor lt = ground arith

scaled_mono : (a b d : ℕ) → a ≤ b → scaled a / d ≤ scaled b / d
unfolding scaled
scaled_mono a b zero le = omega (arith, div-zero (scaled a), div-zero (scaled b))
scaled_mono a b (suc d) le = div_mono (suc d) _ _ (omega arith) (omega arith)

-- The fee above the threshold.
abbrev surge : ℕ → ℕ → ℕ → ℕ
surge fee excess divisor =
    big_mul_by_bips fee (approx_exp_basis_points (pos (scaled excess / divisor)) 4)

surge-ge : (fee excess divisor : ℕ) → fee * one_in_bips ≤ u256_max → fee ≤ surge fee excess divisor
surge-ge fee excess divisor fits = big_mul-ge fee _ fits (approx_exp-ge (scaled excess / divisor))

surge_mono : (fee a b divisor : ℕ) → a ≤ b → surge fee a divisor ≤ surge fee b divisor
surge_mono fee a b divisor le = big_mul_mono fee _ _ (
    approx_exp_mono (pos (scaled a / divisor)) (pos (scaled b / divisor))
      (omega (arith, scaled_mono a b divisor le)))

-- The legacy fee is at least the minimum, and a larger backlog does not lower it, as long as the
-- product of inertia and speed limit fits an i64 and the minimum times 10,000 fits a U256.
pub legacy_base_fee_bounds :
    (a b speed inertia tolerance fee : ℕ)
    → mul64 inertia speed < 2 ^ 63
    → fee * one_in_bips ≤ u256_max
    → a ≤ b
    → (fee ≤ legacy_base_fee a speed inertia tolerance fee)
      × (legacy_base_fee a speed inertia tolerance fee
          ≤ legacy_base_fee b speed inertia tolerance fee)
unfolding legacy_base_fee
legacy_base_fee_bounds a b speed inertia tolerance fee small fits le =
    let t = mul64 tolerance speed in
    let d = mul64 inertia speed in
    ground (
      arith,
      legacy_exponent-eq (a - t) d small,
      legacy_exponent-eq (b - t) d small,
      surge-ge fee (a - t) d fits,
      surge-ge fee (b - t) d fits,
      surge_mono fee (a - t) (b - t) d,
    )

approx_exp_of_negative : (n : ℕ) → approx_exp_basis_points (sub_ℕ 0 n) 4 ≤ one_in_bips
approx_exp_of_negative zero =
    unfold approx_exp_basis_points exp_of_magnitude exp_rounds sat_mul in omega arith
approx_exp_of_negative (suc n) =
    let e : sub_ℕ 0 (suc n) ≡ negsuc n = ground arith in rw e (approx_exp-le n)

-- Where the product of inertia and speed limit does not fit an i64, the cast of the divisor makes
-- it negative: whatever the backlog, the legacy fee is not above the minimum.
pub legacy_base_fee_of_large_inertia :
    (backlog speed inertia tolerance fee : ℕ)
    → 2 ^ 63 ≤ mul64 inertia speed
    → legacy_base_fee backlog speed inertia tolerance fee ≤ fee
unfolding legacy_base_fee legacy_exponent as_i64 quotient
legacy_base_fee_of_large_inertia backlog speed inertia tolerance fee large =
    let t = mul64 tolerance speed in
    let d = mul64 inertia speed in
    let n = scaled (backlog - t) / suc (2 ^ 64 - 1 - d) in
    ground (arith, approx_exp_of_negative n, big_mul-le fee (approx_exp_basis_points (sub_ℕ 0 n) 4))
