-- ===== src/Storage/L2Pricing/Exponent.antt =====
-- crates/arb-revm/src/storage/l2_pricing.rs: the arithmetic of the base fee.
use arbitrum_revm.Prelude.{
  ℕ, zero, suc, ◌+◌, ◌-◌, ◌*◌, ◌/◌, ◌^◌, ◌&&◌, ltb, leb, ◌==◌, min, if◌then◌else◌,
}
use arbitrum_revm.Prelude.Int.{ℤ, pos, negsuc, ◌+ℤ◌, ltb_ℤ}
use arbitrum_revm.Words.{sat_mul, add64, mul64, i64_max, u256_max}
use arbitrum_revm.Signed.{quotient}

abbrev pub one_in_bips : ℕ
one_in_bips = 10_000

abbrev pub single_dim : ℕ
single_dim = 6

abbrev pub num_resource_kinds : ℕ
num_resource_kinds = 9

abbrev pub read_cost : ℕ
read_cost = 800

abbrev pub write_cost : ℕ
write_cost = 20_000

abbrev pub write_zero_cost : ℕ
write_zero_cost = 5_000

-- `for i in (1..accuracy).rev()`
unfoldable pub exp_rounds : ℕ → ℕ → ℕ → ℕ
exp_rounds zero x result = result
exp_rounds (suc i) x result = exp_rounds i x (one_in_bips + mul64 result x / (suc i * one_in_bips))

-- The magnitude of the exponent, and the sum of the series for it.
unfoldable pub exp_of_magnitude : ℕ → ℕ → ℕ
exp_of_magnitude x accuracy = exp_rounds (accuracy - 1) x (one_in_bips + x / accuracy)

unfoldable pub approx_exp_basis_points : ℤ → ℕ → ℕ
approx_exp_basis_points (pos x) accuracy = min (exp_of_magnitude x accuracy) i64_max
approx_exp_basis_points (negsuc x) accuracy =
    min (one_in_bips * one_in_bips / exp_of_magnitude (suc x) accuracy) i64_max

-- The callers' `bips` are never negative.
unfoldable pub big_mul_by_bips : ℕ → ℕ → ℕ
big_mul_by_bips value bips = sat_mul u256_max value bips / one_in_bips

-- `(x as i128).saturating_mul(10_000).min(i64::MAX)`
unfoldable pub scaled : ℕ → ℕ
scaled x = min (x * one_in_bips) i64_max

-- `x as i64`
unfoldable pub as_i64 : ℕ → ℤ
as_i64 x = if ltb x (2 ^ 63) then pos x else negsuc (2 ^ 64 - 1 - x)

-- i64::saturating_add
unfoldable pub sat_add_i64 : ℤ → ℤ → ℤ
sat_add_i64 a b = elim (a +ℤ b) [ pos n ↦ pos (min n i64_max) | negsuc n ↦ negsuc (min n i64_max) ]

unfoldable pub backlog_update_cost_for_constraints : ℕ → ℕ → ℕ
backlog_update_cost_for_constraints arbos_version constraints_len =
    if leb 60 arbos_version
    then read_cost + write_cost
    else (let gas_model_read = (if leb 50 arbos_version then read_cost else 0) in
        if leb 51 arbos_version && ltb 0 constraints_len
        then add64 (add64 gas_model_read read_cost) (mul64 constraints_len (read_cost + write_cost))
        else add64 gas_model_read (read_cost + write_cost))

-- The exponent of the legacy model, from the gas above the tolerated backlog.
unfoldable pub legacy_exponent : ℕ → ℕ → ℤ
legacy_exponent excess divisor =
    if ltb 0 divisor then quotient (pos (scaled excess)) (as_i64 divisor) else pos 0

unfoldable pub legacy_base_fee : ℕ → ℕ → ℕ → ℕ → ℕ → ℕ
legacy_base_fee backlog speed_limit inertia tolerance min_base_fee =
    let threshold = mul64 tolerance speed_limit in
    if ltb threshold backlog
    then big_mul_by_bips min_base_fee (
        approx_exp_basis_points (legacy_exponent (backlog - threshold) (mul64 inertia speed_limit))
          4)
    else min_base_fee

-- What one gas constraint adds to the exponent.
unfoldable pub constraint_exponent : ℕ → ℕ → ℕ → ℤ → ℤ
constraint_exponent target window backlog total =
    if ltb 0 backlog && ltb 0 (mul64 window target)
    then sat_add_i64 total (quotient (pos (scaled backlog)) (as_i64 (mul64 window target)))
    else total

unfoldable pub exponent_base_fee : ℕ → ℤ → ℕ
exponent_base_fee min_base_fee exponent =
    if ltb_ℤ (pos 0) exponent
    then big_mul_by_bips min_base_fee (approx_exp_basis_points exponent 4)
    else min_base_fee

-- One resource's share of one multi-dimensional constraint.
unfoldable pub multi_exponent : ℕ → ℕ → ℕ → ℕ → ℤ → ℤ
multi_exponent divisor backlog weight kind exponent =
    if kind == single_dim
    then exponent
    else if weight == 0
    then exponent
    else sat_add_i64 exponent (pos (scaled (mul64 backlog weight) / min divisor i64_max))
