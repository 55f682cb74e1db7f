-- ===== src/Examples/Fees.antt =====
-- Base fees: the exponential, and the legacy update.
use arbitrum_revm.Prelude.{◌^◌, ◌≤◌, ◌≡◌, refl, [], ◌∷◌, arith}
use arbitrum_revm.Prelude.Int.{pos}
use arbitrum_revm.Words.{mul64, sat_mul}
use arbitrum_revm.Exec.{Journal, ok}
use arbitrum_revm.Storage.{StorageSpace, get, set}
use arbitrum_revm.Storage.L2Pricing.{legacy, gas_model, update_pricing_model}
use arbitrum_revm.Storage.L2Pricing.Exponent.{
  approx_exp_basis_points, exp_of_magnitude, exp_rounds, legacy_base_fee,
}
use arbitrum_revm.Storage.L2Pricing.Bounds.{legacy_base_fee_of_large_inertia}
use arbitrum_revm.Storage.L2Pricing.Legacy.{
  IsValid, paid_down, next_fee, update_pricing_model_lem, base_fee-ge-min, gas_model_legacy,
}
use arbitrum_revm.Demo.{demo, demo-IsApart, blank, look}

-- e^1 to four terms, in basis points
exp_one : approx_exp_basis_points (pos 10_000) 4 ≡ 27083
unfolding approx_exp_basis_points exp_of_magnitude exp_rounds sat_mul
exp_one = refl

large_product : mul64 (2 ^ 40) (2 ^ 23) ≡ 2 ^ 63
unfolding sat_mul
large_product = refl

legacy_base_fee_of_large_inertia_example :
    legacy_base_fee (2 ^ 63) (2 ^ 23) (2 ^ 40) 10 100_000_000 ≤ 100_000_000
legacy_base_fee_of_large_inertia_example =
    legacy_base_fee_of_large_inertia (2 ^ 63) (2 ^ 23) (2 ^ 40) 10 100_000_000
      (omega (arith, large_product))

abbrev pricing : StorageSpace
pricing = record { key = 1 ∷ []; account = 1 }

-- Speed limit 7,000,000, a minimum fee of 100,000,000, a backlog, inertia 102, tolerance 10.
abbrev busy : Journal
busy = set pricing 0 7_000_000 (
    set pricing 3 100_000_000
      (set pricing 4 90_000_000 (set pricing 5 102 (set pricing 6 10 blank))))

busy_slots :
    (get pricing 0 busy ≡ 7_000_000)
    × (get pricing 3 busy ≡ 100_000_000)
    × (get pricing 4 busy ≡ 90_000_000)
    × (get pricing 5 busy ≡ 102)
    × (get pricing 6 busy ≡ 10)
unfolding look
busy_slots = (refl, refl, refl, refl, refl)

busy-IsValid : IsValid pricing busy
busy-IsValid = record {
  speed_limit = omega (arith, busy_slots);
  backlog = omega (arith, busy_slots);
  inertia = omega (arith, busy_slots);
  tolerance = omega (arith, busy_slots);
}

busy-legacy : gas_model pricing 20 busy ≡ (ok legacy, busy)
busy-legacy = gas_model_legacy pricing 20 busy (omega arith)

busy_product : mul64 (get pricing 5 busy) (get pricing 0 busy) ≡ 714_000_000
unfolding look
busy_product = refl

update_pricing_model_lem_example :
    ((update_pricing_model pricing 2 20 busy).0 ≡ ok tt)
    × (get pricing 4 (update_pricing_model pricing 2 20 busy).1 ≡ paid_down pricing 2 busy)
    × (get pricing 2 (update_pricing_model pricing 2 20 busy).1 ≡ next_fee pricing 2 busy)
    × (get pricing 3 (update_pricing_model pricing 2 20 busy).1 ≡ get pricing 3 busy)
update_pricing_model_lem_example =
    update_pricing_model_lem pricing (demo-IsApart pricing) 2 20 3 busy busy-legacy busy-IsValid
      (omega arith) (omega arith) (omega arith)

base_fee-ge-min_example :
    get pricing 3 (update_pricing_model pricing 2 20 busy).1
    ≤ get pricing 2 (update_pricing_model pricing 2 20 busy).1
base_fee-ge-min_example =
    base_fee-ge-min pricing (demo-IsApart pricing) 2 20 busy busy-legacy busy-IsValid
      (omega (arith, busy_product)) (omega (arith, busy_slots))
