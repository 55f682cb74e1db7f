-- ===== src/Storage/L1Pricing/Charges.antt =====
-- crates/arb-revm/src/storage/l1_pricing.rs: what a batch report is charged.
use native.Mathlib.Nat.{mul-le-mul, le_refl, div-le_of_le-mul, mul-div_cancel}
use native.Mathlib.Decide.{dec_le}
use arbitrum_revm.Prelude.{ℕ, ◌-◌, ◌*◌, ◌/◌, ◌≤◌, ◌<◌, ◌≡◌, arith}
use arbitrum_revm.Words.{mul64, sat_mul, sat_mul_mono, u64_max, div_mono, sat_mul-eq}
use arbitrum_revm.Storage.L1Pricing.{allocated_units}

sat_mul-le_mul : (top a b : ℕ) → sat_mul top a b ≤ a * b
unfolding sat_mul
sat_mul-le_mul top a b = ground arith

share-le :
    (units elapsed interval : ℕ) → elapsed ≤ interval → mul64 units elapsed / interval ≤ units
share-le units elapsed interval le =
    div-le_of_le-mul interval
      (omega (arith, sat_mul-le_mul u64_max units elapsed, mul-le-mul (le_refl units) le))

share-all :
    (units interval : ℕ)
    → 0 < interval
    → units * interval ≤ u64_max
    → mul64 units interval / interval ≡ units
share-all units interval lt fits =
    rw (sat_mul-eq u64_max units interval fits) (mul-div_cancel units lt)

-- A report is charged a part of the units since the last update: of two reports whose times are
-- not after the current one, the later is charged no less, and no more than all the units.
pub allocated_units_lem :
    (units last update later current : ℕ)
    → update ≤ later
    → later ≤ current
    → (allocated_units units last update current ≤ allocated_units units last later current)
      × (allocated_units units last later current ≤ units)
unfolding allocated_units
allocated_units_lem units last update later current le past = elim (dec_le current last) [
  | yes same ↦ (ground (arith, same), ground (arith, same, share-le units 1 1 (omega arith)))
  | no apart ↦ (
    ground (
      arith,
      apart,
      div_mono (current - last) (mul64 units (update - last)) (mul64 units (later - last))
          (omega (arith, apart))
          (sat_mul_mono u64_max units units (update - last) (later - last) (le_refl units)
            (omega (arith, le))),
    ),
    ground (arith, apart, share-le units (later - last) (current - last) (omega (arith, past))),
  )
]

-- A report of the current time is charged all the units since the last update, where these, and
-- these times the elapsed seconds, fit a u64.
pub allocated_units_of_all :
    (units last current : ℕ)
    → units ≤ u64_max
    → units * (current - last) ≤ u64_max
    → allocated_units units last current current ≡ units
unfolding allocated_units
allocated_units_of_all units last current small fits = elim (dec_le current last) [
  | yes same ↦ ground (arith, same, share-all units 1 (omega arith) (omega (arith, small)))
  | no apart ↦ ground (arith, apart, share-all units (current - last) (omega (arith, apart)) fits)
]
