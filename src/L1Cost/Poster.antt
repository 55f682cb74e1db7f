-- ===== src/L1Cost/Poster.antt =====
-- crates/arb-revm/src/l1_cost.rs: the fee of a transaction against the cost of posting it.
use native.Mathlib.Nat.{mod-lt, mod-add-div, mul-le-mul, le_refl, le_trans}
use arbitrum_revm.Prelude.{
  ℕ, ◌+◌, ◌*◌, ◌/◌, ◌≤◌, ◌<◌, ◌≡◌, ◌⊎◌, false, inl, inr, refl, not, ◌||◌, Option, List, leb, ◌==◌,
  arith, Bool-cases,
}
use arbitrum_revm.Words.{u64_max, u256_max, sat_mul, mul64, sat_mul-le, sat_mul-eq}
use arbitrum_revm.L1Cost.{
  batch_poster_address, gas_of_cost, price_compressed, is_empty, length_or, compute_poster_info,
}

-- The gas pays for all of the cost but what is less than the price of one unit of gas, or it is
-- the greatest u64.
gas_of_cost_lem :
    (cost price : ℕ)
    → 0 < price
    → (price * gas_of_cost cost price ≤ cost)
      × ((gas_of_cost cost price ≡ u64_max) ⊎ (cost < price * gas_of_cost cost price + price))
unfolding gas_of_cost
gas_of_cost_lem cost price pos =
    let zero_price : (price == 0) ≡ false = ground arith in
    let whole = mod-add-div cost price in
    let part = mod-lt cost pos in
    rw zero_price (elim (Bool-cases (leb (cost / price) u64_max)) [
      | inl fits ↦ rw fits (omega (arith, whole), inr (omega (arith, whole, part)))
      | inr over ↦
          let below : u64_max ≤ cost / price = ground (arith, over) in
          rw over (omega (arith, whole, mul-le-mul (le_refl price) below), inl refl)
    ])

-- For any compressor, where the price of gas is not zero, the fee that a
-- transaction pays for its data is the price of the gas it is charged, is never more than the
-- cost of posting it, and falls short of that by less than the price of one unit of gas, unless
-- the charge of gas is the greatest u64.
pub compute_poster_info_lem :
    (compress : List ℕ → ℕ → Option (List ℕ)) (tx_bytes : List ℕ)
    (coinbase price_per_unit gas_price level : ℕ)
    → 0 < gas_price
    → let i = compute_poster_info compress tx_bytes coinbase price_per_unit gas_price level in
      (i.poster_fee ≡ gas_price * i.poster_gas)
      × (i.poster_fee ≤ i.poster_cost)
      × ((i.poster_gas ≡ u64_max) ⊎ (i.poster_cost < i.poster_fee + gas_price))
unfolding compute_poster_info price_compressed
compute_poster_info_lem compress tx_bytes coinbase unit price level pos =
    elim (Bool-cases (not (coinbase == batch_poster_address) || is_empty tx_bytes)) [
      | inl free ↦ rw free (omega arith, omega arith, inr (omega (arith, pos)))
      | inr charged ↦
          let n = length_or (compress tx_bytes level) tx_bytes in
          let cost = sat_mul u256_max unit (mul64 16 n) in
          let split = gas_of_cost_lem cost price pos in
          let fee =
            sat_mul-eq u256_max price (gas_of_cost cost price)
              (le_trans split.0 (sat_mul-le u256_max unit (mul64 16 n))) in
          rw charged (rw fee (refl, split.0, split.1))
    ]
