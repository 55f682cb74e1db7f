-- ===== src/Storage/L1Pricing.antt =====
-- crates/arb-revm/src/storage/l1_pricing.rs: what batch posters are paid, and the L1 price.
-- Slots: pay_rewards_to 0, equilibration_units 1, inertia 2, per_unit_reward 3, last_update_time 4,
-- funds_due_for_rewards 5, units_since_update 6, price_per_unit 7, last_surplus 8,
-- per_batch_gas_cost 9, amortized_cost_cap_bips 10, l1_fees_available 11, gas_floor_per_token 12.
pub mod Charges
use arbitrum_revm.Prelude.{
  ℕ, ◌+◌, ◌-◌, ◌/◌, none, some, true, ◌&&◌, ◌||◌, ltb, leb, ◌==◌, min, if◌then◌else◌,
}
use arbitrum_revm.Prelude.Int.{ℤ, pos, ◌-ℤ◌}
use arbitrum_revm.Words.{sat_add, sat_mul, add64, mul64, u64_max, u256_max}
use arbitrum_revm.Signed.{
  or_else, is_zero, checked_add, checked_sub, checked_mul, i256_max, u256_to_i256_saturating,
  i256_nonnegative_to_u256, add_i256_u256_saturating, signed_i64_to_u64_floor_zero,
  div_i256_like_go_bigint,
}
use arbitrum_revm.Exec.{
  Host, Exec, ok, pure, raise, ◌>>=◌, ◌>>◌, l1_fees_overflow, surplus_overflow, surplus_underflow,
  invalid_report_timestamp,
}
use arbitrum_revm.Storage.{
  StorageSpace, open_subspace_with_key, get_u64, get_u256, get_i256, get_i64, get_address, put,
  set_i256_saturating, set_i256_pre_version7, transfer,
}
use arbitrum_revm.Storage.BatchPosterTable.{
  total_funds_due, open_poster_checked, funds_due, pay_to, set_funds_due,
}

abbrev pub funds_pool_address : ℕ
funds_pool_address = 0xA4B00000000000000000000000000000000000f6

pub words_for_bytes : ℕ → ℕ
words_for_bytes byte_len = add64 byte_len 31 / 32

pub legacy_batch_cost_for_stats : ℕ → ℕ → ℕ
unfolding words_for_bytes
legacy_batch_cost_for_stats length non_zeros =
    let calldata_gas = add64 (mul64 4 (length - non_zeros)) (mul64 16 non_zeros) in
    add64 (add64 (add64 calldata_gas 30) (mul64 (words_for_bytes length) 6)) (mul64 2 20_000)

pub mul_u256_by_bips_saturating : ℕ → ℕ → ℕ
mul_u256_by_bips_saturating value bips = sat_mul u256_max value bips / 10_000

-- The amortized cost cap: what is above it is the poster's loss.
pub capped_wei : ℕ → ℕ → ℕ → ℕ → ℕ
unfolding mul_u256_by_bips_saturating
capped_wei cap_bips l1_base_fee units_allocated wei_spent =
    if cap_bips == 0
    then wei_spent
    else min wei_spent
        (mul_u256_by_bips_saturating (sat_mul u256_max l1_base_fee units_allocated) cap_bips)

-- The part of the units since the last update that a report is charged with.
pub allocated_units : ℕ → ℕ → ℕ → ℕ → ℕ
allocated_units units_since_update last_update_time update_time current_time =
    if current_time - last_update_time == 0
    then mul64 units_since_update 1 / 1
    else mul64 units_since_update (update_time - last_update_time)
      / (current_time - last_update_time)

-- The change of the price for a surplus, from the last one.
pub price_change : ℤ → ℤ → ℤ → ℤ → ℤ → ℤ
price_change surplus old_surplus equilibration_units units_allocated alloc_plus_inert =
    let desired = div_i256_like_go_bigint (pos 0 -ℤ surplus) equilibration_units in
    let actual : ℤ = (elim (checked_sub surplus old_surplus) [
      | none ↦ pos 0
      | some delta ↦ div_i256_like_go_bigint delta units_allocated
    ]) in
    let change = or_else (checked_sub desired actual) (pos 0) in
    elim (checked_mul change units_allocated) [
      | none ↦ pos 0
      | some v ↦ div_i256_like_go_bigint v alloc_plus_inert
    ]

pub next_price : ℕ → ℤ → ℕ
next_price price_per_unit change =
    if is_zero change
    then price_per_unit
    else i256_nonnegative_to_u256
        (or_else (checked_add (u256_to_i256_saturating price_per_unit) change) (pos i256_max))

module _ ⦃h : Host⦄ where
  abbrev pool_balance : Exec ℕ
  pool_balance j = (ok (j.balance funds_pool_address), j)

  pub transfer_from_pool : ℕ → ℕ → Exec (Unit {0})
  transfer_from_pool recipient amount =
      if amount == 0 then pure tt else transfer funds_pool_address recipient amount

  module _ (s : StorageSpace) where
    abbrev pub batch_poster_table : StorageSpace
    batch_poster_table = open_subspace_with_key s 0

    -- `I256::from`, a conversion of alloy's, is a parameter.
    unfoldable pub get_l1_pricing_surplus : (ℕ → ℤ) → Exec ℤ
    get_l1_pricing_surplus from_u256 = do
      refunds_due ← total_funds_due batch_poster_table
      rewards_due ← get_i256 s 5
      available ← get_u256 s 11
      elim (checked_add (from_u256 refunds_due) rewards_due) [
        | none ↦ raise surplus_overflow
        | some needed ↦ elim (checked_sub (from_u256 available) needed) [
          | none ↦ raise surplus_underflow
          | some surplus ↦ pure surplus
        ]
      ]

    unfoldable pub add_to_l1_fees_available : ℕ → Exec (Unit {0})
    add_to_l1_fees_available delta = do
      current ← get_u256 s 11
      if leb (current + delta) u256_max then put s 11 (current + delta) else raise l1_fees_overflow

    -- The funds that may be paid out: a counter from ArbOS 10, the pool's balance before.
    pub available_funds : ℕ → Exec ℕ
    available_funds arbos_version = if leb 10 arbos_version then get_u256 s 11 else pool_balance

    -- The last block of the update: the new price for the units charged.
    pub update_price : ℕ → ℕ → Exec (Unit {0})
    update_price arbos_version units_allocated = do
      total ← total_funds_due batch_poster_table
      rewards ← get_i256 s 5
      current_available ← available_funds arbos_version
      let needed = add_i256_u256_saturating rewards total
      let surplus = or_else (checked_sub (u256_to_i256_saturating current_available) needed) (pos 0)
      inertia ← get_u64 s 2
      if inertia == 0 then pure tt else do
        equilibration ← get_u256 s 1
        let alloc_plus_inert = sat_add u256_max (equilibration / inertia) units_allocated
        if equilibration == 0 || alloc_plus_inert == 0 then pure tt else do
          old_surplus ← get_i256 s 8
          if is_zero (u256_to_i256_saturating equilibration)
                || is_zero (u256_to_i256_saturating alloc_plus_inert)
              then pure tt
              else do
                let change =
                    price_change surplus old_surplus (u256_to_i256_saturating equilibration)
                      (u256_to_i256_saturating units_allocated)
                      (u256_to_i256_saturating alloc_plus_inert)
                (if ltb arbos_version 2
                    then pure tt
                    else if ltb arbos_version 7
                    then set_i256_pre_version7 s 8 surplus
                    else set_i256_saturating s 8 surplus)
                price ← get_u256 s 7
                put s 7 (next_price price change)

    -- The rewards for the units charged: as much of what is due as the funds allow.
    pub pay_rewards : ℕ → ℕ → ℤ → ℕ → Exec ℕ
    pay_rewards arbos_version units_allocated due funds_available = do
      per_unit_reward ← get_u64 s 3
      let target = sat_mul u256_max per_unit_reward units_allocated
      let grown = add_i256_u256_saturating due target
      set_i256_saturating s 5 grown
      let payment = min target funds_available
      set_i256_saturating s 5 (u256_to_i256_saturating (i256_nonnegative_to_u256 grown - payment))
      (if ltb 0 payment
          then (do recipient ← get_address s 0; transfer_from_pool recipient payment)
          else pure tt)
      if leb 10 arbos_version
          then (do put s 11 (funds_available - payment); pure (funds_available - payment))
          else pool_balance

    -- What the poster is owed, as far as the funds allow.
    pub pay_poster : ℕ → StorageSpace → ℕ → Exec (Unit {0})
    pay_poster arbos_version poster_state funds_available = do
      balance_due ← funds_due poster_state
      let amount = min balance_due funds_available
      if ltb 0 amount
          then (do
            recipient ← pay_to poster_state
            transfer_from_pool recipient amount
            set_funds_due batch_poster_table poster_state (balance_due - amount)
            if leb 10 arbos_version then put s 11 (funds_available - amount) else pure tt)
          else pure tt

    -- The update after its timestamps are accepted.
    pub charge_units : ℕ → ℕ → ℕ → ℕ → StorageSpace → ℕ → ℕ → ℤ → ℕ → Exec (Unit {0})
    charge_units arbos_version update_time current_time last_update_time poster_state wei_spent
          l1_base_fee due funds_available =
        do
          units_since_update ← get_u64 s 6
          let units = allocated_units units_since_update last_update_time update_time current_time
          put s 6 (units_since_update - units)
          cap_bips ← (if leb 3 arbos_version then get_u64 s 10 else pure 0)
          due_to_poster ← funds_due poster_state
          set_funds_due batch_poster_table poster_state
              (sat_add u256_max due_to_poster (capped_wei cap_bips l1_base_fee units wei_spent))
          funds ← pay_rewards arbos_version units due funds_available
          pay_poster arbos_version poster_state funds
          put s 4 update_time
          if units == 0 then pure tt else update_price arbos_version units

    pub update_for_batch_poster_spending : ℕ → ℕ → ℕ → ℕ → ℕ → ℕ → Exec (Unit {0})
    update_for_batch_poster_spending arbos_version update_time current_time batch_poster wei_spent
          l1_base_fee =
        do
          poster_state ← open_poster_checked batch_poster_table batch_poster true
          due ← get_i256 s 5
          funds_available ← available_funds arbos_version
          stored ← get_u64 s 4
          if ltb arbos_version 2
              then (do
                -- `update_time.wrapping_sub(1)`
                let last =
                    if stored == 0 && ltb 0 current_time
                    then (if update_time == 0 then u64_max else update_time - 1)
                    else stored
                if leb current_time update_time || ltb update_time last
                    then pure tt
                    else charge_units arbos_version update_time current_time last poster_state
                        wei_spent l1_base_fee due funds_available)
              else do
                let last = if stored == 0 && ltb 0 update_time then update_time - 1 else stored
                if ltb current_time update_time || ltb update_time last
                    then raise invalid_report_timestamp
                    else charge_units arbos_version update_time current_time last poster_state
                        wei_spent l1_base_fee due funds_available

    abbrev wei_for_gas : ℕ → ℕ → ℕ
    wei_for_gas l1_base_fee gas_spent = sat_mul u256_max l1_base_fee gas_spent

    pub apply_batch_posting_report : ℕ → ℕ → ℕ → ℕ → ℕ → ℕ → Exec (Unit {0})
    apply_batch_posting_report arbos_version batch_timestamp current_time batch_poster
          batch_data_gas l1_base_fee =
        do
          per_batch_gas ← get_i64 s 9
          let gas_spent = add64 (signed_i64_to_u64_floor_zero per_batch_gas) batch_data_gas
          update_for_batch_poster_spending arbos_version batch_timestamp current_time batch_poster
              (wei_for_gas l1_base_fee gas_spent) l1_base_fee

    -- The gas of a report from its calldata, with the floor of ArbOS 50.
    pub report_gas : ℕ → ℕ → ℕ → ℕ → ℤ → ℕ → ℕ
    report_gas arbos_version length non_zeros extra_gas per_batch_gas gas_floor_per_token =
        let gas_spent =
          add64 (add64 (legacy_batch_cost_for_stats length non_zeros) extra_gas)
            (signed_i64_to_u64_floor_zero per_batch_gas) in
        let floor_tokens = add64 (add64 length (mul64 non_zeros 3)) 172 in
        let floor_gas_spent = add64 (mul64 gas_floor_per_token floor_tokens) 21_000 in
        if leb 50 arbos_version && ltb gas_spent floor_gas_spent then floor_gas_spent else gas_spent

    pub apply_batch_posting_report_v2 : ℕ → ℕ → ℕ → ℕ → ℕ → ℕ → ℕ → ℕ → Exec (Unit {0})
    apply_batch_posting_report_v2 arbos_version batch_timestamp current_time batch_poster length
          non_zeros extra_gas l1_base_fee =
        do
          per_batch_gas ← get_i64 s 9
          gas_floor_per_token ← (if leb 50 arbos_version then get_u64 s 12 else pure 0)
          update_for_batch_poster_spending arbos_version batch_timestamp current_time batch_poster
              (wei_for_gas l1_base_fee (
                report_gas arbos_version length non_zeros extra_gas per_batch_gas
                  gas_floor_per_token))
              l1_base_fee
