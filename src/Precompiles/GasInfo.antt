-- ===== src/Precompiles/GasInfo.antt =====
-- crates/arb-revm/src/precompiles/arb_gas_info.rs: the queries of ArbGasInfo. The price of L2 gas is that of the
-- block, and the fee of the poster is read from transient storage; both are arguments.
pub mod View
use arbitrum_revm.Prelude.{
  ℕ, ◌+◌, ◌-◌, ◌*◌, ◌/◌, Bool, Option, none, some, List, [], ◌∷◌, length, ltb, ◌==◌, min,
  if◌then◌else◌,
}
use arbitrum_revm.Prelude.Int.{ℤ, pos, negsuc}
use arbitrum_revm.Words.{sat_mul, u256_max}
use arbitrum_revm.Exec.{Host, Exec, pure, ◌>>=◌}
use arbitrum_revm.Storage.{get_u64, get_u256, get_address, get_i256, get_i64}
use arbitrum_revm.Storage.L1Pricing.{get_l1_pricing_surplus}
use arbitrum_revm.Storage.L2Pricing.Constraints.{
  GasConstraintValue, MultiGasConstraintValue, gas_constraints, multi_gas_constraint_values,
  multi_gas_base_fees,
}
use arbitrum_revm.ArbosState.{arbos_version, l1_pricing, l2_pricing}
use arbitrum_revm.Precompiles.Outcome.{
  ArbCall, InterpreterResult, out_of_gas, GasMeter, Run, ok_result, plain_error,
  gated_revert_result, done, try_or,
}
use arbitrum_revm.Precompiles.Burner.{charge_burned}

-- The encoder of results (alloy), and `I256::from`.
pub record Encoder : Type 0 where
  pub from_u256 : ℕ → ℤ
  pub encode_words : List ℕ → List ℕ
  pub encode_signed : ℤ → List ℕ
  pub encode_fees : List ℕ → List ℕ
  pub encode_constraints : List GasConstraintValue → List ℕ
  pub encode_resources : List (List (ℕ × ℕ) × ℕ × ℕ × ℕ) → List ℕ

pub data GasInfoCall : Type 0 where
  get_gas_pricing_constraints get_multi_gas_pricing_constraints get_multi_gas_base_fee
        get_prices_in_wei get_prices_in_wei_with_aggregator get_prices_in_arb_gas
        get_prices_in_arb_gas_with_aggregator get_gas_accounting_params get_max_tx_gas_limit
        get_minimum_gas_price get_l1_base_fee_estimate get_l1_base_fee_estimate_inertia
        get_l1_reward_rate get_l1_reward_recipient get_l1_gas_price_estimate
        get_current_tx_l1_gas_fees get_gas_backlog get_pricing_inertia get_gas_backlog_tolerance
        get_the_l1_pricing_surplus get_per_batch_gas_charge get_amortized_cost_cap_bips
        get_l1_fees_available get_l1_pricing_equilibration_units get_last_l1_pricing_update_time
        get_l1_pricing_funds_due_for_rewards get_l1_pricing_units_since_update
        get_last_l1_pricing_surplus get_max_block_gas_limit :
      GasInfoCall

-- The non-zero weights, each with its kind, from `kind` on.
unfoldable pub nonzero_weights : ℕ → List ℕ → List (ℕ × ℕ)
nonzero_weights kind [] = []
nonzero_weights kind (w ∷ ws) =
    let rest = nonzero_weights (kind + 1) ws in if w == 0 then rest else (kind, w) ∷ rest

abbrev pub resource_constraints : List MultiGasConstraintValue → List (List (ℕ × ℕ) × ℕ × ℕ × ℕ)
resource_constraints [] = []
resource_constraints (c ∷ cs) =
    (nonzero_weights 0 c.weights, c.adjustment_window, c.target, c.backlog)
    ∷ resource_constraints cs

unfoldable pub per_arb_gas_base : ℕ → ℕ → ℕ → ℕ
per_arb_gas_base version l2_gas_price min_base_fee =
    if ltb version 4 then l2_gas_price else min l2_gas_price min_base_fee

-- Per L2 transaction, per unit of L1 calldata, per storage allocation, and the base, the congestion
-- and the total of the price of gas.
unfoldable pub prices_in_wei : ℕ → ℕ → ℕ → ℕ → List ℕ
prices_in_wei version l2_gas_price min_base_fee l1_price =
    let wei_for_l1_calldata = sat_mul u256_max l1_price 16 in
    let base = per_arb_gas_base version l2_gas_price min_base_fee in
    (sat_mul u256_max wei_for_l1_calldata 140)
    ∷ wei_for_l1_calldata
    ∷ (sat_mul u256_max l2_gas_price 20_000)
    ∷ base
    ∷ (l2_gas_price - base)
    ∷ l2_gas_price
    ∷ []

-- Nothing where gas is free.
abbrev pub in_gas : ℕ → ℕ → ℕ
in_gas l2_gas_price wei = if ltb 0 l2_gas_price then wei / l2_gas_price else 0

unfoldable pub prices_in_arb_gas : ℕ → ℕ → ℕ → List ℕ
prices_in_arb_gas version l2_gas_price l1_price =
    let wei_for_l1_calldata = sat_mul u256_max l1_price 16 in
    (if ltb version 4 then 140 else in_gas l2_gas_price (sat_mul u256_max wei_for_l1_calldata 140))
    ∷ (in_gas l2_gas_price wei_for_l1_calldata)
    ∷ 20_000
    ∷ []

abbrev pub floor_zero : ℤ → ℕ
floor_zero (pos n) = n
floor_zero (negsuc n) = 0

module _ ⦃h : Host⦄ ⦃g : GasMeter⦄ ⦃e : Encoder⦄ where
  -- A value, the number of slots that its reading takes, at 800 each, and its encoding.
  unfoldable pub answer : {A : Type 0} → ℕ → Exec A → (A → ℕ) → (A → List ℕ) → Run
  answer gas_limit m slots encode =
      try_or (plain_error gas_limit) m
        λ a. done (charge_burned out_of_gas (ok_result gas_limit (encode a)) (800 * slots a))

  abbrev pub one_word : ℕ → Exec ℕ → Run
  one_word gas_limit m = answer gas_limit m (λ a. 1) (λ a. e.encode_words (a ∷ []))

  abbrev pub one_signed : ℕ → Exec ℤ → ℕ → Run
  one_signed gas_limit m slots = answer gas_limit m (λ a. slots) e.encode_signed

  abbrev pub two_words : Exec ℕ → Exec ℕ → Exec (ℕ × ℕ)
  two_words first second = do a ← first; b ← second; pure (a, b)

  unfoldable pub run_gas_info : ℕ → ℕ → ℕ → ℕ → GasInfoCall → Run
  run_gas_info limit price poster_fee version get_gas_pricing_constraints =
      answer limit (gas_constraints l2_pricing) (λ cs. 1 + 3 * length cs) e.encode_constraints
  run_gas_info limit price poster_fee version get_multi_gas_pricing_constraints =
      answer limit (multi_gas_constraint_values l2_pricing) (λ cs. 1 + 12 * length cs)
        (λ cs. e.encode_resources (resource_constraints cs))
  run_gas_info limit price poster_fee version get_multi_gas_base_fee =
      answer limit (multi_gas_base_fees l2_pricing price version)
        (λ fees. (if ltb version 61 then 1 else 0) + length fees) e.encode_fees
  run_gas_info limit price poster_fee version get_prices_in_wei =
      answer limit (two_words (get_u256 l2_pricing 3) (get_u256 l1_pricing 7)) (λ a. 2)
        (λ a. e.encode_words (prices_in_wei version price a.0 a.1))
  run_gas_info limit price poster_fee version get_prices_in_wei_with_aggregator =
      answer limit (two_words (get_u256 l2_pricing 3) (get_u256 l1_pricing 7)) (λ a. 2)
        (λ a. e.encode_words (prices_in_wei version price a.0 a.1))
  run_gas_info limit price poster_fee version get_prices_in_arb_gas =
      answer limit (get_u256 l1_pricing 7) (λ a. 1)
        (λ a. e.encode_words (prices_in_arb_gas version price a))
  run_gas_info limit price poster_fee version get_prices_in_arb_gas_with_aggregator =
      answer limit (get_u256 l1_pricing 7) (λ a. 1)
        (λ a. e.encode_words (prices_in_arb_gas version price a))
  run_gas_info limit price poster_fee version get_gas_accounting_params =
      answer limit (two_words (get_u64 l2_pricing 0) (get_u64 l2_pricing 1)) (λ a. 2)
        (λ a. e.encode_words (a.0 ∷ a.1 ∷ a.1 ∷ []))
  run_gas_info limit price poster_fee version get_max_tx_gas_limit =
      one_word limit (get_u64 l2_pricing 7)
  run_gas_info limit price poster_fee version get_minimum_gas_price =
      one_word limit (get_u256 l2_pricing 3)
  run_gas_info limit price poster_fee version get_l1_base_fee_estimate =
      one_word limit (get_u256 l1_pricing 7)
  run_gas_info limit price poster_fee version get_l1_base_fee_estimate_inertia =
      one_word limit (get_u64 l1_pricing 2)
  run_gas_info limit price poster_fee version get_l1_reward_rate =
      one_word limit (get_u64 l1_pricing 3)
  run_gas_info limit price poster_fee version get_l1_reward_recipient =
      one_word limit (get_address l1_pricing 0)
  run_gas_info limit price poster_fee version get_l1_gas_price_estimate =
      one_word limit (get_u256 l1_pricing 7)
  run_gas_info limit price poster_fee version get_current_tx_l1_gas_fees =
      answer limit (pure poster_fee) (λ a. 0) (λ a. e.encode_words (a ∷ []))
  run_gas_info limit price poster_fee version get_gas_backlog =
      one_word limit (get_u64 l2_pricing 4)
  run_gas_info limit price poster_fee version get_pricing_inertia =
      one_word limit (get_u64 l2_pricing 5)
  run_gas_info limit price poster_fee version get_gas_backlog_tolerance =
      one_word limit (get_u64 l2_pricing 6)
  run_gas_info limit price poster_fee version get_the_l1_pricing_surplus =
      one_signed limit (get_l1_pricing_surplus l1_pricing e.from_u256) 3
  run_gas_info limit price poster_fee version get_per_batch_gas_charge =
      one_signed limit (get_i64 l1_pricing 9) 1
  run_gas_info limit price poster_fee version get_amortized_cost_cap_bips =
      one_word limit (get_u64 l1_pricing 10)
  run_gas_info limit price poster_fee version get_l1_fees_available =
      one_word limit (get_u256 l1_pricing 11)
  run_gas_info limit price poster_fee version get_l1_pricing_equilibration_units =
      one_word limit (get_u256 l1_pricing 1)
  run_gas_info limit price poster_fee version get_last_l1_pricing_update_time =
      one_word limit (get_u64 l1_pricing 4)
  run_gas_info limit price poster_fee version get_l1_pricing_funds_due_for_rewards =
      answer limit (get_i256 l1_pricing 5) (λ a. 1) (λ a. e.encode_words (floor_zero a ∷ []))
  run_gas_info limit price poster_fee version get_l1_pricing_units_since_update =
      one_word limit (get_u64 l1_pricing 6)
  run_gas_info limit price poster_fee version get_last_l1_pricing_surplus =
      one_signed limit (get_i256 l1_pricing 8) 1
  run_gas_info limit price poster_fee version get_max_block_gas_limit =
      one_word limit (get_u64 l2_pricing 1)

  -- A decoded query, at the stored version.
  abbrev pub run_query : ℕ → ℕ → ℕ → Option GasInfoCall → Run
  run_query limit price poster_fee none = done (gated_revert_result limit)
  run_query limit price poster_fee (some c) =
      try_or (plain_error limit) arbos_version
        (λ version. run_gas_info limit price poster_fee version c)

  unfoldable pub run_arb_gas_info : (List ℕ → Option GasInfoCall) → ℕ → ℕ → ArbCall → Run
  run_arb_gas_info decode price poster_fee call =
      run_query call.gas_limit price poster_fee (decode call.input)
