-- ===== src/Precompiles/GasInfo/View.antt =====
-- crates/arb-revm/src/precompiles/arb_gas_info.rs: what the queries leave alone.
use arbitrum_revm.Prelude.{
  ℕ, zero, suc, ◌+◌, ◌≡◌, refl, ◌∙◌, List, Option, none, some, ltb, if◌then◌else◌, arith,
}
use arbitrum_revm.Prelude.Int.{ℤ}
use arbitrum_revm.Exec.{
  Journal, Host, Exec, Result, ok, err, pure, raise, surplus_overflow, surplus_underflow,
}
use arbitrum_revm.Signed.{checked_add, u256_twos_complement_to_i256}
use arbitrum_revm.Exec.Reads.{OnlyReads, bind-OnlyReads, if-OnlyReads, option-OnlyReads}
use arbitrum_revm.Storage.{
  StorageSpace, get, get_u64, get_u32, get_u256, get_address, get_i256, get_i64,
}
use arbitrum_revm.Storage.BatchPosterTable.{total_funds_due}
use arbitrum_revm.Storage.L1Pricing.{batch_poster_table, get_l1_pricing_surplus}
use arbitrum_revm.Storage.L2Pricing.{
  gas_constraints_len, multi_gas_constraints_len, open_gas_constraint, open_multi_gas_constraint,
  multi_gas_fees,
}
use arbitrum_revm.Storage.L2Pricing.Constraints.{
  gas_constraints, constraints_from, multi_gas_constraint_values, multi_constraints_from, get_list,
  fees_from, multi_gas_base_fees,
}
use arbitrum_revm.ArbosState.{arbos_root, arbos_version, l1_pricing, l2_pricing}
use arbitrum_revm.Precompiles.Outcome.{
  ArbCall, InterpreterResult, GasMeter, Run, or_fail, plain_error,
}
use arbitrum_revm.Precompiles.GasInfo.{
  Encoder, GasInfoCall, get_gas_pricing_constraints, get_multi_gas_pricing_constraints,
  get_multi_gas_base_fee, get_prices_in_wei, get_prices_in_wei_with_aggregator,
  get_prices_in_arb_gas, get_prices_in_arb_gas_with_aggregator, get_gas_accounting_params,
  get_max_tx_gas_limit, get_minimum_gas_price, get_l1_base_fee_estimate,
  get_l1_base_fee_estimate_inertia, get_l1_reward_rate, get_l1_reward_recipient,
  get_l1_gas_price_estimate, get_current_tx_l1_gas_fees, get_gas_backlog, get_pricing_inertia,
  get_gas_backlog_tolerance, get_the_l1_pricing_surplus, get_per_batch_gas_charge,
  get_amortized_cost_cap_bips, get_l1_fees_available, get_l1_pricing_equilibration_units,
  get_last_l1_pricing_update_time, get_l1_pricing_funds_due_for_rewards,
  get_l1_pricing_units_since_update, get_last_l1_pricing_surplus, get_max_block_gas_limit,
  run_gas_info, run_arb_gas_info, run_query, answer, two_words,
}

module _ ⦃h : Host⦄ where
  get_u64-OnlyReads : (s : StorageSpace) (k : ℕ) → OnlyReads (get_u64 s k)
  unfolding get_u64
  get_u64-OnlyReads s k j = ground arith

  get_u32-OnlyReads : (s : StorageSpace) (k : ℕ) → OnlyReads (get_u32 s k)
  unfolding get_u32
  get_u32-OnlyReads s k j = ground arith

  get_u256-OnlyReads : (s : StorageSpace) (k : ℕ) → OnlyReads (get_u256 s k)
  unfolding get_u256
  get_u256-OnlyReads s k j = refl

  get_address-OnlyReads : (s : StorageSpace) (k : ℕ) → OnlyReads (get_address s k)
  unfolding get_address
  get_address-OnlyReads s k j = refl

  get_i256-OnlyReads : (s : StorageSpace) (k : ℕ) → OnlyReads (get_i256 s k)
  unfolding get_i256
  get_i256-OnlyReads s k j = refl

  get_i64-OnlyReads : (s : StorageSpace) (k : ℕ) → OnlyReads (get_i64 s k)
  unfolding get_i64
  get_i64-OnlyReads s k j = refl

  get_list-OnlyReads : (s : StorageSpace) (n key : ℕ) → OnlyReads (get_list s n key)
  unfolding get_list
  get_list-OnlyReads s zero key = λ j. refl
  get_list-OnlyReads s (suc n) key =
      bind-OnlyReads (get_u64 s key) _ (get_u64-OnlyReads s key) λ v.
        bind-OnlyReads (get_list s n (key + 1)) _ (get_list-OnlyReads s n (key + 1)) λ vs j. refl

  module _ (s : StorageSpace) where
    constraints_from-OnlyReads : (n i : ℕ) → OnlyReads (constraints_from s n i)
    unfolding constraints_from
    constraints_from-OnlyReads zero i = λ j. refl
    constraints_from-OnlyReads (suc n) i =
        let c = open_gas_constraint s i in
        bind-OnlyReads (get_u64 c 0) _ (get_u64-OnlyReads c 0) λ target.
          bind-OnlyReads (get_u64 c 1) _ (get_u64-OnlyReads c 1) λ window.
            bind-OnlyReads (get_u64 c 2) _ (get_u64-OnlyReads c 2) λ backlog.
              bind-OnlyReads (constraints_from s n (i + 1)) _ (constraints_from-OnlyReads n (i + 1))
                λ rest j. refl

    gas_constraints-OnlyReads : OnlyReads (gas_constraints s)
    unfolding gas_constraints gas_constraints_len
    gas_constraints-OnlyReads =
        bind-OnlyReads (gas_constraints_len s) _ (get_u64-OnlyReads _ 0)
          (λ len. constraints_from-OnlyReads len 0)

    multi_constraints_from-OnlyReads : (n i : ℕ) → OnlyReads (multi_constraints_from s n i)
    unfolding multi_constraints_from
    multi_constraints_from-OnlyReads zero i = λ j. refl
    multi_constraints_from-OnlyReads (suc n) i =
        let c = open_multi_gas_constraint s i in
        bind-OnlyReads (get_u64 c 0) _ (get_u64-OnlyReads c 0) λ target.
          bind-OnlyReads (get_u32 c 1) _ (get_u32-OnlyReads c 1) λ window.
            bind-OnlyReads (get_u64 c 2) _ (get_u64-OnlyReads c 2) λ backlog.
              bind-OnlyReads (get_list c 9 4) _ (get_list-OnlyReads c 9 4) λ weights.
                bind-OnlyReads (multi_constraints_from s n (i + 1)) _
                  (multi_constraints_from-OnlyReads n (i + 1)) λ rest j. refl

    multi_values-OnlyReads : OnlyReads (multi_gas_constraint_values s)
    unfolding multi_gas_constraint_values multi_gas_constraints_len
    multi_values-OnlyReads =
        bind-OnlyReads (multi_gas_constraints_len s) _ (get_u64-OnlyReads _ 0)
          (λ len. multi_constraints_from-OnlyReads len 0)

    fees_from-OnlyReads : (n kind fallback : ℕ) → OnlyReads (fees_from s n kind fallback)
    unfolding fees_from
    fees_from-OnlyReads zero kind fallback = λ j. refl
    fees_from-OnlyReads (suc n) kind fallback =
        bind-OnlyReads (get_u256 (multi_gas_fees s) (9 + kind)) _ (get_u256-OnlyReads _ (9 + kind))
          λ current.
            bind-OnlyReads (fees_from s n (kind + 1) fallback) _
              (fees_from-OnlyReads n (kind + 1) fallback) λ rest j. refl

    multi_gas_base_fees-OnlyReads :
        (price version : ℕ) → OnlyReads (multi_gas_base_fees s price version)
    unfolding multi_gas_base_fees
    multi_gas_base_fees-OnlyReads price version =
        bind-OnlyReads (if ltb version 61 then get_u256 s 2 else pure price) _
          (if-OnlyReads (ltb version 61) _ _ (get_u256-OnlyReads s 2) (λ j. refl))
          (λ fallback. fees_from-OnlyReads 9 0 fallback)

    surplus-OnlyReads : (from_u256 : ℕ → ℤ) → OnlyReads (get_l1_pricing_surplus s from_u256)
    unfolding get_l1_pricing_surplus get_u256 get_i256 total_funds_due
    surplus-OnlyReads from_u256 j =
        option-OnlyReads
          (checked_add (from_u256 (get (batch_poster_table s) 0 j))
            (u256_twos_complement_to_i256 (get s 5 j)))
          (raise surplus_overflow) _ (λ k. refl)
          (λ needed.
            option-OnlyReads _ (raise surplus_underflow) pure (λ k. refl) (λ surplus k. refl))
          j

or_fail-stays :
    {A : Type 0} (r : Result A) (failure : InterpreterResult) (f : A → Run) (j : Journal)
    → ((a : A) → (f a j).1 ≡ j)
    → (or_fail r failure f j).1 ≡ j
or_fail-stays (ok a) failure f j each = each a
or_fail-stays (err e) failure f j each = refl

module _ ⦃h : Host⦄ ⦃g : GasMeter⦄ ⦃e : Encoder⦄ where
  answer-stays :
      {A : Type 0} (limit : ℕ) (m : Exec A) (slots : A → ℕ) (encode : A → List ℕ)
      → OnlyReads m
      → (j : Journal) → (answer limit m slots encode j).1 ≡ j
  unfolding answer
  answer-stays limit m slots encode reads j =
      or_fail-stays (m j).0 (plain_error limit) _ (m j).1 (λ a. refl) ∙ reads j

  two-OnlyReads :
      (first second : Exec ℕ)
      → OnlyReads first
      → OnlyReads second
      → OnlyReads (two_words first second)
  two-OnlyReads first second p q =
      bind-OnlyReads first _ p λ a. bind-OnlyReads second _ q λ b j. refl

  run_gas_info-stays :
      (limit price poster_fee version : ℕ) (c : GasInfoCall) (j : Journal)
      → (run_gas_info limit price poster_fee version c j).1 ≡ j
  unfolding run_gas_info
  run_gas_info-stays limit price poster_fee version get_gas_pricing_constraints =
      answer-stays limit _ _ _ (gas_constraints-OnlyReads l2_pricing)
  run_gas_info-stays limit price poster_fee version get_multi_gas_pricing_constraints =
      answer-stays limit _ _ _ (multi_values-OnlyReads l2_pricing)
  run_gas_info-stays limit price poster_fee version get_multi_gas_base_fee =
      answer-stays limit _ _ _ (multi_gas_base_fees-OnlyReads l2_pricing price version)
  run_gas_info-stays limit price poster_fee version get_prices_in_wei = answer-stays limit _ _ _ (
      two-OnlyReads (get_u256 l2_pricing 3) (get_u256 l1_pricing 7)
        (get_u256-OnlyReads l2_pricing 3) (get_u256-OnlyReads l1_pricing 7))
  run_gas_info-stays limit price poster_fee version get_prices_in_wei_with_aggregator =
      answer-stays limit _ _ _ (
        two-OnlyReads (get_u256 l2_pricing 3) (get_u256 l1_pricing 7)
          (get_u256-OnlyReads l2_pricing 3) (get_u256-OnlyReads l1_pricing 7))
  run_gas_info-stays limit price poster_fee version get_prices_in_arb_gas =
      answer-stays limit _ _ _ (get_u256-OnlyReads l1_pricing 7)
  run_gas_info-stays limit price poster_fee version get_prices_in_arb_gas_with_aggregator =
      answer-stays limit _ _ _ (get_u256-OnlyReads l1_pricing 7)
  run_gas_info-stays limit price poster_fee version get_gas_accounting_params =
      answer-stays limit _ _ _ (
        two-OnlyReads (get_u64 l2_pricing 0) (get_u64 l2_pricing 1) (get_u64-OnlyReads l2_pricing 0)
          (get_u64-OnlyReads l2_pricing 1))
  run_gas_info-stays limit price poster_fee version get_max_tx_gas_limit =
      answer-stays limit _ _ _ (get_u64-OnlyReads l2_pricing 7)
  run_gas_info-stays limit price poster_fee version get_minimum_gas_price =
      answer-stays limit _ _ _ (get_u256-OnlyReads l2_pricing 3)
  run_gas_info-stays limit price poster_fee version get_l1_base_fee_estimate =
      answer-stays limit _ _ _ (get_u256-OnlyReads l1_pricing 7)
  run_gas_info-stays limit price poster_fee version get_l1_base_fee_estimate_inertia =
      answer-stays limit _ _ _ (get_u64-OnlyReads l1_pricing 2)
  run_gas_info-stays limit price poster_fee version get_l1_reward_rate =
      answer-stays limit _ _ _ (get_u64-OnlyReads l1_pricing 3)
  run_gas_info-stays limit price poster_fee version get_l1_reward_recipient =
      answer-stays limit _ _ _ (get_address-OnlyReads l1_pricing 0)
  run_gas_info-stays limit price poster_fee version get_l1_gas_price_estimate =
      answer-stays limit _ _ _ (get_u256-OnlyReads l1_pricing 7)
  run_gas_info-stays limit price poster_fee version get_current_tx_l1_gas_fees =
      answer-stays limit _ _ _ (λ j. refl)
  run_gas_info-stays limit price poster_fee version get_gas_backlog =
      answer-stays limit _ _ _ (get_u64-OnlyReads l2_pricing 4)
  run_gas_info-stays limit price poster_fee version get_pricing_inertia =
      answer-stays limit _ _ _ (get_u64-OnlyReads l2_pricing 5)
  run_gas_info-stays limit price poster_fee version get_gas_backlog_tolerance =
      answer-stays limit _ _ _ (get_u64-OnlyReads l2_pricing 6)
  run_gas_info-stays limit price poster_fee version get_the_l1_pricing_surplus =
      answer-stays limit _ _ _ (surplus-OnlyReads l1_pricing e.from_u256)
  run_gas_info-stays limit price poster_fee version get_per_batch_gas_charge =
      answer-stays limit _ _ _ (get_i64-OnlyReads l1_pricing 9)
  run_gas_info-stays limit price poster_fee version get_amortized_cost_cap_bips =
      answer-stays limit _ _ _ (get_u64-OnlyReads l1_pricing 10)
  run_gas_info-stays limit price poster_fee version get_l1_fees_available =
      answer-stays limit _ _ _ (get_u256-OnlyReads l1_pricing 11)
  run_gas_info-stays limit price poster_fee version get_l1_pricing_equilibration_units =
      answer-stays limit _ _ _ (get_u256-OnlyReads l1_pricing 1)
  run_gas_info-stays limit price poster_fee version get_last_l1_pricing_update_time =
      answer-stays limit _ _ _ (get_u64-OnlyReads l1_pricing 4)
  run_gas_info-stays limit price poster_fee version get_l1_pricing_funds_due_for_rewards =
      answer-stays limit _ _ _ (get_i256-OnlyReads l1_pricing 5)
  run_gas_info-stays limit price poster_fee version get_l1_pricing_units_since_update =
      answer-stays limit _ _ _ (get_u64-OnlyReads l1_pricing 6)
  run_gas_info-stays limit price poster_fee version get_last_l1_pricing_surplus =
      answer-stays limit _ _ _ (get_i256-OnlyReads l1_pricing 8)
  run_gas_info-stays limit price poster_fee version get_max_block_gas_limit =
      answer-stays limit _ _ _ (get_u64-OnlyReads l2_pricing 1)

  run_query-stays :
      (limit price poster_fee : ℕ) (c : Option GasInfoCall) (j : Journal)
      → (run_query limit price poster_fee c j).1 ≡ j
  run_query-stays limit price poster_fee none j = refl
  run_query-stays limit price poster_fee (some c) j =
      or_fail-stays (arbos_version j).0 (plain_error limit)
        (λ version. run_gas_info limit price poster_fee version c) (arbos_version j).1
        (λ version. run_gas_info-stays limit price poster_fee version c (arbos_version j).1)
      ∙ get_u64-OnlyReads arbos_root 0 j

  -- A query of ArbGasInfo, whatever its input, the price and the fee, leaves the whole journal as it
  -- was: storage, balances and logs.
  pub run_arb_gas_info-stays :
      (decode : List ℕ → Option GasInfoCall) (price poster_fee : ℕ) (call : ArbCall) (j : Journal)
      → (run_arb_gas_info decode price poster_fee call j).1 ≡ j
  unfolding run_arb_gas_info
  run_arb_gas_info-stays decode price poster_fee call j =
      run_query-stays call.gas_limit price poster_fee (decode call.input) j
