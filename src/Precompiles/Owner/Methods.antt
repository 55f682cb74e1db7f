-- ===== src/Precompiles/Owner/Methods.antt =====
-- crates/arb-revm/src/precompiles/arb_owner.rs: the calls of ArbOwner, and what each method does.
use arbitrum_revm.Prelude.{ℕ, Bool, true, Option, none, some, List, leb, if◌then◌else◌}
use arbitrum_revm.Prelude.Text.{codes}
use arbitrum_revm.Prelude.Int.{ℤ}
use arbitrum_revm.Exec.{Host, ◌>>◌}
use arbitrum_revm.Storage.{put, set_i64}
use arbitrum_revm.Storage.AddressSet.{is_member, add, all_members}
use arbitrum_revm.Storage.Features.{set_calldata_price_increase}
use arbitrum_revm.ArbosState.{
  arbos_root, arbos_version, l1_pricing, l2_pricing, chain_owners, features, native_token_owners,
  transaction_filterers, network_fee_account, infra_fee_account, filtered_funds_recipient,
}
use arbitrum_revm.Precompiles.Outcome.{ArbCall, Run, plain_error, gated_revert_result, done, try_or}
use arbitrum_revm.Precompiles.Owner.Params.{
  set_or_revert, set_ink_price, set_wasm_max_stack_depth, set_wasm_free_pages, set_wasm_page_gas,
  set_wasm_page_limit, set_wasm_min_init_gas, set_wasm_init_cost_scalar, set_wasm_expiry_days,
  set_wasm_keepalive_days, set_wasm_block_cache_size, set_wasm_max_size,
  set_max_stylus_contract_fragments,
}
use arbitrum_revm.Precompiles.Owner.{
  Encoder, MultiGasConstraint, cache_managers, activation_gas_space, get_or_error,
  set_or_revert_event, remove_member, remove_manager, add_if_enabled, set_feature_start,
  set_unless_zero, max_tx_gas_limit, gas_pricing_constraints, multi_gas_pricing_constraints,
  chain_config_from, release_surplus,
}

-- A decoded call: the method and its arguments. The argument of `set_chain_config` is cut from the input.
pub data OwnerCall : Type 0 where
  add_chain_owner remove_chain_owner add_native_token_owner remove_native_token_owner :
      ℕ → OwnerCall
  set_native_token_management_from set_transaction_filtering_from : ℕ → OwnerCall
  add_transaction_filterer remove_transaction_filterer set_filtered_funds_recipient : ℕ → OwnerCall
  set_network_fee_account set_infra_fee_account set_l2_base_fee set_minimum_l2_base_fee :
      ℕ → OwnerCall
  set_speed_limit set_max_tx_gas_limit set_max_block_gas_limit set_l2_gas_pricing_inertia :
      ℕ → OwnerCall
  set_l2_gas_backlog_tolerance set_gas_backlog set_l1_base_fee_estimate_inertia : ℕ → OwnerCall
  set_l1_pricing_equilibration_units set_l1_pricing_inertia set_l1_pricing_reward_recipient :
      ℕ → OwnerCall
  set_l1_pricing_reward_rate set_l1_price_per_unit set_parent_gas_floor_per_token : ℕ → OwnerCall
  set_per_batch_gas_charge : ℤ → OwnerCall
  set_amortized_cost_cap_bips set_brotli_compression_level : ℕ → OwnerCall
  set_calldata_price_increase_to : Bool → OwnerCall
  schedule_arbos_upgrade : ℕ → ℕ → OwnerCall
  set_chain_config : OwnerCall
  set_gas_pricing_constraints : List (ℕ × ℕ × ℕ) → OwnerCall
  release_l1_pricer_surplus_funds set_wasm_activation_gas : ℕ → OwnerCall
  set_collect_tips : Bool → OwnerCall
  set_multi_gas_pricing_constraints : List MultiGasConstraint → OwnerCall
  is_chain_owner is_native_token_owner is_transaction_filterer : ℕ → OwnerCall
  get_all_chain_owners get_all_native_token_owners get_all_transaction_filterers : OwnerCall
  get_filtered_funds_recipient get_network_fee_account get_infra_fee_account : OwnerCall
  ink_price wasm_max_stack_depth wasm_free_pages wasm_page_gas wasm_page_limit : ℕ → OwnerCall
  wasm_min_init_gas : ℕ → ℕ → OwnerCall
  wasm_init_cost_scalar wasm_expiry_days wasm_keepalive_days wasm_block_cache_size : ℕ → OwnerCall
  wasm_max_size max_stylus_contract_fragments : ℕ → OwnerCall
  add_wasm_cache_manager remove_wasm_cache_manager : ℕ → OwnerCall

module _ ⦃h : Host⦄ where
  -- The methods, with the version and the time of the block.
  unfoldable pub run_owner_method : ⦃e : Encoder⦄ → ArbCall → ℕ → ℕ → OwnerCall → Run
  run_owner_method ⦃e⦄ call now version (add_chain_owner a) =
      set_or_revert_event call (add chain_owners a) (leb 60 version)
        (codes "ChainOwnerAdded(address)") a
  run_owner_method ⦃e⦄ call now version (remove_chain_owner a) =
      remove_member call chain_owners a version (leb 60 version)
        (codes "ChainOwnerRemoved(address)")
  run_owner_method ⦃e⦄ call now version (add_native_token_owner a) =
      add_if_enabled call now 8 native_token_owners a (leb 60 version)
        (codes "NativeTokenOwnerAdded(address)")
  run_owner_method ⦃e⦄ call now version (remove_native_token_owner a) =
      remove_member call native_token_owners a version (leb 60 version)
        (codes "NativeTokenOwnerRemoved(address)")
  run_owner_method ⦃e⦄ call now version (set_native_token_management_from t) =
      set_feature_start call now 8 t
  run_owner_method ⦃e⦄ call now version (set_transaction_filtering_from t) =
      set_feature_start call now 9 t
  run_owner_method ⦃e⦄ call now version (add_transaction_filterer a) =
      add_if_enabled call now 9 transaction_filterers a true
        (codes "TransactionFiltererAdded(address)")
  run_owner_method ⦃e⦄ call now version (remove_transaction_filterer a) =
      remove_member call transaction_filterers a version true
        (codes "TransactionFiltererRemoved(address)")
  run_owner_method ⦃e⦄ call now version (set_filtered_funds_recipient a) =
      set_or_revert_event call (put arbos_root 10 a) true
        (codes "FilteredFundsRecipientSet(address)") a
  run_owner_method ⦃e⦄ call now version (set_network_fee_account v) =
      set_or_revert call.gas_limit (put arbos_root 3 v)
  run_owner_method ⦃e⦄ call now version (set_infra_fee_account v) =
      set_or_revert call.gas_limit (put arbos_root 6 v)
  run_owner_method ⦃e⦄ call now version (set_l2_base_fee v) =
      set_or_revert call.gas_limit (put l2_pricing 2 v)
  run_owner_method ⦃e⦄ call now version (set_minimum_l2_base_fee v) =
      set_or_revert call.gas_limit (put l2_pricing 3 v)
  run_owner_method ⦃e⦄ call now version (set_speed_limit v) = set_unless_zero call.gas_limit 0 v
  run_owner_method ⦃e⦄ call now version (set_max_tx_gas_limit v) = max_tx_gas_limit call.gas_limit v
  run_owner_method ⦃e⦄ call now version (set_max_block_gas_limit v) =
      set_or_revert call.gas_limit (put l2_pricing 1 v)
  run_owner_method ⦃e⦄ call now version (set_l2_gas_pricing_inertia v) =
      set_unless_zero call.gas_limit 5 v
  run_owner_method ⦃e⦄ call now version (set_l2_gas_backlog_tolerance v) =
      set_or_revert call.gas_limit (put l2_pricing 6 v)
  run_owner_method ⦃e⦄ call now version (set_gas_backlog v) =
      set_or_revert call.gas_limit (put l2_pricing 4 v)
  run_owner_method ⦃e⦄ call now version (set_l1_base_fee_estimate_inertia v) =
      set_or_revert call.gas_limit (put l1_pricing 2 v)
  run_owner_method ⦃e⦄ call now version (set_l1_pricing_equilibration_units v) =
      set_or_revert call.gas_limit (put l1_pricing 1 v)
  run_owner_method ⦃e⦄ call now version (set_l1_pricing_inertia v) =
      set_or_revert call.gas_limit (put l1_pricing 2 v)
  run_owner_method ⦃e⦄ call now version (set_l1_pricing_reward_recipient v) =
      set_or_revert call.gas_limit (put l1_pricing 0 v)
  run_owner_method ⦃e⦄ call now version (set_l1_pricing_reward_rate v) =
      set_or_revert call.gas_limit (put l1_pricing 3 v)
  run_owner_method ⦃e⦄ call now version (set_l1_price_per_unit v) =
      set_or_revert call.gas_limit (put l1_pricing 7 v)
  run_owner_method ⦃e⦄ call now version (set_parent_gas_floor_per_token v) =
      set_or_revert call.gas_limit (put l1_pricing 12 v)
  run_owner_method ⦃e⦄ call now version (set_per_batch_gas_charge v) =
      set_or_revert call.gas_limit (set_i64 l1_pricing 9 v)
  run_owner_method ⦃e⦄ call now version (set_amortized_cost_cap_bips v) =
      set_or_revert call.gas_limit (put l1_pricing 10 v)
  run_owner_method ⦃e⦄ call now version (set_brotli_compression_level v) =
      set_or_revert call.gas_limit (put arbos_root 7 v)
  run_owner_method ⦃e⦄ call now version (set_calldata_price_increase_to b) =
      set_or_revert call.gas_limit (set_calldata_price_increase features b)
  run_owner_method ⦃e⦄ call now version (schedule_arbos_upgrade v t) =
      set_or_revert call.gas_limit (put arbos_root 1 v >> put arbos_root 2 t)
  run_owner_method ⦃e⦄ call now version set_chain_config =
      chain_config_from call.gas_limit call.input
  run_owner_method ⦃e⦄ call now version (set_gas_pricing_constraints cs) =
      gas_pricing_constraints call.gas_limit cs
  run_owner_method ⦃e⦄ call now version (release_l1_pricer_surplus_funds v) =
      release_surplus call.gas_limit v
  run_owner_method ⦃e⦄ call now version (set_wasm_activation_gas v) =
      set_or_revert call.gas_limit (put activation_gas_space 0 v)
  run_owner_method ⦃e⦄ call now version (set_collect_tips b) =
      set_or_revert call.gas_limit (put arbos_root 11 (if b then 1 else 0))
  run_owner_method ⦃e⦄ call now version (set_multi_gas_pricing_constraints cs) =
      multi_gas_pricing_constraints call.gas_limit cs
  run_owner_method ⦃e⦄ call now version (is_chain_owner a) =
      get_or_error call.gas_limit (is_member chain_owners a) e.encode_bool
  run_owner_method ⦃e⦄ call now version get_all_chain_owners =
      get_or_error call.gas_limit (all_members chain_owners) e.encode_addresses
  run_owner_method ⦃e⦄ call now version (is_native_token_owner a) =
      get_or_error call.gas_limit (is_member native_token_owners a) e.encode_bool
  run_owner_method ⦃e⦄ call now version get_all_native_token_owners =
      get_or_error call.gas_limit (all_members native_token_owners) e.encode_addresses
  run_owner_method ⦃e⦄ call now version (is_transaction_filterer a) =
      get_or_error call.gas_limit (is_member transaction_filterers a) e.encode_bool
  run_owner_method ⦃e⦄ call now version get_all_transaction_filterers =
      get_or_error call.gas_limit (all_members transaction_filterers) e.encode_addresses
  run_owner_method ⦃e⦄ call now version get_filtered_funds_recipient =
      get_or_error call.gas_limit filtered_funds_recipient e.encode_uint
  run_owner_method ⦃e⦄ call now version get_network_fee_account =
      get_or_error call.gas_limit network_fee_account e.encode_uint
  run_owner_method ⦃e⦄ call now version get_infra_fee_account =
      get_or_error call.gas_limit infra_fee_account e.encode_uint
  run_owner_method ⦃e⦄ call now version (ink_price v) = set_ink_price call.gas_limit v
  run_owner_method ⦃e⦄ call now version (wasm_max_stack_depth v) =
      set_wasm_max_stack_depth call.gas_limit v
  run_owner_method ⦃e⦄ call now version (wasm_free_pages v) = set_wasm_free_pages call.gas_limit v
  run_owner_method ⦃e⦄ call now version (wasm_page_gas v) = set_wasm_page_gas call.gas_limit v
  run_owner_method ⦃e⦄ call now version (wasm_page_limit v) = set_wasm_page_limit call.gas_limit v
  run_owner_method ⦃e⦄ call now version (wasm_min_init_gas g k) =
      set_wasm_min_init_gas call.gas_limit g k
  run_owner_method ⦃e⦄ call now version (wasm_init_cost_scalar v) =
      set_wasm_init_cost_scalar call.gas_limit v
  run_owner_method ⦃e⦄ call now version (wasm_expiry_days v) = set_wasm_expiry_days call.gas_limit v
  run_owner_method ⦃e⦄ call now version (wasm_keepalive_days v) =
      set_wasm_keepalive_days call.gas_limit v
  run_owner_method ⦃e⦄ call now version (wasm_block_cache_size v) =
      set_wasm_block_cache_size call.gas_limit v
  run_owner_method ⦃e⦄ call now version (wasm_max_size v) = set_wasm_max_size call.gas_limit v
  run_owner_method ⦃e⦄ call now version (max_stylus_contract_fragments v) =
      set_max_stylus_contract_fragments call.gas_limit v
  run_owner_method ⦃e⦄ call now version (add_wasm_cache_manager a) =
      set_or_revert call.gas_limit (add cache_managers a)
  run_owner_method ⦃e⦄ call now version (remove_wasm_cache_manager a) =
      remove_manager call a version

  unfoldable pub run_arb_owner : ⦃e : Encoder⦄ → (List ℕ → Option OwnerCall) → ℕ → ArbCall → Run
  run_arb_owner decode now call = elim (decode call.input) [
    | none ↦ done (gated_revert_result call.gas_limit)
    | some m ↦
        try_or (plain_error call.gas_limit) arbos_version
          (λ version. run_owner_method call now version m)
  ]
