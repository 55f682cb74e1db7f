-- ===== src/Precompiles.antt =====
-- crates/arb-revm/src/precompiles/mod.rs: which methods of the precompiles exist at which version,
-- and what they may do. `Selectors` holds the constants `…Call::SELECTOR` of the interface bindings, which are
-- another crate's.
pub mod Methods
pub mod Outcome
pub mod Dispatch
pub mod GoAbi
pub mod Owner
pub mod Burner
pub mod FilterManager
pub mod GasInfo
pub mod NativeToken
pub mod Stateless
use arbitrum_revm.Prelude.{ℕ, Bool, true, false, List, [], ◌∷◌, ◌==◌, if◌then◌else◌}

pub data ArbPrecompilesEnum : Type 0 where
  arb_sys : ArbPrecompilesEnum
  arb_info : ArbPrecompilesEnum
  arb_address_table : ArbPrecompilesEnum
  arb_bls : ArbPrecompilesEnum
  arb_function_table : ArbPrecompilesEnum
  arb_owner_public : ArbPrecompilesEnum
  arb_gas_info : ArbPrecompilesEnum
  arb_aggregator : ArbPrecompilesEnum
  arb_retryable_tx : ArbPrecompilesEnum
  arb_statistics : ArbPrecompilesEnum
  arb_owner : ArbPrecompilesEnum
  arb_wasm : ArbPrecompilesEnum
  arb_wasm_cache : ArbPrecompilesEnum
  arb_native_token_manager : ArbPrecompilesEnum
  arb_filtered_transactions_manager : ArbPrecompilesEnum
  arb_debug : ArbPrecompilesEnum
  arbos_test : ArbPrecompilesEnum
  arbos_acts : ArbPrecompilesEnum

pub data MethodPurity : Type 0 where
  pure view write payable : MethodPurity

pub record Selectors : Type 0 where
  pub arb_sys_map_l1_sender_contract_address_to_l2_alias : ℕ
  pub arb_sys_send_tx_to_l1 : ℕ
  pub arb_sys_withdraw_eth : ℕ
  pub arb_address_table_compress : ℕ
  pub arb_address_table_register : ℕ
  pub arb_aggregator_add_batch_poster : ℕ
  pub arb_aggregator_set_fee_collector : ℕ
  pub arb_aggregator_set_tx_base_fee : ℕ
  pub arb_debug_custom_revert : ℕ
  pub arb_debug_legacy_error : ℕ
  pub arb_debug_events : ℕ
  pub arb_debug_events_view : ℕ
  pub arb_function_table_upload : ℕ
  pub arb_owner_get_all_chain_owners : ℕ
  pub arb_owner_is_chain_owner : ℕ
  pub arb_owner_get_all_native_token_owners : ℕ
  pub arb_owner_is_native_token_owner : ℕ
  pub arb_owner_get_all_transaction_filterers : ℕ
  pub arb_owner_is_transaction_filterer : ℕ
  pub arb_owner_get_filtered_funds_recipient : ℕ
  pub arb_owner_get_network_fee_account : ℕ
  pub arb_owner_get_infra_fee_account : ℕ
  pub arb_owner_public_rectify_chain_owner : ℕ
  pub arb_retryable_tx_redeem : ℕ
  pub arb_retryable_tx_keepalive : ℕ
  pub arb_retryable_tx_cancel : ℕ
  pub arb_retryable_tx_submit_retryable : ℕ
  pub arb_wasm_activate_program : ℕ
  pub arb_wasm_codehash_keepalive : ℕ
  pub arb_wasm_cache_cache_program : ℕ
  pub arb_wasm_cache_cache_codehash : ℕ
  pub arb_wasm_cache_evict_codehash : ℕ
  pub arb_gas_info_get_l1_fees_available : ℕ
  pub arb_gas_info_get_l1_reward_rate : ℕ
  pub arb_gas_info_get_l1_reward_recipient : ℕ
  pub arb_gas_info_get_l1_pricing_equilibration_units : ℕ
  pub arb_gas_info_get_last_l1_pricing_update_time : ℕ
  pub arb_gas_info_get_l1_pricing_funds_due_for_rewards : ℕ
  pub arb_gas_info_get_l1_pricing_units_since_update : ℕ
  pub arb_gas_info_get_last_l1_pricing_surplus : ℕ
  pub arb_gas_info_get_max_tx_gas_limit : ℕ
  pub arb_gas_info_get_max_block_gas_limit : ℕ
  pub arb_gas_info_get_gas_pricing_constraints : ℕ
  pub arb_gas_info_get_multi_gas_pricing_constraints : ℕ
  pub arb_gas_info_get_multi_gas_base_fee : ℕ
  pub arb_owner_public_get_infra_fee_account : ℕ
  pub arb_owner_public_get_brotli_compression_level : ℕ
  pub arb_owner_public_get_scheduled_upgrade : ℕ
  pub arb_owner_public_is_calldata_price_increase_enabled : ℕ
  pub arb_owner_public_is_native_token_owner : ℕ
  pub arb_owner_public_get_all_native_token_owners : ℕ
  pub arb_owner_public_get_parent_gas_floor_per_token : ℕ
  pub arb_owner_public_get_native_token_management_from : ℕ
  pub arb_owner_public_get_max_stylus_contract_fragments : ℕ
  pub arb_owner_public_get_transaction_filtering_from : ℕ
  pub arb_owner_public_is_transaction_filterer : ℕ
  pub arb_owner_public_get_all_transaction_filterers : ℕ
  pub arb_owner_public_get_filtered_funds_recipient : ℕ
  pub arb_owner_public_get_collect_tips : ℕ
  pub arb_owner_set_infra_fee_account : ℕ
  pub arb_owner_release_l1_pricer_surplus_funds : ℕ
  pub arb_owner_set_chain_config : ℕ
  pub arb_owner_set_brotli_compression_level : ℕ
  pub arb_owner_set_ink_price : ℕ
  pub arb_owner_set_wasm_max_stack_depth : ℕ
  pub arb_owner_set_wasm_free_pages : ℕ
  pub arb_owner_set_wasm_page_gas : ℕ
  pub arb_owner_set_wasm_page_limit : ℕ
  pub arb_owner_set_wasm_min_init_gas : ℕ
  pub arb_owner_set_wasm_init_cost_scalar : ℕ
  pub arb_owner_set_wasm_expiry_days : ℕ
  pub arb_owner_set_wasm_keepalive_days : ℕ
  pub arb_owner_set_wasm_block_cache_size : ℕ
  pub arb_owner_add_wasm_cache_manager : ℕ
  pub arb_owner_remove_wasm_cache_manager : ℕ
  pub arb_owner_set_calldata_price_increase : ℕ
  pub arb_owner_set_wasm_max_size : ℕ
  pub arb_owner_add_native_token_owner : ℕ
  pub arb_owner_remove_native_token_owner : ℕ
  pub arb_owner_set_native_token_management_from : ℕ
  pub arb_owner_set_gas_pricing_constraints : ℕ
  pub arb_owner_set_gas_backlog : ℕ
  pub arb_owner_set_max_block_gas_limit : ℕ
  pub arb_owner_set_parent_gas_floor_per_token : ℕ
  pub arb_owner_set_wasm_activation_gas : ℕ
  pub arb_owner_set_multi_gas_pricing_constraints : ℕ
  pub arb_owner_set_max_stylus_contract_fragments : ℕ
  pub arb_owner_set_collect_tips : ℕ
  pub arb_owner_add_transaction_filterer : ℕ
  pub arb_owner_remove_transaction_filterer : ℕ
  pub arb_owner_set_transaction_filtering_from : ℕ
  pub arb_owner_set_filtered_funds_recipient : ℕ
  pub arb_wasm_activation_gas : ℕ
  pub arb_debug_panic : ℕ
  pub arb_filtered_transactions_manager_add_filtered_transaction : ℕ
  pub arb_filtered_transactions_manager_delete_filtered_transaction : ℕ

unfoldable pub one_of : ℕ → List ℕ → Bool
one_of sel [] = false
one_of sel (x ∷ xs) = if sel == x then true else one_of sel xs

unfoldable pub precompile_min_arbos_version : ArbPrecompilesEnum → ℕ
precompile_min_arbos_version arb_wasm = 30
precompile_min_arbos_version arb_wasm_cache = 30
precompile_min_arbos_version arb_native_token_manager = 41
precompile_min_arbos_version arb_filtered_transactions_manager = 60
precompile_min_arbos_version p = 0

module _ ⦃s : Selectors⦄ where
  unfoldable pub filtered_manager_method_is_write : ℕ → Bool
  filtered_manager_method_is_write sel = one_of sel (
      s.arb_filtered_transactions_manager_add_filtered_transaction
      ∷ s.arb_filtered_transactions_manager_delete_filtered_transaction ∷ [])

  unfoldable pub method_purity : ArbPrecompilesEnum → ℕ → MethodPurity
  method_purity arb_sys sel =
      if one_of sel (s.arb_sys_map_l1_sender_contract_address_to_l2_alias ∷ [])
      then pure
      else if one_of sel (s.arb_sys_send_tx_to_l1 ∷ s.arb_sys_withdraw_eth ∷ [])
      then payable
      else view
  method_purity arb_info sel = view
  method_purity arb_address_table sel =
      if one_of sel (s.arb_address_table_compress ∷ s.arb_address_table_register ∷ [])
      then write
      else view
  method_purity arb_bls sel = view
  method_purity arb_function_table sel =
      if one_of sel (s.arb_function_table_upload ∷ []) then write else view
  method_purity arb_owner_public sel =
      if one_of sel (s.arb_owner_public_rectify_chain_owner ∷ []) then write else view
  method_purity arb_gas_info sel = view
  method_purity arb_aggregator sel =
      if one_of sel (
        s.arb_aggregator_add_batch_poster ∷ s.arb_aggregator_set_fee_collector
        ∷ s.arb_aggregator_set_tx_base_fee ∷ [])
      then write
      else view
  method_purity arb_retryable_tx sel =
      if one_of sel (
        s.arb_retryable_tx_redeem ∷ s.arb_retryable_tx_keepalive ∷ s.arb_retryable_tx_cancel
        ∷ s.arb_retryable_tx_submit_retryable ∷ [])
      then write
      else view
  method_purity arb_statistics sel = view
  method_purity arb_owner sel =
      if one_of sel (
        s.arb_owner_get_all_chain_owners ∷ s.arb_owner_is_chain_owner
        ∷ s.arb_owner_get_all_native_token_owners ∷ s.arb_owner_is_native_token_owner
        ∷ s.arb_owner_get_all_transaction_filterers ∷ s.arb_owner_is_transaction_filterer
        ∷ s.arb_owner_get_filtered_funds_recipient ∷ s.arb_owner_get_network_fee_account
        ∷ s.arb_owner_get_infra_fee_account ∷ [])
      then view
      else write
  method_purity arb_wasm sel =
      if one_of sel (s.arb_wasm_activate_program ∷ s.arb_wasm_codehash_keepalive ∷ [])
      then payable
      else view
  method_purity arb_wasm_cache sel =
      if one_of sel (
        s.arb_wasm_cache_cache_program ∷ s.arb_wasm_cache_cache_codehash
        ∷ s.arb_wasm_cache_evict_codehash ∷ [])
      then write
      else view
  method_purity arb_native_token_manager sel = write
  method_purity arb_filtered_transactions_manager sel =
      if filtered_manager_method_is_write sel then write else view
  method_purity arb_debug sel =
      if one_of sel (s.arb_debug_custom_revert ∷ s.arb_debug_legacy_error ∷ [])
      then pure
      else if one_of sel (s.arb_debug_events ∷ [])
      then payable
      else if one_of sel (s.arb_debug_events_view ∷ [])
      then view
      else write
  method_purity arbos_test sel = pure
  method_purity arbos_acts sel = write

  unfoldable pub method_arbos_bounds : ArbPrecompilesEnum → ℕ → ℕ × ℕ
  method_arbos_bounds arb_owner_public sel =
      if one_of sel (s.arb_owner_public_get_infra_fee_account ∷ [])
      then (5, 0)
      else if one_of sel (s.arb_owner_public_rectify_chain_owner ∷ [])
      then (11, 0)
      else if one_of sel (
          s.arb_owner_public_get_brotli_compression_level ∷ s.arb_owner_public_get_scheduled_upgrade
          ∷ [])
      then (20, 0)
      else if one_of sel (s.arb_owner_public_is_calldata_price_increase_enabled ∷ [])
      then (40, 0)
      else if one_of sel (
          s.arb_owner_public_is_native_token_owner ∷ s.arb_owner_public_get_all_native_token_owners
          ∷ [])
      then (41, 0)
      else if one_of sel (
          s.arb_owner_public_get_parent_gas_floor_per_token
          ∷ s.arb_owner_public_get_native_token_management_from ∷ [])
      then (50, 0)
      else if one_of sel (
          s.arb_owner_public_get_max_stylus_contract_fragments
          ∷ s.arb_owner_public_get_transaction_filtering_from
          ∷ s.arb_owner_public_is_transaction_filterer
          ∷ s.arb_owner_public_get_all_transaction_filterers
          ∷ s.arb_owner_public_get_filtered_funds_recipient ∷ s.arb_owner_public_get_collect_tips
          ∷ [])
      then (60, 0)
      else (0, 0)
  method_arbos_bounds arb_gas_info sel =
      if one_of sel (s.arb_gas_info_get_l1_fees_available ∷ [])
      then (10, 0)
      else if one_of sel
          (s.arb_gas_info_get_l1_reward_rate ∷ s.arb_gas_info_get_l1_reward_recipient ∷ [])
      then (11, 0)
      else if one_of sel (
          s.arb_gas_info_get_l1_pricing_equilibration_units
          ∷ s.arb_gas_info_get_last_l1_pricing_update_time
          ∷ s.arb_gas_info_get_l1_pricing_funds_due_for_rewards
          ∷ s.arb_gas_info_get_l1_pricing_units_since_update
          ∷ s.arb_gas_info_get_last_l1_pricing_surplus ∷ [])
      then (20, 0)
      else if one_of sel (
          s.arb_gas_info_get_max_tx_gas_limit ∷ s.arb_gas_info_get_max_block_gas_limit
          ∷ s.arb_gas_info_get_gas_pricing_constraints ∷ [])
      then (50, 0)
      else if one_of sel (
          s.arb_gas_info_get_multi_gas_pricing_constraints ∷ s.arb_gas_info_get_multi_gas_base_fee
          ∷ [])
      then (60, 0)
      else (0, 0)
  method_arbos_bounds arb_owner sel =
      if one_of sel (s.arb_owner_get_infra_fee_account ∷ s.arb_owner_set_infra_fee_account ∷ [])
      then (5, 0)
      else if one_of sel (s.arb_owner_release_l1_pricer_surplus_funds ∷ [])
      then (10, 0)
      else if one_of sel (s.arb_owner_set_chain_config ∷ [])
      then (11, 0)
      else if one_of sel (s.arb_owner_set_brotli_compression_level ∷ [])
      then (20, 0)
      else if one_of sel (
          s.arb_owner_set_ink_price ∷ s.arb_owner_set_wasm_max_stack_depth
          ∷ s.arb_owner_set_wasm_free_pages ∷ s.arb_owner_set_wasm_page_gas
          ∷ s.arb_owner_set_wasm_page_limit ∷ s.arb_owner_set_wasm_min_init_gas
          ∷ s.arb_owner_set_wasm_init_cost_scalar ∷ s.arb_owner_set_wasm_expiry_days
          ∷ s.arb_owner_set_wasm_keepalive_days ∷ s.arb_owner_set_wasm_block_cache_size
          ∷ s.arb_owner_add_wasm_cache_manager ∷ s.arb_owner_remove_wasm_cache_manager ∷ [])
      then (30, 0)
      else if one_of sel
          (s.arb_owner_set_calldata_price_increase ∷ s.arb_owner_set_wasm_max_size ∷ [])
      then (40, 0)
      else if one_of sel (
          s.arb_owner_add_native_token_owner ∷ s.arb_owner_remove_native_token_owner
          ∷ s.arb_owner_is_native_token_owner ∷ s.arb_owner_get_all_native_token_owners
          ∷ s.arb_owner_set_native_token_management_from ∷ [])
      then (41, 0)
      else if one_of sel (
          s.arb_owner_set_gas_pricing_constraints ∷ s.arb_owner_set_gas_backlog
          ∷ s.arb_owner_set_max_block_gas_limit ∷ s.arb_owner_set_parent_gas_floor_per_token ∷ [])
      then (50, 0)
      else if one_of sel (s.arb_owner_set_wasm_activation_gas ∷ [])
      then (59, 0)
      else if one_of sel (
          s.arb_owner_set_multi_gas_pricing_constraints
          ∷ s.arb_owner_set_max_stylus_contract_fragments ∷ s.arb_owner_set_collect_tips
          ∷ s.arb_owner_add_transaction_filterer ∷ s.arb_owner_remove_transaction_filterer
          ∷ s.arb_owner_is_transaction_filterer ∷ s.arb_owner_get_all_transaction_filterers
          ∷ s.arb_owner_set_transaction_filtering_from ∷ s.arb_owner_set_filtered_funds_recipient
          ∷ s.arb_owner_get_filtered_funds_recipient ∷ [])
      then (60, 0)
      else (0, 0)
  method_arbos_bounds arb_wasm sel =
      if one_of sel (s.arb_wasm_activation_gas ∷ []) then (59, 0) else (0, 0)
  method_arbos_bounds arb_wasm_cache sel =
      if one_of sel (s.arb_wasm_cache_cache_codehash ∷ [])
      then (30, 30)
      else if one_of sel (s.arb_wasm_cache_cache_program ∷ [])
      then (31, 0)
      else (0, 0)
  method_arbos_bounds arb_debug sel =
      if one_of sel (s.arb_debug_panic ∷ []) then (30, 0) else (0, 0)
  method_arbos_bounds p sel = (0, 0)
