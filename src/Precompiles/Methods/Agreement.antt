-- ===== src/Precompiles/Methods/Agreement.antt =====
-- crates/arb-revm/src/precompiles/mod.rs: the tables of versions and mutability against Nitro's list.
use arbitrum_revm.Prelude.{
  ℕ, ◌≡◌, refl, sym, subst, Bool, true, false, ◌&&◌, ◌||◌, List, [], ◌∷◌, ltb, leb, ◌==◌,
  if◌then◌else◌, arith, Bool-cases, inl, inr,
}
use arbitrum_revm.Precompiles.{
  ArbPrecompilesEnum, MethodPurity, pure, view, write, payable, Selectors, one_of,
  precompile_min_arbos_version, filtered_manager_method_is_write, method_purity,
  method_arbos_bounds,
}
use arbitrum_revm.Precompiles.Methods.{NitroMethod, method, nitro_methods}

pub data Outcome : Type 0 where
  no_code gated active : Outcome

unfoldable pub nitro : ℕ → ℕ → ℕ → ℕ → Outcome
nitro precompile_version min max version =
    if ltb version precompile_version
    then no_code
    else if ltb version min || ltb 0 max && ltb max version
    then gated
    else active

unfoldable pub ours : ⦃s : Selectors⦄ → ArbPrecompilesEnum → ℕ → ℕ → Outcome
ours arb selector version =
    if ltb version (precompile_min_arbos_version arb)
    then no_code
    else if ltb version (method_arbos_bounds arb selector).0
        || ltb 0 (method_arbos_bounds arb selector).1
          && ltb (method_arbos_bounds arb selector).1 version
    then gated
    else active

-- What the list says of a method is what the tables say of it, at a version.
unfoldable pub Matches : ⦃s : Selectors⦄ → ℕ → NitroMethod → Type 0
Matches version (method arb name selector precompile_version min max purity) =
    (ours arb selector version ≡ nitro precompile_version min max version)
    × (method_purity arb selector ≡ purity)

unfoldable pub AllMatch : ⦃s : Selectors⦄ → ℕ → List NitroMethod → Type 0
AllMatch version [] = Unit {0}
AllMatch version (m ∷ ms) = Matches version m × AllMatch version ms

-- The selectors of the listed methods.
abbrev pub nitro_selectors : Selectors
nitro_selectors = record {
  arb_sys_map_l1_sender_contract_address_to_l2_alias = 0x4dbbd506;
  arb_sys_send_tx_to_l1 = 0x928c169a;
  arb_sys_withdraw_eth = 0x25e16063;
  arb_address_table_compress = 0xf6a455a2;
  arb_address_table_register = 0x4420e486;
  arb_aggregator_add_batch_poster = 0xdf41e1e2;
  arb_aggregator_set_fee_collector = 0x29149799;
  arb_aggregator_set_tx_base_fee = 0x5be6888b;
  arb_debug_custom_revert = 0x7ea89f8b;
  arb_debug_legacy_error = 0x1e48fe82;
  arb_debug_events = 0x7b9963ef;
  arb_debug_events_view = 0x8e5f30ab;
  arb_function_table_upload = 0xce2ae159;
  arb_owner_get_all_chain_owners = 0x516b4e0f;
  arb_owner_is_chain_owner = 0x26ef7f68;
  arb_owner_get_all_native_token_owners = 0x3f8601e4;
  arb_owner_is_native_token_owner = 0xc686f4db;
  arb_owner_get_all_transaction_filterers = 0x595fbb5a;
  arb_owner_is_transaction_filterer = 0xb32352c3;
  arb_owner_get_filtered_funds_recipient = 0x3caa5f12;
  arb_owner_get_network_fee_account = 0x2d9125e9;
  arb_owner_get_infra_fee_account = 0xee95a824;
  arb_owner_public_rectify_chain_owner = 0x6fe86373;
  arb_retryable_tx_redeem = 0xeda1122c;
  arb_retryable_tx_keepalive = 0xf0b21a41;
  arb_retryable_tx_cancel = 0xc4d252f5;
  arb_retryable_tx_submit_retryable = 0xc9f95d32;
  arb_wasm_activate_program = 0x58c780c2;
  arb_wasm_codehash_keepalive = 0xc689bad5;
  arb_wasm_cache_cache_program = 0xe73ac9f2;
  arb_wasm_cache_cache_codehash = 0x4ceac817;
  arb_wasm_cache_evict_codehash = 0xce972013;
  arb_gas_info_get_l1_fees_available = 0x5b39d23c;
  arb_gas_info_get_l1_reward_rate = 0x8a5b1d28;
  arb_gas_info_get_l1_reward_recipient = 0x9e6d7e31;
  arb_gas_info_get_l1_pricing_equilibration_units = 0xad26ce90;
  arb_gas_info_get_last_l1_pricing_update_time = 0x138b47b4;
  arb_gas_info_get_l1_pricing_funds_due_for_rewards = 0x963d6002;
  arb_gas_info_get_l1_pricing_units_since_update = 0xeff01306;
  arb_gas_info_get_last_l1_pricing_surplus = 0x2987d027;
  arb_gas_info_get_max_tx_gas_limit = 0xaae1cd4c;
  arb_gas_info_get_max_block_gas_limit = 0x0371fdb4;
  arb_gas_info_get_gas_pricing_constraints = 0x232027d1;
  arb_gas_info_get_multi_gas_pricing_constraints = 0xbbfc0a72;
  arb_gas_info_get_multi_gas_base_fee = 0xc0e10bbb;
  arb_owner_public_get_infra_fee_account = 0xee95a824;
  arb_owner_public_get_brotli_compression_level = 0x22d499c7;
  arb_owner_public_get_scheduled_upgrade = 0x81ef944c;
  arb_owner_public_is_calldata_price_increase_enabled = 0x2aa9551e;
  arb_owner_public_is_native_token_owner = 0xc686f4db;
  arb_owner_public_get_all_native_token_owners = 0x3f8601e4;
  arb_owner_public_get_parent_gas_floor_per_token = 0x49ccdaff;
  arb_owner_public_get_native_token_management_from = 0x3fecbab0;
  arb_owner_public_get_max_stylus_contract_fragments = 0xe5a7f893;
  arb_owner_public_get_transaction_filtering_from = 0xc1d355b8;
  arb_owner_public_is_transaction_filterer = 0xb32352c3;
  arb_owner_public_get_all_transaction_filterers = 0x595fbb5a;
  arb_owner_public_get_filtered_funds_recipient = 0x3caa5f12;
  arb_owner_public_get_collect_tips = 0x8e34a64d;
  arb_owner_set_infra_fee_account = 0x57f585db;
  arb_owner_release_l1_pricer_surplus_funds = 0x314bcf05;
  arb_owner_set_chain_config = 0xeda73212;
  arb_owner_set_brotli_compression_level = 0x5399126f;
  arb_owner_set_ink_price = 0x8c1d4fda;
  arb_owner_set_wasm_max_stack_depth = 0x4567cc8e;
  arb_owner_set_wasm_free_pages = 0x3f37a846;
  arb_owner_set_wasm_page_gas = 0xaaa619e0;
  arb_owner_set_wasm_page_limit = 0x6595381a;
  arb_owner_set_wasm_min_init_gas = 0x8293405e;
  arb_owner_set_wasm_init_cost_scalar = 0x67e0718f;
  arb_owner_set_wasm_expiry_days = 0xaac68018;
  arb_owner_set_wasm_keepalive_days = 0x2a9cbe3e;
  arb_owner_set_wasm_block_cache_size = 0x380f1457;
  arb_owner_add_wasm_cache_manager = 0xffdca515;
  arb_owner_remove_wasm_cache_manager = 0xbf197322;
  arb_owner_set_calldata_price_increase = 0x8eb911d9;
  arb_owner_set_wasm_max_size = 0x455ec2eb;
  arb_owner_add_native_token_owner = 0xaeb3a464;
  arb_owner_remove_native_token_owner = 0x96a3751d;
  arb_owner_set_native_token_management_from = 0xbdb8f707;
  arb_owner_set_gas_pricing_constraints = 0xcc0d556a;
  arb_owner_set_gas_backlog = 0x68fc808a;
  arb_owner_set_max_block_gas_limit = 0xae105c80;
  arb_owner_set_parent_gas_floor_per_token = 0x3a930b0b;
  arb_owner_set_wasm_activation_gas = 0xa0a32497;
  arb_owner_set_multi_gas_pricing_constraints = 0x2b05bb39;
  arb_owner_set_max_stylus_contract_fragments = 0xf1fe1a70;
  arb_owner_set_collect_tips = 0xa858dbe2;
  arb_owner_add_transaction_filterer = 0x59c87acc;
  arb_owner_remove_transaction_filterer = 0x67ada089;
  arb_owner_set_transaction_filtering_from = 0x46066e45;
  arb_owner_set_filtered_funds_recipient = 0xb79da0e9;
  arb_wasm_activation_gas = 0x2278c278;
  arb_debug_panic = 0x4700d305;
  arb_filtered_transactions_manager_add_filtered_transaction = 0xcb470491;
  arb_filtered_transactions_manager_delete_filtered_transaction = 0xd26374b1;
}

same_purity : MethodPurity → MethodPurity → Bool
same_purity pure pure = true
same_purity view view = true
same_purity write write = true
same_purity payable payable = true
same_purity p q = false

same_purity-eq : (p q : MethodPurity) → same_purity p q ≡ true → p ≡ q
unfolding same_purity
same_purity-eq pure pure e = refl
same_purity-eq view view e = refl
same_purity-eq write write e = refl
same_purity-eq payable payable e = refl
same_purity-eq p q e = cc

-- A least version that the precompile's own version covers may be listed or not.
same_bounds : ℕ → ℕ → ℕ → ℕ × ℕ → Bool
same_bounds v min max bounds = (bounds.0 == min || (leb bounds.0 v && leb min v)) && bounds.1 == max

same_bounds-outcome :
    (v min max : ℕ) (bounds : ℕ × ℕ) (version : ℕ)
    → same_bounds v min max bounds ≡ true
    → nitro v bounds.0 bounds.1 version ≡ nitro v min max version
unfolding same_bounds nitro
same_bounds-outcome v min max bounds version e = ground arith

agrees : ⦃s : Selectors⦄ → NitroMethod → Bool
agrees (method arb name selector v min max purity) =
    precompile_min_arbos_version arb == v
    && (same_bounds v min max (method_arbos_bounds arb selector)
        && same_purity (method_purity arb selector) purity)

all_agree : ⦃s : Selectors⦄ → List NitroMethod → Bool
all_agree [] = true
all_agree (m ∷ ms) = if agrees m then all_agree ms else false

and_true : (a b : Bool) → (a && b) ≡ true → (a ≡ true) × (b ≡ true)
and_true true b e = (refl, e)
and_true false b e = cc

agrees-Matches :
    ⦃s : Selectors⦄ (version : ℕ) (m : NitroMethod) → agrees m ≡ true → Matches version m
unfolding agrees Matches ours nitro
agrees-Matches version (method arb name selector v min max purity) e =
    let parts = and_true (precompile_min_arbos_version arb == v) _ e in
    let rest = and_true (same_bounds v min max (method_arbos_bounds arb selector)) _ parts.1 in
    let own : precompile_min_arbos_version arb ≡ v = ground (arith, parts.0) in
    (
      rw own (same_bounds-outcome v min max (method_arbos_bounds arb selector) version rest.0),
      same_purity-eq (method_purity arb selector) purity rest.1,
    )

all_agree-AllMatch :
    ⦃s : Selectors⦄ (version : ℕ) (ms : List NitroMethod)
    → all_agree ms ≡ true
    → AllMatch version ms
unfolding all_agree AllMatch
all_agree-AllMatch version [] e = tt
all_agree-AllMatch version (m ∷ ms) e = elim (Bool-cases (agrees m)) [
  | inl yes_it_does ↦
      (agrees-Matches version m yes_it_does, all_agree-AllMatch version ms (rw yes_it_does at e))
  | inr bad ↦ (cc (rw bad at e))
]

nitro_agrees : all_agree ⦃s = nitro_selectors⦄ nitro_methods ≡ true
unfolding all_agree agrees same_bounds same_purity precompile_min_arbos_version method_purity
    method_arbos_bounds one_of filtered_manager_method_is_write
nitro_agrees = refl

-- Where the bindings' selectors are those of Nitro's list, at every version of ArbOS and for each
-- method of the list: the precompile's least version and the method's bounds make it absent, gated
-- or active just where Nitro does, and its mutability is Nitro's.
pub tables-nitro :
    (s : Selectors) (version : ℕ) → s ≡ nitro_selectors → AllMatch ⦃s = s⦄ version nitro_methods
tables-nitro s version e =
    subst (λ t. AllMatch ⦃s = t⦄ version nitro_methods) (sym e)
      (all_agree-AllMatch ⦃s = nitro_selectors⦄ version nitro_methods nitro_agrees)
