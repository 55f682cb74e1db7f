-- ===== src/Precompiles/Owner.antt =====
-- crates/arb-revm/src/precompiles/arb_owner.rs: the body of ArbOwner, behind the wrapper that admits owners.
pub mod Params
pub mod Methods
pub mod Schedule
pub mod Surplus
use arbitrum_revm.Prelude.{
  ℕ, ◌+◌, ◌-◌, ◌*◌, ◌^◌, Bool, true, false, not, ◌&&◌, ◌||◌, Option, none, some, List, [], ◌∷◌,
  length, drop, ltb, leb, ◌==◌, min, if◌then◌else◌,
}
use arbitrum_revm.Prelude.Text.{codes}
use arbitrum_revm.Prelude.Int.{ℤ, pos, ltb_ℤ}
use arbitrum_revm.Words.{add64}
use arbitrum_revm.Exec.{Journal, Host, Exec, Log, Result, ok, err, pure, emit_log, ◌>>=◌, ◌>>◌}
use arbitrum_revm.Storage.{
  StorageSpace, open_subspace_with_key, get_u64, get_u256, get_address, put, set_i64,
}
use arbitrum_revm.Storage.AddressSet.{is_member, add, remove, all_members}
use arbitrum_revm.Storage.Bytes.{set_bytes}
use arbitrum_revm.Storage.Features.{set_calldata_price_increase}
use arbitrum_revm.Storage.L1Pricing.{add_to_l1_fees_available, funds_pool_address}
use arbitrum_revm.Storage.L2Pricing.{multi_gas_constraint_exponents}
use arbitrum_revm.Storage.L2Pricing.Constraints.{
  add_gas_constraint, add_multi_gas_constraint, clear_gas_constraints, clear_multi_gas_constraints,
}
use arbitrum_revm.ArbosState.{
  arbos_root, arbos_version, l1_pricing, l2_pricing, chain_owners, chain_config, programs, features,
  native_token_owners, transaction_filterers, network_fee_account, infra_fee_account,
  filtered_funds_recipient,
}
use arbitrum_revm.Precompiles.Outcome.{
  ArbCall, InterpreterResult, Run, ok_result, plain_error, gated_revert_result, fatal_result, done,
  try_or,
}
use arbitrum_revm.Precompiles.GoAbi.{raw_bytes_arg}
use Params.{
  set_or_revert, set_ink_price, set_wasm_max_stack_depth, set_wasm_free_pages, set_wasm_page_gas,
  set_wasm_page_limit, set_wasm_min_init_gas, set_wasm_init_cost_scalar, set_wasm_expiry_days,
  set_wasm_keepalive_days, set_wasm_block_cache_size, set_wasm_max_size,
  set_max_stylus_contract_fragments,
}

-- The encoder of results (alloy): one value of a type.
pub record Encoder : Type 0 where
  pub encode_uint : ℕ → List ℕ
  pub encode_bool : Bool → List ℕ
  pub encode_addresses : List ℕ → List ℕ

pub record MultiGasConstraint : Type 0 where
  pub target_per_sec : ℕ
  pub adjustment_window_secs : ℕ
  pub backlog : ℕ
  pub resources : List (ℕ × ℕ)

-- 7 * 24 * 60 * 60
abbrev pub feature_enable_delay_seconds : ℕ
feature_enable_delay_seconds = 604_800

abbrev pub num_resource_kinds : ℕ
num_resource_kinds = 9

abbrev pub replace : List ℕ → ℕ → ℕ → List ℕ
replace [] i v = []
replace (x ∷ xs) i v = if i == 0 then v ∷ xs else x ∷ replace xs (i - 1) v

-- The weights by kind, or none where a kind is 0 or unknown.
unfoldable pub weights_of : List ℕ → List (ℕ × ℕ) → Option (List ℕ)
weights_of weights [] = some weights
weights_of weights ((kind, weight) ∷ rs) =
    if kind == 0 || leb num_resource_kinds kind
    then none
    else weights_of (replace weights kind weight) rs

abbrev pub nine_zeros : List ℕ
nine_zeros = 0 ∷ 0 ∷ 0 ∷ 0 ∷ 0 ∷ 0 ∷ 0 ∷ 0 ∷ 0 ∷ []

abbrev pub all_at_most : ℤ → List ℤ → Bool
all_at_most top [] = true
all_at_most top (e ∷ es) = if ltb_ℤ top e then false else all_at_most top es

-- May a feature that starts at `current` be moved to `timestamp`?
unfoldable pub may_move : ℕ → ℕ → ℕ → Bool
may_move now current timestamp =
    let min_time = add64 now feature_enable_delay_seconds in
    timestamp == 0
    || not (
        current == 0 && ltb timestamp min_time
        || ltb min_time current && ltb timestamp min_time
        || ltb now current && leb current min_time && ltb timestamp current)

module _ ⦃h : Host⦄ where
  abbrev pub cache_managers : StorageSpace
  cache_managers = open_subspace_with_key programs 4

  abbrev pub activation_gas_space : StorageSpace
  activation_gas_space = open_subspace_with_key programs 5

  -- `get_or_error!`
  abbrev pub get_or_error : {A : Type 0} → ℕ → Exec A → (A → List ℕ) → Run
  get_or_error gas_limit m encode =
      try_or (plain_error gas_limit) m (λ v. done (ok_result gas_limit (encode v)))

  unfoldable pub owner_event : ℕ → List ℕ → ℕ → Exec (Unit {0})
  owner_event precompile signature account =
      emit_log
        (record { address = precompile; topics = h.keccak signature ∷ account ∷ []; payload = [] })

  -- `set_or_revert_event!`
  unfoldable pub set_or_revert_event : ArbCall → Exec (Unit {0}) → Bool → List ℕ → ℕ → Run
  set_or_revert_event call m emit signature account = try_or (plain_error call.gas_limit) m λ _ j. (
    ok_result call.gas_limit [],
    if emit then (owner_event call.bytecode_address signature account j).1 else j,
  )

  -- Removal of a member, and an ordinary error for anyone else.
  unfoldable pub remove_member : ArbCall → StorageSpace → ℕ → ℕ → Bool → List ℕ → Run
  remove_member call set account version emit signature =
      try_or (plain_error call.gas_limit) (is_member set account) λ member.
        if member
        then set_or_revert_event call (remove set account version) emit signature account
        else done (plain_error call.gas_limit)

  unfoldable pub remove_manager : ArbCall → ℕ → ℕ → Run
  remove_manager call account version =
      try_or (plain_error call.gas_limit) (is_member cache_managers account) λ member.
        if member
        then set_or_revert call.gas_limit (remove cache_managers account version)
        else done (plain_error call.gas_limit)

  -- Addition to a set whose feature starts at the time in a slot of the root.
  unfoldable pub add_if_enabled : ArbCall → ℕ → ℕ → StorageSpace → ℕ → Bool → List ℕ → Run
  add_if_enabled call now from set account emit signature =
      try_or (plain_error call.gas_limit) (get_u64 arbos_root from) λ enabled_from.
        if enabled_from == 0 || ltb now enabled_from
        then done (plain_error call.gas_limit)
        else set_or_revert_event call (add set account) emit signature account

  unfoldable pub set_feature_start : ArbCall → ℕ → ℕ → ℕ → Run
  set_feature_start call now from timestamp =
      try_or (plain_error call.gas_limit) (get_u64 arbos_root from) λ current.
        if may_move now current timestamp
        then set_or_revert call.gas_limit (put arbos_root from timestamp)
        else done (plain_error call.gas_limit)

  unfoldable pub set_unless_zero : ℕ → ℕ → ℕ → Run
  set_unless_zero gas_limit slot value =
      if value == 0
      then done (plain_error gas_limit)
      else set_or_revert gas_limit (put l2_pricing slot value)

  unfoldable pub max_tx_gas_limit : ℕ → ℕ → Run
  max_tx_gas_limit gas_limit limit =
      try_or (plain_error gas_limit) arbos_version
        λ version. set_or_revert gas_limit (put l2_pricing (if ltb version 50 then 1 else 7) limit)

  unfoldable pub add_constraints : ℕ → List (ℕ × ℕ × ℕ) → Run
  add_constraints gas_limit [] = done (ok_result gas_limit [])
  add_constraints gas_limit ((target, window, backlog) ∷ cs) =
      let rest = add_constraints gas_limit cs in
      if target == 0 || window == 0
      then done (plain_error gas_limit)
      else try_or (plain_error gas_limit) (add_gas_constraint l2_pricing target window backlog)
          (λ _. rest)

  unfoldable pub gas_pricing_constraints : ℕ → List (ℕ × ℕ × ℕ) → Run
  gas_pricing_constraints gas_limit constraints =
      try_or (plain_error gas_limit) arbos_version λ version.
        try_or (plain_error gas_limit) (clear_gas_constraints l2_pricing) λ _.
          if leb 51 version && ltb version 60 && ltb 20 (length constraints)
          then done (plain_error gas_limit)
          else add_constraints gas_limit constraints

  unfoldable pub add_multi_constraints : ℕ → List MultiGasConstraint → Run → Run
  add_multi_constraints gas_limit [] then_check = then_check
  add_multi_constraints gas_limit (c ∷ cs) then_check =
      let rest = add_multi_constraints gas_limit cs then_check in
      if c.target_per_sec == 0 || c.adjustment_window_secs == 0
      then done (plain_error gas_limit)
      else elim (weights_of nine_zeros c.resources) [
        | none ↦ done (plain_error gas_limit)
        | some weights ↦
            try_or (plain_error gas_limit)
              (add_multi_gas_constraint l2_pricing c.target_per_sec c.adjustment_window_secs
                c.backlog weights)
              (λ _. rest)
      ]

  unfoldable pub multi_gas_pricing_constraints : ℕ → List MultiGasConstraint → Run
  multi_gas_pricing_constraints gas_limit constraints =
      try_or (plain_error gas_limit) (clear_multi_gas_constraints l2_pricing) λ _.
        add_multi_constraints gas_limit constraints (
          try_or (plain_error gas_limit) (multi_gas_constraint_exponents l2_pricing) λ exponents.
            done (
              if all_at_most (pos 85_000) exponents
              then ok_result gas_limit []
              else plain_error gas_limit))

  unfoldable pub chain_config_from : ℕ → List ℕ → Run
  chain_config_from gas_limit input = elim (raw_bytes_arg (drop 4 input) 0) [
    | none ↦ done (plain_error gas_limit)
    | some raw ↦ set_or_revert gas_limit (set_bytes chain_config raw)
  ]

  unfoldable pub surplus_to_release : ℕ → ℕ → ℕ → ℕ
  surplus_to_release balance recognized max_wei_to_release =
      min (balance - recognized) max_wei_to_release

  unfoldable pub release_surplus : ⦃e : Encoder⦄ → ℕ → ℕ → Run
  release_surplus ⦃e⦄ gas_limit max_wei_to_release j =
      try_or (plain_error gas_limit) (get_u256 l1_pricing 11)
        (λ recognized.
          let released =
            surplus_to_release (j.balance funds_pool_address) recognized max_wei_to_release in
          if released == 0
          then done (ok_result gas_limit (e.encode_uint released))
          else try_or (plain_error gas_limit) (add_to_l1_fees_available l1_pricing released)
              (λ _. done (ok_result gas_limit (e.encode_uint released))))
        j
