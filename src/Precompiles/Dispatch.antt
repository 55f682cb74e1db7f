-- ===== src/Precompiles/Dispatch.antt =====
-- crates/arb-revm/src/precompiles/mod.rs: what stands between a call and the body of a precompile.
-- `body` are the bodies; `args_ok` is the check of go_abi.rs on the signature of a method, where it has one;
-- `debug_mode` is what the JSON of the chain configuration says.
pub mod Guards
pub mod Promises
use arbitrum_revm.Prelude.{
  ℕ, ◌+◌, ◌-◌, ◌*◌, ◌/◌, ◌^◌, Bool, true, false, not, ◌&&◌, ◌||◌, Option, none, some, List, [], ◌∷◌,
  ◌++◌, zero, suc, length, drop, ltb, leb, ◌==◌, if◌then◌else◌,
}
use arbitrum_revm.Prelude.Text.{codes}
use arbitrum_revm.Exec.{Journal, Host, Exec, Log, emit_log, ok, err}
use arbitrum_revm.Storage.{be_bytes, from_be_bytes}
use arbitrum_revm.Storage.AddressSet.{is_member}
use arbitrum_revm.Storage.Bytes.{get_bytes}
use arbitrum_revm.ArbosState.{arbos_version, chain_owners, transaction_filterers, chain_config}
use arbitrum_revm.Precompiles.{
  ArbPrecompilesEnum, arb_filtered_transactions_manager, arb_debug, arb_owner, MethodPurity, view,
  write, payable, Selectors, precompile_min_arbos_version, method_purity, method_arbos_bounds,
}
use arbitrum_revm.Precompiles.Outcome.{
  ArbCall, InterpreterResult, InstructionResult, returned, revert, out_of_gas, precompile_error,
  fatal_external_error, GasMeter, Run, empty_active_result, gated_revert_result, fatal_result, done,
  try_or,
}

abbrev pub words_for_bytes : ℕ → ℕ
words_for_bytes n = (n + 31) / 32

abbrev pub is_pure : MethodPurity → Bool
is_pure MethodPurity.pure = true
is_pure p = false

abbrev pub is_payable : MethodPurity → Bool
is_payable payable = true
is_payable p = false

abbrev pub changes_state : MethodPurity → Bool
changes_state write = true
changes_state payable = true
changes_state p = false

abbrev pub is_fatal : InstructionResult → Bool
is_fatal fatal_external_error = true
is_fatal r = false

abbrev pub is_out_of_gas : InstructionResult → Bool
is_out_of_gas out_of_gas = true
is_out_of_gas r = false

abbrev pub is_ordinary_error : InstructionResult → Bool
is_ordinary_error precompile_error = true
is_ordinary_error r = false

abbrev pub is_return : InstructionResult → Bool
is_return returned = true
is_return r = false

-- `call.input.get(..4)`, as a number
unfoldable pub selector_of : List ℕ → Option ℕ
selector_of (a ∷ b ∷ c ∷ d ∷ rest) = some (from_be_bytes 0 (a ∷ b ∷ c ∷ d ∷ []))
selector_of bytes = none

-- OutOfGas at the wrapper of the filter becomes a revert.
unfoldable pub as_revert : InterpreterResult → InterpreterResult
as_revert r = if is_out_of_gas r.result then record r { result = revert; output = [] } else r

abbrev pub owner_check_gas : ℕ
owner_check_gas = 2 * 800

abbrev pub free_access_check_gas : ℕ
free_access_check_gas = 2 * 800

-- "OwnerActs(bytes4,address,bytes)"
abbrev pub owner_acts_signature : List ℕ
owner_acts_signature = codes "OwnerActs(bytes4,address,bytes)"

abbrev pub zeros : ℕ → List ℕ
zeros zero = []
zeros (suc n) = 0 ∷ zeros n

-- What fills up the last word.
abbrev pub padding : ℕ → List ℕ
padding len = zeros (32 * words_for_bytes len - len)

unfoldable pub owner_acts : ⦃h : Host⦄ → ArbCall → ℕ → Log
owner_acts ⦃h⦄ call sel = record {
  address = call.bytecode_address;
  topics = h.keccak owner_acts_signature ∷ sel * 2 ^ 224 ∷ call.caller ∷ [];
  payload =
      be_bytes 32 32
      ++ be_bytes 32 (length call.input)
      ++ call.input
      ++ padding (length call.input);
}

unfoldable pub emit_owner_acts : ⦃h : Host⦄ → ArbCall → Journal → Journal
emit_owner_acts call j = elim (selector_of call.input) [
  | none ↦ j
  | some sel ↦ (emit_log (owner_acts call sel) j).1
]

unfoldable pub in_debug_mode : ⦃h : Host⦄ → (List ℕ → Bool) → Journal → Bool
in_debug_mode debug_mode j = elim (get_bytes chain_config j).0 [
  | ok bytes ↦ debug_mode bytes
  | err e ↦ false
]

module _ ⦃s : Selectors⦄ ⦃g : GasMeter⦄ where
  unfoldable pub method_gated : ArbPrecompilesEnum → ℕ → ℕ → Bool
  method_gated arb version sel =
      ltb version (method_arbos_bounds arb sel).0
      || ltb 0 (method_arbos_bounds arb sel).1 && ltb (method_arbos_bounds arb sel).1 version

  unfoldable pub arbos_call_extra_gas : ArbPrecompilesEnum → ℕ → ℕ → ℕ → ℕ
  arbos_call_extra_gas arb input_len output_len sel =
      3 * words_for_bytes (input_len - 4)
      + 3 * words_for_bytes output_len
      + (if is_pure (method_purity arb sel) then 0 else 800)

  -- The three checks of mutability.
  unfoldable pub forbidden : ArbCall → MethodPurity → Bool
  forbidden call purity =
      not (call.acting_address == call.bytecode_address) && not (is_pure purity)
      || call.is_static && changes_state purity
      || not (call.value == 0) && not (is_payable purity)

  unfoldable pub charge_cost : ℕ → InterpreterResult → InterpreterResult
  charge_cost cost r =
      let paid = g.record_regular_cost r.remaining cost in
      if paid.0
      then record r { remaining = paid.1 }
      else record { result = out_of_gas; remaining = paid.1; output = [] }

  -- An ordinary error becomes a revert, which before ArbOS 11 takes all gas.
  unfoldable pub fold_result :
      ArbPrecompilesEnum → ℕ → ℕ → ℕ → InterpreterResult → InterpreterResult
  fold_result arb version sel input_len r =
      if is_fatal r.result
      then r
      else if is_ordinary_error r.result
      then (if ltb version 11
          then record { result = revert; remaining = 0; output = [] }
          else charge_cost (arbos_call_extra_gas arb input_len 0 sel)
              (record r { result = revert; output = [] }))
      else charge_cost (arbos_call_extra_gas arb input_len (length r.output) sel) r

  unfoldable pub regain : ArbCall → Bool → InterpreterResult → InterpreterResult
  regain call is_filterer r =
      let full = record (as_revert r) { remaining = call.gas_limit } in
      if is_filterer then full else record full {
        remaining = (g.record_regular_cost call.gas_limit free_access_check_gas).1;
      }

  module _ ⦃h : Host⦄ (args_ok : ArbPrecompilesEnum → ℕ → List ℕ → Bool)
      (debug_mode : List ℕ → Bool) (body : ArbPrecompilesEnum → ArbCall → Run) where
    unfoldable pub run_method : ArbPrecompilesEnum → ArbCall → ℕ → ℕ → Run
    run_method arb call version sel j =
        if method_gated arb version sel
          || forbidden call (method_purity arb sel)
          || not (args_ok arb sel (drop 4 call.input))
        then (gated_revert_result call.gas_limit, j)
        else let out = body arb call j in
          (fold_result arb version sel (length call.input) out.0, out.1)

    abbrev pub run_selected : ArbPrecompilesEnum → ArbCall → ℕ → Option ℕ → Run
    run_selected arb call version none = done (gated_revert_result call.gas_limit)
    run_selected arb call version (some sel) = run_method arb call version sel

    unfoldable pub run_active_dispatch : ArbPrecompilesEnum → ArbCall → ℕ → Run
    run_active_dispatch arb call version = run_selected arb call version (selector_of call.input)

    unfoldable pub filtered_call : ArbCall → ℕ → Bool → Run
    filtered_call call version is_filterer j =
        let out =
          run_active_dispatch ArbPrecompilesEnum.arb_filtered_transactions_manager call version j in
        (if is_fatal out.0.result then out.0 else regain call is_filterer out.0, out.1)

    unfoldable pub run_filtered_manager_wrapper : ArbCall → ℕ → Run
    run_filtered_manager_wrapper call version =
        if ltb call.gas_limit free_access_check_gas
        then done (record { result = out_of_gas; remaining = 0; output = [] })
        else try_or (fatal_result call.gas_limit) (is_member transaction_filterers call.caller)
            (filtered_call call version)

    unfoldable pub owner_call : ArbCall → ℕ → Bool → Run
    owner_call call version false j = (gated_revert_result call.gas_limit, j)
    owner_call call version true j =
        let out = run_active_dispatch ArbPrecompilesEnum.arb_owner call version j in
        if is_fatal out.0.result then out else (
          record out.0 { remaining = call.gas_limit },
          (if is_return out.0.result && (not call.is_static || ltb version 11)
              then emit_owner_acts call out.1
              else out.1),
        )

    unfoldable pub run_owner_wrapper : ArbCall → ℕ → Run
    run_owner_wrapper call version =
        if ltb call.gas_limit owner_check_gas
        then done (gated_revert_result call.gas_limit)
        else try_or (fatal_result call.gas_limit) (is_member chain_owners call.caller)
            (owner_call call version)

    unfoldable pub run_debug : ArbCall → ℕ → Run
    run_debug call version j =
        if in_debug_mode debug_mode j
        then run_active_dispatch ArbPrecompilesEnum.arb_debug call version j
        else (gated_revert_result call.gas_limit, j)

    -- The wrappers of the precompiles that have one.
    unfoldable pub run_wrapped : ArbPrecompilesEnum → ArbCall → ℕ → Run
    run_wrapped arb_filtered_transactions_manager call version =
        run_filtered_manager_wrapper call version
    run_wrapped arb_debug call version = run_debug call version
    run_wrapped arb_owner call version = run_owner_wrapper call version
    run_wrapped arb call version = run_active_dispatch arb call version

    unfoldable pub run_versioned : ArbPrecompilesEnum → ArbCall → ℕ → Run
    run_versioned arb call version j =
        if ltb version (precompile_min_arbos_version arb)
        then (empty_active_result call.gas_limit, j)
        else run_wrapped arb call version j

    unfoldable pub run_dispatch : ArbPrecompilesEnum → ArbCall → Run
    run_dispatch arb call =
        try_or (fatal_result call.gas_limit) arbos_version (run_versioned arb call)
