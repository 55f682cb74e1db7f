-- ===== src/Precompiles/Stateless.antt =====
-- The precompiles that keep no state of ArbOS: arb_info.rs, arb_statistics.rs, arb_function_table.rs, arb_bls.rs,
-- arbos_test.rs, arb_debug.rs and arbos_acts.rs of crates/arb-revm/src/precompiles. Each takes its call
-- decoded, with none for an input that does not decode.
use arbitrum_revm.Prelude.{
  ℕ, ◌+◌, ◌-◌, ◌*◌, ◌^◌, Bool, Option, none, some, List, [], ◌∷◌, length, ltb, leb, min,
  if◌then◌else◌,
}
use arbitrum_revm.Exec.{Journal}
use arbitrum_revm.Precompiles.Outcome.{
  ArbCall, InterpreterResult, revert, out_of_gas, GasMeter, Run, ok_result, ordinary_error_result,
  plain_error, gated_revert_result, done,
}
use arbitrum_revm.Precompiles.Dispatch.{words_for_bytes}
use arbitrum_revm.Precompiles.GasInfo.{Encoder}

pub data InfoCall : Type 0 where
  get_balance get_code : ℕ → InfoCall

abbrev pub balance_gas : ℕ
balance_gas = 700

abbrev pub cold_sload_gas : ℕ
cold_sload_gas = 2_100

-- Nothing is left.
unfoldable pub out_of_gas_result : InterpreterResult
out_of_gas_result = record { result = out_of_gas; remaining = 0; output = [] }

module _ ⦃g : GasMeter⦄ where
  unfoldable pub charge_info : InterpreterResult → ℕ → InterpreterResult
  charge_info r cost =
      let paid = g.record_regular_cost r.remaining cost in
      if paid.0 then record r { remaining = paid.1 } else out_of_gas_result

  -- The code of an account, which the journal of the model leaves out, is read by an argument.
  unfoldable pub run_arb_info :
      ⦃e : Encoder⦄ → (Journal → ℕ → List ℕ) → (List ℕ → List ℕ) → ArbCall → Option InfoCall → Run
  run_arb_info account_code encode_bytes call none j = (gated_revert_result call.gas_limit, j)
  run_arb_info ⦃e⦄ account_code encode_bytes call (some (get_balance account)) j = (
    (if ltb call.gas_limit balance_gas
        then out_of_gas_result
        else charge_info (ok_result call.gas_limit (e.encode_words (j.balance account ∷ [])))
            balance_gas),
    j,
  )
  run_arb_info account_code encode_bytes call (some (get_code account)) j =
      let code = account_code j account in
      (
        (if ltb call.gas_limit cold_sload_gas
            then out_of_gas_result
            else charge_info (ok_result call.gas_limit (encode_bytes code))
                (cold_sload_gas + 3 * words_for_bytes (length code))),
        j,
      )

  -- `burnArbGas`: no more than the dispatcher leaves is taken, so that the cost is always covered.
  unfoldable pub run_arbos_test : ArbCall → Option ℕ → Run
  run_arbos_test call none = done (gated_revert_result call.gas_limit)
  run_arbos_test call (some amount) =
      if leb (2 ^ 64) amount
      then done (ordinary_error_result call.gas_limit)
      else let args_cost = 3 * words_for_bytes (length call.input - 4) in
        let burned =
          g.record_regular_cost call.gas_limit (min amount (call.gas_limit - args_cost)) in
        done (record (ok_result call.gas_limit []) { remaining = burned.1 })

unfoldable pub run_arb_statistics : ⦃e : Encoder⦄ → ℕ → ArbCall → Option (Unit {0}) → Run
run_arb_statistics block_number call none = done (gated_revert_result call.gas_limit)
run_arb_statistics ⦃e⦄ block_number call (some tt) =
    done (ok_result call.gas_limit (e.encode_words (block_number ∷ 0 ∷ 0 ∷ 0 ∷ 0 ∷ 0 ∷ [])))

pub data TableCall : Type 0 where
  table_size upload get_entry : TableCall

unfoldable pub run_arb_function_table : ⦃e : Encoder⦄ → ArbCall → Option TableCall → Run
run_arb_function_table call none = done (gated_revert_result call.gas_limit)
run_arb_function_table ⦃e⦄ call (some table_size) =
    done (ok_result call.gas_limit (e.encode_words (0 ∷ [])))
run_arb_function_table call (some upload) = done (ok_result call.gas_limit [])
run_arb_function_table call (some get_entry) = done (plain_error call.gas_limit)

unfoldable pub run_arb_bls : ArbCall → Run
run_arb_bls call = done (gated_revert_result call.gas_limit)

pub data DebugCall : Type 0 where
  custom_revert : ℕ → DebugCall
  panic legacy_error events_view events become_chain_owner overwrite_contract_code : DebugCall

-- The numbers of a custom revert stand in its text, which is left out.
unfoldable pub run_arb_debug : ArbCall → Option DebugCall → Run
run_arb_debug call none = done (gated_revert_result call.gas_limit)
run_arb_debug call (some events_view) = done (ok_result call.gas_limit [])
run_arb_debug call (some c) = done (plain_error call.gas_limit)

-- Whether the input decodes, and the selector of the error.
unfoldable pub run_arbos_acts : List ℕ → ArbCall → Bool → Run
run_arbos_acts caller_not_arbos call decodes =
    if decodes
    then done (record (ok_result call.gas_limit caller_not_arbos) { result = revert })
    else done (gated_revert_result call.gas_limit)
