-- ===== src/Precompiles/FilterManager.antt =====
-- crates/arb-revm/src/precompiles/arb_filtered_transactions_manager.rs: who may add a transaction's hash to
-- the filter of transaction_filter.rs, and remove it.
pub mod Access
use arbitrum_revm.Prelude.{
  ℕ, Bool, true, false, Option, none, some, List, [], ◌∷◌, ltb, ◌==◌, if◌then◌else◌,
}
use arbitrum_revm.Prelude.Text.{codes}
use arbitrum_revm.Exec.{Host, Log}
use arbitrum_revm.ArbosState.{arbos_version, filtered_transactions, transaction_filterers}
use arbitrum_revm.Meter.{MeteredJournal, metered_emit_log}
use arbitrum_revm.Precompiles.Outcome.{
  ArbCall, InterpreterResult, revert, GasMeter, Run, ok_result, gated_revert_result, fatal_result,
  done, try_or,
}
use arbitrum_revm.Precompiles.Burner.{
  metered, metered_get, metered_set, metered_is_member, charge_burned,
}

-- A decoded call.
pub data FilterCall : Type 0 where
  add_filtered_transaction delete_filtered_transaction is_transaction_filtered : ℕ → FilterCall

module _ ⦃h : Host⦄ ⦃g : GasMeter⦄ where
  unfoldable pub filter_event : ArbCall → List ℕ → ℕ → Log
  filter_event call signature tx_hash = record {
    address = call.bytecode_address;
    topics = h.keccak signature ∷ tx_hash ∷ [];
    payload = [];
  }

  -- The burned gas is checked also where the wrapper gives it back.
  unfoldable pub settle : InterpreterResult → MeteredJournal → InterpreterResult
  settle r m = charge_burned revert r m.burned

  unfoldable pub write_entry : ArbCall → ℕ → ℕ → List ℕ → Run
  write_entry call tx_hash value signature j =
      let access = metered_is_member transaction_filterers call.caller (metered j) in
      if access.0
      then (let written =
            metered_emit_log (filter_event call signature tx_hash)
              (metered_set filtered_transactions tx_hash value access.1) in
          (settle (ok_result call.gas_limit []) written, written.inner))
      else (gated_revert_result call.gas_limit, access.1.inner)

  unfoldable pub read_entry : (Bool → List ℕ) → ArbCall → ℕ → Run
  read_entry encode_bool call tx_hash j =
      let entry = metered_get filtered_transactions tx_hash (metered j) in
      (settle (ok_result call.gas_limit (encode_bool (entry.0 == 1))) entry.1, entry.1.inner)

  unfoldable pub run_filter_call : (Bool → List ℕ) → ArbCall → FilterCall → Run
  run_filter_call encode_bool call (add_filtered_transaction tx_hash) =
      write_entry call tx_hash 1 (codes "FilteredTransactionAdded(bytes32)")
  run_filter_call encode_bool call (delete_filtered_transaction tx_hash) =
      write_entry call tx_hash 0 (codes "FilteredTransactionDeleted(bytes32)")
  run_filter_call encode_bool call (is_transaction_filtered tx_hash) =
      read_entry encode_bool call tx_hash

  abbrev pub run_decoded : (Bool → List ℕ) → ArbCall → Option FilterCall → Run
  run_decoded encode_bool call none = done (gated_revert_result call.gas_limit)
  run_decoded encode_bool call (some c) = run_filter_call encode_bool call c

  unfoldable pub run_arb_filtered_transactions_manager :
      (Bool → List ℕ) → (List ℕ → Option FilterCall) → ArbCall → Run
  run_arb_filtered_transactions_manager encode_bool decode call =
      try_or (fatal_result call.gas_limit) arbos_version λ version.
        if ltb version 60
        then done (ok_result call.gas_limit [])
        else run_decoded encode_bool call (decode call.input)
