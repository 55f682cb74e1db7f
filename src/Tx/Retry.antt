-- ===== src/Tx/Retry.antt =====
-- crates/arb-revm/src/retry_tx.rs: what happens before and after a retry runs.
pub mod Escrow
use arbitrum_revm.Prelude.{
  ℕ, ◌^◌, Bool, true, false, Option, none, some, List, ltb, leb, if◌then◌else◌,
}
use arbitrum_revm.Exec.{
  Host, Exec, ok, err, pure, raise, ◌>>=◌, ◌>>◌, missing_retry_metadata, retryable_not_found,
  nonce_overflow, timestamp_out_of_range,
}
use arbitrum_revm.Storage.{get_u256, transfer}
use arbitrum_revm.Storage.Retryables.{
  retryable, exists_at, retryable_escrow_address, delete_retryable,
}
use arbitrum_revm.ArbosState.{arbos_version, retryables}
use arbitrum_revm.Tx.{ArbTransaction, RetryTxMeta, contains}

module _ ⦃h : Host⦄ where
  -- JournaledAccount::bump_nonce, where no successor is an error.
  unfoldable pub bump_sender_nonce : ℕ → Exec (Unit {0})
  bump_sender_nonce from j =
      (if (h.bump_nonce j from).0 then ok tt else err nonce_overflow, (h.bump_nonce j from).1)

  unfoldable pub bump_unless_create : Option ℕ → ℕ → Exec (Unit {0})
  bump_unless_create none from = pure tt
  bump_unless_create (some to) from = bump_sender_nonce from

  unfoldable pub take_from_escrow : ℕ → ℕ → Exec (Unit {0})
  take_from_escrow ticket_id from = do
    callvalue ← get_u256 (retryable retryables ticket_id) 3
    if ltb 0 callvalue
        then transfer (retryable_escrow_address ticket_id) from callvalue
        else pure tt

  unfoldable pub apply_retry_tx_pre_execution : ArbTransaction → ℕ → Exec (Unit {0})
  apply_retry_tx_pre_execution tx timestamp = elim tx.retry_meta [
    | none ↦ raise missing_retry_metadata
    | some meta ↦ if leb (2 ^ 64) timestamp then raise timestamp_out_of_range else do
      version ← arbos_version
      found ← exists_at (retryable retryables meta.ticket_id) timestamp version
      if found
          then (do take_from_escrow meta.ticket_id tx.caller; bump_unless_create tx.kind tx.caller)
          else raise retryable_not_found
  ]

  unfoldable pub materialize : ℕ → Exec (Unit {0})
  materialize account j = (ok tt, h.mark_created j account)

  -- `zombies` are the tickets whose escrow the same block destructed.
  unfoldable pub apply_retry_tx_post_execution : ArbTransaction → List ℕ → Bool → Exec (Unit {0})
  apply_retry_tx_post_execution tx zombies success = elim tx.retry_meta [
    | none ↦ raise missing_retry_metadata
    | some meta ↦ do
      callvalue ← get_u256 (retryable retryables meta.ticket_id) 3
      if success
          then (do
            _ ← delete_retryable retryables meta.ticket_id
            if contains meta.ticket_id zombies
                then materialize (retryable_escrow_address meta.ticket_id)
                else pure tt)
          else if ltb 0 callvalue
          then transfer tx.caller (retryable_escrow_address meta.ticket_id) callvalue
          else pure tt
  ]
