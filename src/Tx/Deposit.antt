-- ===== src/Tx/Deposit.antt =====
-- crates/arb-revm/src/deposit_tx.rs: deposits from L1.
pub mod Funds
use arbitrum_revm.Prelude.{ℕ, Bool, true, false, Option, none, some, if◌then◌else◌}
use arbitrum_revm.Exec.{Host, Exec, pure, raise, ◌>>=◌, ◌>>◌, not_a_call, incr, try_transfer}
use arbitrum_revm.Tx.{ArbTransaction, map_transfer_error}
use arbitrum_revm.Tx.Filter.{known_hash, is_tx_hash_filtered, filtered_funds_recipient_or_default}

pub data DepositOutcome : Type 0 where
  applied filtered : DepositOutcome

module _ ⦃h : Host⦄ where
  -- Where the funds go, and whether the filter sent them there.
  unfoldable pub redirect : Option ℕ → ℕ → Exec (ℕ × Bool)
  redirect none to = pure (to, false)
  redirect (some tx_hash) to = do
    is_filtered ← is_tx_hash_filtered tx_hash none
    if is_filtered
        then (do recipient ← filtered_funds_recipient_or_default; pure (recipient, true))
        else pure (to, false)

  unfoldable pub deposit_to : ArbTransaction → ℕ → Exec DepositOutcome
  deposit_to tx to = do
    target ← redirect (known_hash tx) to
    incr tx.caller tx.value
    transfer_error ← try_transfer tx.caller target.0 tx.value
    map_transfer_error transfer_error
    pure (if target.1 then filtered else applied)

  unfoldable pub apply_deposit_tx : ArbTransaction → Exec DepositOutcome
  apply_deposit_tx tx = elim tx.kind [ none ↦ raise not_a_call | some to ↦ deposit_to tx to ]
