-- ===== src/Tx/Filter.antt =====
-- crates/arb-revm/src/transaction_filter.rs: the filter of transactions, from ArbOS 60 on.
use arbitrum_revm.Prelude.{ℕ, Bool, false, Option, none, some, ltb, ◌==◌, if◌then◌else◌}
use arbitrum_revm.Exec.{Host, Exec, pure, ◌>>=◌}
use arbitrum_revm.Storage.{get_u256}
use arbitrum_revm.ArbosState.{
  filtered_transactions, arbos_version, network_fee_account, filtered_funds_recipient,
}
use arbitrum_revm.Tx.{ArbTransaction, or_else}

-- The hash of the transaction, where it is known: `tx_hash().or_else(|| encoded.map(keccak256))`.
abbrev pub known_hash : ⦃h : Host⦄ → ArbTransaction → Option ℕ
known_hash ⦃h⦄ tx =
    or_else tx.tx_hash (elim tx.encoded_2718 [ none ↦ none | some e ↦ some (h.keccak e) ])

module _ ⦃h : Host⦄ where
  unfoldable pub version_or_read : Option ℕ → Exec ℕ
  version_or_read none = arbos_version
  version_or_read (some version) = pure version

  unfoldable pub is_tx_hash_filtered : ℕ → Option ℕ → Exec Bool
  is_tx_hash_filtered tx_hash known_version = do
    version ← version_or_read known_version
    if ltb version 60
        then pure false
        else do entry ← get_u256 filtered_transactions tx_hash; pure (entry == 1)

  unfoldable pub filtered_funds_recipient_or_default : Exec ℕ
  filtered_funds_recipient_or_default = do
    recipient ← filtered_funds_recipient
    if recipient == 0 then network_fee_account else pure recipient
