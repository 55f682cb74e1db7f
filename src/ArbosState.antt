-- ===== src/ArbosState.antt =====
-- crates/arb-revm/src/storage/arbos_state.rs and offsets.rs: the layout of the ArbOS state.
-- Slots of the root: Version 0, UpgradeVersion 1, UpgradeTimestamp 2, NetworkFeeAccount 3, ChainId 4, InfraFeeAccount 6,
-- BrotliCompressionLevel 7, NativeTokenEnabledFromTimestamp 8,
-- TransactionFilteringEnabledFromTimestamp 9, FilteredFundsRecipient 10, CollectTips 11.
use arbitrum_revm.Prelude.{ℕ, []}
use arbitrum_revm.Exec.{Host, Exec}
use arbitrum_revm.Storage.{StorageSpace, open_subspace_with_key, get_u64, get_address}

abbrev pub arbos_root : StorageSpace
arbos_root = record { key = []; account = 0xa4b05fffffffffffffffffffffffffffffffffff }

-- FILTERED_TRANSACTIONS_STATE_ADDRESS
abbrev pub filtered_transactions : StorageSpace
filtered_transactions = record { key = []; account = 0xa4b0500000000000000000000000000000000001 }

module _ ⦃h : Host⦄ where
  abbrev pub l1_pricing : StorageSpace
  l1_pricing = open_subspace_with_key arbos_root 0

  abbrev pub l2_pricing : StorageSpace
  l2_pricing = open_subspace_with_key arbos_root 1

  abbrev pub retryables : StorageSpace
  retryables = open_subspace_with_key arbos_root 2

  abbrev pub chain_owners : StorageSpace
  chain_owners = open_subspace_with_key arbos_root 4

  abbrev pub block_hashes : StorageSpace
  block_hashes = open_subspace_with_key arbos_root 6

  abbrev pub programs : StorageSpace
  programs = open_subspace_with_key arbos_root 8

  abbrev pub address_table : StorageSpace
  address_table = open_subspace_with_key arbos_root 3

  abbrev pub chain_config : StorageSpace
  chain_config = open_subspace_with_key arbos_root 7

  abbrev pub features : StorageSpace
  features = open_subspace_with_key arbos_root 9

  abbrev pub native_token_owners : StorageSpace
  native_token_owners = open_subspace_with_key arbos_root 10

  abbrev pub transaction_filterers : StorageSpace
  transaction_filterers = open_subspace_with_key arbos_root 11

  abbrev pub arbos_version : Exec ℕ
  arbos_version = get_u64 arbos_root 0

  abbrev pub network_fee_account : Exec ℕ
  network_fee_account = get_address arbos_root 3

  abbrev pub infra_fee_account : Exec ℕ
  infra_fee_account = get_address arbos_root 6

  abbrev pub filtered_funds_recipient : Exec ℕ
  filtered_funds_recipient = get_address arbos_root 10
