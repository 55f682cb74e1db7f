-- ===== src/Genesis.antt =====
-- crates/arb-revm/src/arbos_init.rs: the state of a new chain. On a new state the writes of zero, which Nitro
-- makes, are left out.
pub mod Success
use arbitrum_revm.Prelude.{
  ℕ, ◌+◌, ◌*◌, ◌%◌, ◌^◌, Bool, true, Option, List, [], ◌∷◌, ltb, leb, ◌==◌, ◌&&◌, ◌||◌,
  if◌then◌else◌,
}
use arbitrum_revm.Prelude.Int.{pos}
use arbitrum_revm.Exec.{
  Host, Exec, pure, raise, ◌>>=◌, ◌>>◌, incr, version_zero, table_slot_mismatch,
}
use arbitrum_revm.Storage.{StorageSpace, be_bytes, open_subspace_with_key, put, set_i64}
use arbitrum_revm.Storage.AddressSet
use arbitrum_revm.Storage.AddressTable.{register}
use arbitrum_revm.Storage.BatchPosterTable.{add_poster}
use arbitrum_revm.Storage.Bytes.{set_bytes, set_fresh}
use arbitrum_revm.Storage.L1Pricing.{batch_poster_table}
use arbitrum_revm.Storage.Queue
use arbitrum_revm.Storage.Retryables.{retryable, retryable_escrow_address, set_to, timeout_queue}
use arbitrum_revm.ArbosState.{
  arbos_root, l1_pricing, l2_pricing, retryables, chain_owners, chain_config, address_table,
}
use arbitrum_revm.L1Cost.{batch_poster_address}
use arbitrum_revm.Internal.Upgrade.{
  arbos_precompiles, set_account_code, set_account_nonce, upgrade_arbos_version,
}

pub record ArbosInitConfig : Type 0 where
  pub initial_arbos_version : ℕ
  pub initial_chain_owner : ℕ
  pub chain_id : ℕ
  pub genesis_block_number : ℕ
  pub initial_l1_base_fee : ℕ
  pub serialized_chain_config : List ℕ
  pub debug_precompiles : Bool

pub record GenesisRetryableInput : Type 0 where
  pub id : ℕ
  pub timeout : ℕ
  pub from : ℕ
  pub to : Option ℕ
  pub callvalue : ℕ
  pub beneficiary : ℕ
  pub calldata : List ℕ

module _ ⦃h : Host⦄ where
  unfoldable pub install_up_to : List (ℕ × ℕ × Bool) → ℕ → Exec (Unit {0})
  install_up_to [] version = pure tt
  install_up_to (p ∷ ps) version = do
    (if ltb version p.1 then pure tt else set_account_code p.0 (0xfe ∷ []))
    install_up_to ps version

  unfoldable pub write_metadata : ArbosInitConfig → Exec (Unit {0})
  write_metadata config = do
    put arbos_root 0 1
    put arbos_root 4 config.chain_id
    (if config.genesis_block_number == 0
        then pure tt
        else put arbos_root 5 config.genesis_block_number)
    if leb 2 config.initial_arbos_version
        then put arbos_root 3 config.initial_chain_owner
        else pure tt

  -- What is written before the batch poster is added.
  unfoldable pub write_top_level : ArbosInitConfig → Exec (Unit {0})
  unfolding be_bytes
  write_top_level config = do
    set_account_nonce arbos_root.account 1
    install_up_to arbos_precompiles config.initial_arbos_version
    write_metadata config
    set_bytes chain_config config.serialized_chain_config

  unfoldable pub write_l1_pricing : ArbosInitConfig → Exec (Unit {0})
  write_l1_pricing config = do
    put l1_pricing 0 (
        if leb 2 config.initial_arbos_version
        then config.initial_chain_owner
        else batch_poster_address)
    put l1_pricing 1 (60 * 16 * 100_000)
    put l1_pricing 2 10
    put l1_pricing 3 10
    put l1_pricing 7 config.initial_l1_base_fee

  unfoldable pub write_l2_pricing : Exec (Unit {0})
  write_l2_pricing = do
    put l2_pricing 0 1_000_000
    put l2_pricing 1 (20 * 1_000_000)
    put l2_pricing 2 100_000_000
    put l2_pricing 3 100_000_000
    put l2_pricing 5 102
    put l2_pricing 6 10

  -- The constants of version 6, which only a new chain takes.
  unfoldable pub first_time_constants : ℕ → Exec (Unit {0})
  first_time_constants version =
      if leb 6 version
      then (do
        (if ltb version 11 then set_i64 l1_pricing 9 (pos 100_000) else pure tt)
        put l1_pricing 1 160_000_000
        put l2_pricing 0 7_000_000
        put l2_pricing 1 32_000_000)
      else pure tt

  unfoldable pub initialize_arbos_state : ArbosInitConfig → Exec (Unit {0})
  initialize_arbos_state config =
      if config.initial_arbos_version == 0 then raise version_zero else do
        write_top_level config
        _ ← add_poster (batch_poster_table l1_pricing) batch_poster_address batch_poster_address
        write_l1_pricing config
        write_l2_pricing
        Queue.initialize (timeout_queue retryables)
        AddressSet.add chain_owners config.initial_chain_owner
        (if ltb 1 config.initial_arbos_version
            then upgrade_arbos_version 1 config.initial_arbos_version true
            else pure tt)
        first_time_constants config.initial_arbos_version

  -- The entries of the address table, whose slots are their places in the file, from `i` on.
  unfoldable pub register_all : ℕ → List ℕ → Exec (Unit {0})
  register_all i [] = pure tt
  register_all i (address ∷ addresses) = do
    slot ← register address_table address
    if slot == i then register_all (i + 1) addresses else raise table_slot_mismatch

  -- The expired tickets are paid to their beneficiaries, in order; what is live comes back.
  unfoldable pub refund_expired : ℕ → List GenesisRetryableInput → Exec (List GenesisRetryableInput)
  refund_expired current_timestamp [] = pure []
  refund_expired current_timestamp (r ∷ rs) =
      if leb r.timeout current_timestamp
      then (do
        (if r.callvalue == 0 then pure tt else incr r.beneficiary r.callvalue)
        refund_expired current_timestamp rs)
      else (do live ← refund_expired current_timestamp rs; pure (r ∷ live))

  unfoldable pub write_record : StorageSpace → GenesisRetryableInput → Exec (Unit {0})
  write_record rec r = do
    put rec 0 0
    put rec 1 r.from
    set_to rec r.to
    put rec 3 r.callvalue
    put rec 4 r.beneficiary
    put rec 5 r.timeout
    put rec 6 0
    set_fresh (open_subspace_with_key rec 1) r.calldata

  unfoldable pub seed : GenesisRetryableInput → Exec (Unit {0})
  seed r = do
    (if r.callvalue == 0 then pure tt else incr (retryable_escrow_address r.id) r.callvalue)
    write_record (retryable retryables r.id) r
    Queue.push (timeout_queue retryables) r.id

  unfoldable pub seed_all : List GenesisRetryableInput → Exec (Unit {0})
  seed_all [] = pure tt
  seed_all (r ∷ rs) = seed r >> seed_all rs

-- By timeout, then by id.
unfoldable pub before : GenesisRetryableInput → GenesisRetryableInput → Bool
before a b = ltb a.timeout b.timeout || (a.timeout == b.timeout && leb a.id b.id)

unfoldable pub insert :
    GenesisRetryableInput → List GenesisRetryableInput → List GenesisRetryableInput
insert r [] = r ∷ []
insert r (x ∷ xs) = if before r x then r ∷ x ∷ xs else x ∷ insert r xs

-- `sort_by`, which is stable.
unfoldable pub sort : List GenesisRetryableInput → List GenesisRetryableInput
sort [] = []
sort (r ∷ rs) = insert r (sort rs)

-- The state of Arbitrum One before the accounts of its former chain are imported.
unfoldable pub build_mainnet_genesis :
    ⦃h : Host⦄ → ArbosInitConfig → List ℕ → List GenesisRetryableInput → ℕ → Exec (Unit {0})
build_mainnet_genesis config table tickets current_timestamp = do
  initialize_arbos_state config
  register_all 0 table
  live ← refund_expired current_timestamp tickets
  seed_all (sort live)
