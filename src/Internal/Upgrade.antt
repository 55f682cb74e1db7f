-- ===== src/Internal/Upgrade.antt =====
-- crates/arb-revm/src/internal_tx.rs: the migrations of the state from one ArbOS version to the
-- next, and crates/arb-revm/src/arbos_init.rs: the code of the precompiles.
pub mod Success
use arbitrum_revm.Prelude.{
  ℕ, zero, suc, ◌+◌, ◌-◌, ◌*◌, Bool, true, false, not, ◌&&◌, ◌||◌, List, [], ◌∷◌, ltb, leb, ◌==◌,
  if◌then◌else◌,
}
use arbitrum_revm.Words.{u64_max}
use arbitrum_revm.Exec.{Host, Exec, Result, ok, err, pure, raise, ◌>>=◌, ◌>>◌, unsupported_version}
use arbitrum_revm.Prelude.Int.{pos}
use arbitrum_revm.Storage.{be_bytes, get_u64, put, set_i64, set_i256_pre_version7}
use arbitrum_revm.Storage.AddressSet.{clear_list}
use arbitrum_revm.Storage.L1Pricing.{funds_pool_address}
use arbitrum_revm.Storage.Retryables.{account_balance}
use arbitrum_revm.Storage.Programs.{initialize, read_params_word, write_params_word}
use arbitrum_revm.Storage.Programs.Word.{splice, pack_uint, unpack_uint}
use arbitrum_revm.ArbosState.{
  arbos_root, filtered_transactions, l1_pricing, l2_pricing, chain_owners, programs,
}
use arbitrum_revm.Tx.Fees.{unwrap_or}

abbrev pub history_storage_address : ℕ
history_storage_address = 0x0000f90827f1c53a10cb7a02335b175320002935

-- HISTORY_STORAGE_CODE_HEX, as a number of 133 bytes
abbrev history_storage_code : List ℕ
history_storage_code =
    be_bytes 133
      0x3373fffffffffffffffffffffffffffffffffffffffe1460605760203603605c575f3563a3b1b31d5f5260205f6004601c60645afa15605c575f51600181038211605c57816205ffd0910311605c576205ffd09006545f5260205ff35b5f5ffd5b5f356205ffd0600163a3b1b31d5f5260205f6004601c60645afa15605c575f5103065500

-- The address of a precompile, the version that introduces it, and whether it is for debugging.
abbrev pub arbos_precompiles : List (ℕ × ℕ × Bool)
arbos_precompiles =
    (0x64, 0, false)
    ∷ (0x65, 0, false)
    ∷ (0x66, 0, false)
    ∷ (0x67, 0, false)
    ∷ (0x68, 0, false)
    ∷ (0x69, 0, false)
    ∷ (0x6b, 0, false)
    ∷ (0x6c, 0, false)
    ∷ (0x6d, 0, false)
    ∷ (0x6e, 0, false)
    ∷ (0x6f, 0, false)
    ∷ (0x70, 0, false)
    ∷ (0x71, 30, false)
    ∷ (0x72, 30, false)
    ∷ (0x73, 41, false)
    ∷ (0x74, 60, false)
    ∷ (0xff, 0, true)
    ∷ (0xa4b05, 0, false)
    ∷ []

module _ ⦃h : Host⦄ where
  unfoldable pub set_account_code : ℕ → List ℕ → Exec (Unit {0})
  set_account_code account code j = (ok tt, h.set_code j account code)

  unfoldable pub set_account_nonce : ℕ → ℕ → Exec (Unit {0})
  set_account_nonce account nonce j = (ok tt, h.set_nonce j account nonce)

  unfoldable pub install_from : List (ℕ × ℕ × Bool) → ℕ → Exec (Unit {0})
  install_from [] version = pure tt
  install_from (p ∷ ps) version = do
    (if p.1 == version && not p.2 then set_account_code p.0 (0xfe ∷ []) else pure tt)
    install_from ps version

  unfoldable pub install_precompiles_introduced_at : ℕ → Exec (Unit {0})
  unfolding be_bytes
  install_precompiles_introduced_at version = install_from arbos_precompiles version

  -- From version 11 on the amortized cost is no longer capped where it never was.
  unfoldable pub to_version_11 : Bool → Exec (Unit {0})
  to_version_11 first_time = do
    set_i64 l1_pricing 9 (pos 210_000)
    old_cap ← unwrap_or (get_u64 l1_pricing 10) 0
    (if old_cap == u64_max then put l1_pricing 10 0 else pure tt)
    if not first_time then unwrap_or (clear_list chain_owners) tt else pure tt

  unfoldable pub to_version_31 : Exec (Unit {0})
  to_version_31 = do
    params_word ← read_params_word programs
    write_params_word programs (pack_uint (pack_uint params_word 0 2 2) 15 1 69)

  unfoldable pub to_version_40 : Exec (Unit {0})
  unfolding be_bytes
  to_version_40 = do
    set_account_nonce history_storage_address 1
    set_account_code history_storage_address history_storage_code
    params_word ← read_params_word programs
    write_params_word programs (splice params_word 25 (be_bytes 4 (128 * 1_024)))

  unfoldable pub to_version_50 : Exec (Unit {0})
  to_version_50 = do
    params_word ← read_params_word programs
    (if ltb 22_000 (unpack_uint params_word 5 4)
        then write_params_word programs (splice params_word 5 (be_bytes 4 22_000))
        else pure tt)
    put l2_pricing 7 (32 * 1_000_000)

  unfoldable pub to_version_59 : Exec (Unit {0})
  to_version_59 = do
    params_word ← read_params_word programs
    write_params_word programs (pack_uint params_word 0 2 3)

  unfoldable pub to_version_60 : Exec (Unit {0})
  to_version_60 = do
    params_word ← read_params_word programs
    write_params_word programs (pack_uint (pack_uint params_word 25 4 (256 * 1_024)) 29 1 4)
    set_account_nonce filtered_transactions.account 1

  unfoldable pub to_version_10 : Exec (Unit {0})
  to_version_10 = do balance ← account_balance funds_pool_address; put l1_pricing 11 balance

  abbrev pub within : ℕ → ℕ → ℕ → Bool
  within low high version = leb low version && leb version high

  -- The versions without changes of storage.
  abbrev pub unchanged : ℕ → Bool
  unchanged v =
      within 4 9 v
      || within 12 19 v
      || within 21 29 v
      || within 32 39 v
      || within 41 49 v
      || within 51 58 v
      || (v == 61)

  unfoldable pub migrate : Bool → ℕ → Exec (Unit {0})
  migrate first_time version =
      if version == 2
      then set_i256_pre_version7 l1_pricing 8 (pos 0)
      else if version == 3
      then set_i64 l1_pricing 9 (pos 0) >> put l1_pricing 10 u64_max
      else if version == 10
      then to_version_10
      else if version == 11
      then to_version_11 first_time
      else if version == 20
      then put arbos_root 7 1
      else if version == 30
      then initialize programs 30
      else if version == 31
      then to_version_31
      else if version == 40
      then to_version_40
      else if version == 50
      then to_version_50
      else if version == 59
      then to_version_59
      else if version == 60
      then to_version_60
      else if unchanged version
      then pure tt
      else raise (unsupported_version version)

  -- `while version < target_version`: `n` versions are left.
  unfoldable pub upgrade_loop : ℕ → Bool → ℕ → Exec (Unit {0})
  upgrade_loop zero first_time version = pure tt
  upgrade_loop (suc n) first_time version = do
    migrate first_time (version + 1)
    install_precompiles_introduced_at (version + 1)
    put arbos_root 0 (version + 1)
    upgrade_loop n first_time (version + 1)

  unfoldable pub upgrade_arbos_version : ℕ → ℕ → Bool → Exec (Unit {0})
  upgrade_arbos_version current_version target_version first_time =
      upgrade_loop (target_version - current_version) first_time current_version
