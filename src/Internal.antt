-- ===== src/Internal.antt =====
-- crates/arb-revm/src/internal_tx.rs: the transactions that ArbOS sends itself. Upgrade migrates
-- the state to another version.
pub mod Upgrade
use arbitrum_revm.Prelude.{
  ℕ, ◌+◌, ◌-◌, ◌*◌, ◌%◌, ◌^◌, Bool, true, false, not, ◌&&◌, List, [], ◌∷◌, length, take, drop, ltb,
  leb, ◌==◌, if◌then◌else◌,
}
use arbitrum_revm.Words.{add64}
use arbitrum_revm.Exec.{
  Host, Exec, ok, pure, raise, ◌>>=◌, ◌>>◌, write_slot, calldata_too_short, unsupported_selector,
  block_number_mismatch, block_number_out_of_range, timestamp_out_of_range,
}
use arbitrum_revm.Storage.{from_be_bytes, get_u64}
use arbitrum_revm.Storage.BlockHashes.{record_new_l1_block}
use arbitrum_revm.Storage.L1Pricing.{apply_batch_posting_report, apply_batch_posting_report_v2}
use arbitrum_revm.Storage.L2Pricing.{update_pricing_model}
use arbitrum_revm.Storage.L2Pricing.Constraints.{commit_multi_gas_fees}
use arbitrum_revm.Storage.Retryables.{try_to_reap_one}
use arbitrum_revm.ArbosState.{
  arbos_root, arbos_version, block_hashes, l1_pricing, l2_pricing, retryables,
}
use arbitrum_revm.Tx.Fees.{unwrap_or}
use arbitrum_revm.Internal.Upgrade.{history_storage_address, upgrade_arbos_version}

abbrev pub history_serve_window : ℕ
history_serve_window = 393_168

-- The words of calldata after the selector, at offsets that its length makes safe.
abbrev pub word_at : List ℕ → ℕ → List ℕ
word_at input i = take 32 (drop (4 + 32 * i) input)

abbrev pub word_to_u256 : List ℕ → ℕ
word_to_u256 w = from_be_bytes 0 w

abbrev pub word_to_address : List ℕ → ℕ
word_to_address w = from_be_bytes 0 (drop 12 w)

-- The last eight bytes of the word.
abbrev pub word_to_u64 : List ℕ → ℕ
word_to_u64 w = from_be_bytes 0 (drop 24 w)

abbrev has_words : ℕ → List ℕ → Bool
has_words n input = length input == 4 + 32 * n

-- The L1 base fee is not used.
pub record StartBlock : Type 0 where
  pub l1_block_number : ℕ
  pub l2_block_number : ℕ
  pub time_last_block : ℕ

unfoldable pub decode_start_block_calldata : List ℕ → Exec StartBlock
decode_start_block_calldata input =
    if not (has_words 4 input)
    then raise calldata_too_short
    else pure (record {
      l1_block_number = word_to_u64 (word_at input 1);
      l2_block_number = word_to_u64 (word_at input 2);
      time_last_block = word_to_u64 (word_at input 3);
    })

unfoldable pub require_u64_time : ℕ → Exec (Unit {0})
require_u64_time time = if leb (2 ^ 64) time then raise timestamp_out_of_range else pure tt

module _ ⦃h : Host⦄ where
  -- The slot of the history contract is not hashed.
  unfoldable pub write_history : ℕ → ℕ → Exec (Unit {0})
  write_history index hash j = (ok tt, write_slot history_storage_address index hash j)

  unfoldable pub upgrade_if_due : ℕ → ℕ → Exec (Unit {0})
  upgrade_if_due version current_time = do
    upgrade_version ← get_u64 arbos_root 1
    upgrade_timestamp ← get_u64 arbos_root 2
    if ltb version upgrade_version && leb upgrade_timestamp current_time
        then upgrade_arbos_version version upgrade_version false
        else pure tt

  unfoldable pub record_l1_block : ℕ → ℕ → ℕ → Exec (Unit {0})
  record_l1_block version l1_block_number prev_hash = do
    old ← get_u64 block_hashes 0
    if ltb old l1_block_number
        then record_new_l1_block block_hashes (l1_block_number - 1) prev_hash version
        else pure tt

  -- After the checks of the calldata: `prev_hash` is the hash of the block before. The result is
  -- the L1 block number that the chain shows to the rest of the block.
  unfoldable pub start_block : StartBlock → ℕ → ℕ → ℕ → Exec ℕ
  start_block b block_number current_time prev_hash = do
    version ← arbos_version
    commit_multi_gas_fees l2_pricing version
    (if leb 40 version && ltb 0 block_number
        then write_history ((block_number - 1) % history_serve_window) prev_hash
        else pure tt)
    let time_passed = (if ltb version 3 then b.l2_block_number else b.time_last_block)
    let l1_block_number = (if ltb version 8 then add64 b.l1_block_number 1 else b.l1_block_number)
    record_l1_block version l1_block_number prev_hash
    new_l1_block_number ← get_u64 block_hashes 0
    _ ← unwrap_or (try_to_reap_one retryables current_time) false
    _ ← unwrap_or (try_to_reap_one retryables current_time) false
    update_pricing_model l2_pricing time_passed version
    upgrade_if_due version current_time
    pure new_l1_block_number

  -- `block_hash` reads the hash of a block from the database; the list of tickets whose escrow the
  -- block destructed is empty afterwards.
  unfoldable pub apply_start_block : List ℕ → ℕ → ℕ → (ℕ → ℕ) → Exec (ℕ × List ℕ)
  apply_start_block input block_number timestamp block_hash = do
    b ← decode_start_block_calldata input
    (if leb (2 ^ 64) block_number then raise block_number_out_of_range else pure tt)
    (if b.l2_block_number == block_number then pure tt else raise block_number_mismatch)
    require_u64_time timestamp
    number ←
        start_block b block_number timestamp
          (if block_number == 0 then 0 else block_hash (block_number - 1))
    pure (number, [])

  unfoldable pub apply_report : List ℕ → ℕ → Exec (Unit {0})
  apply_report input timestamp = if not (has_words 5 input) then raise calldata_too_short else do
    require_u64_time (word_to_u256 (word_at input 0))
    require_u64_time timestamp
    version ← arbos_version
    apply_batch_posting_report l1_pricing version (word_to_u256 (word_at input 0)) timestamp
        (word_to_address (word_at input 1)) (word_to_u64 (word_at input 3))
        (word_to_u256 (word_at input 4))

  unfoldable pub apply_report_v2 : List ℕ → ℕ → Exec (Unit {0})
  apply_report_v2 input timestamp = if not (has_words 7 input) then raise calldata_too_short else do
    require_u64_time (word_to_u256 (word_at input 0))
    require_u64_time timestamp
    version ← arbos_version
    apply_batch_posting_report_v2 l1_pricing version (word_to_u256 (word_at input 0)) timestamp
        (word_to_address (word_at input 1)) (word_to_u64 (word_at input 3))
        (word_to_u64 (word_at input 4)) (word_to_u64 (word_at input 5))
        (word_to_u256 (word_at input 6))

  -- The chain's L1 block number and tickets, `number` and `zombies`, change at a start of a block.
  unfoldable pub apply_internal_tx : List ℕ → ℕ → ℕ → (ℕ → ℕ) → ℕ → List ℕ → Exec (ℕ × List ℕ)
  apply_internal_tx input block_number timestamp block_hash number zombies =
      let selector = from_be_bytes 0 (take 4 input) in
      if ltb (length input) 4
      then raise calldata_too_short
      else if selector == 0x6bf6a42d
      then apply_start_block input block_number timestamp block_hash
      else if selector == 0xb6693771
      then apply_report input timestamp >> pure (number, zombies)
      else if selector == 0x9998269e
      then apply_report_v2 input timestamp >> pure (number, zombies)
      else raise unsupported_selector
