-- ===== src/Storage/BlockHashes.antt =====
-- crates/arb-revm/src/storage/block_hashes.rs: the ring of the last 256 L1 block hashes.
pub mod Ring
use arbitrum_revm.Prelude.{
  ℕ, zero, suc, ◌+◌, ◌-◌, ◌/◌, ◌%◌, ◌^◌, List, [], ◌∷◌, ◌++◌, ◌||◌, ltb, leb, if◌then◌else◌,
}
use arbitrum_revm.Words.{add64}
use arbitrum_revm.Exec.{Host, Exec, pure, ◌>>=◌, ◌>>◌}
use arbitrum_revm.Storage.{StorageSpace, be_bytes, get_u64, get_u256, put}

-- u64::to_le_bytes, `n` bytes
pub le_bytes : ℕ → ℕ → List ℕ
le_bytes zero x = []
le_bytes (suc n) x = x % 256 ∷ le_bytes n (x / 256)

module _ ⦃h : Host⦄ (s : StorageSpace) where
  pub block_hash : ℕ → Exec ℕ
  block_hash block_number = do
    current ← get_u64 s 0
    if leb current block_number || ltb ((block_number + 256) % 2 ^ 64) current
        then pure 0
        else get_u256 s (1 + block_number % 256)

  pub set_block_hash : ℕ → ℕ → Exec (Unit {0})
  set_block_hash block_number hash = put s (1 + block_number % 256) hash

  -- The hash that fills the slot of a block that was not reported.
  pub fill : ℕ → ℕ → ℕ → ℕ
  unfolding le_bytes
  fill hash arbos_version n =
      h.keccak (be_bytes 32 hash ++ (if leb 8 arbos_version then le_bytes 8 n else le_bytes 8 0))

  -- `while next_number.saturating_add(1) < number`: at most `number - next_number` rounds.
  pub fill_gap : ℕ → ℕ → ℕ → ℕ → ℕ → Exec (Unit {0})
  fill_gap zero next number hash arbos_version = pure tt
  fill_gap (suc fuel) next number hash arbos_version =
      let rest : Exec (Unit {0}) = (do
        set_block_hash (add64 next 1) (fill hash arbos_version (add64 next 1))
        fill_gap fuel (add64 next 1) number hash arbos_version) in
      if ltb (add64 next 1) number then rest else pure tt

  pub record_new_l1_block : ℕ → ℕ → ℕ → Exec (Unit {0})
  record_new_l1_block number hash arbos_version = do
    next ← get_u64 s 0
    if ltb number next then pure tt else do
      let start = if ltb (add64 next 256) number then number - 256 else next
      fill_gap (number - start) start number hash arbos_version
      set_block_hash number hash
      put s 0 (add64 number 1)
