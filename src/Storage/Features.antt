-- ===== src/Storage/Features.antt =====
-- crates/arb-revm/src/storage/features.rs: the switches of ArbOS, as the bits of a word.
use arbitrum_revm.Prelude.{
  ℕ, ◌+◌, ◌-◌, ◌/◌, ◌%◌, ◌^◌, Bool, true, false, ◌&&◌, ltb, ◌==◌, if◌then◌else◌,
}
use arbitrum_revm.Exec.{Host, Exec, pure, ◌>>=◌}
use arbitrum_revm.Storage.{StorageSpace, get_u256, put}

abbrev pub feature_increased_calldata_price : ℕ
feature_increased_calldata_price = 0

-- U256::bit, which is false beyond the word.
unfoldable pub bit : ℕ → ℕ → Bool
bit bits i = ltb i 256 && bits / 2 ^ i % 2 == 1

-- `bits | (1 << i)` and `bits & !(1 << i)`, where a shift beyond the word is zero.
unfoldable pub with_bit : ℕ → ℕ → Bool → ℕ
with_bit bits i true = if ltb i 256 then (if bit bits i then bits else bits + 2 ^ i) else bits
with_bit bits i false = if bit bits i then bits - 2 ^ i else bits

module _ ⦃h : Host⦄ (s : StorageSpace) where
  unfoldable pub set_feature : ℕ → Bool → Exec (Unit {0})
  set_feature feature_index enabled = do
    bits ← get_u256 s 0
    put s 0 (with_bit bits feature_index enabled)

  unfoldable pub is_feature_enabled : ℕ → Exec Bool
  is_feature_enabled feature_index = do bits ← get_u256 s 0; pure (bit bits feature_index)

  unfoldable pub set_calldata_price_increase : Bool → Exec (Unit {0})
  set_calldata_price_increase enabled = set_feature feature_increased_calldata_price enabled

  unfoldable pub is_calldata_price_increase_enabled : Exec Bool
  is_calldata_price_increase_enabled = is_feature_enabled feature_increased_calldata_price
