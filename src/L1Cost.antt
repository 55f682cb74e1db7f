-- ===== src/L1Cost.antt =====
-- crates/arb-revm/src/l1_cost.rs: what a transaction pays for its data on the parent chain. `compress`
-- is brotli's compression at the chain's window and with the empty dictionary, by the bytes and
-- the level; an error is none.
pub mod Poster
pub mod Rlp
use arbitrum_revm.Prelude.{
  ℕ, ◌+◌, ◌-◌, ◌*◌, ◌/◌, ◌≡◌, Bool, true, false, not, ◌&&◌, ◌||◌, Option, none, some, List, [], ◌∷◌,
  ◌++◌, length, ltb, leb, ◌==◌, if◌then◌else◌,
}
use arbitrum_revm.Words.{u64_max, u256_max, sat_mul, mul64}
use arbitrum_revm.Storage.{be_bytes}

abbrev pub batch_poster_address : ℕ
batch_poster_address = 0xa4b000000000000000000073657175656e636572

abbrev pub arbitrum_internal_tx_type : ℕ
arbitrum_internal_tx_type = 0x6a

abbrev pub arbitrum_deposit_tx_type : ℕ
arbitrum_deposit_tx_type = 0x64

abbrev pub arbitrum_submit_retryable_tx_type : ℕ
arbitrum_submit_retryable_tx_type = 0x69

abbrev pub arbitrum_retry_tx_type : ℕ
arbitrum_retry_tx_type = 0x68

unfoldable pub tx_type_has_poster_costs : ℕ → Bool
tx_type_has_poster_costs t = not (
    t == arbitrum_internal_tx_type
    || t == arbitrum_deposit_tx_type
    || t == arbitrum_submit_retryable_tx_type
    || t == arbitrum_retry_tx_type)

unfoldable pub strip_leading_zeros : List ℕ → List ℕ
strip_leading_zeros [] = []
strip_leading_zeros (b ∷ bs) = if b == 0 then strip_leading_zeros bs else b ∷ bs

unfoldable pub rlp_write_length : List ℕ → ℕ → ℕ → List ℕ
rlp_write_length out len offset =
    if ltb len 56
    then out ++ (offset + len) ∷ []
    else let len_bytes = strip_leading_zeros (be_bytes 8 len) in
      out ++ (offset + 55 + length len_bytes) ∷ len_bytes

unfoldable pub rlp_encode_bytes : List ℕ → List ℕ
rlp_encode_bytes [] = 0x80 ∷ []
rlp_encode_bytes (b ∷ []) = if ltb b 0x80 then b ∷ [] else rlp_write_length [] 1 0x80 ++ b ∷ []
rlp_encode_bytes (b ∷ c ∷ bs) = rlp_write_length [] (length (b ∷ c ∷ bs)) 0x80 ++ b ∷ c ∷ bs

unfoldable pub rlp_payload : List (List ℕ) → List ℕ
rlp_payload [] = []
rlp_payload (i ∷ is) = rlp_encode_bytes i ++ rlp_payload is

unfoldable pub rlp_encode_list : List ℕ → List (List ℕ) → List ℕ
rlp_encode_list out items =
    rlp_write_length out (length (rlp_payload items)) 0xc0 ++ rlp_payload items

pub record PosterInfo : Type 0 where
  pub poster_cost : ℕ
  pub calldata_units : ℕ
  pub poster_gas : ℕ
  pub poster_fee : ℕ

abbrev pub no_cost : PosterInfo
no_cost = record { poster_cost = 0; calldata_units = 0; poster_gas = 0; poster_fee = 0 }

-- u64::try_from, with what stands for a number out of range
abbrev pub to_u64_or_max : ℕ → ℕ
to_u64_or_max n = if leb n u64_max then n else u64_max

unfoldable pub gas_of_cost : ℕ → ℕ → ℕ
gas_of_cost cost gas_price = if gas_price == 0 then 0 else to_u64_or_max (cost / gas_price)

unfoldable pub price_compressed : ℕ → ℕ → ℕ → PosterInfo
price_compressed compressed_len price_per_unit gas_price =
    let units = mul64 16 compressed_len in
    let cost = sat_mul u256_max price_per_unit units in
    let gas = gas_of_cost cost gas_price in
    record {
      poster_cost = cost;
      calldata_units = units;
      poster_gas = gas;
      poster_fee = sat_mul u256_max gas_price gas;
    }

abbrev pub is_empty : List ℕ → Bool
is_empty [] = true
is_empty (b ∷ bs) = false

-- The length of what was compressed, or of the bytes where the compression failed
abbrev pub length_or : Option (List ℕ) → List ℕ → ℕ
length_or (some v) tx_bytes = length v
length_or none tx_bytes = length tx_bytes

module _ (compress : List ℕ → ℕ → Option (List ℕ)) where
  unfoldable pub compute_poster_info : List ℕ → ℕ → ℕ → ℕ → ℕ → PosterInfo
  compute_poster_info tx_bytes coinbase price_per_unit gas_price brotli_level =
      if not (coinbase == batch_poster_address) || is_empty tx_bytes
      then no_cost
      else price_compressed (length_or (compress tx_bytes brotli_level) tx_bytes) price_per_unit
          gas_price
