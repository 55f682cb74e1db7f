-- ===== src/Tx/Submit/Calldata.antt =====
-- crates/arb-revm/src/submit_retryable_tx.rs: the calldata of a submission.
use arbitrum_revm.Prelude.{
  ℕ, ◌+◌, ◌-◌, ◌*◌, ◌%◌, ◌^◌, Bool, true, false, not, ◌&&◌, ◌||◌, Option, none, some, List, [], ◌∷◌,
  length, take, drop, ltb, leb, ◌==◌, if◌then◌else◌,
}
use arbitrum_revm.Words.{mul64, add64}
use arbitrum_revm.Exec.{
  Result, ok, err, calldata_too_short, selector_mismatch, missing_word, word_out_of_range,
  invalid_data_offset, data_offset_out_of_bounds, data_out_of_bounds,
}
use arbitrum_revm.Storage.{from_be_bytes}

infixl 5 ◌>>=◌
abbrev ◌>>=◌ : {A B : Type 0} → Result A → (A → Result B) → Result B
ok a >>= f = f a
err e >>= f = err e

pub record SubmitRetryableCall : Type 0 where
  pub request_id : ℕ
  pub l1_base_fee : ℕ
  pub deposit_value : ℕ
  pub retry_value : ℕ
  pub gas_fee_cap : ℕ
  pub gas_limit : ℕ
  pub max_submission_fee : ℕ
  pub fee_refund_address : ℕ
  pub beneficiary : ℕ
  pub retry_to : Option ℕ
  pub retry_data : List ℕ

abbrev pub selector : List ℕ
selector = 0xc9 ∷ 0xf9 ∷ 0x5d ∷ 0x32 ∷ []

unfoldable pub equal_bytes : List ℕ → List ℕ → Bool
equal_bytes [] [] = true
equal_bytes [] (y ∷ ys) = false
equal_bytes (x ∷ xs) [] = false
equal_bytes (x ∷ xs) (y ∷ ys) = (x == y) && equal_bytes xs ys

unfoldable pub all_zero : List ℕ → Bool
all_zero [] = true
all_zero (b ∷ bs) = (b == 0) && all_zero bs

-- `input.get(start..end)`
unfoldable pub word : List ℕ → ℕ → Result (List ℕ)
word input index =
    let start = mul64 index 32 in
    let end = add64 start 32 in
    if leb end (length input) then ok (take (end - start) (drop start input)) else err missing_word

unfoldable pub word_to_u256 : List ℕ → ℕ
word_to_u256 w = from_be_bytes 0 w

-- A usize has 64 bits: `word_to_usize` is this function too.
unfoldable pub word_to_u64 : List ℕ → Result ℕ
word_to_u64 w = if ltb (word_to_u256 w) (2 ^ 64) then ok (word_to_u256 w) else err word_out_of_range

unfoldable pub word_to_address : List ℕ → ℕ
word_to_address w = from_be_bytes 0 (drop 12 w)

unfoldable pub word_to_optional_address : List ℕ → Option ℕ
word_to_optional_address w = if all_zero w then none else some (word_to_address w)

-- The bytes that follow their length, at an offset that is a multiple of 32 past the head. At the offset
-- 2^64 - 32 the source's sum passes the end of a usize and it panics; here that is an offset out of bounds.
unfoldable pub retry_data_at : List ℕ → ℕ → Result (List ℕ)
retry_data_at args offset =
    if not (offset % 32 == 0) || ltb offset (11 * 32)
    then err invalid_data_offset
    else if ltb (length args) (offset + 32)
    then err data_offset_out_of_bounds
    else (do
      data_len ← word_to_u64 (take 32 (drop offset args))
      if ltb (length args) (add64 (offset + 32) data_len)
          then err data_out_of_bounds
          else ok (take (add64 (offset + 32) data_len - (offset + 32)) (drop (offset + 32) args)))

unfoldable pub decode_args : List ℕ → Result SubmitRetryableCall
decode_args args = do
  request_id ← word args 0
  l1_base_fee ← word args 1
  deposit_value ← word args 2
  retry_value ← word args 3
  gas_fee_cap ← word args 4
  gas_limit_word ← word args 5
  gas_limit ← word_to_u64 gas_limit_word
  max_submission_fee ← word args 6
  fee_refund_address ← word args 7
  beneficiary ← word args 8
  retry_to ← word args 9
  offset_word ← word args 10
  offset ← word_to_u64 offset_word
  retry_data ← retry_data_at args offset
  ok (record {
    request_id = word_to_u256 request_id;
    l1_base_fee = word_to_u256 l1_base_fee;
    deposit_value = word_to_u256 deposit_value;
    retry_value = word_to_u256 retry_value;
    gas_fee_cap = word_to_u256 gas_fee_cap;
    gas_limit = gas_limit;
    max_submission_fee = word_to_u256 max_submission_fee;
    fee_refund_address = word_to_address fee_refund_address;
    beneficiary = word_to_address beneficiary;
    retry_to = word_to_optional_address retry_to;
    retry_data = retry_data;
  })

unfoldable pub decode_submit_retryable_calldata : List ℕ → Result SubmitRetryableCall
decode_submit_retryable_calldata input =
    if ltb (length input) (4 + 12 * 32)
    then err calldata_too_short
    else if not (equal_bytes (take 4 input) selector)
    then err selector_mismatch
    else decode_args (drop 4 input)
