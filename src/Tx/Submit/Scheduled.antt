-- ===== src/Tx/Submit/Scheduled.antt =====
-- crates/arb-revm/src/submit_retryable_tx.rs: the retry that a submission schedules, built once
-- more from the submission alone.
pub mod Agreement
use arbitrum_revm.Prelude.{
  ℕ, ◌+◌, ◌-◌, ◌*◌, ◌^◌, ◌≤◌, ◌<◌, ◌≡◌, refl, Option, none, some, List, length, min, arith,
}
use arbitrum_revm.Words.{sat_add, sat_mul, sat_add-eq, u256_max}
use arbitrum_revm.Exec.{Result, ok, err, missing_chain_id}
use arbitrum_revm.Tx.Submit.Calldata.{SubmitRetryableCall, decode_submit_retryable_calldata}
use arbitrum_revm.Tx.Submit.{TxRetry, take_funds, retryable_submission_fee}

-- The refund that is left for the retry, from the decoded call.
unfoldable pub scheduled_max_refund : SubmitRetryableCall → ℕ → ℕ
scheduled_max_refund call base_fee =
    let submission_fee = retryable_submission_fee (length call.retry_data) call.l1_base_fee in
    let after_value = take_funds call.deposit_value call.retry_value in
    let withheld = take_funds after_value.1 submission_fee in
    let refund = take_funds withheld.1 (call.max_submission_fee - submission_fee) in
    let withheld_gas = take_funds refund.1 (sat_mul u256_max base_fee call.gas_limit) in
    let price_refund =
      take_funds withheld_gas.1 (sat_mul u256_max (call.gas_fee_cap - base_fee) call.gas_limit) in
    sat_add u256_max (sat_add u256_max price_refund.1 withheld_gas.0) withheld.0

unfoldable pub retry_of_call : SubmitRetryableCall → ℕ → ℕ → ℕ → ℕ → TxRetry
retry_of_call call chain_id from tx_hash base_fee = record {
  chain_id = chain_id;
  nonce = 0;
  from = from;
  gas_fee_cap = base_fee;
  gas_limit = call.gas_limit;
  to = call.retry_to;
  value = call.retry_value;
  input = call.retry_data;
  ticket_id = tx_hash;
  refund_to = call.fee_refund_address;
  max_refund = scheduled_max_refund call base_fee;
  submission_fee_refund = retryable_submission_fee (length call.retry_data) call.l1_base_fee;
}

unfoldable pub with_chain_id : SubmitRetryableCall → Option ℕ → ℕ → ℕ → ℕ → Result TxRetry
with_chain_id call none from tx_hash base_fee = err missing_chain_id
with_chain_id call (some chain_id) from tx_hash base_fee =
    ok (retry_of_call call chain_id from tx_hash base_fee)

unfoldable pub build_scheduled_retry_from_submit : List ℕ → Option ℕ → ℕ → ℕ → ℕ → Result TxRetry
build_scheduled_retry_from_submit input chain_id from tx_hash base_fee =
    elim (decode_submit_retryable_calldata input) [
      | err e ↦ err e
      | ok call ↦ with_chain_id call chain_id from tx_hash base_fee
    ]

-- What the deposit of a call pays for, in order: the ticket's value, the fee of the submission, the
-- refund of what the sender allowed above that fee, the gas, and the refund of what the sender
-- allowed above its price.
unfoldable pub value_paid : SubmitRetryableCall → ℕ
value_paid call = min call.deposit_value call.retry_value

unfoldable pub fee_paid : SubmitRetryableCall → ℕ
fee_paid call =
    min (call.deposit_value - value_paid call)
      (retryable_submission_fee (length call.retry_data) call.l1_base_fee)

unfoldable pub fee_refunded : SubmitRetryableCall → ℕ
fee_refunded call =
    min (call.deposit_value - value_paid call - fee_paid call)
      (call.max_submission_fee - retryable_submission_fee (length call.retry_data) call.l1_base_fee)

unfoldable pub gas_paid : SubmitRetryableCall → ℕ → ℕ
gas_paid call base_fee =
    min (call.deposit_value - value_paid call - fee_paid call - fee_refunded call)
      (sat_mul u256_max base_fee call.gas_limit)

unfoldable pub price_refunded : SubmitRetryableCall → ℕ → ℕ
price_refunded call base_fee =
    min
      (call.deposit_value
        - value_paid call
        - fee_paid call
        - fee_refunded call
        - gas_paid call base_fee)
      (sat_mul u256_max (call.gas_fee_cap - base_fee) call.gas_limit)

-- The same with the amounts as variables, each within what the ones before it leave.
amounts :
    (d v f r g p : ℕ)
    → d < 2 ^ 256
    → v ≤ d
    → f ≤ d - v
    → r ≤ d - v - f
    → g ≤ d - v - f - r
    → p ≤ d - v - f - r - g
    → (sat_add u256_max (sat_add u256_max (d - v - f - r - g - p) g) f + r + p + v ≡ d)
      × (f + g ≤ sat_add u256_max (sat_add u256_max (d - v - f - r - g - p) g) f)
amounts d v f r g p fits v_le f_le r_le g_le p_le =
    let inner = sat_add-eq u256_max (d - v - f - r - g - p) g (omega (arith, fits)) in
    rw inner (
      let outer =
        sat_add-eq u256_max (d - v - f - r - g - p + g) f
          (omega (arith, fits, f_le, r_le, g_le, p_le)) in
      rw outer (omega (arith, v_le, f_le, r_le, g_le, p_le), omega arith))

min-le : (a b : ℕ) → min a b ≤ a
min-le a b = omega arith

-- Where the deposit is a word, the greatest refund of the retry, the refunds already made and the
-- part of the value that the deposit covers add up to the deposit, to the wei: the retry may be
-- refunded at most what is left of the deposit and what the deposit paid for its gas and its
-- submission.
pub scheduled_max_refund_lem :
    (call : SubmitRetryableCall) (base_fee : ℕ)
    → call.deposit_value < 2 ^ 256
    → (scheduled_max_refund call base_fee
          + fee_refunded call
          + price_refunded call base_fee
          + value_paid call
        ≡ call.deposit_value)
      × (fee_paid call + gas_paid call base_fee ≤ scheduled_max_refund call base_fee)
unfolding scheduled_max_refund fee_refunded price_refunded value_paid fee_paid gas_paid
scheduled_max_refund_lem call base_fee fits =
    amounts call.deposit_value (value_paid call) (fee_paid call) (fee_refunded call)
      (gas_paid call base_fee) (price_refunded call base_fee) fits (min-le _ _) (min-le _ _)
      (min-le _ _) (min-le _ _) (min-le _ _)
