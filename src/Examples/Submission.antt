-- ===== src/Examples/Submission.antt =====
-- The submission of a ticket on the demo host, from its calldata on.
use arbitrum_revm.Prelude.{ℕ, ◌+◌, ◌≤◌, ◌≡◌, refl, ap, List, [], ◌∷◌, ◌++◌, none, some, arith}
use arbitrum_revm.Exec.{ok, err}
use arbitrum_revm.Post.{Post}
use arbitrum_revm.Storage.{be_bytes, from_be_bytes}
use arbitrum_revm.Words.{sat_add, sat_mul}
use arbitrum_revm.Tx.{ArbTransaction}
use arbitrum_revm.Tx.Submit.{Codec, apply_submit_retryable_tx}
use arbitrum_revm.Tx.Submit.Calldata.{
  SubmitRetryableCall, selector, decode_submit_retryable_calldata, decode_args, word, word_to_u256,
  word_to_u64, word_to_address, word_to_optional_address, all_zero, equal_bytes, retry_data_at,
}
use arbitrum_revm.Tx.Submit.Scheduled.{
  retry_of_call, with_chain_id, build_scheduled_retry_from_submit, scheduled_max_refund,
  scheduled_max_refund_lem, value_paid, fee_paid, fee_refunded, gas_paid, price_refunded,
}
use arbitrum_revm.Tx.Submit.Scheduled.Agreement.{Logs, apply_submit_retryable_tx-build}
use arbitrum_revm.Demo.{demo, blank, look}

instance abbrev plain : Codec
plain = record {
  rlp_uint = be_bytes 32;
  rlp_hash = be_bytes 32;
  rlp_address = be_bytes 20;
  rlp_kind = λ k. [];
  rlp_bytes = λ bs. bs;
  rlp_list_header = λ n. n ∷ [];
  abi_encode = λ a b x y. a ∷ b ∷ x ∷ y ∷ [];
  tx_hash = λ r. r.max_refund;
}

-- A call of account 3 with four bytes and a value of 5, 30,000 gas at 200 and a fee of 2,000.
abbrev call : SubmitRetryableCall
call = record {
  request_id = 7;
  l1_base_fee = 1;
  deposit_value = 6_003_005;
  retry_value = 5;
  gas_fee_cap = 200;
  gas_limit = 30_000;
  max_submission_fee = 2_000;
  fee_refund_address = 8;
  beneficiary = 9;
  retry_to = some 3;
  retry_data = 1 ∷ 2 ∷ 3 ∷ 4 ∷ [];
}

abbrev calldata : List ℕ
calldata =
    selector
    ++ be_bytes 32 7
    ++ be_bytes 32 1
    ++ be_bytes 32 6_003_005
    ++ be_bytes 32 5
    ++ be_bytes 32 200
    ++ be_bytes 32 30_000
    ++ be_bytes 32 2_000
    ++ be_bytes 32 8
    ++ be_bytes 32 9
    ++ be_bytes 32 3
    ++ be_bytes 32 352
    ++ be_bytes 32 4
    ++ be_bytes 32 0x0102030400000000000000000000000000000000000000000000000000000000

abbrev submission : ArbTransaction
submission = record {
  caller = 1;
  kind = some 0x6e;
  value = 0;
  input = calldata;
  gas_limit = 30_000;
  gas_price = 0;
  chain_id = some 42_161;
  retry_meta = none;
  tx_hash = some 5;
  encoded_2718 = none;
}

calldata_decodes : decode_submit_retryable_calldata calldata ≡ ok call
unfolding look decode_submit_retryable_calldata decode_args word word_to_u256 word_to_u64
    word_to_address word_to_optional_address all_zero equal_bytes retry_data_at sat_add sat_mul
    be_bytes from_be_bytes
calldata_decodes = refl

retry_is_built :
    build_scheduled_retry_from_submit calldata (some 42_161) 1 5 100
    ≡ ok (retry_of_call call 42_161 1 5 100)
unfolding build_scheduled_retry_from_submit with_chain_id
retry_is_built =
    ap (λ d. elim d [ err e ↦ err e | ok q ↦ with_chain_id q (some 42_161) 1 5 100 ])
      calldata_decodes

apply_submit_retryable_tx-build_example :
    Post
      (Logs (retry_of_call call 42_161 1 5 100))
      (apply_submit_retryable_tx submission 1_000 100 [] blank)
apply_submit_retryable_tx-build_example =
    apply_submit_retryable_tx-build submission 1_000 100 [] (retry_of_call call 42_161 1 5 100) 5
      blank refl retry_is_built

scheduled_max_refund_lem_example :
    (scheduled_max_refund call 100 + fee_refunded call + price_refunded call 100 + value_paid call
      ≡ 6_003_005)
    × (fee_paid call + gas_paid call 100 ≤ scheduled_max_refund call 100)
scheduled_max_refund_lem_example = scheduled_max_refund_lem call 100 (omega arith)
