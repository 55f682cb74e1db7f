-- ===== src/Examples/Hooks.antt =====
-- The hooks of transactions on the demo host.
use arbitrum_revm.Prelude.{
  ℕ, ◌+◌, ◌-◌, ◌≡◌, ◌≢◌, refl, [], none, some, true, arith, min, if◌then◌else◌,
}
use arbitrum_revm.Exec.{Journal, ok}
use arbitrum_revm.Storage.{get, set}
use arbitrum_revm.Storage.Retryables.{retryable, exists_at, retryable_escrow_address}
use arbitrum_revm.ArbosState.{arbos_root, filtered_transactions, retryables}
use arbitrum_revm.Tx.{ArbTransaction, RetryTxMeta}
use arbitrum_revm.Tx.Deposit.{applied, filtered, apply_deposit_tx}
use arbitrum_revm.Tx.Deposit.Funds.{hash_is_filtered, destination, recipient, apply_deposit_tx_lem}
use arbitrum_revm.Tx.Retry.{apply_retry_tx_pre_execution}
use arbitrum_revm.Tx.Retry.Escrow.{attempt, failed_retry}
use arbitrum_revm.Tx.Fees.{retry_fee_refund}
use arbitrum_revm.Tx.Fees.Refund.{retry_fee_refund_lem}
use arbitrum_revm.Demo.{demo, blank, look}
use arbitrum_revm.Demo.Funds.{demo-MovesFunds}

-- A deposit of 100 from account 1 to account 2.
abbrev deposit : ArbTransaction
deposit = record {
  caller = 1;
  kind = some 2;
  value = 100;
  input = [];
  gas_limit = 0;
  gas_price = 0;
  chain_id = none;
  retry_meta = none;
  tx_hash = some 7;
  encoded_2718 = none;
}

-- At ArbOS 60 the filter holds the hash 7, and sends funds to account 9.
abbrev guarded : Journal
guarded = set arbos_root 0 60 (set arbos_root 10 9 (set filtered_transactions 7 1 blank))

guarded_version : get arbos_root 0 guarded ≡ 60
unfolding look
guarded_version = refl

redirected_to : destination (some 7) 2 guarded ≡ 9
unfolding look destination hash_is_filtered recipient
redirected_to = refl

guarded_balances : (a : ℕ) → guarded.balance a ≡ 0
unfolding look
guarded_balances a = refl

apply_deposit_tx_lem_example :
    ((apply_deposit_tx deposit guarded).0
      ≡ ok (if hash_is_filtered (some 7) guarded then filtered else applied))
    × ((apply_deposit_tx deposit guarded).1.balance (destination (some 7) 2 guarded)
        ≡ guarded.balance (destination (some 7) 2 guarded) + 100)
    × ((a : ℕ)
        → a ≢ destination (some 7) 2 guarded
        → (apply_deposit_tx deposit guarded).1.balance a ≡ guarded.balance a)
    × ((apply_deposit_tx deposit guarded).1.storage ≡ guarded.storage)
apply_deposit_tx_lem_example =
    apply_deposit_tx_lem demo-MovesFunds deposit 2 guarded refl (omega (arith, guarded_version))
      (omega (arith, redirected_to)) (omega (arith, guarded_balances 1))
      (omega (arith, guarded_balances (destination (some 7) 2 guarded)))

-- Every account holds 100.
abbrev funded : Journal
funded = record blank { balance = λ a. 100 }

retry_fee_refund_lem_example :
    ((retry_fee_refund 1 70 2 3 50 funded).0 ≡ ok (50 - min 70 50))
    × ((retry_fee_refund 1 70 2 3 50 funded).1.balance 1 ≡ 100 - 70)
    × ((retry_fee_refund 1 70 2 3 50 funded).1.balance 2 ≡ 100 + min 70 50)
    × ((retry_fee_refund 1 70 2 3 50 funded).1.balance 3 ≡ 100 + (70 - min 70 50))
    × ((a : ℕ) → a ≢ 1 → a ≢ 2 → a ≢ 3 → (retry_fee_refund 1 70 2 3 50 funded).1.balance a ≡ 100)
    × ((retry_fee_refund 1 70 2 3 50 funded).1.storage ≡ funded.storage)
retry_fee_refund_lem_example =
    retry_fee_refund_lem demo-MovesFunds 1 70 2 3 50 funded (omega arith) (omega arith)
      (omega arith) (omega arith) (omega arith) (omega arith) (omega arith)

-- A retry of ticket 5, whose value is 40, from account 1.
abbrev retry_meta_5 : RetryTxMeta
retry_meta_5 = record { ticket_id = 5; refund_to = 2; max_refund = 0; submission_fee_refund = 0 }

abbrev retry : ArbTransaction
retry = record deposit { retry_meta = some retry_meta_5 }

abbrev ticketed : Journal
ticketed =
    set arbos_root 0 20
      (set (retryable retryables 5) 3 40 (set (retryable retryables 5) 5 1_000 funded))

ticketed_slots : (get arbos_root 0 ticketed ≡ 20) × (get (retryable retryables 5) 3 ticketed ≡ 40)
unfolding look retryable
ticketed_slots = (refl, refl)

ticketed_balances : (a : ℕ) → ticketed.balance a ≡ 100
unfolding look
ticketed_balances a = refl

ticket_found :
    exists_at (retryable retryables 5) 500 (get arbos_root 0 ticketed) ticketed
    ≡ (ok true, ticketed)
unfolding look retryable exists_at
ticket_found = refl

escrow_lem : 1 ≢ retryable_escrow_address 5
unfolding look retryable_escrow_address
escrow_lem = omega arith

failed_retry_example :
    ((apply_retry_tx_pre_execution retry 500 ticketed).0 ≡ ok tt)
    × ((apply_retry_tx_pre_execution retry 500 ticketed).1.balance 1
        ≡ ticketed.balance 1 + get (retryable retryables 5) 3 ticketed)
    × ((attempt retry 500 [] ticketed).0 ≡ ok tt)
    × ((a : ℕ) → (attempt retry 500 [] ticketed).1.balance a ≡ ticketed.balance a)
    × ((attempt retry 500 [] ticketed).1.storage ≡ ticketed.storage)
failed_retry_example =
    failed_retry demo-MovesFunds retry retry_meta_5 500 [] ticketed refl (omega arith)
      (omega (arith, ticketed_slots)) ticket_found (λ k. refl) escrow_lem
      (omega (
        arith,
        ticketed_slots,
        ticketed_balances 1,
        ticketed_balances (retryable_escrow_address 5),
      ))
      (omega (arith, ticketed_balances (retryable_escrow_address 5)))
      (omega (arith, ticketed_slots, ticketed_balances 1))
