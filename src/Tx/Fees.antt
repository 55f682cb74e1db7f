-- ===== src/Tx/Fees.antt =====
-- crates/arb-revm/src/handler.rs: the charges at the end of a transaction: which price the sender
-- pays, what is refunded, and who is credited.
pub mod Refund
use arbitrum_revm.Prelude.{
  ℕ, ◌+◌, ◌-◌, ◌*◌, ◌/◌, ◌^◌, Bool, true, false, not, ◌&&◌, ◌||◌, Option, none, some, List, ltb,
  leb, ◌==◌, min, if◌then◌else◌,
}
use arbitrum_revm.Words.{sat_mul, add64, u256_max}
use arbitrum_revm.Exec.{
  Host, Exec, Result, ok, err, pure, raise, missing_retry_metadata, ◌>>=◌, ◌>>◌, incr, try_transfer,
}
use arbitrum_revm.Spec.{from_arbos_version, is_enabled_in}
use arbitrum_revm.Storage.{get_u64, get_u256}
use arbitrum_revm.Storage.L1Pricing.{funds_pool_address, add_to_l1_fees_available}
use arbitrum_revm.Storage.L2Pricing.Backlog.{grow_backlog}
use arbitrum_revm.Storage.Retryables.{account_balance}
use arbitrum_revm.ArbosState.{
  arbos_version, network_fee_account, infra_fee_account, l1_pricing, l2_pricing,
}
use arbitrum_revm.Tx.{ArbTransaction, RetryTxMeta}
use arbitrum_revm.Tx.Retry.{apply_retry_tx_post_execution}

-- `checked` says that the base fee is checked, and `named_a_fee` that the sender gave a fee cap or
-- a tip.
unfoldable pub charged_basefee : ℕ → Bool → Bool → ℕ
charged_basefee basefee checked named_a_fee =
    if (basefee == 0) || checked then basefee else if named_a_fee then basefee else 0

unfoldable pub collect_tips_enabled : ℕ → Bool → ℕ → Bool
collect_tips_enabled spec delayed_inbox collect_tips_flag =
    if delayed_inbox
    then false
    else if spec == 9
    then true
    else if not (is_enabled_in spec 60)
    then false
    else not (collect_tips_flag == 0)

-- What revm reports of the gas of a transaction; `refunded` is `refunded().max(0)`.
pub record TxGas : Type 0 where
  pub limit : ℕ
  pub remaining : ℕ
  pub refunded : ℕ
  pub reservoir : ℕ

-- The cap of the refund in ArbHandler::refund.
unfoldable pub capped_refund : TxGas → Bool → ℕ → ℕ
capped_refund gas london poster_gas =
    min gas.refunded ((gas.limit - gas.remaining - poster_gas) / (if london then 5 else 2))

unfoldable pub gas_used : TxGas → ℕ
gas_used gas = gas.limit - gas.remaining - gas.refunded - gas.reservoir

abbrev pub paid_or_basefee : ℕ → ℕ → ℕ
paid_or_basefee paid_gas_price basefee = if paid_gas_price == 0 then basefee else paid_gas_price

-- `unwrap_or`, and `let _ =`: an error is dropped.
unfoldable pub unwrap_or : {A : Type 0} → Exec A → A → Exec A
unwrap_or m default j = (elim (m j).0 [ ok a ↦ ok a | err e ↦ ok default ], (m j).1)

module _ ⦃h : Host⦄ where
  unfoldable pub reimburse_caller : ℕ → TxGas → ℕ → ℕ → Exec (Unit {0})
  reimburse_caller caller gas paid_gas_price basefee =
      incr caller (
        sat_mul u256_max (paid_or_basefee paid_gas_price basefee)
          (add64 gas.remaining gas.refunded))

  -- What ArbChainContext keeps of the transaction for the end of it.
  pub record Charges : Type 0 where
    pub poster_fee : ℕ
    pub poster_gas : ℕ
    pub basefee : ℕ
    pub paid_gas_price : ℕ
    pub coinbase : ℕ
    pub known_version : Option ℕ

  unfoldable pub known_version_or_read : Option ℕ → Exec ℕ
  known_version_or_read none = unwrap_or arbos_version 0
  known_version_or_read (some version) = pure version

  -- `if amount > 0` and the account is set, it is credited.
  unfoldable pub credit : ℕ → ℕ → Exec (Unit {0})
  credit account amount =
      if ltb 0 amount && not (account == 0) then incr account amount else pure tt

  -- The part of the cost that goes to the account for infrastructure, where one is set; the result
  -- is the rest.
  unfoldable pub credit_infra : ℕ → Charges → ℕ → ℕ → Exec ℕ
  credit_infra infra ch compute_gas compute_cost = if infra == 0 then pure compute_cost else do
    min_base_fee ← get_u256 l2_pricing 3
    let infra_cost = min (sat_mul u256_max (min min_base_fee ch.basefee) compute_gas) compute_cost
    credit infra infra_cost
    pure (compute_cost - infra_cost)

  unfoldable pub credit_poster : Charges → ℕ → Exec (Unit {0})
  credit_poster ch spec =
      if ltb 0 ch.poster_fee
      then (do
        incr (if is_enabled_in spec 2 then funds_pool_address else ch.coinbase) ch.poster_fee
        if is_enabled_in spec 10
            then unwrap_or (add_to_l1_fees_available l1_pricing ch.poster_fee) tt
            else pure tt)
      else pure tt

  -- The branch of ordinary transactions.
  unfoldable pub reward_beneficiary : TxGas → Charges → Exec (Unit {0})
  reward_beneficiary gas ch = do
    let compute_gas = gas_used gas - ch.poster_gas
    let compute_cost = sat_mul u256_max ch.basefee compute_gas
    version ← known_version_or_read ch.known_version
    let spec = from_arbos_version version
    let tip =
        sat_mul u256_max (paid_or_basefee ch.paid_gas_price ch.basefee - ch.basefee) compute_gas
    infra ← (if is_enabled_in spec 5 then infra_fee_account else pure 0)
    network_cost ← credit_infra infra ch compute_gas compute_cost
    network ← network_fee_account
    credit network network_cost
    credit network tip
    credit_poster ch spec
    grow_backlog l2_pricing compute_gas version

  -- A transfer of a fee account that holds the whole amount.
  unfoldable pub pay_if_covered : ℕ → ℕ → ℕ → Exec (Unit {0})
  pay_if_covered from to amount = do
    balance ← account_balance from
    if ltb 0 amount && leb amount balance
        then (do _ ← try_transfer from to amount; pure tt)
        else pure tt

  -- The result is the budget that is left.
  unfoldable pub retry_fee_refund : ℕ → ℕ → ℕ → ℕ → ℕ → Exec ℕ
  retry_fee_refund refund_from amount refund_to from budget =
      if amount == 0
      then pure budget
      else if refund_from == 0
      then pure (budget - min amount budget)
      else (do
        pay_if_covered refund_from refund_to (min amount budget)
        pay_if_covered refund_from from (amount - min amount budget)
        pure (budget - min amount budget))

  -- The refund of the fee of the submission, where the retry succeeded.
  unfoldable pub refund_submission : Bool → ℕ → RetryTxMeta → ℕ → Exec ℕ
  refund_submission true network meta from =
      retry_fee_refund network meta.submission_fee_refund meta.refund_to from meta.max_refund
  refund_submission false network meta from = pure (meta.max_refund - meta.submission_fee_refund)

  unfoldable pub refund_infra : Bool → ℕ → ℕ → RetryTxMeta → ℕ → ℕ → Exec ℕ
  refund_infra true infra infra_refund meta from budget =
      retry_fee_refund infra infra_refund meta.refund_to from budget
  refund_infra false infra infra_refund meta from budget = pure budget

  -- The fees at the end of a retry.
  unfoldable pub retry_end_tx_fees : TxGas → ℕ → RetryTxMeta → ℕ → Bool → Exec (Unit {0})
  retry_end_tx_fees gas effective_base_fee meta from success = do
    let used = gas_used gas
    let gas_left = gas.limit - used
    version ← unwrap_or arbos_version 0
    min_base_fee ← get_u256 l2_pricing 3
    network ← network_fee_account
    infra ← infra_fee_account
    budget ← refund_submission success network meta from
    let after_gas = budget - sat_mul u256_max effective_base_fee used
    let total = sat_mul u256_max effective_base_fee gas_left
    let split = is_enabled_in (from_arbos_version version) 11 && not (infra == 0)
    let infra_refund =
        (if split
          then min (sat_mul u256_max (min min_base_fee effective_base_fee) gas_left) total
          else 0)
    rest ← refund_infra split infra infra_refund meta from after_gas
    _ ← retry_fee_refund network (total - infra_refund) meta.refund_to from rest
    grow_backlog l2_pricing used version

  unfoldable pub retry_end_tx_hook : ArbTransaction → TxGas → List ℕ → Bool → Exec (Unit {0})
  retry_end_tx_hook tx gas zombies success = elim tx.retry_meta [
    | none ↦ raise missing_retry_metadata
    | some meta ↦ do
      retry_end_tx_fees gas tx.gas_price meta tx.caller success
      apply_retry_tx_post_execution tx zombies success
  ]
