-- ===== src/Tx/Submit/Scheduled/Agreement.antt =====
-- crates/arb-revm/src/submit_retryable_tx.rs: the retry that is logged is the retry that is built.
use arbitrum_revm.Prelude.{
  ℕ, ◌-◌, ◌^◌, ◌≡◌, refl, ap, subst, ◌⊎◌, inl, inr, Bool, true, false, Option, none, some, List, [],
  ◌∷◌, ◌++◌, length, ltb, leb, ◌==◌, if◌then◌else◌,
}
use arbitrum_revm.Post.{Post, bind-Post, if-Post}
use arbitrum_revm.Words.{sat_add, u256_max}
use arbitrum_revm.ArbosState.{network_fee_account, retryables, arbos_version}
use arbitrum_revm.Tx.{ArbTransaction}
use arbitrum_revm.Tx.Filter.{is_tx_hash_filtered}
use arbitrum_revm.Storage.{put, transfer}
use arbitrum_revm.Storage.Retryables.{retryable}
use arbitrum_revm.Tx.Submit.Calldata.{SubmitRetryableCall, decode_submit_retryable_calldata}
use arbitrum_revm.Tx.Submit.{
  Codec, TxRetry, Submission, Outcome, created, failed, gas_cost, max_gas_cost, price_excess,
  refund_gas, pay_and_schedule, settle, mint_and_charge, take_funds, lift, require_chain_id,
  submission_of, filter_and_submit, retry_of, scheduled_log, schedule, redeem, charge, submit,
  pay_gas, transfer_some, fund_escrow, create_ticket, redirected, retryable_submission_fee,
  apply_submit_retryable_tx,
}
use arbitrum_revm.Tx.Submit.Scheduled.{
  retry_of_call, with_chain_id, scheduled_max_refund, build_scheduled_retry_from_submit,
}
use arbitrum_revm.Exec.{
  Error, timestamp_out_of_range, emit_log, incr, TransferError, Journal, Host, Exec, Log, Result,
  ok, err, pure, raise, ◌>>=◌, ◌>>◌,
}

module _ ⦃h : Host⦄ ⦃c : Codec⦄ where
  -- Where a submission reports gas, the log of the retry `r` is the last one.
  unfoldable pub Logs : TxRetry → Outcome → Journal → Type 0
  Logs r (failed gas, zombies) k = Unit {0}
  Logs r (created gas, zombies) k =
      (gas ≡ 0) ⊎ ((gas ≡ r.gas_limit) × (l : List Log) × (k.logs ≡ l ++ scheduled_log r ∷ []))

  -- Whether the escrow of the ticket may come back empty.
  abbrev zombie_test : Submission → Exec Bool
  zombie_test s =
      if s.call.retry_value == 0
      then (do version ← arbos_version; pure (ltb version 30))
      else pure false

  log-Logs :
      (r : TxRetry) (zombies : List ℕ) (j : Journal)
      → Post (Logs r) ((emit_log (scheduled_log r) >> pure (created r.gas_limit, zombies)) j)
  unfolding Post Logs emit_log
  log-Logs r zombies j = inr (refl, j.logs, refl)

  schedule-Logs :
      (s : Submission) (max_refund : ℕ) (zombies : List ℕ) (j : Journal)
      → Post (Logs (retry_of s max_refund)) (schedule s max_refund zombies j)
  unfolding schedule retry_of
  schedule-Logs s max_refund zombies j =
      let r = retry_of s max_refund in
      bind-Post (Logs r) (put (retryable retryables s.ticket_id) 0 1) _ j
        (λ done k. bind-Post (Logs r) (zombie_test s) _ k (λ track l. log-Logs r _ l))

  failed-Logs :
      (r : TxRetry) (gas : ℕ) (zombies : List ℕ) (j : Journal)
      → Post (Logs r) (pure (failed gas, zombies) j)
  unfolding Post Logs
  failed-Logs r gas zombies j = tt

  unscheduled-Logs :
      (r : TxRetry) (b : Bool) (zombies : List ℕ) (j : Journal)
      → Post (Logs r) (pure ((if b then failed 0 else created 0), zombies) j)
  unfolding Post Logs
  unscheduled-Logs r true zombies j = tt
  unscheduled-Logs r false zombies j = inl refl

  refund_gas-Logs :
      (r : TxRetry) (s : Submission) (available : ℕ) (zombies : List ℕ) (j : Journal)
      → Post (Logs r) (refund_gas s available zombies j)
  unfolding refund_gas
  refund_gas-Logs r s available zombies j =
      bind-Post (Logs r)
        (transfer_some s.from s.call.fee_refund_address (take_funds available (max_gas_cost s)).0) _
        j (λ paid k. unscheduled-Logs r s.is_filtered zombies k)

  -- What is left for the retry after `available`, the gas and the price are settled.
  abbrev refund_left : Submission → ℕ → ℕ → ℕ
  refund_left s available withheld_fee =
      let withheld_gas = take_funds available (gas_cost s) in
      let price_refund = take_funds withheld_gas.1 (price_excess s) in
      sat_add u256_max (sat_add u256_max price_refund.1 withheld_gas.0) withheld_fee

  module _ (r : TxRetry) (s : Submission) (zombies : List ℕ) where
    pay_and_schedule-Logs :
        (version network available withheld_fee : ℕ) (j : Journal)
        → (s.is_filtered ≡ false → retry_of s (refund_left s available withheld_fee) ≡ r)
        → Post (Logs r) (pay_and_schedule s version network available withheld_fee zombies j)
    unfolding pay_and_schedule
    pay_and_schedule-Logs version network available withheld_fee j same =
        let withheld_gas = take_funds available (gas_cost s) in
        let price_refund = take_funds withheld_gas.1 (price_excess s) in
        let max_refund = refund_left s available withheld_fee in
        bind-Post (Logs r) (pay_gas s version network) _ j (λ paid k.
          bind-Post (Logs r) (transfer_some s.from s.call.fee_refund_address price_refund.0) _ k
            (λ refunded l.
              if-Post (Logs r) s.is_filtered (pure (failed s.call.gas_limit, zombies))
                (schedule s max_refund zombies) l
                (λ filtered. failed-Logs r s.call.gas_limit zombies l)
                (λ kept.
                  subst (λ q. Post (Logs q) (schedule s max_refund zombies l)) (same kept)
                    (schedule-Logs s max_refund zombies l))))

    redeem-Logs :
        (version network available withheld_fee : ℕ) (j : Journal)
        → (s.is_filtered ≡ false → retry_of s (refund_left s available withheld_fee) ≡ r)
        → Post (Logs r) (redeem s version network available withheld_fee zombies j)
    unfolding redeem
    redeem-Logs version network available withheld_fee j same =
        if-Post (Logs r) _ (refund_gas s available zombies)
          (pay_and_schedule s version network available withheld_fee zombies) j
          (λ short. refund_gas-Logs r s available zombies j)
          (λ funded. pay_and_schedule-Logs version network available withheld_fee j same)

    settle-Logs :
        (version network submission_fee available withheld : ℕ) (e : Option TransferError)
        (j : Journal)
        → (s.is_filtered ≡ false → retry_of s (refund_left s available withheld) ≡ r)
        → Post (Logs r) (settle s version network submission_fee available withheld zombies e j)
    unfolding settle
    settle-Logs version network submission_fee available withheld none j same =
        bind-Post (Logs r) (create_ticket s) _ j
          (λ made k. redeem-Logs version network available withheld k same)
    settle-Logs version network submission_fee available withheld (some e) j same =
        bind-Post (Logs r) (transfer_some network s.from submission_fee) _ j (λ back k.
          bind-Post (Logs r) (transfer_some s.from s.call.fee_refund_address withheld) _ k
            (λ paid l. failed-Logs r 0 zombies l))

    charge-Logs :
        (version network : ℕ) (j : Journal)
        → (s.is_filtered ≡ false → retry_of s (scheduled_max_refund s.call s.base_fee) ≡ r)
        → Post (Logs r) (
            charge s version network
              (retryable_submission_fee (length s.call.retry_data) s.call.l1_base_fee)
              zombies
              j)
    unfolding charge scheduled_max_refund
    charge-Logs version network j same =
        let fee = retryable_submission_fee (length s.call.retry_data) s.call.l1_base_fee in
        let after_value = take_funds s.call.deposit_value s.call.retry_value in
        let withheld = take_funds after_value.1 fee in
        let refund = take_funds withheld.1 (s.call.max_submission_fee - fee) in
        bind-Post (Logs r) (transfer s.from network fee) _ j (λ paid k.
          bind-Post (Logs r) (transfer_some s.from s.call.fee_refund_address refund.0) _ k
            (λ back l.
              bind-Post (Logs r) (fund_escrow s) _ l
                (λ e m. settle-Logs version network fee refund.1 withheld.0 e m same)))

    raised-Logs : (e : Error) (j : Journal) → Post (Logs r) (raise e j)
    unfolding Post
    raised-Logs e j = tt

    mint_and_charge-Logs :
        (j : Journal)
        → (s.is_filtered ≡ false → retry_of s (scheduled_max_refund s.call s.base_fee) ≡ r)
        → Post (Logs r) (
            mint_and_charge s
              (retryable_submission_fee (length s.call.retry_data) s.call.l1_base_fee)
              zombies
              j)
    unfolding mint_and_charge
    mint_and_charge-Logs j same =
        let fee = retryable_submission_fee (length s.call.retry_data) s.call.l1_base_fee in
        bind-Post (Logs r) (incr s.from s.call.deposit_value) _ j (λ minted k.
          bind-Post (Logs r) arbos_version _ k (λ version l.
            bind-Post (Logs r) network_fee_account _ l (λ network m.
              if-Post (Logs r) _ (pure (failed 0, zombies)) (charge s version network fee zombies) m
                (λ short. failed-Logs r 0 zombies m)
                (λ funded. charge-Logs version network m same))))

    submit-Logs :
        (j : Journal)
        → (s.is_filtered ≡ false → retry_of s (scheduled_max_refund s.call s.base_fee) ≡ r)
        → Post (Logs r) (submit s zombies j)
    unfolding submit
    submit-Logs j same =
        let fee = retryable_submission_fee (length s.call.retry_data) s.call.l1_base_fee in
        if-Post (Logs r) (ltb s.call.max_submission_fee fee) (pure (failed 0, zombies))
          (if leb (2 ^ 64) s.timestamp
            then raise timestamp_out_of_range
            else mint_and_charge s fee zombies)
          j (λ low. failed-Logs r 0 zombies j)
          (λ enough.
            if-Post (Logs r) (leb (2 ^ 64) s.timestamp) (raise timestamp_out_of_range)
              (mint_and_charge s fee zombies) j (λ late. raised-Logs timestamp_out_of_range j)
              (λ timely. mint_and_charge-Logs j same))

  module _ (tx : ArbTransaction) (timestamp base_fee : ℕ) (zombies : List ℕ) (r : TxRetry) where
    redirected-Logs :
        (call : SubmitRetryableCall) (chain_id ticket_id : ℕ) (b : Bool) (j : Journal)
        → retry_of_call call chain_id tx.caller ticket_id base_fee ≡ r
        → Post (Logs r) (
            (redirected call b >>= λ q.
            submit (submission_of tx timestamp base_fee chain_id ticket_id b q) zombies)
              j)
    unfolding redirected retry_of_call retry_of
    redirected-Logs call chain_id ticket_id true j same =
        bind-Post (Logs r) (redirected call true) _ j (λ q k.
          submit-Logs r (submission_of tx timestamp base_fee chain_id ticket_id true q) zombies k
            (λ e. absurd (cc e)))
    redirected-Logs call chain_id ticket_id false j same =
        submit-Logs r (submission_of tx timestamp base_fee chain_id ticket_id false call) zombies j
          (λ e. same)

    filter_and_submit-Logs :
        (call : SubmitRetryableCall) (chain_id ticket_id : ℕ) (j : Journal)
        → retry_of_call call chain_id tx.caller ticket_id base_fee ≡ r
        → Post (Logs r) (filter_and_submit tx timestamp base_fee zombies call chain_id ticket_id j)
    unfolding filter_and_submit
    filter_and_submit-Logs call chain_id ticket_id j same =
        bind-Post (Logs r) (is_tx_hash_filtered ticket_id none) _ j
          (λ b k. redirected-Logs call chain_id ticket_id b k same)

    decoded-Logs :
        (decoded : Result SubmitRetryableCall) (chain_id : Option ℕ) (ticket_id : ℕ) (j : Journal)
        → elim decoded [
          | err e ↦ err e
          | ok call ↦ with_chain_id call chain_id tx.caller ticket_id base_fee
        ]
          ≡ ok r
        → Post (Logs r) (
            (lift decoded >>= λ call. require_chain_id chain_id >>= λ id.
            filter_and_submit tx timestamp base_fee zombies call id ticket_id)
              j)
    unfolding with_chain_id Post
    decoded-Logs (err e) chain_id ticket_id j same = tt
    decoded-Logs (ok call) none ticket_id j same = tt
    decoded-Logs (ok call) (some id) ticket_id j same =
        filter_and_submit-Logs call id ticket_id j (ap (λ q. elim q [ ok x ↦ x | err e ↦ r ]) same)

    -- Let the hash of the transaction be known, and `r` be the retry that is built from the
    -- submission. Where applying the submission returns, and reports that it created a ticket and
    -- used gas, the gas is that of `r`, and the last log is the schedule of `r`: its hash, its
    -- ticket, its gas, and all its refunds.
    pub apply_submit_retryable_tx-build :
        (ticket_id : ℕ) (j : Journal)
        → tx.tx_hash ≡ some ticket_id
        → build_scheduled_retry_from_submit tx.input tx.chain_id tx.caller ticket_id base_fee ≡ ok r
        → Post (Logs r) (apply_submit_retryable_tx tx timestamp base_fee zombies j)
    unfolding apply_submit_retryable_tx build_scheduled_retry_from_submit filter_and_submit
    apply_submit_retryable_tx-build ticket_id j hash same =
        rw hash
          (decoded-Logs (decode_submit_retryable_calldata tx.input) tx.chain_id ticket_id j same)
