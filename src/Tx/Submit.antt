-- ===== src/Tx/Submit.antt =====
-- crates/arb-revm/src/submit_retryable_tx.rs: the submission of a retryable ticket from L1.
-- Calldata decodes its input, Scheduled is the retry that it schedules.
pub mod Calldata
pub mod Scheduled
use arbitrum_revm.Prelude.{
  ℕ, ◌+◌, ◌-◌, ◌*◌, ◌%◌, ◌^◌, Bool, true, false, not, ◌&&◌, ◌||◌, Option, none, some, List, [], ◌∷◌,
  ◌++◌, length, ltb, leb, ◌==◌, min, if◌then◌else◌,
}
use arbitrum_revm.Words.{sat_add, sat_mul, add64, u256_max}
use arbitrum_revm.Exec.{
  Journal, Host, Exec, Log, Result, ok, err, TransferError, pure, raise, ◌>>=◌, ◌>>◌,
  missing_chain_id, timestamp_out_of_range, incr, try_transfer, emit_log,
}
use arbitrum_revm.Spec.{from_arbos_version, is_enabled_in}
use arbitrum_revm.Storage.{StorageSpace, be_bytes, open_subspace_with_key, get_u256, put, transfer}
use arbitrum_revm.Storage.Bytes.{set_fresh}
use arbitrum_revm.Storage.Queue.{ensure_initialized, push}
use arbitrum_revm.Storage.Retryables.{
  lifetime_seconds, retryable, set_to, timeout_queue, retryable_escrow_address, account_balance,
}
use arbitrum_revm.ArbosState.{
  arbos_version, network_fee_account, infra_fee_account, l2_pricing, retryables,
}
use arbitrum_revm.Tx.{ArbTransaction}
use arbitrum_revm.Tx.Filter.{known_hash, is_tx_hash_filtered, filtered_funds_recipient_or_default}
use arbitrum_revm.Tx.Submit.Calldata.{SubmitRetryableCall, decode_submit_retryable_calldata}

pub data SubmitRetryableOutcome : Type 0 where
  created failed : ℕ → SubmitRetryableOutcome

-- The fields of a retry, of the library of transactions.
pub record TxRetry : Type 0 where
  pub chain_id : ℕ
  pub nonce : ℕ
  pub from : ℕ
  pub gas_fee_cap : ℕ
  pub gas_limit : ℕ
  pub to : Option ℕ
  pub value : ℕ
  pub input : List ℕ
  pub ticket_id : ℕ
  pub refund_to : ℕ
  pub max_refund : ℕ
  pub submission_fee_refund : ℕ

-- What the code takes from the libraries of encodings: the RLP of the kinds of fields and of a
-- list's header, the ABI encoding of four words, and the hash of a retry.
pub record Codec : Type 0 where
  pub rlp_uint : ℕ → List ℕ
  pub rlp_hash : ℕ → List ℕ
  pub rlp_address : ℕ → List ℕ
  pub rlp_kind : Option ℕ → List ℕ
  pub rlp_bytes : List ℕ → List ℕ
  pub rlp_list_header : ℕ → List ℕ
  pub abi_encode : ℕ → ℕ → ℕ → ℕ → List ℕ
  pub tx_hash : TxRetry → ℕ

-- What is taken, and what is left of the funds that were available.
abbrev pub take_funds : ℕ → ℕ → ℕ × ℕ
take_funds available requested = (min available requested, available - min available requested)

-- The product wraps; the units do not reach 2^128.
unfoldable pub retryable_submission_fee : ℕ → ℕ → ℕ
retryable_submission_fee calldata_len l1_base_fee =
    l1_base_fee * (1_400 + 6 * calldata_len) % 2 ^ 256

abbrev pub ticket_created_signature : List ℕ
ticket_created_signature =
    b'T' ∷ b'i' ∷ b'c' ∷ b'k' ∷ b'e' ∷ b't' ∷ b'C' ∷ b'r' ∷ b'e' ∷ b'a' ∷ b't' ∷ b'e' ∷ b'd' ∷ b'('
    ∷ b'b' ∷ b'y' ∷ b't' ∷ b'e' ∷ b's' ∷ b'3' ∷ b'2' ∷ b')' ∷ []

abbrev pub redeem_scheduled_signature : List ℕ
redeem_scheduled_signature =
    b'R' ∷ b'e' ∷ b'd' ∷ b'e' ∷ b'e' ∷ b'm' ∷ b'S' ∷ b'c' ∷ b'h' ∷ b'e' ∷ b'd' ∷ b'u' ∷ b'l' ∷ b'e'
    ∷ b'd' ∷ b'(' ∷ b'b' ∷ b'y' ∷ b't' ∷ b'e' ∷ b's' ∷ b'3' ∷ b'2' ∷ b',' ∷ b'b' ∷ b'y' ∷ b't'
    ∷ b'e' ∷ b's' ∷ b'3' ∷ b'2' ∷ b',' ∷ b'u' ∷ b'i' ∷ b'n' ∷ b't' ∷ b'6' ∷ b'4' ∷ b',' ∷ b'u'
    ∷ b'i' ∷ b'n' ∷ b't' ∷ b'6' ∷ b'4' ∷ b',' ∷ b'a' ∷ b'd' ∷ b'd' ∷ b'r' ∷ b'e' ∷ b's' ∷ b's'
    ∷ b',' ∷ b'u' ∷ b'i' ∷ b'n' ∷ b't' ∷ b'2' ∷ b'5' ∷ b'6' ∷ b',' ∷ b'u' ∷ b'i' ∷ b'n' ∷ b't'
    ∷ b'2' ∷ b'5' ∷ b'6' ∷ b')' ∷ []

abbrev pub retryable_tx_address : ℕ
retryable_tx_address = 0x6e

module _ ⦃h : Host⦄ ⦃c : Codec⦄ where
  unfoldable pub compute_submit_retryable_ticket_id : ℕ → ℕ → SubmitRetryableCall → ℕ
  compute_submit_retryable_ticket_id chain_id from call =
      let fields =
        c.rlp_uint chain_id
        ++ c.rlp_hash call.request_id
        ++ c.rlp_address from
        ++ c.rlp_uint call.l1_base_fee
        ++ c.rlp_uint call.deposit_value
        ++ c.rlp_uint call.gas_fee_cap
        ++ c.rlp_uint call.gas_limit
        ++ c.rlp_kind call.retry_to
        ++ c.rlp_uint call.retry_value
        ++ c.rlp_address call.beneficiary
        ++ c.rlp_uint call.max_submission_fee
        ++ c.rlp_address call.fee_refund_address
        ++ c.rlp_bytes call.retry_data in
      h.keccak (0x69 ∷ c.rlp_list_header (length fields) ++ fields)

  unfoldable pub ticket_created_log : ℕ → Log
  ticket_created_log ticket_id = record {
    address = retryable_tx_address;
    topics = h.keccak ticket_created_signature ∷ ticket_id ∷ [];
    payload = [];
  }

  unfoldable pub redeem_scheduled_log : ℕ → ℕ → ℕ → ℕ → ℕ → ℕ → Log
  redeem_scheduled_log ticket_id retry_tx_hash donated_gas gas_donor max_refund
        submission_fee_refund =
      record {
        address = retryable_tx_address;
        topics = h.keccak redeem_scheduled_signature ∷ ticket_id ∷ retry_tx_hash ∷ 0 ∷ [];
        payload = c.abi_encode donated_gas gas_donor max_refund submission_fee_refund;
      }

  -- What a submission knows from its transaction and its block: `call` has the redirected
  -- addresses where `is_filtered`.
  pub record Submission : Type 0 where
    pub from : ℕ
    pub chain_id : ℕ
    pub ticket_id : ℕ
    pub is_filtered : Bool
    pub call : SubmitRetryableCall
    pub timestamp : ℕ
    pub base_fee : ℕ

  abbrev pub Outcome : Type 0
  Outcome = SubmitRetryableOutcome × List ℕ

  -- `if amount > 0 { transfer }`
  unfoldable pub transfer_some : ℕ → ℕ → ℕ → Exec (Unit {0})
  transfer_some from to amount = if ltb 0 amount then transfer from to amount else pure tt

  -- The writes of the new ticket, its place in the queue, and its log.
  unfoldable pub create_ticket : Submission → Exec (Unit {0})
  create_ticket s = do
    let space = retryable retryables s.ticket_id
    put space 0 0
    put space 1 s.from
    set_to space s.call.retry_to
    put space 3 s.call.retry_value
    put space 4 s.call.beneficiary
    put space 5 (add64 s.timestamp lifetime_seconds)
    put space 6 0
    set_fresh (open_subspace_with_key space 1) s.call.retry_data
    ensure_initialized (timeout_queue retryables)
    push (timeout_queue retryables) s.ticket_id
    emit_log (ticket_created_log s.ticket_id)

  abbrev pub gas_cost : Submission → ℕ
  gas_cost s = sat_mul u256_max s.base_fee s.call.gas_limit

  -- The infrastructure's share of the gas, which it takes from the network's.
  unfoldable pub pay_gas : Submission → ℕ → ℕ → Exec (Unit {0})
  pay_gas s version network = do
    let gascost = gas_cost s
    infra ← infra_fee_account
    if is_enabled_in (from_arbos_version version) 11 && not (infra == 0)
        then (do
          min_base_fee ← get_u256 l2_pricing 3
          let split =
              take_funds gascost (sat_mul u256_max (min min_base_fee s.base_fee) s.call.gas_limit)
          transfer_some s.from infra split.0
          transfer_some s.from network split.1)
        else transfer_some s.from network gascost

  unfoldable pub retry_of : Submission → ℕ → TxRetry
  retry_of s max_refund = record {
    chain_id = s.chain_id;
    nonce = 0;
    from = s.from;
    gas_fee_cap = s.base_fee;
    gas_limit = s.call.gas_limit;
    to = s.call.retry_to;
    value = s.call.retry_value;
    input = s.call.retry_data;
    ticket_id = s.ticket_id;
    refund_to = s.call.fee_refund_address;
    max_refund = max_refund;
    submission_fee_refund = retryable_submission_fee (length s.call.retry_data) s.call.l1_base_fee;
  }

  abbrev pub scheduled_log : TxRetry → Log
  scheduled_log r =
      redeem_scheduled_log r.ticket_id (c.tx_hash r) r.gas_limit r.refund_to r.max_refund
        r.submission_fee_refund

  -- `zombies` are the tickets whose escrow the block destructed.
  unfoldable pub schedule : Submission → ℕ → List ℕ → Exec Outcome
  schedule s max_refund zombies = do
    put (retryable retryables s.ticket_id) 0 1
    track ←
        (if s.call.retry_value == 0
          then (do version ← arbos_version; pure (ltb version 30))
          else pure false)
    emit_log (scheduled_log (retry_of s max_refund))
    pure (created s.call.gas_limit, (if track then zombies ++ s.ticket_id ∷ [] else zombies))

  abbrev pub max_gas_cost : Submission → ℕ
  max_gas_cost s = sat_mul u256_max s.call.gas_fee_cap s.call.gas_limit

  abbrev pub price_excess : Submission → ℕ
  price_excess s = sat_mul u256_max (s.call.gas_fee_cap - s.base_fee) s.call.gas_limit

  -- The retry is not scheduled, and `available` is left of the deposit.
  unfoldable pub refund_gas : Submission → ℕ → List ℕ → Exec Outcome
  refund_gas s available zombies = do
    transfer_some s.from s.call.fee_refund_address (take_funds available (max_gas_cost s)).0
    pure ((if s.is_filtered then failed 0 else created 0), zombies)

  -- The gas is paid; `withheld_fee` was taken from the deposit for the submission.
  unfoldable pub pay_and_schedule : Submission → ℕ → ℕ → ℕ → ℕ → List ℕ → Exec Outcome
  pay_and_schedule s version network available withheld_fee zombies = do
    pay_gas s version network
    let withheld_gas = take_funds available (gas_cost s)
    let price_refund = take_funds withheld_gas.1 (price_excess s)
    transfer_some s.from s.call.fee_refund_address price_refund.0
    if s.is_filtered
        then pure (failed s.call.gas_limit, zombies)
        else schedule s
            (sat_add u256_max (sat_add u256_max price_refund.1 withheld_gas.0) withheld_fee) zombies

  -- Once the ticket stands.
  unfoldable pub redeem : Submission → ℕ → ℕ → ℕ → ℕ → List ℕ → Exec Outcome
  redeem s version network available withheld_fee zombies = do
    balance ← account_balance s.from
    if ltb balance (max_gas_cost s)
          || ltb s.call.gas_limit 21_000
          || ltb s.call.gas_fee_cap s.base_fee
        then refund_gas s available zombies
        else pay_and_schedule s version network available withheld_fee zombies

  -- `if call.retry_value > 0`, with the error of the transfer as a value.
  unfoldable pub fund_escrow : Submission → Exec (Option TransferError)
  fund_escrow s =
      if ltb 0 s.call.retry_value
      then try_transfer s.from (retryable_escrow_address s.ticket_id) s.call.retry_value
      else pure none

  -- After the transfer to the escrow: where it failed, the fee goes back to the sender, and what was
  -- withheld from the deposit for it to the address of refunds.
  unfoldable pub settle :
      Submission → ℕ → ℕ → ℕ → ℕ → ℕ → List ℕ → Option TransferError → Exec Outcome
  settle s version network submission_fee available withheld zombies none = do
    create_ticket s
    redeem s version network available withheld zombies
  settle s version network submission_fee available withheld zombies (some e) = do
    transfer_some network s.from submission_fee
    transfer_some s.from s.call.fee_refund_address withheld
    pure (failed 0, zombies)

  unfoldable pub charge : Submission → ℕ → ℕ → ℕ → List ℕ → Exec Outcome
  charge s version network submission_fee zombies = do
    let after_value = take_funds s.call.deposit_value s.call.retry_value
    transfer s.from network submission_fee
    let withheld = take_funds after_value.1 submission_fee
    let refund = take_funds withheld.1 (s.call.max_submission_fee - submission_fee)
    transfer_some s.from s.call.fee_refund_address refund.0
    escrow_error ← fund_escrow s
    settle s version network submission_fee refund.1 withheld.0 zombies escrow_error

  unfoldable pub mint_and_charge : Submission → ℕ → List ℕ → Exec Outcome
  mint_and_charge s submission_fee zombies = do
    incr s.from s.call.deposit_value
    version ← arbos_version
    network ← network_fee_account
    balance ← account_balance s.from
    if ltb balance s.call.max_submission_fee
        then pure (failed 0, zombies)
        else charge s version network submission_fee zombies

  unfoldable pub submit : Submission → List ℕ → Exec Outcome
  submit s zombies =
      let submission_fee = retryable_submission_fee (length s.call.retry_data) s.call.l1_base_fee in
      if ltb s.call.max_submission_fee submission_fee
      then pure (failed 0, zombies)
      else if leb (2 ^ 64) s.timestamp
      then raise timestamp_out_of_range
      else mint_and_charge s submission_fee zombies

  abbrev pub known_or_computed : Option ℕ → ℕ → ℕ
  known_or_computed none computed = computed
  known_or_computed (some hash) computed = hash

  unfoldable pub redirected : SubmitRetryableCall → Bool → Exec SubmitRetryableCall
  redirected call is_filtered =
      if is_filtered
      then (do
        recipient ← filtered_funds_recipient_or_default
        pure (record call { fee_refund_address = recipient; beneficiary = recipient }))
      else pure call

  abbrev pub lift : {A : Type 0} → Result A → Exec A
  lift r j = (r, j)

  abbrev pub require_chain_id : Option ℕ → Exec ℕ
  require_chain_id none = raise missing_chain_id
  require_chain_id (some chain_id) = pure chain_id

  abbrev pub submission_of :
      ArbTransaction → ℕ → ℕ → ℕ → ℕ → Bool → SubmitRetryableCall → Submission
  submission_of tx timestamp base_fee chain_id ticket_id is_filtered call = record {
    from = tx.caller;
    chain_id = chain_id;
    ticket_id = ticket_id;
    is_filtered = is_filtered;
    call = call;
    timestamp = timestamp;
    base_fee = base_fee;
  }

  unfoldable pub filter_and_submit :
      ArbTransaction → ℕ → ℕ → List ℕ → SubmitRetryableCall → ℕ → ℕ → Exec Outcome
  filter_and_submit tx timestamp base_fee zombies call chain_id ticket_id = do
    is_filtered ← is_tx_hash_filtered ticket_id none
    redirected_call ← redirected call is_filtered
    submit (submission_of tx timestamp base_fee chain_id ticket_id is_filtered redirected_call)
        zombies

  -- A decoded call, of a transaction whose chain is known.
  abbrev pub apply_call : ArbTransaction → ℕ → ℕ → List ℕ → SubmitRetryableCall → ℕ → Exec Outcome
  apply_call tx timestamp base_fee zombies call chain_id =
      filter_and_submit tx timestamp base_fee zombies call chain_id (
        known_or_computed (known_hash tx)
          (compute_submit_retryable_ticket_id chain_id tx.caller call))

  unfoldable pub apply_submit_retryable_tx : ArbTransaction → ℕ → ℕ → List ℕ → Exec Outcome
  apply_submit_retryable_tx tx timestamp base_fee zombies = do
    call ← lift (decode_submit_retryable_calldata tx.input)
    chain_id ← require_chain_id tx.chain_id
    apply_call tx timestamp base_fee zombies call chain_id
