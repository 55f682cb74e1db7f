-- ===== src/Meter/Refinement.antt =====
-- crates/arb-revm/src/arb_journal.rs: the metered journal against the journal inside it.
use arbitrum_revm.Prelude.{ℕ, ◌+◌, List, [], ◌∷◌, ◌++◌, length, ◌==◌, if◌then◌else◌}
use arbitrum_revm.Exec.{Journal, Host, Log, read_slot, write_slot, emit_log}
use arbitrum_revm.Meter.{
  MeteredJournal, keccak_gas, log_gas, metered_read_slot, metered_write_slot, metered_emit_log,
  metered_balance, metered_keccak, metered_transfer,
}

-- An operation of the journal, as the body of a precompile calls it.
pub data Op : Type 0 where
  read_op : ℕ → ℕ → Op
  write_op : ℕ → ℕ → ℕ → Op
  log_op : Log → Op
  keccak_op : List ℕ → Op
  balance_op : ℕ → Op
  transfer_op : ℕ → ℕ → ℕ → Op

-- The flat price of an operation.
unfoldable pub cost : Op → ℕ
cost (read_op account slot) = 800
cost (write_op account slot value) = if value == 0 then 5_000 else 20_000
cost (log_op l) = log_gas l
cost (keccak_op bytes) = keccak_gas (length bytes)
cost (balance_op account) = 0
cost (transfer_op from to amount) = 0

unfoldable pub total_cost : List Op → ℕ
total_cost [] = 0
total_cost (o ∷ os) = cost o + total_cost os

module _ ⦃h : Host⦄ where
  -- What the operation returns, and the journal after it: without a meter, and with one.
  unfoldable pub plain_step : Op → Journal → List ℕ × Journal
  plain_step (read_op account slot) j = (read_slot j account slot ∷ [], j)
  plain_step (write_op account slot value) j = ([], write_slot account slot value j)
  plain_step (log_op l) j = ([], (emit_log l j).1)
  plain_step (keccak_op bytes) j = (h.keccak bytes ∷ [], j)
  plain_step (balance_op account) j = (j.balance account ∷ [], j)
  plain_step (transfer_op from to amount) j = ([], (h.transfer j from to amount).1)

  unfoldable pub metered_step : Op → MeteredJournal → List ℕ × MeteredJournal
  metered_step (read_op account slot) m =
      ((metered_read_slot account slot m).0 ∷ [], (metered_read_slot account slot m).1)
  metered_step (write_op account slot value) m = ([], metered_write_slot account slot value m)
  metered_step (log_op l) m = ([], metered_emit_log l m)
  metered_step (keccak_op bytes) m = ((metered_keccak bytes m).0 ∷ [], (metered_keccak bytes m).1)
  metered_step (balance_op account) m =
      ((metered_balance account m).0 ∷ [], (metered_balance account m).1)
  metered_step (transfer_op from to amount) m = ([], metered_transfer from to amount m)

  unfoldable pub plain_run : List Op → Journal → List ℕ × Journal
  plain_run [] j = ([], j)
  plain_run (o ∷ os) j = (
    (plain_step o j).0 ++ (plain_run os (plain_step o j).1).0,
    (plain_run os (plain_step o j).1).1,
  )

  unfoldable pub metered_run : List Op → MeteredJournal → List ℕ × MeteredJournal
  metered_run [] m = ([], m)
  metered_run (o ∷ os) m = (
    (metered_step o m).0 ++ (metered_run os (metered_step o m).1).0,
    (metered_run os (metered_step o m).1).1,
  )
