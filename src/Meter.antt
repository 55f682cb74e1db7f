-- ===== src/Meter.antt =====
-- crates/arb-revm/src/arb_journal.rs: MeteredJournal, which adds up the gas that the operations of a
-- precompile burn.
pub mod Refinement
use arbitrum_revm.Prelude.{ℕ, ◌+◌, ◌*◌, ◌/◌, List, [], ◌∷◌, ◌++◌, length, ◌==◌, if◌then◌else◌}
use arbitrum_revm.Words.{add64}
use arbitrum_revm.Exec.{Journal, Host, Log, read_slot, write_slot, emit_log}

pub record MeteredJournal : Type 0 where
  pub inner : Journal
  pub burned : ℕ

unfoldable pub keccak_gas : ℕ → ℕ
keccak_gas byte_len = 30 + 6 * ((byte_len + 31) / 32)

unfoldable pub log_gas : Log → ℕ
log_gas l = 375 + 375 * length l.topics + 8 * length l.payload

unfoldable pub burn : ℕ → MeteredJournal → MeteredJournal
burn amount m = record m { burned = add64 m.burned amount }

unfoldable pub metered_read_slot : ℕ → ℕ → MeteredJournal → ℕ × MeteredJournal
metered_read_slot account slot m = (read_slot m.inner account slot, burn 800 m)

unfoldable pub metered_write_slot : ℕ → ℕ → ℕ → MeteredJournal → MeteredJournal
metered_write_slot account slot value m =
    let paid = burn (if value == 0 then 5_000 else 20_000) m in
    record paid { inner = write_slot account slot value paid.inner }

unfoldable pub metered_emit_log : Log → MeteredJournal → MeteredJournal
metered_emit_log l m =
    let paid = burn (log_gas l) m in record paid { inner = (emit_log l paid.inner).1 }

unfoldable pub metered_balance : ℕ → MeteredJournal → ℕ × MeteredJournal
metered_balance account m = (m.inner.balance account, m)

module _ ⦃h : Host⦄ where
  unfoldable pub metered_keccak : List ℕ → MeteredJournal → ℕ × MeteredJournal
  metered_keccak bytes m = (h.keccak bytes, burn (keccak_gas (length bytes)) m)

  unfoldable pub metered_transfer : ℕ → ℕ → ℕ → MeteredJournal → MeteredJournal
  metered_transfer from to amount m = record m { inner = (h.transfer m.inner from to amount).1 }
