-- ===== src/Precompiles/Burner.antt =====
-- crates/arb-revm/src/precompiles: storage read and written through the meter of arb_journal.rs, and the charge of
-- what a body burned.
use arbitrum_revm.Prelude.{ℕ, ◌-◌, ◌≤◌, ◌≡◌, refl, Bool, not, [], ◌==◌, if◌then◌else◌}
use arbitrum_revm.Exec.{Journal, Host}
use arbitrum_revm.Storage.{StorageSpace, slot_for_hash, set}
use arbitrum_revm.Storage.AddressSet.{by_address}
use arbitrum_revm.Meter.{MeteredJournal, metered_read_slot, metered_write_slot}
use arbitrum_revm.Precompiles.Outcome.{InterpreterResult, InstructionResult, GasMeter}

abbrev pub Metered : Type 0
Metered = MeteredJournal → InterpreterResult × MeteredJournal

-- MeteredJournal::new
abbrev pub metered : Journal → MeteredJournal
metered j = record { inner = j; burned = 0 }

module _ ⦃h : Host⦄ where
  unfoldable pub metered_get : StorageSpace → ℕ → MeteredJournal → ℕ × MeteredJournal
  metered_get s key m = metered_read_slot s.account (slot_for_hash s key) m

  unfoldable pub metered_set : StorageSpace → ℕ → ℕ → MeteredJournal → MeteredJournal
  metered_set s key value m = metered_write_slot s.account (slot_for_hash s key) value m

  -- AddressSet::is_member, through the meter.
  unfoldable pub metered_is_member : StorageSpace → ℕ → MeteredJournal → Bool × MeteredJournal
  metered_is_member set account m =
      let position = metered_get (by_address set) account m in (not (position.0 == 0), position.1)

-- What was burned is taken from what remains; where it does not suffice the result is `failure`,
-- and nothing is returned.
unfoldable pub charge_burned :
    ⦃g : GasMeter⦄ → InstructionResult → InterpreterResult → ℕ → InterpreterResult
charge_burned ⦃g⦄ failure r burned =
    let paid = g.record_regular_cost r.remaining burned in
    if paid.0
    then record r { remaining = paid.1 }
    else record { result = failure; remaining = paid.1; output = [] }

pub charge_burned-covered :
    ⦃g : GasMeter⦄ (failure : InstructionResult) (r : InterpreterResult) (burned : ℕ)
    → burned ≤ r.remaining
    → charge_burned failure r burned ≡ record r { remaining = r.remaining - burned }
unfolding charge_burned
charge_burned-covered ⦃g⦄ failure r burned le = rw (g.covered r.remaining burned le) refl
