-- ===== src/Precompiles/NativeToken.antt =====
-- crates/arb-revm/src/precompiles/arb_native_token_manager.rs: the minting and burning of native tokens by
-- their owners. `credit` and `debit` are revm's `incr_balance` and `decr_balance` on a loaded account.
pub mod Supply
use arbitrum_revm.Prelude.{
  ℕ, ◌+◌, ◌-◌, ◌≤◌, ◌<◌, ◌^◌, ◌≡◌, ◌≢◌, Bool, true, false, Option, none, some, List, [], ◌∷◌, ltb,
  if◌then◌else◌,
}
use arbitrum_revm.Prelude.Text.{codes}
use arbitrum_revm.Exec.{Journal, Host, Log}
use arbitrum_revm.Storage.{be_bytes}
use arbitrum_revm.ArbosState.{native_token_owners}
use arbitrum_revm.Meter.{MeteredJournal, burn, metered_emit_log}
use arbitrum_revm.Precompiles.Outcome.{
  ArbCall, InterpreterResult, out_of_gas, GasMeter, Run, ok_result, plain_error,
  gated_revert_result, fatal_result, done,
}
use arbitrum_revm.Precompiles.Burner.{metered, metered_is_member, charge_burned}

pub record Balances : Type 0 where
  pub credit : Journal → ℕ → ℕ → Bool × Journal
  pub debit : Journal → ℕ → ℕ → Bool × Journal
  pub credited :
      (j : Journal) (account amount : ℕ)
      → j.balance account + amount < 2 ^ 256
      → ((credit j account amount).0 ≡ true)
        × ((credit j account amount).1.balance account ≡ j.balance account + amount)
  pub debited :
      (j : Journal) (account amount : ℕ)
      → amount ≤ j.balance account
      → ((debit j account amount).0 ≡ true)
        × ((debit j account amount).1.balance account ≡ j.balance account - amount)
  pub credit_bystander :
      (j : Journal) (account amount other : ℕ)
      → other ≢ account
      → (credit j account amount).1.balance other ≡ j.balance other
  pub debit_bystander :
      (j : Journal) (account amount other : ℕ)
      → other ≢ account
      → (debit j account amount).1.balance other ≡ j.balance other

pub data NativeCall : Type 0 where
  mint_native_token burn_native_token : ℕ → NativeCall

abbrev pub mint_burn_gas : ℕ
mint_burn_gas = 100 + 9_000

module _ ⦃h : Host⦄ ⦃g : GasMeter⦄ ⦃b : Balances⦄ where
  unfoldable pub charge : InterpreterResult → ℕ → InterpreterResult
  charge r burned = charge_burned out_of_gas r burned

  unfoldable pub native_event : ArbCall → List ℕ → ℕ → Log
  native_event call signature amount = record {
    address = call.bytecode_address;
    topics = h.keccak signature ∷ call.caller ∷ [];
    payload = be_bytes 32 amount;
  }

  -- The change of the balance went through: the event, and the charge.
  unfoldable pub announce : ArbCall → List ℕ → ℕ → MeteredJournal → InterpreterResult × Journal
  announce call signature amount m =
      let logged = metered_emit_log (native_event call signature amount) m in
      (charge (ok_result call.gas_limit []) logged.burned, logged.inner)

  unfoldable pub mint : ArbCall → ℕ → MeteredJournal → InterpreterResult × Journal
  mint call amount m =
      let credited = b.credit m.inner call.caller amount in
      if credited.0
      then announce call (codes "NativeTokenMinted(address,uint256)") amount
          (record m { inner = credited.1 })
      else (fatal_result call.gas_limit, credited.1)

  unfoldable pub burn_tokens : ArbCall → ℕ → MeteredJournal → InterpreterResult × Journal
  burn_tokens call amount m =
      let debited = b.debit m.inner call.caller amount in
      if ltb (m.inner.balance call.caller) amount
      then (charge (plain_error call.gas_limit) m.burned, m.inner)
      else (if debited.0
          then announce call (codes "NativeTokenBurned(address,uint256)") amount
              (record m { inner = debited.1 })
          else (fatal_result call.gas_limit, debited.1))

  abbrev pub run_native_call : ArbCall → NativeCall → MeteredJournal → InterpreterResult × Journal
  run_native_call call (mint_native_token amount) m = mint call amount m
  run_native_call call (burn_native_token amount) m = burn_tokens call amount m

  abbrev pub run_native : ArbCall → Option NativeCall → Run
  run_native call none j = (gated_revert_result call.gas_limit, j)
  run_native call (some c) j =
      let owner = metered_is_member native_token_owners call.caller (metered j) in
      if owner.0
      then run_native_call call c (burn mint_burn_gas owner.1)
      else (gated_revert_result call.gas_limit, owner.1.inner)

  unfoldable pub run_arb_native_token_manager : (List ℕ → Option NativeCall) → ArbCall → Run
  run_arb_native_token_manager decode call = run_native call (decode call.input)
