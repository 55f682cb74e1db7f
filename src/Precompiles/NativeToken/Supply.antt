-- ===== src/Precompiles/NativeToken/Supply.antt =====
-- crates/arb-revm/src/precompiles/arb_native_token_manager.rs: whose balance a call changes.
use arbitrum_revm.Prelude.{
  ℕ, ◌+◌, ◌-◌, ◌<◌, ◌^◌, ◌≡◌, ◌≢◌, ◌⊎◌, inl, inr, refl, Option, some, List, ltb, ◌==◌,
  if◌then◌else◌, arith, Bool-cases,
}
use arbitrum_revm.Exec.{Journal, Host, emit_log}
use arbitrum_revm.Storage.{get}
use arbitrum_revm.Storage.AddressSet.{by_address}
use arbitrum_revm.ArbosState.{native_token_owners}
use arbitrum_revm.Meter.{MeteredJournal, burn, metered_emit_log, metered_read_slot}
use arbitrum_revm.Precompiles.Outcome.{ArbCall, GasMeter, gated_revert_result}
use arbitrum_revm.Precompiles.Burner.{metered_get, metered_is_member}
use arbitrum_revm.Precompiles.NativeToken.{
  Balances, NativeCall, mint_native_token, burn_native_token, announce, mint, burn_tokens,
  run_native_call, run_arb_native_token_manager,
}

-- The caller's balance after the call: a burn of more than there is leaves it.
abbrev pub balance_after : NativeCall → ℕ → ℕ
balance_after (mint_native_token amount) held = held + amount
balance_after (burn_native_token amount) held = if ltb held amount then held else held - amount

-- No overflow of a balance.
abbrev pub HasRoom : NativeCall → ℕ → Type 0
HasRoom (mint_native_token amount) held = held + amount < 2 ^ 256
HasRoom (burn_native_token amount) held = held < 2 ^ 256

module _ ⦃h : Host⦄ ⦃g : GasMeter⦄ ⦃b : Balances⦄ where
  run_native_call-balance :
      (call : ArbCall) (c : NativeCall) (m : MeteredJournal)
      → HasRoom c (m.inner.balance call.caller)
      → ((run_native_call call c m).1.balance call.caller
          ≡ balance_after c (m.inner.balance call.caller))
  unfolding mint burn_tokens announce metered_emit_log emit_log burn
  run_native_call-balance call (mint_native_token amount) m room =
      let paid = b.credited m.inner call.caller amount room in rw paid.0 paid.1
  run_native_call-balance call (burn_native_token amount) m room =
      elim (Bool-cases (ltb (m.inner.balance call.caller) amount)) [
        | inl short ↦ rw short refl
        | inr covered ↦
            let paid = b.debited m.inner call.caller amount (ground (arith, covered)) in
            rw covered (rw paid.0 paid.1)
      ]

  run_native_call-bystander :
      (call : ArbCall) (c : NativeCall) (m : MeteredJournal) (other : ℕ)
      → other ≢ call.caller
      → ((run_native_call call c m).1.balance other ≡ m.inner.balance other)
  unfolding mint burn_tokens announce metered_emit_log emit_log burn
  run_native_call-bystander call (mint_native_token amount) m other ne =
      let same = b.credit_bystander m.inner call.caller amount other ne in
      elim (Bool-cases (b.credit m.inner call.caller amount).0) [
        | inl done_it ↦ rw done_it same
        | inr failed ↦ rw failed same
      ]
  run_native_call-bystander call (burn_native_token amount) m other ne =
      let same = b.debit_bystander m.inner call.caller amount other ne in
      elim (Bool-cases (ltb (m.inner.balance call.caller) amount)) [
        | inl short ↦ rw short refl
        | inr covered ↦ rw covered (elim (Bool-cases (b.debit m.inner call.caller amount).0) [
          | inl done_it ↦ rw done_it same
          | inr failed ↦ rw failed same
        ])
      ]

  -- A decoded call: from an account that owns no native token it is refused with all its gas and
  -- changes nothing. From an owner, where the balance does not overflow, the owner's balance grows by
  -- what is minted or falls by what is burned, a burn of more than the balance leaves it, and no
  -- other account's balance changes.
  pub run_arb_native_token_manager_lem :
      (decode : List ℕ → Option NativeCall) (call : ArbCall) (c : NativeCall) (j : Journal)
      (other : ℕ)
      → decode call.input ≡ some c
      → HasRoom c (j.balance call.caller)
      → other ≢ call.caller
      → (get (by_address native_token_owners) call.caller j ≡ 0)
          × (run_arb_native_token_manager decode call j ≡ (gated_revert_result call.gas_limit, j))
        ⊎ (get (by_address native_token_owners) call.caller j ≢ 0)
          × ((run_arb_native_token_manager decode call j).1.balance call.caller
              ≡ balance_after c (j.balance call.caller))
          × ((run_arb_native_token_manager decode call j).1.balance other ≡ j.balance other)
  unfolding run_arb_native_token_manager metered_is_member metered_get metered_read_slot burn get
  run_arb_native_token_manager_lem decode call c j other decoded room ne =
      elim (Bool-cases (get (by_address native_token_owners) call.caller j == 0)) [
        | inl nobody ↦ rw (decoded, nobody) (inl (ground (arith, nobody), refl))
        | inr owner ↦
            rw (decoded, owner)
              (inr (
                ground (arith, owner),
                run_native_call-balance call c _ room,
                run_native_call-bystander call c _ other ne,
              ))
      ]
