-- ===== src/Precompiles/Dispatch/Promises.antt =====
-- crates/arb-revm/src/precompiles/mod.rs: what leaves the dispatcher, whatever the bodies do.
use arbitrum_revm.Prelude.{
  ℕ, ◌≤◌, ◌<◌, ◌≡◌, ◌≢◌, ◌⊎◌, inl, inr, refl, ◌∙◌, Bool, true, false, some, List, [], ltb, ◌==◌,
  length, arith, Bool-cases, Option-cases,
}
use arbitrum_revm.Exec.{Journal, Host, emit_log}
use arbitrum_revm.Storage.{get, get_u256}
use arbitrum_revm.Storage.AddressSet.{is_member, by_address}
use arbitrum_revm.ArbosState.{chain_owners}
use arbitrum_revm.Precompiles.{ArbPrecompilesEnum, arb_owner, Selectors, method_purity}
use arbitrum_revm.Precompiles.Outcome.{
  ArbCall, InterpreterResult, InstructionResult, returned, revert, out_of_gas, precompile_error,
  fatal_external_error, GasMeter, Run, empty_active_result, gated_revert_result, fatal_result,
}
use arbitrum_revm.Precompiles.Dispatch.{
  is_fatal, is_out_of_gas, is_ordinary_error, changes_state, selector_of, as_revert,
  free_access_check_gas, owner_check_gas, emit_owner_acts, arbos_call_extra_gas, forbidden,
  charge_cost, fold_result, run_active_dispatch, regain, owner_call, run_owner_wrapper,
  run_dispatch,
}
use arbitrum_revm.Precompiles.Dispatch.Guards.{run_dispatch-Holds}

-- A result that may leave the dispatcher: no mark of an ordinary error, and no more gas than was given.
abbrev pub IsNormal : ℕ → InterpreterResult → Type 0
IsNormal limit r = (r.result ≢ precompile_error) × (r.remaining ≤ limit)

data Kind (k : InstructionResult) : Type 0 where
  fatal : k ≡ fatal_external_error → Kind k
  ordinary : is_fatal k ≡ false → is_ordinary_error k ≡ true → Kind k
  other : is_fatal k ≡ false → is_ordinary_error k ≡ false → k ≢ precompile_error → Kind k

kind : (k : InstructionResult) → Kind k
kind returned = other refl refl (λ e. cc e)
kind revert = other refl refl (λ e. cc e)
kind out_of_gas = other refl refl (λ e. cc e)
kind precompile_error = ordinary refl refl
kind fatal_external_error = fatal refl

module _ ⦃s : Selectors⦄ ⦃g : GasMeter⦄ where
  charge_cost-IsNormal :
      (limit cost : ℕ) (r : InterpreterResult)
      → IsNormal limit r
      → IsNormal limit (charge_cost cost r)
  unfolding charge_cost
  charge_cost-IsNormal limit cost r normal = elim (Bool-cases (ltb r.remaining cost)) [
    | inl short ↦ rw (g.uncovered r.remaining cost (ground (arith, short))) ((λ e. cc e), normal.1)
    | inr fits ↦
        rw (g.covered r.remaining cost (ground (arith, fits))) (normal.0, omega (arith, normal.1))
  ]

  fold_result-IsNormal :
      (arb : ArbPrecompilesEnum) (version sel input_len limit : ℕ) (r : InterpreterResult)
      → r.remaining ≤ limit
      → IsNormal limit (fold_result arb version sel input_len r)
  unfolding fold_result
  fold_result-IsNormal arb version sel input_len limit r le = elim (kind r.result) [
    | fatal e ↦ rw e ((λ x. cc x), le)
    | ordinary f o ↦
        rw (f, o)
          (elim (Bool-cases (ltb version 11)) [
            | inl early ↦ rw early ((λ x. cc x), omega arith)
            | inr late ↦ rw late (
                charge_cost-IsNormal limit (arbos_call_extra_gas arb input_len 0 sel)
                  (record r { result = revert; output = [] }) ((λ x. cc x), le))
          ])
    | other f o ne ↦
        rw (f, o)
          (charge_cost-IsNormal limit (arbos_call_extra_gas arb input_len (length r.output) sel) r
            (ne, le))
  ]

  remaining_le : (remaining cost : ℕ) → (g.record_regular_cost remaining cost).1 ≤ remaining
  remaining_le remaining cost = elim (Bool-cases (ltb remaining cost)) [
    | inl short ↦ rw (g.uncovered remaining cost (ground (arith, short))) (omega arith)
    | inr fits ↦ rw (g.covered remaining cost (ground (arith, fits))) (omega arith)
  ]

  as_revert-ne :
      (r : InterpreterResult)
      → r.result ≢ precompile_error
      → (as_revert r).result ≢ precompile_error
  unfolding as_revert
  as_revert-ne r ne = elim (Bool-cases (is_out_of_gas r.result)) [
    | inl e ↦ rw e (λ x. cc x)
    | inr e ↦ rw e ne
  ]

  regain-IsNormal :
      (call : ArbCall) (is_filterer : Bool) (r : InterpreterResult)
      → r.result ≢ precompile_error
      → IsNormal call.gas_limit (regain call is_filterer r)
  unfolding regain
  regain-IsNormal call true r ne = (as_revert-ne r ne, omega arith)
  regain-IsNormal call false r ne =
      (as_revert-ne r ne, remaining_le call.gas_limit free_access_check_gas)

module _ ⦃h : Host⦄ where
  emit_owner_acts-kept :
      (call : ArbCall) (j : Journal)
      → ((emit_owner_acts call j).storage ≡ j.storage)
        × ((emit_owner_acts call j).balance ≡ j.balance)
  unfolding emit_owner_acts emit_log
  emit_owner_acts-kept call j = elim (Option-cases (selector_of call.input)) [
    | inl e ↦ rw (e, emit_owner_acts) (refl, refl)
    | inr (sel, e) ↦ rw (e, emit_owner_acts) (refl, refl)
  ]

module _ ⦃s : Selectors⦄ ⦃g : GasMeter⦄ ⦃h : Host⦄
    (args_ok : ArbPrecompilesEnum → ℕ → List ℕ → Bool) (debug_mode : List ℕ → Bool)
    (body : ArbPrecompilesEnum → ArbCall → Run) where
  -- Where no body leaves more gas than the call was given, no call of any precompile ends with the
  -- mark of an ordinary error, and none leaves more gas than it was given.
  pub run_dispatch-IsNormal :
      (arb : ArbPrecompilesEnum) (call : ArbCall) (j : Journal)
      → ((arb : ArbPrecompilesEnum) → (body arb call j).0.remaining ≤ call.gas_limit)
      → IsNormal call.gas_limit (run_dispatch args_ok debug_mode body arb call j).0
  unfolding gated_revert_result empty_active_result fatal_result
  run_dispatch-IsNormal arb call j thrifty =
      run_dispatch-Holds args_ok debug_mode body (λ r k. IsNormal call.gas_limit r) call j
        ((λ x. cc x), omega arith) ((λ x. cc x), omega arith) ((λ x. cc x), omega arith)
        ((λ x. cc x), omega arith)
        (λ arb version sel chosen within allowed.
          fold_result-IsNormal arb version sel (length call.input) call.gas_limit
            (body arb call j).0 (thrifty arb))
        (λ is_filterer r k normal. regain-IsNormal call is_filterer r normal.0)
        (λ r k normal. (normal.0, omega arith)) (λ r k normal. normal) arb

  -- Where no body changes storage or balances on a call whose selector is that of a pure or view
  -- method, a static call of any precompile, whatever its input, changes neither.
  pub run_dispatch-static :
      (arb : ArbPrecompilesEnum) (call : ArbCall) (j : Journal)
      → call.is_static ≡ true
      → ((arb : ArbPrecompilesEnum) (sel : ℕ)
          → selector_of call.input ≡ some sel
          → changes_state (method_purity arb sel) ≡ false
          → ((body arb call j).1.storage ≡ j.storage) × ((body arb call j).1.balance ≡ j.balance))
      → ((run_dispatch args_ok debug_mode body arb call j).1.storage ≡ j.storage)
        × ((run_dispatch args_ok debug_mode body arb call j).1.balance ≡ j.balance)
  unfolding forbidden
  run_dispatch-static arb call j static quiet =
      run_dispatch-Holds args_ok debug_mode body
        (λ r k. (k.storage ≡ j.storage) × (k.balance ≡ j.balance)) call j (refl, refl) (refl, refl)
        (refl, refl) (refl, refl)
        (λ arb version sel chosen within allowed.
          quiet arb sel chosen (ground (arith, allowed, static)))
        (λ is_filterer r k same. same) (λ r k same. same)
        (λ r k same.
          ((emit_owner_acts-kept call k).0 ∙ same.0, (emit_owner_acts-kept call k).1 ∙ same.1))
        arb

  fatal_only : (k : InstructionResult) → is_fatal k ≡ true → k ≡ fatal_external_error
  fatal_only fatal_external_error e = refl
  fatal_only k e = cc

  owner_call_gas :
      (call : ArbCall) (version : ℕ) (j : Journal)
      → ((owner_call args_ok debug_mode body call version true j).0.result ≡ fatal_external_error)
        ⊎ ((owner_call args_ok debug_mode body call version true j).0.remaining ≡ call.gas_limit)
  unfolding owner_call
  owner_call_gas call version j =
      let r = (run_active_dispatch args_ok debug_mode body arb_owner call version j).0.result in
      elim (Bool-cases (is_fatal r)) [
        | inl f ↦ rw f (inl (fatal_only r f))
        | inr n ↦ rw n (inr refl)
      ]

  -- Where the chain's owners do not include the caller, or the gas does not cover the check, a call of
  -- ArbOwner is refused with all its gas and changes nothing; an owner's call that covers the check
  -- keeps all its gas or ends in a fatal error. Nothing else happens.
  pub run_owner_wrapper_lem :
      (call : ArbCall) (version : ℕ) (j : Journal)
      → ((get (by_address chain_owners) call.caller j ≡ 0) ⊎ (call.gas_limit < owner_check_gas))
          × (run_owner_wrapper args_ok debug_mode body call version j
              ≡ (gated_revert_result call.gas_limit, j))
        ⊎ (get (by_address chain_owners) call.caller j ≢ 0)
          × (owner_check_gas ≤ call.gas_limit)
          × (((run_owner_wrapper args_ok debug_mode body call version j).0.result
                ≡ fatal_external_error)
              ⊎ ((run_owner_wrapper args_ok debug_mode body call version j).0.remaining
                  ≡ call.gas_limit))
  unfolding run_owner_wrapper is_member get_u256 owner_call
  run_owner_wrapper_lem call version j = elim (Bool-cases (ltb call.gas_limit owner_check_gas)) [
    | inl short ↦ rw short (inl (inr (ground (arith, short)), refl))
    | inr enough ↦
        let covered : owner_check_gas ≤ call.gas_limit = ground (arith, enough) in
        rw enough (elim (Bool-cases (get (by_address chain_owners) call.caller j == 0)) [
          | inl absent ↦ rw absent (inl (inl (ground (arith, absent)), refl))
          | inr owner ↦
              rw owner (inr (ground (arith, owner), covered, owner_call_gas call version j))
        ])
  ]
