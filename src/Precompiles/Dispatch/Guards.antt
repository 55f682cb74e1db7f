-- ===== src/Precompiles/Dispatch/Guards.antt =====
-- crates/arb-revm/src/precompiles/mod.rs: what the dispatcher promises of a call, whatever the bodies do.
use arbitrum_revm.Prelude.{
  ℕ, ◌≡◌, inl, inr, Bool, true, false, not, ◌&&◌, ◌||◌, some, List, [], ltb, length, drop,
  Bool-cases, Option-cases,
}
use arbitrum_revm.Exec.{Journal, Host, Result, ok, err}
use arbitrum_revm.Storage.{get_u64, get_u256}
use arbitrum_revm.Storage.AddressSet.{is_member}
use arbitrum_revm.ArbosState.{arbos_root}
use arbitrum_revm.Precompiles.{
  ArbPrecompilesEnum, arb_owner, arb_filtered_transactions_manager, arb_debug, Selectors,
  precompile_min_arbos_version, method_purity,
}
use arbitrum_revm.Precompiles.Outcome.{
  ArbCall, InterpreterResult, out_of_gas, GasMeter, Run, empty_active_result, gated_revert_result,
  fatal_result, or_fail,
}
use arbitrum_revm.Precompiles.Dispatch.{
  is_fatal, is_return, selector_of, free_access_check_gas, owner_check_gas, emit_owner_acts,
  method_gated, forbidden, fold_result, run_method, run_active_dispatch, regain, filtered_call,
  run_filtered_manager_wrapper, owner_call, run_owner_wrapper, run_debug, run_wrapped,
  run_versioned, run_dispatch, in_debug_mode,
}

-- What holds of the refusals and of the bodies' folded results holds of every call.
module _ ⦃s : Selectors⦄ ⦃g : GasMeter⦄ ⦃h : Host⦄
    (args_ok : ArbPrecompilesEnum → ℕ → List ℕ → Bool) (debug_mode : List ℕ → Bool)
    (body : ArbPrecompilesEnum → ArbCall → Run) (P : InterpreterResult → Journal → Type 0)
    (call : ArbCall) (start : Journal) (gated : P (gated_revert_result call.gas_limit) start)
    (absent : P (empty_active_result call.gas_limit) start)
    (failed : P (fatal_result call.gas_limit) start)
    (exhausted : P (record { result = out_of_gas; remaining = 0; output = [] }) start)
    (method : (arb : ArbPrecompilesEnum) (version sel : ℕ)
      → selector_of call.input ≡ some sel
      → method_gated arb version sel ≡ false
      → forbidden call (method_purity arb sel) ≡ false
      → P
          (fold_result arb version sel (length call.input) (body arb call start).0)
          (body arb call start).1)
    (filtered : (is_filterer : Bool) (r : InterpreterResult) (j : Journal)
      → P r j
      → P (regain call is_filterer r) j)
    (free : (r : InterpreterResult) (j : Journal)
      → P r j
      → P (record r { remaining = call.gas_limit }) j)
    (acts : (r : InterpreterResult) (j : Journal) → P r j → P r (emit_owner_acts call j)) where
  abbrev Holds : InterpreterResult × Journal → Type 0
  Holds out = P out.0 out.1

  try_or-Holds :
      {A : Type 0} (m : Result A) (f : A → Run)
      → ((a : A) → Holds (f a start))
      → Holds (or_fail m (fatal_result call.gas_limit) f start)
  try_or-Holds (ok a) f each = each a
  try_or-Holds (err e) f each = failed

  run_method-Holds :
      (arb : ArbPrecompilesEnum) (version sel : ℕ)
      → selector_of call.input ≡ some sel
      → Holds (run_method args_ok debug_mode body arb call version sel start)
  unfolding run_method
  run_method-Holds arb version sel chosen = elim (Bool-cases (method_gated arb version sel)) [
    | inl out ↦ rw out gated
    | inr within ↦ rw within (elim (Bool-cases (forbidden call (method_purity arb sel))) [
      | inl no_right ↦ rw no_right gated
      | inr allowed ↦ rw allowed (elim (Bool-cases (args_ok arb sel (drop 4 call.input))) [
        | inl fine ↦ rw fine (method arb version sel chosen within allowed)
        | inr bad ↦ rw bad gated
      ])
    ])
  ]

  run_active_dispatch-Holds :
      (arb : ArbPrecompilesEnum) (version : ℕ)
      → Holds (run_active_dispatch args_ok debug_mode body arb call version start)
  unfolding run_active_dispatch
  run_active_dispatch-Holds arb version = elim (Option-cases (selector_of call.input)) [
    | inl e ↦ rw e gated
    | inr (sel, e) ↦ rw e (run_method-Holds arb version sel e)
  ]

  filtered_call-Holds :
      (version : ℕ) (is_filterer : Bool)
      → Holds (filtered_call args_ok debug_mode body call version is_filterer start)
  unfolding filtered_call
  filtered_call-Holds version is_filterer =
      let inner =
        run_active_dispatch args_ok debug_mode body arb_filtered_transactions_manager call version
          start in
      let held = run_active_dispatch-Holds arb_filtered_transactions_manager version in
      elim (Bool-cases (is_fatal inner.0.result)) [
        | inl f ↦ rw f held
        | inr n ↦ rw n (filtered is_filterer inner.0 inner.1 held)
      ]

  owner_call-Holds :
      (version : ℕ) (is_owner : Bool)
      → Holds (owner_call args_ok debug_mode body call version is_owner start)
  unfolding owner_call
  owner_call-Holds version false = gated
  owner_call-Holds version true =
      let inner = run_active_dispatch args_ok debug_mode body arb_owner call version start in
      let held = run_active_dispatch-Holds arb_owner version in
      elim (Bool-cases (is_fatal inner.0.result)) [
        | inl f ↦ rw f held
        | inr n ↦
            rw n
              (elim (Bool-cases
                (is_return inner.0.result && (not call.is_static || ltb version 11))) [
                  | inl logs ↦
                      rw logs
                        (free inner.0 (emit_owner_acts call inner.1) (acts inner.0 inner.1 held))
                  | inr quiet ↦ rw quiet (free inner.0 inner.1 held)
                ])
      ]

  run_wrapped-Holds :
      (arb : ArbPrecompilesEnum) (version : ℕ)
      → Holds (run_wrapped args_ok debug_mode body arb call version start)
  unfolding run_wrapped run_filtered_manager_wrapper run_owner_wrapper run_debug is_member get_u256
  run_wrapped-Holds arb_filtered_transactions_manager version =
      elim (Bool-cases (ltb call.gas_limit free_access_check_gas)) [
        | inl short ↦ rw short exhausted
        | inr enough ↦ rw enough (filtered_call-Holds version _)
      ]
  run_wrapped-Holds arb_owner version = elim (Bool-cases (ltb call.gas_limit owner_check_gas)) [
    | inl short ↦ rw short gated
    | inr enough ↦ rw enough (owner_call-Holds version _)
  ]
  run_wrapped-Holds arb_debug version = elim (Bool-cases (in_debug_mode debug_mode start)) [
    | inl on ↦ rw on (run_active_dispatch-Holds arb_debug version)
    | inr off ↦ rw off gated
  ]
  run_wrapped-Holds arb version = run_active_dispatch-Holds arb version

  pub run_dispatch-Holds :
      (arb : ArbPrecompilesEnum) → Holds (run_dispatch args_ok debug_mode body arb call start)
  unfolding run_dispatch run_versioned get_u64
  run_dispatch-Holds arb =
      try_or-Holds (get_u64 arbos_root 0 start).0 (run_versioned args_ok debug_mode body arb call)
        λ version. elim (Bool-cases (ltb version (precompile_min_arbos_version arb))) [
          | inl early ↦ rw early absent
          | inr exists ↦ rw exists (run_wrapped-Holds arb version)
        ]
