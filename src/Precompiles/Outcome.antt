-- ===== src/Precompiles/Outcome.antt =====
-- crates/arb-revm/src/precompiles/common.rs, and `ArbCall` of arb_journal.rs: the calls of precompiles and their
-- results. Of revm's results of instructions these are the ones that the code uses. The texts of errors, which no
-- contract sees, are left out.
use arbitrum_revm.Prelude.{ℕ, ◌-◌, ◌≤◌, ◌<◌, ◌≡◌, Bool, true, false, List, []}
use arbitrum_revm.Exec.{Journal, Exec, Result, ok, err}

pub record ArbCall : Type 0 where
  pub input : List ℕ
  pub gas_limit : ℕ
  pub caller : ℕ
  pub value : ℕ
  pub bytecode_address : ℕ
  pub acting_address : ℕ
  pub is_static : Bool

pub data InstructionResult : Type 0 where
  returned revert out_of_gas precompile_error fatal_external_error : InstructionResult

-- `remaining` is what is left of the limit of revm's `Gas`.
pub record InterpreterResult : Type 0 where
  pub result : InstructionResult
  pub remaining : ℕ
  pub output : List ℕ

-- revm's `Gas::record_regular_cost`, on what remains: whether the cost is covered, and what remains then.
pub record GasMeter : Type 0 where
  pub record_regular_cost : ℕ → ℕ → Bool × ℕ
  pub covered :
      (remaining cost : ℕ)
      → cost ≤ remaining
      → record_regular_cost remaining cost ≡ (true, remaining - cost)
  pub uncovered :
      (remaining cost : ℕ)
      → remaining < cost
      → record_regular_cost remaining cost ≡ (false, remaining)

abbrev pub Run : Type 0
Run = Journal → InterpreterResult × Journal

unfoldable pub ok_result : ℕ → List ℕ → InterpreterResult
ok_result gas_limit output = record { result = returned; remaining = gas_limit; output = output }

unfoldable pub ordinary_error_result : ℕ → InterpreterResult
ordinary_error_result gas_limit = record {
  result = precompile_error;
  remaining = gas_limit;
  output = [];
}

abbrev pub plain_error : ℕ → InterpreterResult
plain_error gas_limit = ordinary_error_result gas_limit

unfoldable pub empty_active_result : ℕ → InterpreterResult
empty_active_result gas_limit = record { result = returned; remaining = gas_limit; output = [] }

unfoldable pub gated_revert_result : ℕ → InterpreterResult
gated_revert_result gas_limit = record { result = revert; remaining = 0; output = [] }

unfoldable pub fatal_result : ℕ → InterpreterResult
fatal_result gas_limit = record {
  result = fatal_external_error;
  remaining = gas_limit;
  output = [];
}

abbrev pub done : InterpreterResult → Run
done r j = (r, j)

-- `match m { Ok(a) => f(a), Err(_) => return failure }`
abbrev pub or_fail : {A : Type 0} → Result A → InterpreterResult → (A → Run) → Run
or_fail (ok a) failure f j = f a j
or_fail (err e) failure f j = (failure, j)

abbrev pub try_or : {A : Type 0} → InterpreterResult → Exec A → (A → Run) → Run
try_or failure m f j = or_fail (m j).0 failure f (m j).1
