-- ===== src/Storage/L2Pricing.antt =====
-- crates/arb-revm/src/storage/l2_pricing.rs: the L2 gas backlog and the base fee.
-- The arithmetic is in Exponent, the vectors of constraints in Constraints, and what transactions
-- do to the backlog in Backlog.
-- Slots: speed_limit_per_second 0, per_block_gas_limit 1, base_fee_wei 2, min_base_fee_wei 3,
-- gas_backlog 4, pricing_inertia 5, backlog_tolerance 6, per_tx_gas_limit 7.
pub mod Exponent
pub mod Constraints
pub mod Backlog
pub mod Bounds
pub mod Legacy
use arbitrum_revm.Prelude.{
  ℕ, zero, suc, ◌+◌, ◌-◌, ◌*◌, ◌/◌, ◌^◌, ◌%◌, Bool, List, [], ◌∷◌, ◌&&◌, ◌||◌, ltb, leb, ◌==◌, min,
  max, if◌then◌else◌,
}
use arbitrum_revm.Prelude.Int.{ℤ, pos, negsuc, ◌+ℤ◌, ltb_ℤ}
use arbitrum_revm.Words.{sat_mul, add64, mul64, i64_max, u256_max}
use arbitrum_revm.Signed.{quotient}
use arbitrum_revm.Exec.{Host, Exec, pure, raise, ◌>>=◌, ◌>>◌, multi_gas_accounting}
use arbitrum_revm.Storage.{
  StorageSpace, be_bytes, open_subspace, open_subspace_with_key, get_u64, get_u32, get_u256, put,
}
use Exponent.{single_dim, legacy_base_fee, constraint_exponent, exponent_base_fee, multi_exponent}

pub data GasModel : Type 0 where
  legacy single_gas_constraints multi_gas_constraints : GasModel

module _ ⦃h : Host⦄ (s : StorageSpace) where
  abbrev pub gas_constraints_space : StorageSpace
  gas_constraints_space = open_subspace_with_key s 0

  abbrev pub multi_gas_constraints_space : StorageSpace
  multi_gas_constraints_space = open_subspace_with_key s 1

  abbrev pub multi_gas_fees : StorageSpace
  multi_gas_fees = open_subspace_with_key s 2

  unfoldable pub gas_constraints_len : Exec ℕ
  gas_constraints_len = get_u64 gas_constraints_space 0

  unfoldable pub multi_gas_constraints_len : Exec ℕ
  multi_gas_constraints_len = get_u64 multi_gas_constraints_space 0

  -- target 0, adjustment_window 1, backlog 2
  pub open_gas_constraint : ℕ → StorageSpace
  open_gas_constraint index = open_subspace gas_constraints_space (be_bytes 8 index)

  -- target 0, adjustment_window 1, backlog 2, max_weight 3, weighted_resources from 4 on
  pub open_multi_gas_constraint : ℕ → StorageSpace
  open_multi_gas_constraint index = open_subspace multi_gas_constraints_space (be_bytes 8 index)

  pub single_model : ℕ → Exec GasModel
  single_model arbos_version =
      if leb 50 arbos_version
      then (do
        len ← gas_constraints_len
        if ltb 0 len then pure single_gas_constraints else pure legacy)
      else pure legacy

  pub gas_model : ℕ → Exec GasModel
  gas_model arbos_version =
      if leb 60 arbos_version
      then (do
        len ← multi_gas_constraints_len
        if ltb 0 len then pure multi_gas_constraints else single_model arbos_version)
      else single_model arbos_version

  pub update_pricing_model_legacy : ℕ → Exec (Unit {0})
  update_pricing_model_legacy time_passed = do
    speed_limit ← get_u64 s 0
    current_backlog ← get_u64 s 4
    let new_backlog = current_backlog - mul64 time_passed speed_limit
    put s 4 new_backlog
    inertia ← get_u64 s 5
    tolerance ← get_u64 s 6
    min_base_fee ← get_u256 s 3
    put s 2 (legacy_base_fee new_backlog speed_limit inertia tolerance min_base_fee)

  -- The loop over the constraints: `n` are left, from `i` on.
  pub pay_down : ℕ → ℕ → ℕ → ℤ → Exec ℤ
  pay_down zero i time_passed total = pure total
  pay_down (suc n) i time_passed total = do
    target ← get_u64 (open_gas_constraint i) 0
    old_backlog ← get_u64 (open_gas_constraint i) 2
    let backlog = old_backlog - mul64 time_passed target
    put (open_gas_constraint i) 2 backlog
    window ← (if ltb 0 backlog then get_u64 (open_gas_constraint i) 1 else pure 0)
    pay_down n (i + 1) time_passed (constraint_exponent target window backlog total)

  pub update_pricing_model_single_constraints : ℕ → Exec (Unit {0})
  update_pricing_model_single_constraints time_passed = do
    len ← gas_constraints_len
    total ← pay_down len 0 time_passed (pos 0)
    min_base_fee ← get_u256 s 3
    put s 2 (exponent_base_fee min_base_fee total)

  pub pay_down_multi : ℕ → ℕ → ℕ → Exec (Unit {0})
  pay_down_multi zero i time_passed = pure tt
  pay_down_multi (suc n) i time_passed = do
    target ← get_u64 (open_multi_gas_constraint i) 0
    backlog ← get_u64 (open_multi_gas_constraint i) 2
    put (open_multi_gas_constraint i) 2 (backlog - mul64 time_passed target)
    pay_down_multi n (i + 1) time_passed

  -- The inner loop of `multi_gas_constraint_exponents`, over the exponents from `kind` on.
  pub add_weights : ℕ → ℕ → ℕ → ℕ → List ℤ → Exec (List ℤ)
  add_weights i divisor backlog kind [] = pure []
  add_weights i divisor backlog kind (exponent ∷ exponents) = do
    weight ←
        (if kind == single_dim then pure 0 else get_u64 (open_multi_gas_constraint i) (4 + kind))
    rest ← add_weights i divisor backlog (kind + 1) exponents
    pure (multi_exponent divisor backlog weight kind exponent ∷ rest)

  pub exponents_from : ℕ → ℕ → List ℤ → Exec (List ℤ)
  exponents_from zero i exponents = pure exponents
  exponents_from (suc n) i exponents = do
    target ← get_u64 (open_multi_gas_constraint i) 0
    backlog ← get_u64 (open_multi_gas_constraint i) 2
    if backlog == 0 then exponents_from n (i + 1) exponents else do
      window ← get_u32 (open_multi_gas_constraint i) 1
      max_weight ← get_u64 (open_multi_gas_constraint i) 3
      let divisor = mul64 (mul64 window target) max_weight
      if divisor == 0
          then exponents_from n (i + 1) exponents
          else do next ← add_weights i divisor backlog 0 exponents; exponents_from n (i + 1) next

  pub multi_gas_constraint_exponents : Exec (List ℤ)
  multi_gas_constraint_exponents = do
    len ← multi_gas_constraints_len
    exponents_from len 0
        (pos 0 ∷ pos 0 ∷ pos 0 ∷ pos 0 ∷ pos 0 ∷ pos 0 ∷ pos 0 ∷ pos 0 ∷ pos 0 ∷ [])

  pub set_next_fees : ℕ → ℕ → ℕ → List ℤ → Exec ℕ
  set_next_fees kind min_base_fee max_base_fee [] = pure max_base_fee
  set_next_fees kind min_base_fee max_base_fee (exponent ∷ exponents) = do
    put multi_gas_fees kind (exponent_base_fee min_base_fee exponent)
    set_next_fees (kind + 1) min_base_fee
        (max max_base_fee (exponent_base_fee min_base_fee exponent)) exponents

  pub update_pricing_model_multi_constraints : ℕ → Exec (Unit {0})
  update_pricing_model_multi_constraints time_passed = do
    len ← multi_gas_constraints_len
    pay_down_multi len 0 time_passed
    exponents ← multi_gas_constraint_exponents
    min_base_fee ← get_u256 s 3
    max_base_fee ← set_next_fees 0 min_base_fee min_base_fee exponents
    put s 2 max_base_fee

  pub update_for_model : GasModel → ℕ → Exec (Unit {0})
  update_for_model legacy time_passed = update_pricing_model_legacy time_passed
  update_for_model single_gas_constraints time_passed =
      update_pricing_model_single_constraints time_passed
  update_for_model multi_gas_constraints time_passed =
      update_pricing_model_multi_constraints time_passed

  pub update_pricing_model : ℕ → ℕ → Exec (Unit {0})
  update_pricing_model time_passed arbos_version = do
    model ← gas_model arbos_version
    update_for_model model time_passed
