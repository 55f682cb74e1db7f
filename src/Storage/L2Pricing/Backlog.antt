-- ===== src/Storage/L2Pricing/Backlog.antt =====
-- crates/arb-revm/src/storage/l2_pricing.rs: what transactions do to the gas backlog, and what the
-- trailing update of a redeem costs.
use arbitrum_revm.Prelude.{ℕ, zero, suc, ◌+◌, ◌-◌, ◌*◌, ◌&&◌, ltb, leb, ◌==◌, if◌then◌else◌}
use arbitrum_revm.Words.{add64, mul64}
use arbitrum_revm.Exec.{Host, Exec, pure, raise, ◌>>=◌, ◌>>◌, multi_gas_accounting}
use arbitrum_revm.Storage.{StorageSpace, get_u64, put}
use arbitrum_revm.Storage.L2Pricing.Exponent.{
  single_dim, read_cost, write_cost, write_zero_cost, backlog_update_cost_for_constraints,
}
use arbitrum_revm.Storage.L2Pricing.{
  GasModel, legacy, single_gas_constraints, multi_gas_constraints, gas_model, gas_constraints_len,
  multi_gas_constraints_len, open_gas_constraint, open_multi_gas_constraint,
}

abbrev write_cost_of : ℕ → ℕ
write_cost_of updated = if updated == 0 then write_zero_cost else write_cost

-- The fixed cost from ArbOS 60 on.
abbrev fixed_or : ℕ → ℕ → ℕ
fixed_or arbos_version metered = if leb 60 arbos_version then read_cost + write_cost else metered

module _ ⦃h : Host⦄ (s : StorageSpace) where
  unfoldable pub grow_from : ℕ → ℕ → ℕ → Exec (Unit {0})
  grow_from zero i used_gas = pure tt
  grow_from (suc n) i used_gas = do
    backlog ← get_u64 (open_gas_constraint s i) 2
    put (open_gas_constraint s i) 2 (add64 backlog used_gas)
    grow_from n (i + 1) used_gas

  unfoldable pub grow_for_model : GasModel → ℕ → Exec (Unit {0})
  grow_for_model legacy used_gas = do current ← get_u64 s 4; put s 4 (add64 current used_gas)
  grow_for_model single_gas_constraints used_gas = do
    len ← gas_constraints_len s
    grow_from len 0 used_gas
  grow_for_model multi_gas_constraints used_gas = raise multi_gas_accounting

  unfoldable pub grow_backlog : ℕ → ℕ → Exec (Unit {0})
  grow_backlog used_gas arbos_version = do
    model ← gas_model s arbos_version
    grow_for_model model used_gas

  -- The metered cost adds up over the constraints.
  unfoldable pub shrink_from : ℕ → ℕ → ℕ → ℕ → Exec ℕ
  shrink_from zero i gas cost = pure cost
  shrink_from (suc n) i gas cost = do
    backlog ← get_u64 (open_gas_constraint s i) 2
    put (open_gas_constraint s i) 2 (backlog - gas)
    shrink_from n (i + 1) gas (add64 cost (read_cost + write_cost_of (backlog - gas)))

  unfoldable pub shrink_multi_from : ℕ → ℕ → ℕ → Exec (Unit {0})
  shrink_multi_from zero i gas = pure tt
  shrink_multi_from (suc n) i gas = do
    backlog ← get_u64 (open_multi_gas_constraint s i) 2
    weight ← get_u64 (open_multi_gas_constraint s i) (4 + single_dim)
    put (open_multi_gas_constraint s i) 2 (backlog - mul64 gas weight)
    shrink_multi_from n (i + 1) gas

  unfoldable pub shrink_for_model : GasModel → ℕ → ℕ → Exec ℕ
  shrink_for_model legacy gas arbos_version = do
    current ← get_u64 s 4
    put s 4 (current - gas)
    pure (
        fixed_or arbos_version (
          (if leb 50 arbos_version then read_cost else 0)
          + read_cost
          + write_cost_of (current - gas)))
  shrink_for_model single_gas_constraints gas arbos_version = do
    len ← gas_constraints_len s
    metered ← shrink_from len 0 gas (2 * read_cost)
    pure (fixed_or arbos_version metered)
  shrink_for_model multi_gas_constraints gas arbos_version = do
    len ← multi_gas_constraints_len s
    shrink_multi_from len 0 gas
    pure (read_cost + write_cost)

  unfoldable pub shrink_backlog : ℕ → ℕ → Exec ℕ
  shrink_backlog gas arbos_version = do
    model ← gas_model s arbos_version
    shrink_for_model model gas arbos_version

  unfoldable pub backlog_update_cost : ℕ → Exec ℕ
  backlog_update_cost arbos_version = do
    len ← (if leb 51 arbos_version && ltb arbos_version 60 then gas_constraints_len s else pure 0)
    pure (backlog_update_cost_for_constraints arbos_version len)
