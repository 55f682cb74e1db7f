-- ===== src/Storage/L2Pricing/Constraints.antt =====
-- crates/arb-revm/src/storage/l2_pricing.rs: the vectors of gas constraints, their queries, and the
-- fees of the resources.
use arbitrum_revm.Prelude.{
  ℕ, zero, suc, ◌+◌, ◌-◌, List, [], ◌∷◌, ◌||◌, ltb, ◌==◌, max, if◌then◌else◌,
}
use arbitrum_revm.Words.{add64}
use arbitrum_revm.Exec.{Host, Exec, pure, ◌>>=◌, ◌>>◌}
use arbitrum_revm.Storage.{StorageSpace, get_u64, get_u32, get_u256, put}
use arbitrum_revm.Storage.L2Pricing.{
  GasModel, multi_gas_constraints, gas_model, gas_constraints_space, multi_gas_constraints_space,
  multi_gas_fees, gas_constraints_len, multi_gas_constraints_len, open_gas_constraint,
  open_multi_gas_constraint,
}

-- u64::max over an array, and 0 for an empty one
pub greatest : List ℕ → ℕ
greatest [] = 0
greatest (w ∷ ws) = max w (greatest ws)

pub record GasConstraintValue : Type 0 where
  pub target : ℕ
  pub adjustment_window : ℕ
  pub backlog : ℕ

pub record MultiGasConstraintValue : Type 0 where
  pub target : ℕ
  pub adjustment_window : ℕ
  pub backlog : ℕ
  pub weights : List ℕ

module _ ⦃h : Host⦄ where
  -- The slots from `key` on, in order.
  pub put_list : StorageSpace → ℕ → List ℕ → Exec (Unit {0})
  put_list s key [] = pure tt
  put_list s key (v ∷ vs) = do put s key v; put_list s (key + 1) vs

  unfoldable pub get_list : StorageSpace → ℕ → ℕ → Exec (List ℕ)
  get_list s zero key = pure []
  get_list s (suc n) key = do v ← get_u64 s key; vs ← get_list s n (key + 1); pure (v ∷ vs)

  module _ (s : StorageSpace) where
    pub add_gas_constraint : ℕ → ℕ → ℕ → Exec (Unit {0})
    add_gas_constraint target window backlog = do
      len ← gas_constraints_len s
      put (gas_constraints_space s) 0 (len + 1)
      put (open_gas_constraint s len) 0 target
      put (open_gas_constraint s len) 1 window
      put (open_gas_constraint s len) 2 backlog

    pub add_multi_gas_constraint : ℕ → ℕ → ℕ → List ℕ → Exec (Unit {0})
    add_multi_gas_constraint target window backlog weights = do
      len ← multi_gas_constraints_len s
      put (multi_gas_constraints_space s) 0 (add64 len 1)
      put (open_multi_gas_constraint s len) 0 target
      put (open_multi_gas_constraint s len) 1 window
      put (open_multi_gas_constraint s len) 2 backlog
      put (open_multi_gas_constraint s len) 3 (greatest weights)
      put_list (open_multi_gas_constraint s len) 4 weights

    pub pop_gas_constraints : ℕ → Exec (Unit {0})
    pop_gas_constraints zero = pure tt
    pop_gas_constraints (suc n) = do
      current ← gas_constraints_len s
      put (gas_constraints_space s) 0 (current - 1)
      put (open_gas_constraint s (current - 1)) 0 0
      put (open_gas_constraint s (current - 1)) 1 0
      put (open_gas_constraint s (current - 1)) 2 0
      pop_gas_constraints n

    pub clear_gas_constraints : Exec (Unit {0})
    clear_gas_constraints = do len ← gas_constraints_len s; pop_gas_constraints len

    pub pop_multi_gas_constraints : ℕ → Exec (Unit {0})
    pop_multi_gas_constraints zero = pure tt
    pop_multi_gas_constraints (suc n) = do
      current ← multi_gas_constraints_len s
      put (multi_gas_constraints_space s) 0 (current - 1)
      put (open_multi_gas_constraint s (current - 1)) 0 0
      put (open_multi_gas_constraint s (current - 1)) 1 0
      put (open_multi_gas_constraint s (current - 1)) 2 0
      put (open_multi_gas_constraint s (current - 1)) 3 0
      put_list (open_multi_gas_constraint s (current - 1)) 4
          (0 ∷ 0 ∷ 0 ∷ 0 ∷ 0 ∷ 0 ∷ 0 ∷ 0 ∷ 0 ∷ [])
      pop_multi_gas_constraints n

    pub clear_multi_gas_constraints : Exec (Unit {0})
    clear_multi_gas_constraints = do
      len ← multi_gas_constraints_len s
      pop_multi_gas_constraints len

    unfoldable pub constraints_from : ℕ → ℕ → Exec (List GasConstraintValue)
    constraints_from zero i = pure []
    constraints_from (suc n) i = do
      target ← get_u64 (open_gas_constraint s i) 0
      window ← get_u64 (open_gas_constraint s i) 1
      backlog ← get_u64 (open_gas_constraint s i) 2
      rest ← constraints_from n (i + 1)
      pure (record { target = target; adjustment_window = window; backlog = backlog } ∷ rest)

    unfoldable pub gas_constraints : Exec (List GasConstraintValue)
    gas_constraints = do len ← gas_constraints_len s; constraints_from len 0

    unfoldable pub multi_constraints_from : ℕ → ℕ → Exec (List MultiGasConstraintValue)
    multi_constraints_from zero i = pure []
    multi_constraints_from (suc n) i = do
      target ← get_u64 (open_multi_gas_constraint s i) 0
      window ← get_u32 (open_multi_gas_constraint s i) 1
      backlog ← get_u64 (open_multi_gas_constraint s i) 2
      weights ← get_list (open_multi_gas_constraint s i) 9 4
      rest ← multi_constraints_from n (i + 1)
      pure (
          record {
            target = target;
            adjustment_window = window;
            backlog = backlog;
            weights = weights;
          }
          ∷ rest)

    unfoldable pub multi_gas_constraint_values : Exec (List MultiGasConstraintValue)
    multi_gas_constraint_values = do len ← multi_gas_constraints_len s; multi_constraints_from len 0

    -- MultiGasFees: the next fees from slot 0 on, the current ones from slot 9 on.
    pub commit_from : ℕ → ℕ → Exec (Unit {0})
    commit_from zero kind = pure tt
    commit_from (suc n) kind = do
      next ← get_u256 (multi_gas_fees s) kind
      put (multi_gas_fees s) (9 + kind) next
      commit_from n (kind + 1)

    pub commit_for_model : GasModel → Exec (Unit {0})
    commit_for_model multi_gas_constraints = commit_from 9 0
    commit_for_model _ = pure tt

    pub commit_multi_gas_fees : ℕ → Exec (Unit {0})
    commit_multi_gas_fees arbos_version = do
      model ← gas_model s arbos_version
      commit_for_model model

    unfoldable pub fees_from : ℕ → ℕ → ℕ → Exec (List ℕ)
    fees_from zero kind fallback = pure []
    fees_from (suc n) kind fallback = do
      current ← get_u256 (multi_gas_fees s) (9 + kind)
      rest ← fees_from n (kind + 1) fallback
      pure ((if (kind == 6) || (current == 0) then fallback else current) ∷ rest)

    unfoldable pub multi_gas_base_fees : ℕ → ℕ → Exec (List ℕ)
    multi_gas_base_fees block_base_fee arbos_version = do
      fallback ← (if ltb arbos_version 61 then get_u256 s 2 else pure block_base_fee)
      fees_from 9 0 fallback
