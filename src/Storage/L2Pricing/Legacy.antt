-- ===== src/Storage/L2Pricing/Legacy.antt =====
-- crates/arb-revm/src/storage/l2_pricing.rs: the legacy model as a whole, an update and a
-- transaction's gas.
use native.Mathlib.Nat.{le_refl}
use arbitrum_revm.Prelude.{
  ℕ, ◌+◌, ◌-◌, ◌*◌, ◌^◌, ◌≤◌, ◌<◌, ◌≡◌, ◌≢◌, refl, ◌∙◌, arith, ◌==◌, if◌then◌else◌,
}
use arbitrum_revm.Words.{sat_add, mul64, u64_max, u256_max}
use arbitrum_revm.Exec.{Journal, Host, ok}
use arbitrum_revm.Storage.{
  StorageSpace, IsApart, get, set, get_u256, put, get-set_self, get-set_ne, get_u64-eq,
}
use arbitrum_revm.Storage.L2Pricing.Exponent.{
  one_in_bips, legacy_base_fee, read_cost, write_cost, write_zero_cost,
}
use arbitrum_revm.Storage.L2Pricing.{
  legacy, gas_model, single_model, update_for_model, update_pricing_model,
  update_pricing_model_legacy,
}
use arbitrum_revm.Storage.L2Pricing.Backlog.{
  grow_backlog, grow_for_model, shrink_backlog, shrink_for_model,
}
use arbitrum_revm.Storage.L2Pricing.Bounds.{legacy_base_fee_bounds}

module _ ⦃h : Host⦄ (s : StorageSpace) where
  -- The slots that the legacy model reads hold u64 values.
  pub record IsValid (j : Journal) : Type 0 where
    pub speed_limit : get s 0 j < 2 ^ 64
    pub backlog : get s 4 j < 2 ^ 64
    pub inertia : get s 5 j < 2 ^ 64
    pub tolerance : get s 6 j < 2 ^ 64

  abbrev pub paid_down : ℕ → Journal → ℕ
  paid_down time_passed j = get s 4 j - mul64 time_passed (get s 0 j)

  abbrev pub next_fee : ℕ → Journal → ℕ
  next_fee time_passed j =
      legacy_base_fee (paid_down time_passed j) (get s 0 j) (get s 5 j) (get s 6 j) (get s 3 j)

  updated : ℕ → Journal → Journal
  updated time_passed j = set s 2 (next_fee time_passed j) (set s 4 (paid_down time_passed j) j)

  pub gas_model_legacy :
      (arbos_version : ℕ) (j : Journal)
      → arbos_version < 50
      → gas_model s arbos_version j ≡ (ok legacy, j)
  unfolding gas_model single_model
  gas_model_legacy arbos_version j lt = ground arith

  module _ (apart : IsApart s) where
    ne :
        (i k v : ℕ) (j : Journal)
        → i < 2 ^ 64
        → k < 2 ^ 64
        → i ≢ k
        → get s k (set s i v j) ≡ get s k j
    ne i k v j a b d = get-set_ne s s i k v j (apart i k a b d)

    legacy_update :
        (time_passed : ℕ) (j : Journal)
        → IsValid j
        → update_pricing_model_legacy s time_passed j ≡ (ok tt, updated time_passed j)
    unfolding update_pricing_model_legacy updated put get_u256
    legacy_update time_passed j valid =
        let j' = set s 4 (paid_down time_passed j) j in
        let i5 = ne 4 5 (paid_down time_passed j) j (omega arith) (omega arith) (omega arith) in
        let i6 = ne 4 6 (paid_down time_passed j) j (omega arith) (omega arith) (omega arith) in
        rw (get_u64-eq s 0 j valid.speed_limit) (
          rw (get_u64-eq s 4 j valid.backlog) (
            rw (get_u64-eq s 5 j' (rw i5 valid.inertia)) (
              rw (get_u64-eq s 6 j' (rw i6 valid.tolerance)) (
                rw (
                  i5,
                  i6,
                  ne 4 3 (paid_down time_passed j) j (omega arith) (omega arith) (omega arith),
                )))))

    -- Where the slots of the space do not collide, the legacy model is active and its slots hold
    -- u64 values, an update succeeds: it pays the backlog down by the time passed times the speed
    -- limit, writes the legacy fee for the backlog that is left, and leaves every other slot `k`
    -- of the space below 2 ^ 64 as it was.
    pub update_pricing_model_lem :
        (time_passed arbos_version k : ℕ) (j : Journal)
        → gas_model s arbos_version j ≡ (ok legacy, j)
        → IsValid j
        → k < 2 ^ 64
        → k ≢ 2
        → k ≢ 4
        → ((update_pricing_model s time_passed arbos_version j).0 ≡ ok tt)
          × (get s 4 (update_pricing_model s time_passed arbos_version j).1
              ≡ paid_down time_passed j)
          × (get s 2 (update_pricing_model s time_passed arbos_version j).1
              ≡ next_fee time_passed j)
          × (get s k (update_pricing_model s time_passed arbos_version j).1 ≡ get s k j)
    unfolding update_pricing_model update_for_model
    update_pricing_model_lem time_passed arbos_version k j model valid lt n2 n4 = rw model (
        rw (legacy_update time_passed j valid) (
          unfold updated in
          (
            refl,
            ne 2 4 (next_fee time_passed j) (set s 4 (paid_down time_passed j) j) (omega arith)
                  (omega arith) (omega arith)
                ∙ get-set_self s 4 (paid_down time_passed j) j,
            get-set_self s 2 (next_fee time_passed j) (set s 4 (paid_down time_passed j) j),
            ne 2 k (next_fee time_passed j) (set s 4 (paid_down time_passed j) j) (omega arith) lt
                  (omega arith)
                ∙ ne 4 k (paid_down time_passed j) j (omega arith) lt (omega arith),
          )))

    -- Where the slots of the space do not collide, the legacy model is active and its slots hold
    -- u64 values, the base fee after an update is at least the stored minimum, if inertia times
    -- speed limit fits an i64 and the minimum times 10,000 fits a U256.
    pub base_fee-ge-min :
        (time_passed arbos_version : ℕ) (j : Journal)
        → gas_model s arbos_version j ≡ (ok legacy, j)
        → IsValid j
        → mul64 (get s 5 j) (get s 0 j) < 2 ^ 63
        → get s 3 j * one_in_bips ≤ u256_max
        → get s 3 (update_pricing_model s time_passed arbos_version j).1
          ≤ get s 2 (update_pricing_model s time_passed arbos_version j).1
    base_fee-ge-min time_passed arbos_version j model valid small fits =
        let u =
          update_pricing_model_lem time_passed arbos_version 3 j model valid (omega arith)
            (omega arith) (omega arith) in
        rw (u.2, u.3)
          (legacy_base_fee_bounds (paid_down time_passed j) (paid_down time_passed j) (get s 0 j)
            (get s 5 j) (get s 6 j) (get s 3 j) small fits (le_refl (paid_down time_passed j))).0

    grown : ℕ → Journal → Journal
    grown gas j = set s 4 (sat_add u64_max (get s 4 j) gas) j

    grow_legacy :
        (gas arbos_version : ℕ) (j : Journal)
        → arbos_version < 50
        → get s 4 j < 2 ^ 64
        → grow_backlog s gas arbos_version j ≡ (ok tt, grown gas j)
    unfolding grow_backlog grow_for_model grown put
    grow_legacy gas arbos_version j lt fit =
        rw (gas_model_legacy arbos_version j lt) (rw (get_u64-eq s 4 j fit))

    shrink_legacy :
        (gas arbos_version : ℕ) (j : Journal)
        → arbos_version < 50
        → get s 4 j < 2 ^ 64
        → shrink_backlog s gas arbos_version j ≡ (
          ok (read_cost + (if get s 4 j - gas == 0 then write_zero_cost else write_cost)),
          set s 4 (get s 4 j - gas) j,
        )
    unfolding shrink_backlog shrink_for_model put
    shrink_legacy gas arbos_version j lt fit =
        rw (gas_model_legacy arbos_version j lt) (rw (get_u64-eq s 4 j fit) (ground arith))

    shrunk :
        (gas arbos_version : ℕ) (j : Journal)
        → arbos_version < 50
        → get s 4 j < 2 ^ 64
        → get s 4 (shrink_backlog s gas arbos_version (grow_backlog s gas arbos_version j).1).1
          ≡ sat_add u64_max (get s 4 j) gas - gas
    unfolding sat_add grown
    shrunk gas arbos_version j lt fit =
        let own = get-set_self s 4 (sat_add u64_max (get s 4 j) gas) j in
        rw (grow_legacy gas arbos_version j lt fit) (
          rw (shrink_legacy gas arbos_version (grown gas j) lt (rw own (ground arith)))
            (rw (get-set_self s 4 (get s 4 (grown gas j) - gas) (grown gas j)) (rw own)))

    -- Where the slots of the space do not collide, and before ArbOS 50, shrinking a backlog that
    -- fits a u64 by the gas that it has grown by never leaves it higher than it was.
    pub shrink-grow_le :
        (gas arbos_version : ℕ) (j : Journal)
        → arbos_version < 50
        → get s 4 j < 2 ^ 64
        → get s 4 (shrink_backlog s gas arbos_version (grow_backlog s gas arbos_version j).1).1
          ≤ get s 4 j
    unfolding sat_add
    shrink-grow_le gas arbos_version j lt fit =
        rw (shrunk gas arbos_version j lt fit) (ground arith)

    -- Where the slots of the space do not collide, and before ArbOS 50, shrinking the backlog by
    -- the gas that it has grown by restores it, if their sum fits a u64.
    pub shrink-grow :
        (gas arbos_version : ℕ) (j : Journal)
        → arbos_version < 50
        → get s 4 j + gas < 2 ^ 64
        → get s 4 (shrink_backlog s gas arbos_version (grow_backlog s gas arbos_version j).1).1
          ≡ get s 4 j
    unfolding sat_add
    shrink-grow gas arbos_version j lt fit =
        rw (shrunk gas arbos_version j lt (omega (arith, fit))) (ground arith)
