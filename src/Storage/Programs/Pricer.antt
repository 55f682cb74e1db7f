-- ===== src/Storage/Programs/Pricer.antt =====
-- crates/arb-revm/src/storage/programs.rs: the price of the data that an activation stores.
-- Slots: demand 0, bytes_per_second 1, last_update_time 2, min_price 3, inertia 4.
use native.Mathlib.Decide.{dec_le}
use arbitrum_revm.Prelude.{
  ℕ, refl, ◌-◌, ◌*◌, ◌/◌, ◌^◌, ◌≤◌, ◌<◌, ◌≡◌, ◌≢◌, ap, ◌∙◌, min, ◌==◌, if◌then◌else◌, arith,
}
use arbitrum_revm.Prelude.Int.{pos}
use arbitrum_revm.Words.{
  i64_max, u64_max, sat_add, sat_mul, mul64, sat_mul_mono, sat_add-le, div_mono,
}
use arbitrum_revm.Exec.{Host, Exec, Journal, ok, pure, ◌>>=◌, ◌>>◌}
use arbitrum_revm.Storage.{
  StorageSpace, IsApart, get, set, get_u32, get_u64, get_u64-eq, get_u32-eq, get-set_self,
  get-set_ne, put,
}
use arbitrum_revm.Storage.L2Pricing.Exponent.{approx_exp_basis_points}
use arbitrum_revm.Storage.L2Pricing.Bounds.{exp_of_magnitude_mono, min_mono}

abbrev u32_max : ℕ
u32_max = 0xffff_ffff

-- The demand after `passed` seconds and `temp_bytes` more.
unfoldable pub next_demand : ℕ → ℕ → ℕ → ℕ → ℕ
next_demand demand bytes_per_second passed temp_bytes =
    sat_add u32_max (demand - sat_mul u32_max bytes_per_second (min passed u32_max)) temp_bytes

-- The exponent fits an i64, and is not negative.
unfoldable pub data_fee : ℕ → ℕ → ℕ → ℕ → ℕ
data_fee demand min_price inertia temp_bytes =
    let exponent = (if inertia == 0 then 0 else 10_000 * demand / inertia) in
    let multiplier = approx_exp_basis_points (pos exponent) 12 in
    mul64 (mul64 min_price multiplier / 10_000) temp_bytes

-- `s` is the space of the data pricer.
unfoldable pub update_data_model : ⦃h : Host⦄ → StorageSpace → ℕ → ℕ → Exec ℕ
update_data_model s temp_bytes time = do
  demand ← get_u32 s 0
  bytes_per_second ← get_u32 s 1
  last_update_time ← get_u64 s 2
  min_price ← get_u32 s 3
  inertia ← get_u32 s 4
  let next = next_demand demand bytes_per_second (time - last_update_time) temp_bytes
  put s 0 next
  put s 2 time
  pure (data_fee next min_price inertia temp_bytes)

next_demand_mono :
    (demand bytes_per_second passed a b : ℕ)
    → a ≤ b
    → next_demand demand bytes_per_second passed a ≤ next_demand demand bytes_per_second passed b
unfolding next_demand sat_add
next_demand_mono demand bytes_per_second passed a b le = ground arith

next_demand-fits :
    (demand bytes_per_second passed n : ℕ) → next_demand demand bytes_per_second passed n < 2 ^ 32
unfolding next_demand
next_demand-fits demand bytes_per_second passed n =
    omega
      (arith, sat_add-le u32_max (demand - sat_mul u32_max bytes_per_second (min passed u32_max)) n)

exponent_mono :
    (inertia a b : ℕ)
    → a ≤ b
    → (if inertia == 0 then 0 else 10_000 * a / inertia)
      ≤ (if inertia == 0 then 0 else 10_000 * b / inertia)
exponent_mono inertia a b le = elim (dec_le inertia 0) [
  | yes z ↦ ground (arith, z)
  | no p ↦
      ground
        (arith, div_mono inertia (10_000 * a) (10_000 * b) (omega (arith, p)) (omega (arith, le)))
]

-- The fee does not fall as the demand or the data grow.
data_fee_mono :
    (d e min_price inertia a b : ℕ)
    → d ≤ e
    → a ≤ b
    → data_fee d min_price inertia a ≤ data_fee e min_price inertia b
unfolding data_fee approx_exp_basis_points
data_fee_mono d e min_price inertia a b de ab =
    let exponents = exponent_mono inertia d e de in
    let multipliers = min_mono i64_max _ _ (exp_of_magnitude_mono 12 _ _ (omega arith) exponents) in
    sat_mul_mono u64_max _ _ a b
      (div_mono 10_000 _ _ (omega arith)
        (sat_mul_mono u64_max min_price min_price _ _ (omega arith) multipliers))
      ab

module _ ⦃h : Host⦄ (s : StorageSpace) where
  -- The slots of the pricer hold values of their types.
  pub record IsValid (j : Journal) : Type 0 where
    pub demand_fits : get s 0 j < 2 ^ 32
    pub bytes_per_second_fits : get s 1 j < 2 ^ 32
    pub last_update_time_fits : get s 2 j < 2 ^ 64
    pub min_price_fits : get s 3 j < 2 ^ 32
    pub inertia_fits : get s 4 j < 2 ^ 32

  unfoldable pub demand_after : ℕ → ℕ → Journal → ℕ
  demand_after temp_bytes time j = next_demand (get s 0 j) (get s 1 j) (time - get s 2 j) temp_bytes

  unfoldable pub fee_after : ℕ → ℕ → Journal → ℕ
  fee_after temp_bytes time j =
      data_fee (demand_after temp_bytes time j) (get s 3 j) (get s 4 j) temp_bytes

  update_data_model_run :
      (temp_bytes time : ℕ) (j : Journal)
      → IsValid j
      → update_data_model s temp_bytes time j ≡ (
        ok (fee_after temp_bytes time j),
        set s 2 time (set s 0 (demand_after temp_bytes time j) j),
      )
  unfolding update_data_model put demand_after fee_after
  update_data_model_run temp_bytes time j v = rw (get_u32-eq s 0 j v.demand_fits) (
      rw (get_u32-eq s 1 j v.bytes_per_second_fits) (
        rw (get_u64-eq s 2 j v.last_update_time_fits)
          (rw (get_u32-eq s 3 j v.min_price_fits) (rw (get_u32-eq s 4 j v.inertia_fits) refl))))

  -- Where the slots of the space do not collide and hold values of their types, and the time fits
  -- a u64, an update succeeds and leaves them so; the time of the update is stored, and the fee
  -- for more data is not lower.
  pub update_data_model_lem :
      (apart : IsApart s) (a b time : ℕ) (j : Journal)
      → IsValid j
      → time < 2 ^ 64
      → a ≤ b
      → ((update_data_model s a time j).0 ≡ ok (fee_after a time j))
        × ((update_data_model s b time j).0 ≡ ok (fee_after b time j))
        × (fee_after a time j ≤ fee_after b time j)
        × IsValid (update_data_model s a time j).1
        × (get s 2 (update_data_model s a time j).1 ≡ time)
  unfolding demand_after fee_after
  update_data_model_lem apart a b time j v fits le =
      let demand = demand_after a time j in
      let run = update_data_model_run a time j v in
      let k = set s 2 time (set s 0 demand j) in
      let same : (update_data_model s a time j).1 ≡ k = ap (λ r. r.1) run in
      let kept : (i : ℕ) → i < 2 ^ 64 → 0 ≢ i → 2 ≢ i → get s i k ≡ get s i j = λ i lt p q.
        get-set_ne s s 2 i time (set s 0 demand j) (apart 2 i (omega arith) lt q)
        ∙ get-set_ne s s 0 i demand j (apart 0 i (omega arith) lt p) in
      let stored : get s 0 k ≡ demand =
        get-set_ne s s 2 0 time (set s 0 demand j)
          (apart 2 0 (omega arith) (omega arith) (omega arith))
        ∙ get-set_self s 0 demand j in
      let clock : get s 2 k ≡ time = get-set_self s 2 time (set s 0 demand j) in
      let one = kept 1 (omega arith) (omega arith) (omega arith) in
      let three = kept 3 (omega arith) (omega arith) (omega arith) in
      let four = kept 4 (omega arith) (omega arith) (omega arith) in
      (
        ap (λ r. r.0) run,
        ap (λ r. r.0) (update_data_model_run b time j v),
        data_fee_mono demand (demand_after b time j) (get s 3 j) (get s 4 j) a b
            (next_demand_mono (get s 0 j) (get s 1 j) (time - get s 2 j) a b le) le,
        rw same (record {
          demand_fits =
              omega (arith, stored, next_demand-fits (get s 0 j) (get s 1 j) (time - get s 2 j) a);
          bytes_per_second_fits = omega (arith, one, v.bytes_per_second_fits);
          last_update_time_fits = omega (arith, clock, fits);
          min_price_fits = omega (arith, three, v.min_price_fits);
          inertia_fits = omega (arith, four, v.inertia_fits);
        }),
        ap (get s 2) same ∙ clock,
      )
