-- ===== src/Precompiles/Owner/Surplus.antt =====
-- crates/arb-revm/src/precompiles/arb_owner.rs: the release of a surplus.
use arbitrum_revm.Prelude.{
  ℕ, ◌+◌, ◌-◌, ◌≤◌, ◌<◌, ◌≡◌, ◌⊎◌, inl, inr, refl, true, min, leb, ◌==◌, arith, Bool-cases,
}
use arbitrum_revm.Words.{u256_max}
use arbitrum_revm.Exec.{Journal, Host}
use arbitrum_revm.Storage.{get, get_u256, put, get-set_self, balance-set}
use arbitrum_revm.Storage.L1Pricing.{add_to_l1_fees_available, funds_pool_address}
use arbitrum_revm.ArbosState.{l1_pricing}
use arbitrum_revm.Precompiles.Outcome.{ok_result}
use arbitrum_revm.Precompiles.Owner.{Encoder, surplus_to_release, release_surplus}

module _ ⦃h : Host⦄ ⦃e : Encoder⦄ where
  abbrev pub recognized : Journal → ℕ
  recognized j = get l1_pricing 11 j

  -- Where the balance of the pool fits in 256 bits, the release returns the smaller of the surplus
  -- and the limit, adds just that to the recognized fees, and moves no funds; the recognized fees
  -- stay as they were or end at the pool's balance at most.
  pub release_surplus_lem :
      (gas_limit max_wei : ℕ) (j : Journal)
      → j.balance funds_pool_address ≤ u256_max
      → ((release_surplus gas_limit max_wei j).0
          ≡ ok_result gas_limit
              (e.encode_uint (min (j.balance funds_pool_address - recognized j) max_wei)))
        × (recognized (release_surplus gas_limit max_wei j).1
            ≡ recognized j + min (j.balance funds_pool_address - recognized j) max_wei)
        × ((release_surplus gas_limit max_wei j).1.balance ≡ j.balance)
        × ((recognized (release_surplus gas_limit max_wei j).1 ≡ recognized j)
            ⊎ (recognized (release_surplus gas_limit max_wei j).1 ≤ j.balance funds_pool_address))
  unfolding release_surplus surplus_to_release get_u256 add_to_l1_fees_available put
  release_surplus_lem gas_limit max_wei j fits =
      let balance = j.balance funds_pool_address in
      let released = min (balance - recognized j) max_wei in
      elim (Bool-cases (released == 0)) [
        | inl none_left ↦
            let z : released ≡ 0 = ground (arith, none_left) in
            rw none_left (refl, omega (arith, z), refl, inl refl)
        | inr some_left ↦
            let pos : 0 < released = ground (arith, some_left) in
            let room : leb (recognized j + released) u256_max ≡ true = ground (arith, fits, pos) in
            let sum = get-set_self l1_pricing 11 (recognized j + released) j in
            rw some_left (
              rw room (
                refl,
                sum,
                balance-set l1_pricing 11 (recognized j + released) j,
                inr (rw sum (omega (arith, pos))),
              ))
      ]
