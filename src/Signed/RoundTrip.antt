-- ===== src/Signed/RoundTrip.antt =====
-- crates/arb-revm/src/util.rs: two's complement words and the integers that they stand for.
use arbitrum_revm.Prelude.{◌^◌, ◌<◌, ◌≡◌, arith, true}
use arbitrum_revm.Prelude.Int.{ℤ, pos, negsuc}
use arbitrum_revm.Signed.{fits_i256, i256_to_u256_twos_complement, u256_twos_complement_to_i256}

-- Each integer in the range of an I256 comes back from its word, which is a U256.
pub twos_complement_round_trip :
    (z : ℤ)
    → fits_i256 z ≡ true
    → (u256_twos_complement_to_i256 (i256_to_u256_twos_complement z) ≡ z)
      × (i256_to_u256_twos_complement z < 2 ^ 256)
unfolding u256_twos_complement_to_i256 i256_to_u256_twos_complement
twos_complement_round_trip (pos n) fits = ground arith
twos_complement_round_trip (negsuc n) fits = ground arith
