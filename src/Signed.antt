-- ===== src/Signed.antt =====
-- alloy's `I256` and Rust's `i64`, as integers with a range; the conversions of
-- crates/arb-revm/src/util.rs and the signed helpers at the end of storage/l1_pricing.rs.
pub mod Division
pub mod RoundTrip
use arbitrum_revm.Prelude.{ℕ, suc, ◌-◌, ◌/◌, ◌^◌, Bool, Option, none, some, ltb, leb, if◌then◌else◌}
use arbitrum_revm.Prelude.Int.{ℤ, pos, negsuc, ◌+ℤ◌, ◌-ℤ◌, ◌*ℤ◌, sub_ℕ, ltb_ℤ}

abbrev pub i256_max : ℕ
i256_max = 2 ^ 255 - 1

-- The two's complement pattern of 256 bits, and the integer that it stands for.
unfoldable pub i256_to_u256_twos_complement : ℤ → ℕ
i256_to_u256_twos_complement (pos n) = n
i256_to_u256_twos_complement (negsuc n) = 2 ^ 256 - 1 - n

unfoldable pub u256_twos_complement_to_i256 : ℕ → ℤ
u256_twos_complement_to_i256 w = if ltb w (2 ^ 255) then pos w else negsuc (2 ^ 256 - 1 - w)

abbrev pub fits_i256 : ℤ → Bool
fits_i256 (pos n) = leb n i256_max
fits_i256 (negsuc n) = leb n i256_max

-- The result of a `checked_` operation.
unfoldable pub checked : ℤ → Option ℤ
checked z = if fits_i256 z then some z else none

abbrev pub or_else : Option ℤ → ℤ → ℤ
or_else none d = d
or_else (some z) d = z

unfoldable pub checked_add : ℤ → ℤ → Option ℤ
unfolding checked
checked_add a b = checked (a +ℤ b)

unfoldable pub checked_sub : ℤ → ℤ → Option ℤ
unfolding checked
checked_sub a b = checked (a -ℤ b)

unfoldable pub checked_mul : ℤ → ℤ → Option ℤ
unfolding checked
checked_mul a b = checked (a *ℤ b)

-- Division rounds towards zero. By zero it gives zero here, where `checked_div` gives none and
-- a plain division panics.
unfoldable pub quotient : ℤ → ℤ → ℤ
quotient (pos a) (pos b) = pos (a / b)
quotient (pos a) (negsuc b) = sub_ℕ 0 (a / suc b)
quotient (negsuc a) (pos b) = sub_ℕ 0 (suc a / b)
quotient (negsuc a) (negsuc b) = pos (suc a / suc b)

abbrev pub is_zero : ℤ → Bool
is_zero (pos n) = leb n 0
is_zero (negsuc n) = Bool.false

unfoldable pub checked_div : ℤ → ℤ → Option ℤ
unfolding quotient checked
checked_div a b = if is_zero b then none else checked (quotient a b)

unfoldable pub u256_to_i256_saturating : ℕ → ℤ
u256_to_i256_saturating value = if ltb i256_max value then pos i256_max else pos value

unfoldable pub i256_nonnegative_to_u256 : ℤ → ℕ
i256_nonnegative_to_u256 (pos n) = n
i256_nonnegative_to_u256 (negsuc n) = 0

unfoldable pub add_i256_u256_saturating : ℤ → ℕ → ℤ
unfolding u256_to_i256_saturating checked_add
add_i256_u256_saturating lhs rhs =
    or_else (checked_add lhs (u256_to_i256_saturating rhs)) (pos i256_max)

unfoldable pub signed_i64_to_u64_floor_zero : ℤ → ℕ
signed_i64_to_u64_floor_zero (pos n) = n
signed_i64_to_u64_floor_zero (negsuc n) = 0

-- Nitro's division in price updates.
unfoldable pub div_i256_like_go_bigint : ℤ → ℤ → ℤ
unfolding checked_div checked_mul checked_sub
div_i256_like_go_bigint dividend divisor =
    if ltb_ℤ (pos 0) divisor
    then (let q = or_else (checked_div dividend divisor) (pos 0) in
        let product = or_else (checked_mul q divisor) (pos 0) in
        let remainder = or_else (checked_sub dividend product) (pos 0) in
        if ltb_ℤ remainder (pos 0) then or_else (checked_sub q (pos 1)) q else q)
    else pos 0
