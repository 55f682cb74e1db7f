-- ===== src/Words.antt =====
-- Machine words as native numbers: `u64` and ruint's `U256`, with the saturating operations of
-- the standard library and of ruint that the storage code calls.
use native.Mathlib.Nat.{le_trans, div-mul-le_self, le-div_iff_mul-le, mul-le-mul}
use arbitrum_revm.Prelude.{ℕ, ◌+◌, ◌-◌, ◌*◌, ◌/◌, ◌^◌, ◌≤◌, ◌<◌, ◌≡◌, arith, leb, if◌then◌else◌}

abbrev pub u64_max : ℕ
u64_max = 0xffff_ffff_ffff_ffff

abbrev pub i64_max : ℕ
i64_max = 0x7fff_ffff_ffff_ffff

abbrev pub u256_max : ℕ
u256_max = 2 ^ 256 - 1

-- `saturating_add`, `saturating_mul` at a type whose greatest value is `top`; `saturating_sub` is
-- the subtraction of ℕ.
unfoldable pub sat_add : ℕ → ℕ → ℕ → ℕ
sat_add top a b = if leb (a + b) top then a + b else top

unfoldable pub sat_mul : ℕ → ℕ → ℕ → ℕ
sat_mul top a b = if leb (a * b) top then a * b else top

abbrev pub add64 : ℕ → ℕ → ℕ
add64 a b = sat_add u64_max a b

abbrev pub mul64 : ℕ → ℕ → ℕ
mul64 a b = sat_mul u64_max a b

pub sat_add-le : (top a b : ℕ) → sat_add top a b ≤ top
unfolding sat_add
sat_add-le top a b = ground arith

pub sat_mul-le : (top a b : ℕ) → sat_mul top a b ≤ top
unfolding sat_mul
sat_mul-le top a b = ground arith

pub sat_add-eq : (top a b : ℕ) → a + b ≤ top → sat_add top a b ≡ a + b
unfolding sat_add
sat_add-eq top a b h = ground arith

pub sat_mul-eq : (top a b : ℕ) → a * b ≤ top → sat_mul top a b ≡ a * b
unfolding sat_mul
sat_mul-eq top a b h = ground arith

pub div_mono : (d a b : ℕ) → 0 < d → a ≤ b → a / d ≤ b / d
div_mono d a b pos le = (le-div_iff_mul-le pos).1 (le_trans (div-mul-le_self a d) le)

pub sat_mul_mono : (top a b c d : ℕ) → a ≤ b → c ≤ d → sat_mul top a c ≤ sat_mul top b d
unfolding sat_mul
sat_mul_mono top a b c d p q = ground (arith, mul-le-mul p q)
