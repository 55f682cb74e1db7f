-- ===== src/Signed/Division.antt =====
-- crates/arb-revm/src/storage/l1_pricing.rs: the division of price updates, after Go's `big.Int.Div`.
use native.Mathlib.Nat.{
  div-mul-le_self, lt-div-mul-add, div-le_self, div-eq_of_lt-le, mul-le-mul_left,
}
use native.Mathlib.Decide.{ℕ_discrete}
use arbitrum_revm.Prelude.{ℕ, zero, suc, ◌+◌, ◌-◌, ◌*◌, ◌/◌, ◌≤◌, ◌<◌, ◌≡◌, arith, true, some}
use arbitrum_revm.Prelude.Int.{ℤ, pos, negsuc, ◌-ℤ◌, ◌*ℤ◌, sub_ℕ}
use arbitrum_revm.Signed.{
  fits_i256, i256_max, checked, checked_div, checked_mul, checked_sub, quotient,
  div_i256_like_go_bigint,
}

abbrev pub floor_div : ℤ → ℕ → ℤ
floor_div (pos a) d = pos (a / d)
floor_div (negsuc a) d = negsuc (a / d)

div_pos : (a d : ℕ) → 0 < d → a ≤ i256_max → checked_div (pos a) (pos d) ≡ some (pos (a / d))
unfolding checked_div checked quotient
div_pos a d lt fits = ground (arith, div-le_self a d)

div_neg :
    (a d : ℕ) → 0 < d → a ≤ i256_max → checked_div (negsuc a) (pos d) ≡ some (sub_ℕ 0 (suc a / d))
unfolding checked_div checked quotient
div_neg a d lt fits = ground (arith, div-le_self (suc a) d)

mul_pos : (k d : ℕ) → k * d ≤ i256_max → checked_mul (pos k) (pos d) ≡ some (pos (k * d))
unfolding checked_mul checked ◌*ℤ◌
mul_pos k d fits = ground arith

mul_neg :
    (k d : ℕ)
    → 0 < d
    → k * d ≤ suc i256_max
    → checked_mul (sub_ℕ 0 k) (pos d) ≡ some (sub_ℕ 0 (k * d))
unfolding checked_mul checked ◌*ℤ◌
mul_neg zero d lt fits = ground arith
mul_neg (suc k) d lt fits = ground arith

sub_pos : (a m : ℕ) → m ≤ a → a ≤ i256_max → checked_sub (pos a) (pos m) ≡ some (pos (a - m))
unfolding checked_sub checked ◌-ℤ◌
sub_pos a m le fits = ground arith

sub_neg :
    (a m : ℕ)
    → m ≤ suc a
    → a ≤ i256_max
    → checked_sub (negsuc a) (sub_ℕ 0 m) ≡ some (sub_ℕ 0 (suc a - m))
unfolding checked_sub checked ◌-ℤ◌
sub_neg a zero le fits = ground arith
sub_neg a (suc m) le fits = ground arith

sub_one : (k : ℕ) → k ≤ i256_max → checked_sub (sub_ℕ 0 k) (pos 1) ≡ some (negsuc k)
unfolding checked_sub checked ◌-ℤ◌
sub_one zero fits = ground arith
sub_one (suc k) fits = ground arith

exact : (k a d : ℕ) → 0 < d → k * d ≡ suc a → sub_ℕ 0 k ≡ negsuc (a / d)
exact zero a d lt e = absurd (omega arith)
exact (suc k) a d lt e =
    let f : a / d ≡ k = div-eq_of_lt-le d (omega (arith, e)) (omega (arith, e)) in
    rw f (ground arith)

-- For a dividend of an I256 and a positive divisor of one, the division is the floor.
pub div-eq-floor :
    (n : ℤ) (d : ℕ)
    → 0 < d
    → fits_i256 n ≡ true
    → d ≤ i256_max
    → div_i256_like_go_bigint n (pos d) ≡ floor_div n d
unfolding div_i256_like_go_bigint
div-eq-floor (pos a) d lt fits small = rw (div_pos a d lt (ground arith)) (
    rw (mul_pos (a / d) d (ground (arith, div-mul-le_self a d)))
      (rw (sub_pos a (a / d * d) (div-mul-le_self a d) (ground arith)) (ground arith)))
div-eq-floor (negsuc a) d lt fits small =
    let k = suc a / d in
    let le : k * d ≤ suc a = div-mul-le_self (suc a) d in
    let above : suc a < k * d + d = lt-div-mul-add lt in
    rw (div_neg a d lt (ground arith)) (
      rw (mul_neg k d lt (ground arith)) (
        rw (sub_neg a (k * d) le (ground arith)) (elim (ℕ_discrete (k * d) (suc a)) [
          | yes e ↦ ground (arith, exact k a d lt e)
          | no ne ↦
              let f : a / d ≡ k =
                div-eq_of_lt-le d (omega (arith, le, ne)) (omega (arith, above)) in
              let within : k ≤ i256_max =
                ground (arith, div-le_self (suc a) d, mul-le-mul_left k lt) in
              let s = sub_one k within in rw (s, f) (ground (arith, le, ne))
        ])))
