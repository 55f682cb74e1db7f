-- ===== src/Precompiles/GoAbi/Range.antt =====
-- crates/arb-revm/src/precompiles/go_abi.rs: the words that the walk accepts.
use native.Mathlib.Nat.{
  pow-suc, mul-le-mul, le_refl, pow-le-pow_right, one-le-pow, mod-add-div, mod-lt,
}
use arbitrum_revm.Prelude.{
  ℕ, zero, suc, ◌+◌, ◌*◌, ◌/◌, ◌^◌, ◌≤◌, ◌<◌, ◌≡◌, refl, ap, sym, ◌∙◌, ◌⊎◌, inl, inr, Bool, true,
  false, ◌&&◌, some, List, [], ◌∷◌, length, take, drop, take-append_drop, take-all, length-drop,
  ◌==◌, arith, Bool-cases, Option-cases,
}
use arbitrum_revm.Storage.{from_be_bytes}
use arbitrum_revm.Storage.Digits.{IsBytes, take-IsBytes, drop-IsBytes, from_be_bytes-append}
use arbitrum_revm.Precompiles.GoAbi.{
  Tys, end, next, uint, all_are, word_at, word_u64, is_checked_width, fits, uint_ok, in_bounds,
  more_words, value_ok, values_ok,
}

from_be_bytes-lt :
    (a : ℕ) (xs : List ℕ) → IsBytes xs → from_be_bytes a xs < (a + 1) * 256 ^ length xs
unfolding from_be_bytes IsBytes
from_be_bytes-lt a [] b = omega arith
from_be_bytes-lt a (x ∷ xs) b =
    let more : a * 256 + x + 1 ≤ (a + 1) * 256 = omega (arith, b.0) in
    let k = 256 ^ length xs in
    omega (
      arith,
      from_be_bytes-lt (a * 256 + x) xs b.1,
      mul-le-mul more (le_refl k),
      ap (λ (t : ℕ). (a + 1) * t) (pow-suc 256 (length xs)),
    )

zeros-value : (xs : List ℕ) → all_are 0 xs ≡ true → from_be_bytes 0 xs ≡ 0
unfolding all_are from_be_bytes
zeros-value [] e = refl
zeros-value (x ∷ xs) e = elim (Bool-cases (x == 0)) [
  | inl z ↦
      let nought : x ≡ 0 = ground (arith, z) in
      ap (λ k. from_be_bytes k xs) (omega (arith, nought)) ∙ zeros-value xs (rw z at e)
  | inr n ↦ cc (rw n at e)
]

length-take_le : (n : ℕ) (xs : List ℕ) → length (take n xs) ≤ n
length-take_le zero xs = omega arith
length-take_le (suc n) [] = omega arith
length-take_le (suc n) (x ∷ xs) = omega (arith, length-take_le n xs)

length-word_at : (index : ℕ) (output : List ℕ) → length (word_at index output) ≤ 32
unfolding word_at
length-word_at index output = length-take_le 32 (drop index output)

pow_256_le : (n : ℕ) → n ≤ 8 → 256 ^ n ≤ 2 ^ 64
pow_256_le n le = pow-le-pow_right (omega arith) le

-- A value of that width in its word, or no width that the walk checks.
abbrev pub Within : ℕ → List ℕ → Type 0
Within bits word = (is_checked_width bits ≡ false) ⊎ (from_be_bytes 0 word < 2 ^ bits)

-- The words of the parameters of unsigned type, from the word where the next head stands.
unfoldable pub InRange : Tys → ℕ → List ℕ → Type 0
InRange end word output = Unit {0}
InRange (next (uint bits) ts) word output =
    Within bits (word_at (word * 32) output) × InRange ts (word + 1) output
InRange (next t ts) word output = InRange ts (word + 1 + more_words t) output

word_u64-value :
    (word : List ℕ) (v : ℕ)
    → length word ≤ 32
    → IsBytes word
    → word_u64 word ≡ some v
    → (from_be_bytes 0 word ≡ v) × (v < 2 ^ 64)
unfolding word_u64
word_u64-value word v short b e = elim (Bool-cases (all_are 0 (take 24 word))) [
  | inl clear ↦
      let low = drop 24 word in
      let whole : take 8 low ≡ low = take-all 8 low (omega (arith, length-drop 24 word, short)) in
      let v_is : from_be_bytes 0 (take 8 low) ≡ v = cc (rw clear at e) in
      let bound = from_be_bytes-lt 0 low (drop-IsBytes 24 word b) in
      (
        ap (from_be_bytes 0) (sym (take-append_drop 24 word))
            ∙ from_be_bytes-append 0 (take 24 word) low
            ∙ ap (λ k. from_be_bytes k low) (zeros-value (take 24 word) clear)
            ∙ ap (from_be_bytes 0) (sym whole)
            ∙ v_is,
        omega (
          arith,
          bound,
          v_is,
          ap (from_be_bytes 0) whole,
          pow_256_le (length low) (omega (arith, length-drop 24 word, short)),
        ),
      )
  | inr dirty ↦ cc (rw dirty at e)
]

fits-lt : (bits v : ℕ) → v < 2 ^ 64 → fits bits (some v) ≡ true → v < 2 ^ bits
fits-lt bits v small e = elim (Bool-cases (bits == 64)) [
  | inl whole ↦ let b : bits ≡ 64 = ground (arith, whole) in rw b small
  | inr part ↦
      let none_above : v / 2 ^ bits ≡ 0 = ground (arith, rw part at e) in
      omega (
        arith,
        mod-add-div v (2 ^ bits),
        mod-lt v (one-le-pow bits 2 (omega arith)),
        ap (λ (q : ℕ). 2 ^ bits * q) none_above,
      )
]

uint_ok-Within :
    (bits : ℕ) (word : List ℕ)
    → length word ≤ 32
    → IsBytes word
    → uint_ok bits word ≡ true
    → Within bits word
unfolding uint_ok
uint_ok-Within bits word short b e = elim (Bool-cases (is_checked_width bits)) [
  | inr unchecked ↦ inl unchecked
  | inl checked ↦ elim (Option-cases (word_u64 word)) [
    | inl none_there ↦ cc (rw (checked, none_there) at e)
    | inr (v, there) ↦
        let value = word_u64-value word v short b there in
        let small = fits-lt bits v value.1 (rw (checked, there) at e) in inr (rw value.0 small)
  ]
]

word_at-IsBytes : (index : ℕ) (output : List ℕ) → IsBytes output → IsBytes (word_at index output)
unfolding word_at
word_at-IsBytes index output b = take-IsBytes 32 (drop index output) (drop-IsBytes index output b)

both : (a b : Bool) → (a && b) ≡ true → (a ≡ true) × (b ≡ true)
both true b e = (refl, e)
both false b e = cc

-- On bytes: where the walk accepts the arguments, each parameter of an unsigned type of 8, 16, 32 or
-- 64 bits has a word whose whole value is below two to that power.
pub values_ok-InRange :
    (ts : Tys) (word : ℕ) (output : List ℕ)
    → IsBytes output
    → values_ok ts word output ≡ true
    → InRange ts word output
unfolding values_ok InRange value_ok more_words
values_ok-InRange end word output b e = tt
values_ok-InRange (next (uint bits) ts) word output b e =
    let parts = both (value_ok (uint bits) (word * 32) output) _ e in
    let inner = both (in_bounds (word * 32) output) _ parts.0 in
    let one : word + 1 + 0 ≡ word + 1 = omega arith in
    (
      uint_ok-Within bits (word_at (word * 32) output) (length-word_at (word * 32) output)
          (word_at-IsBytes (word * 32) output b) inner.1,
      values_ok-InRange ts (word + 1) output b (rw one at parts.1),
    )
values_ok-InRange (next t ts) word output b e =
    let parts = both (value_ok t (word * 32) output) _ e in
    values_ok-InRange ts (word + 1 + more_words t) output b parts.1
