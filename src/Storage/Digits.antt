-- ===== src/Storage/Digits.antt =====
-- crates/arb-revm/src/storage: the bytes of a number.
use native.Mathlib.Nat.{pow-suc}
use arbitrum_revm.Prelude.{
  ℕ, zero, suc, ◌+◌, ◌*◌, ◌/◌, ◌%◌, ◌^◌, ◌<◌, ◌≡◌, refl, ap, sym, ◌∙◌, arith, List, [], ◌∷◌, ◌++◌,
  length, take, drop, append_nil, append_cons, length-append,
}
use arbitrum_revm.Storage.{be_bytes, from_be_bytes}

-- A list of bytes.
unfoldable pub IsBytes : List ℕ → Type 0
IsBytes [] = Unit {0}
IsBytes (x ∷ xs) = (x < 256) × IsBytes xs

pub take-IsBytes : (n : ℕ) (xs : List ℕ) → IsBytes xs → IsBytes (take n xs)
unfolding IsBytes
take-IsBytes zero xs b = tt
take-IsBytes (suc n) [] b = tt
take-IsBytes (suc n) (x ∷ xs) b = (b.0, take-IsBytes n xs b.1)

pub drop-IsBytes : (n : ℕ) (xs : List ℕ) → IsBytes xs → IsBytes (drop n xs)
unfolding IsBytes
drop-IsBytes zero xs b = b
drop-IsBytes (suc n) [] b = tt
drop-IsBytes (suc n) (x ∷ xs) b = drop-IsBytes n xs b.1

pub length-be_bytes : (n x : ℕ) → length (be_bytes n x) ≡ n
unfolding be_bytes
length-be_bytes zero x = refl
length-be_bytes (suc n) x =
    omega (arith, length-append (be_bytes n (x / 256)) (x % 256 ∷ []), length-be_bytes n (x / 256))

-- The digits of a number that ends in the bytes of a list.
pub be_bytes-from_be_bytes :
    (xs : List ℕ) (m a : ℕ)
    → IsBytes xs
    → be_bytes (length xs + m) (from_be_bytes a xs) ≡ be_bytes m a ++ xs
unfolding be_bytes from_be_bytes IsBytes
be_bytes-from_be_bytes [] m a b =
    let z : 0 + m ≡ m = omega arith in ap (λ n. be_bytes n a) z ∙ sym (append_nil (be_bytes m a))
be_bytes-from_be_bytes (x ∷ xs) m a b =
    let head_digits : (a * 256 + x) / 256 ≡ a = omega (arith, b.0) in
    let last_digit : (a * 256 + x) % 256 ≡ x = omega (arith, b.0) in
    let shifted : suc (length xs) + m ≡ length xs + suc m = omega arith in
    rw shifted (
      be_bytes-from_be_bytes xs (suc m) (a * 256 + x) b.1
      ∙ ap (λ l. l ++ xs)
          (ap (λ d. be_bytes m d ++ (a * 256 + x) % 256 ∷ []) head_digits
            ∙ ap (λ d. be_bytes m a ++ d ∷ []) last_digit)
      ∙ append_cons (be_bytes m a) x xs)

-- A whole word, and a word whose right end is a short chunk.
pub word-whole : (xs : List ℕ) → IsBytes xs → length xs ≡ 32 → be_bytes 32 (from_be_bytes 0 xs) ≡ xs
unfolding be_bytes
word-whole xs b e =
    let n : length xs + 0 ≡ 32 = omega (arith, e) in
    ap (λ k. be_bytes k (from_be_bytes 0 xs)) (sym n) ∙ be_bytes-from_be_bytes xs 0 0 b

pub from_be_bytes-append :
    (a : ℕ) (xs ys : List ℕ) → from_be_bytes a (xs ++ ys) ≡ from_be_bytes (from_be_bytes a xs) ys
unfolding from_be_bytes
from_be_bytes-append a [] ys = refl
from_be_bytes-append a (x ∷ xs) ys = from_be_bytes-append (a * 256 + x) xs ys

pub from_be_bytes-be_bytes :
    (a n x : ℕ) → x < 256 ^ n → from_be_bytes a (be_bytes n x) ≡ a * 256 ^ n + x
unfolding from_be_bytes be_bytes
from_be_bytes-be_bytes a zero x lt = omega arith
from_be_bytes-be_bytes a (suc n) x lt =
    let p : x / 256 < 256 ^ n = omega (arith, pow-suc 256 n) in
    rw
      (
        from_be_bytes-append a (be_bytes n (x / 256)) (x % 256 ∷ []),
        from_be_bytes-be_bytes a n (x / 256) p,
      )
      (omega (arith, ap (λ (t : ℕ). a * t) (pow-suc 256 n)))

pub append-IsBytes : (xs ys : List ℕ) → IsBytes xs → IsBytes ys → IsBytes (xs ++ ys)
unfolding IsBytes
append-IsBytes [] ys bx by = by
append-IsBytes (x ∷ xs) ys bx by = (bx.0, append-IsBytes xs ys bx.1 by)

pub be_bytes-IsBytes : (n x : ℕ) → IsBytes (be_bytes n x)
unfolding be_bytes IsBytes
be_bytes-IsBytes zero x = tt
be_bytes-IsBytes (suc n) x =
    append-IsBytes (be_bytes n (x / 256)) (x % 256 ∷ []) (be_bytes-IsBytes n (x / 256))
      (omega arith, tt)
