-- ===== src/L1Cost/Rlp.antt =====
-- crates/arb-revm/src/l1_cost.rs: the RLP encoder, against a decoder of byte strings.
use arbitrum_revm.Prelude.{
  ℕ, zero, suc, ◌+◌, ◌-◌, ◌^◌, ◌≤◌, ◌<◌, ◌≡◌, refl, ap, ◌∙◌, inl, inr, true, false, List, [], ◌∷◌,
  ◌++◌, length, take, drop, take-length_append, drop-length_append, ltb, ◌==◌, if◌then◌else◌, arith,
  Bool-cases,
}
use mathlib.Core.List.{append_assoc}
use arbitrum_revm.Storage.{be_bytes, from_be_bytes}
use arbitrum_revm.Storage.Digits.{from_be_bytes-be_bytes}
use arbitrum_revm.L1Cost.{strip_leading_zeros, rlp_write_length, rlp_encode_bytes, rlp_payload}

-- The byte string at the front of an encoding, and what stands behind it.
unfoldable pub decode_long : ℕ → List ℕ → List ℕ × List ℕ
decode_long n bytes =
    let len = from_be_bytes 0 (take n bytes) in (take len (drop n bytes), drop len (drop n bytes))

unfoldable pub decode_bytes : List ℕ → List ℕ × List ℕ
decode_bytes [] = ([], [])
decode_bytes (b ∷ bytes) =
    if ltb b 0x80
    then (b ∷ [], bytes)
    else if ltb b 0xb8
    then (take (b - 0x80) bytes, drop (b - 0x80) bytes)
    else decode_long (b - 0xb7) bytes

strip-value : (bs : List ℕ) → from_be_bytes 0 (strip_leading_zeros bs) ≡ from_be_bytes 0 bs
unfolding strip_leading_zeros from_be_bytes
strip-value [] = refl
strip-value (b ∷ bs) = elim (Bool-cases (b == 0)) [
  | inl is_zero ↦
      let z : b ≡ 0 = ground (arith, is_zero) in
      rw is_zero (strip-value bs ∙ ap (λ x. from_be_bytes x bs) (omega (arith, z)))
  | inr other ↦ rw other refl
]

stripped : (n : ℕ) → n < 2 ^ 64 → from_be_bytes 0 (strip_leading_zeros (be_bytes 8 n)) ≡ n
stripped n lt =
    omega (arith, strip-value (be_bytes 8 n), from_be_bytes-be_bytes 0 8 n (omega arith))

short_header :
    (len : ℕ) (bytes : List ℕ)
    → len < 56
    → decode_bytes ((0x80 + len) ∷ bytes) ≡ (take len bytes, drop len bytes)
unfolding decode_bytes
short_header len bytes lt =
    let large : ltb (0x80 + len) 0x80 ≡ false = ground arith in
    let small : ltb (0x80 + len) 0xb8 ≡ true = ground (arith, lt) in
    let back : 0x80 + len - 0x80 ≡ len = omega arith in rw (large, small, back) refl

long_header :
    (k : ℕ) (bytes : List ℕ) → 0 < k → decode_bytes ((0x80 + 55 + k) ∷ bytes) ≡ decode_long k bytes
unfolding decode_bytes
long_header k bytes pos =
    let large : ltb (0x80 + 55 + k) 0x80 ≡ false = ground arith in
    let larger : ltb (0x80 + 55 + k) 0xb8 ≡ false = ground (arith, pos) in
    let back : 0x80 + 55 + k - 0xb7 ≡ k = omega arith in rw (large, larger, back) refl

decode_long-append :
    (ls xs rest : List ℕ)
    → from_be_bytes 0 ls ≡ length xs
    → decode_long (length ls) (ls ++ (xs ++ rest)) ≡ (xs, rest)
unfolding decode_long
decode_long-append ls xs rest e =
    rw
      (
        take-length_append ls (xs ++ rest),
        drop-length_append ls (xs ++ rest),
        e,
        take-length_append xs rest,
        drop-length_append xs rest,
      )
      refl

nonempty : (ls : List ℕ) → 0 < from_be_bytes 0 ls → 0 < length ls
unfolding from_be_bytes
nonempty [] lt = lt
nonempty (b ∷ ls) lt = omega arith

-- A length written before the bytes it measures is read back.
header :
    (xs rest : List ℕ)
    → length xs < 2 ^ 64
    → decode_bytes (rlp_write_length [] (length xs) 0x80 ++ (xs ++ rest)) ≡ (xs, rest)
unfolding rlp_write_length
header xs rest lt = elim (Bool-cases (ltb (length xs) 56)) [
  | inl short ↦ rw short (
      short_header (length xs) (xs ++ rest) (ground (arith, short))
      ∙ rw (take-length_append xs rest, drop-length_append xs rest) refl)
  | inr long ↦
      let ls = strip_leading_zeros (be_bytes 8 (length xs)) in
      let e = stripped (length xs) lt in
      let big : 56 ≤ length xs = ground (arith, long) in
      rw long (
        long_header (length ls) (ls ++ (xs ++ rest)) (nonempty ls (omega (arith, e, big)))
        ∙ decode_long-append ls xs rest e)
]

single : (b : ℕ) (rest : List ℕ) → ltb b 0x80 ≡ true → decode_bytes (b ∷ rest) ≡ (b ∷ [], rest)
unfolding decode_bytes
single b rest small = rw small refl

decode_bytes-rlp_encode_bytes :
    (xs rest : List ℕ)
    → length xs < 2 ^ 64
    → decode_bytes (rlp_encode_bytes xs ++ rest) ≡ (xs, rest)
unfolding rlp_encode_bytes
decode_bytes-rlp_encode_bytes [] rest lt = short_header 0 rest (omega arith)
decode_bytes-rlp_encode_bytes (b ∷ []) rest lt = elim (Bool-cases (ltb b 0x80)) [
  | inl small ↦ rw small (single b rest small)
  | inr large ↦
      rw large
        (rw (append_assoc (rlp_write_length [] 1 0x80) (b ∷ []) rest) (header (b ∷ []) rest lt))
]
decode_bytes-rlp_encode_bytes (b ∷ c ∷ bs) rest lt =
    rw (append_assoc (rlp_write_length [] (length (b ∷ c ∷ bs)) 0x80) (b ∷ c ∷ bs) rest)
      (header (b ∷ c ∷ bs) rest lt)

-- Byte strings whose lengths are of type u64.
unfoldable pub IsMeasured : List (List ℕ) → Type 0
IsMeasured [] = Unit {0}
IsMeasured (i ∷ is) = (length i < 2 ^ 64) × IsMeasured is

-- The first strings of an encoding, as many as asked for, and what stands behind them.
unfoldable pub decode_items : ℕ → List ℕ → List (List ℕ) × List ℕ
decode_items zero bytes = ([], bytes)
decode_items (suc n) bytes =
    let first = decode_bytes bytes in
    let others = decode_items n first.1 in (first.0 ∷ others.0, others.1)

-- For byte strings whose lengths are below 2^64, and anything behind them, the payload that the
-- encoder writes is decoded by an RLP decoder to the same strings in the same order, and to what
-- stands behind them.
pub decode_items-rlp_payload :
    (items : List (List ℕ)) (rest : List ℕ)
    → IsMeasured items
    → decode_items (length items) (rlp_payload items ++ rest) ≡ (items, rest)
unfolding decode_items rlp_payload IsMeasured
decode_items-rlp_payload [] rest m = refl
decode_items-rlp_payload (i ∷ is) rest m =
    rw
      (
        append_assoc (rlp_encode_bytes i) (rlp_payload is) rest,
        decode_bytes-rlp_encode_bytes i (rlp_payload is ++ rest) m.0,
        decode_items-rlp_payload is rest m.1,
      )
      refl
