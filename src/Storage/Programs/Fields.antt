-- ===== src/Storage/Programs/Fields.antt =====
-- crates/arb-revm/src/storage/programs.rs: a field of a packed word against its other fields.
use mathlib.Core.List.{append_assoc}
use arbitrum_revm.Prelude.{
  ℕ, zero, suc, ◌+◌, ◌-◌, ◌^◌, ◌≤◌, ◌<◌, ◌≡◌, refl, ap, sym, ◌∙◌, ◌⊎◌, inl, inr, List, [], ◌∷◌,
  ◌++◌, length, take, drop, length-append, length-take, length-drop, take-append_drop,
  take-length_append, arith,
}
use arbitrum_revm.Storage.{be_bytes, from_be_bytes}
use arbitrum_revm.Storage.Digits.{length-be_bytes, from_be_bytes-be_bytes}
use arbitrum_revm.Storage.Programs.Word.{splice, pack_uint, unpack_uint}

take_within : (n : ℕ) (xs ys : List ℕ) → n ≤ length xs → take n (xs ++ ys) ≡ take n xs
take_within zero xs ys le = refl
take_within (suc n) [] ys le = absurd (omega arith)
take_within (suc n) (x ∷ xs) ys le = ap (λ l. x ∷ l) (take_within n xs ys (omega arith))

segment_within :
    (start n : ℕ) (xs ys : List ℕ)
    → start + n ≤ length xs
    → take n (drop start (xs ++ ys)) ≡ take n (drop start xs)
segment_within zero n xs ys le = take_within n xs ys (omega arith)
segment_within (suc start) n [] ys le = absurd (omega arith)
segment_within (suc start) n (x ∷ xs) ys le = segment_within start n xs ys (omega arith)

drop_beyond : (xs ys : List ℕ) (d : ℕ) → drop (length xs + d) (xs ++ ys) ≡ drop d ys
drop_beyond [] ys d = ap (λ k. drop k ys) (omega arith)
drop_beyond (x ∷ xs) ys d =
    let step : suc (length xs) + d ≡ suc (length xs + d) = omega arith in
    rw step (drop_beyond xs ys d)

drop_nil : (n : ℕ) → drop {A = ℕ} n [] ≡ []
drop_nil zero = refl
drop_nil (suc n) = refl

drop-drop : (k d : ℕ) (xs : List ℕ) → drop d (drop k xs) ≡ drop (k + d) xs
drop-drop zero d xs = ap (λ k. drop k xs) (omega arith)
drop-drop (suc k) d [] = drop_nil d ∙ sym (drop_nil (suc k + d))
drop-drop (suc k) d (x ∷ xs) =
    let step : suc k + d ≡ suc (k + d) = omega arith in rw step (drop-drop k d xs)

module _ (word : List ℕ) (start n value : ℕ) (room : start + n ≤ length word) where
  front : length (take start word) ≡ start
  front = length-take start word (omega (arith, room))

  wide : length (be_bytes n value) ≡ n
  wide = length-be_bytes n value

  split :
      pack_uint word start n value ≡ take start word ++ (be_bytes n value ++ drop (start + n) word)
  unfolding pack_uint splice
  split =
      append_assoc (take start word) (be_bytes n value)
        (drop (start + length (be_bytes n value)) word)
      ∙ ap (λ k. take start word ++ (be_bytes n value ++ drop (start + k) word)) wide

  pub unpack_uint-pack_uint :
      value < 256 ^ n → unpack_uint (pack_uint word start n value) start n ≡ value
  unfolding unpack_uint
  unpack_uint-pack_uint fits =
      let behind = be_bytes n value ++ drop (start + n) word in
      let index : start ≡ length (take start word) + 0 = omega (arith, front) in
      ap (λ w. from_be_bytes 0 (take n (drop start w))) split
      ∙ ap (λ k. from_be_bytes 0 (take n (drop k (take start word ++ behind)))) index
      ∙ ap (λ w. from_be_bytes 0 (take n w)) (drop_beyond (take start word) behind 0)
      ∙ ap (λ k. from_be_bytes 0 (take k behind)) (sym wide)
      ∙ ap (from_be_bytes 0) (take-length_append (be_bytes n value) (drop (start + n) word))
      ∙ from_be_bytes-be_bytes 0 n value fits
      ∙ omega arith

  -- A field that ends before this one, or begins after it.
  pub unpack_uint-pack_uint_apart :
      (other m : ℕ)
      → (other + m ≤ start) ⊎ (start + n ≤ other)
      → unpack_uint (pack_uint word start n value) other m ≡ unpack_uint word other m
  unfolding unpack_uint
  unpack_uint-pack_uint_apart other m (inl before) =
      let inside : other + m ≤ length (take start word) = omega (arith, front, before) in
      ap (λ w. from_be_bytes 0 (take m (drop other w))) split
      ∙ ap (from_be_bytes 0) (
          segment_within other m (take start word) (be_bytes n value ++ drop (start + n) word)
            inside
          ∙ sym (segment_within other m (take start word) (drop start word) inside)
          ∙ ap (λ w. take m (drop other w)) (take-append_drop start word))
  unpack_uint-pack_uint_apart other m (inr after) =
      let d = other - (start + n) in
      let behind = be_bytes n value ++ drop (start + n) word in
      let index : other ≡ length (take start word) + (length (be_bytes n value) + d) =
        omega (arith, front, wide, after) in
      let sum : start + n + d ≡ other = omega (arith, after) in
      ap (λ w. from_be_bytes 0 (take m (drop other w))) split
      ∙ ap (λ w. from_be_bytes 0 (take m w))
          (ap (λ k. drop k (take start word ++ behind)) index
            ∙ drop_beyond (take start word) behind (length (be_bytes n value) + d)
            ∙ drop_beyond (be_bytes n value) (drop (start + n) word) d
            ∙ drop-drop (start + n) d word
            ∙ ap (λ k. drop k word) sum)

  pub length-pack_uint : length (pack_uint word start n value) ≡ length word
  length-pack_uint =
      ap length split
      ∙ omega (
        arith,
        length-append {0} (take start word) (be_bytes n value ++ drop (start + n) word),
        length-append {0} (be_bytes n value) (drop (start + n) word),
        length-drop {0} (start + n) word,
        front,
        wide,
        room,
      )
