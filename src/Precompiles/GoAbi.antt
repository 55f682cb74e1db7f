-- ===== src/Precompiles/GoAbi.antt =====
-- crates/arb-revm/src/precompiles/go_abi.rs: go-ethereum's walk over the arguments of a call. Offsets
-- and lengths are machine words of 64 bits.
pub mod Range
use arbitrum_revm.Prelude.{
  ℕ, zero, suc, ◌+◌, ◌-◌, ◌*◌, ◌/◌, ◌^◌, Bool, true, false, ◌&&◌, ◌||◌, Option, none, some, List,
  [], ◌∷◌, length, take, drop, ltb, leb, ◌==◌, if◌then◌else◌,
}
use arbitrum_revm.Words.{u64_max, mul64}
use arbitrum_revm.Storage.{from_be_bytes}

mutual
  pub data Ty : Type 0 where
    uint : ℕ → Ty
    int : ℕ → Ty
    bool : Ty
    address : Ty
    fixed_bytes : Ty
    bytes : Ty
    string : Ty
    array : Ty → ℕ → Ty
    slice : Ty → Ty
    tuple : Tys → Ty

  pub data Tys : Type 0 where
    end : Tys
    next : Ty → Tys → Tys

unfoldable mutual
  pub is_dynamic : Ty → Bool
  is_dynamic bytes = true
  is_dynamic string = true
  is_dynamic (slice t) = true
  is_dynamic (array t n) = is_dynamic t
  is_dynamic (tuple ts) = any_dynamic ts
  is_dynamic (uint n) = false
  is_dynamic (int n) = false
  is_dynamic bool = false
  is_dynamic address = false
  is_dynamic fixed_bytes = false

  pub any_dynamic : Tys → Bool
  any_dynamic end = false
  any_dynamic (next t ts) = is_dynamic t || any_dynamic ts

-- Arrays and tuples, whose static values stand inline.
abbrev pub is_inline : Ty → Bool
is_inline (array t n) = true
is_inline (tuple ts) = true
is_inline t = false

unfoldable mutual
  pub head_size : Ty → ℕ
  head_size (array t n) =
      if is_dynamic t then 32 else if is_inline t then mul64 n (head_size t) else mul64 n 32
  head_size (tuple ts) = if any_dynamic ts then 32 else head_sizes ts
  head_size (uint n) = 32
  head_size (int n) = 32
  head_size bool = 32
  head_size address = 32
  head_size fixed_bytes = 32
  head_size bytes = 32
  head_size string = 32
  head_size (slice t) = 32

  pub head_sizes : Tys → ℕ
  head_sizes end = 0
  head_sizes (next t ts) = head_size t + head_sizes ts

unfoldable pub all_are : ℕ → List ℕ → Bool
all_are fill [] = true
all_are fill (b ∷ bs) = if b == fill then all_are fill bs else false

unfoldable pub word_at : ℕ → List ℕ → List ℕ
word_at index output = take 32 (drop index output)

unfoldable pub word_u64 : List ℕ → Option ℕ
word_u64 word =
    if all_are 0 (take 24 word) then some (from_be_bytes 0 (take 8 (drop 24 word))) else none

-- The start of what is measured by the word before it.
unfoldable pub measured : ℕ → List ℕ → Option ℕ → Option (ℕ × ℕ)
measured start output none = none
measured start output (some len) =
    if leb (2 ^ 63) (start + len) || ltb (length output) (start + len)
    then none
    else some (start, len)

unfoldable pub prefix_at : List ℕ → Option ℕ → Option (ℕ × ℕ)
prefix_at output none = none
prefix_at output (some offset) =
    if ltb (length output) (offset + 32) || leb (2 ^ 63) (offset + 32)
    then none
    else measured (offset + 32) output (word_u64 (word_at offset output))

unfoldable pub length_prefix : ℕ → List ℕ → Option (ℕ × ℕ)
length_prefix index output = prefix_at output (word_u64 (word_at index output))

abbrev pub cut : List ℕ → Option (ℕ × ℕ) → Option (List ℕ)
cut octets none = none
cut octets (some (begin, len)) =
    if ltb (length octets) (begin + len) then none else some (take len (drop begin octets))

unfoldable pub raw_bytes_arg : List ℕ → ℕ → Option (List ℕ)
raw_bytes_arg octets index =
    if ltb (length octets) (index * 32 + 32)
    then none
    else cut octets (length_prefix (index * 32) octets)

abbrev pub is_some : {A : Type 0} → Option A → Bool
is_some none = false
is_some (some a) = true

abbrev pub is_checked_width : ℕ → Bool
is_checked_width bits = bits == 8 || bits == 16 || bits == 32 || bits == 64

abbrev pub fits : ℕ → Option ℕ → Bool
fits bits none = false
fits bits (some v) = bits == 64 || v / 2 ^ bits == 0

unfoldable pub uint_ok : ℕ → List ℕ → Bool
uint_ok bits word = if is_checked_width bits then fits bits (word_u64 word) else true

abbrev pub first_of : List ℕ → ℕ
first_of [] = 0
first_of (b ∷ bs) = b

abbrev pub same : Bool → Bool → Bool
same true b = b
same false b = if b then false else true

-- Sign-extended two's complement of that width.
unfoldable pub int_ok : ℕ → List ℕ → Bool
int_ok bits word =
    if is_checked_width bits
    then (let negative = leb 0x80 (first_of word) in
        let width = bits / 8 in
        all_are (if negative then 0xff else 0) (take (32 - width) word)
        && same (leb 0x80 (first_of (drop (32 - width) word))) negative)
    else true

unfoldable pub bool_ok : List ℕ → Bool
bool_ok word = all_are 0 (take 31 word) && leb (first_of (drop 31 word)) 1

-- `for _ in 0..size`, by steps, of a check at an offset.
unfoldable pub each_from : (ℕ → Bool) → ℕ → ℕ → ℕ → Bool
each_from ok_at step zero at = true
each_from ok_at step (suc n) at =
    let rest = each_from ok_at step n (at + step) in
    if ok_at at then (if leb (at + step) u64_max then rest else false) else false

abbrev pub within : List ℕ → ℕ → Bool
within output size = leb (size * 32) (length output)

abbrev pub in_bounds : ℕ → List ℕ → Bool
in_bounds index output = leb (index + 32) (length output)

-- How many words more than one a value takes inline; every static array and tuple takes one at least.
unfoldable pub more_words : Ty → ℕ
more_words t = if is_inline t then (if is_dynamic t then 0 else head_size t / 32 - 1) else 0

unfoldable mutual
  pub value_ok : Ty → ℕ → List ℕ → Bool
  value_ok (uint bits) index output = in_bounds index output && uint_ok bits (word_at index output)
  value_ok (int bits) index output = in_bounds index output && int_ok bits (word_at index output)
  value_ok bool index output = in_bounds index output && bool_ok (word_at index output)
  value_ok address index output = in_bounds index output
  value_ok fixed_bytes index output = in_bounds index output
  value_ok bytes index output = in_bounds index output && is_some (length_prefix index output)
  value_ok string index output = in_bounds index output && is_some (length_prefix index output)
  value_ok (slice t) index output = in_bounds index output && elim (length_prefix index output) [
    | none ↦ false
    | some (begin, len) ↦
        within (drop begin output) len
        && each_from (λ at. value_ok t at (drop begin output)) (head_size t) len 0
  ]
  value_ok (array t n) index output =
      let offset = from_be_bytes 0 (drop 24 (word_at index output)) in
      let start = if is_dynamic t then offset else index in
      in_bounds index output
      && leb start (length output)
      && within (drop start output) n
      && each_from (λ at. value_ok t at (drop start output)) (head_size t) n 0
  value_ok (tuple ts) index output =
      in_bounds index output
      && (if any_dynamic ts
          then elim (word_u64 (word_at index output)) [
            | none ↦ false
            | some offset ↦
                leb offset (length output)
                && ltb offset (2 ^ 63)
                && values_ok ts 0 (drop offset output)
          ]
          else values_ok ts 0 (drop index output))

  -- `tuple_ok`, from the word where the next head stands.
  pub values_ok : Tys → ℕ → List ℕ → Bool
  values_ok end word output = true
  values_ok (next t ts) word output =
      value_ok t (word * 32) output && values_ok ts (word + 1 + more_words t) output

-- `args_ok`, for parameters that are parsed.
unfoldable pub params_ok : Tys → List ℕ → Bool
params_ok end [] = true
params_ok (next t ts) [] = false
params_ok ts (b ∷ octets) = values_ok ts 0 (b ∷ octets)
