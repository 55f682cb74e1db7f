-- ===== src/Storage/Bytes/RoundTrip.antt =====
-- crates/arb-revm/src/storage/bytes.rs: writing a byte string and reading it.
use native.Mathlib.Decide.{dec_le}
use arbitrum_revm.Prelude.{
  ℕ, zero, suc, ◌+◌, ◌-◌, ◌^◌, ◌≤◌, ◌<◌, ◌≡◌, ◌≢◌, refl, ap, sym, ◌∙◌, arith, List, [], ◌∷◌, ◌++◌,
  true, false, leb, ltb, length, take, drop, take-append_drop, length-drop, length-take, take-all,
  drop-length_append,
}
use arbitrum_revm.Words.{u64_max, add64, sat_add-eq, sat_add-le}
use arbitrum_revm.Exec.{Journal, Host, ok}
use arbitrum_revm.Storage.{
  StorageSpace, IsApart, slot_for_hash, be_bytes, from_be_bytes, get, set, put, get_u256,
  get_u64-eq, get-set_self, get-set_ne,
}
use arbitrum_revm.Storage.Digits.{
  IsBytes, take-IsBytes, drop-IsBytes, length-be_bytes, be_bytes-from_be_bytes, word-whole,
}
use arbitrum_revm.Storage.Bytes.{
  size, get_from, get_bytes, write_chunks, set_fresh, clear_from, clear, set_bytes,
}

word-short :
    (xs : List ℕ)
    → IsBytes xs
    → length xs ≤ 32
    → drop (32 - length xs) (be_bytes 32 (from_be_bytes 0 xs)) ≡ xs
word-short xs b le =
    let m = 32 - length xs in
    let n : length xs + m ≡ 32 = omega (arith, le) in
    let digits =
      ap (λ k. be_bytes k (from_be_bytes 0 xs)) (sym n) ∙ be_bytes-from_be_bytes xs m 0 b in
    ap (drop m) digits
    ∙ ap (λ k. drop k (be_bytes m 0 ++ xs)) (sym (length-be_bytes m 0))
    ∙ drop-length_append (be_bytes m 0) xs

module _ ⦃h : Host⦄ (s : StorageSpace) (apart : IsApart s) where
  abbrev chunk : List ℕ → ℕ
  chunk value = from_be_bytes 0 (take 32 value)

  abbrev written : ℕ → List ℕ → ℕ → Journal → Journal
  written fuel value offset j = (write_chunks s fuel value offset j).1

  not_within : (a b : ℕ) → b < a → leb a b ≡ false
  not_within a b lt = ground arith

  before : (a b : ℕ) → a < b → ltb a b ≡ true
  before a b lt = ground arith

  within : (a b : ℕ) → a ≤ b → leb a b ≡ true
  within a b le = ground arith

  -- The rounds of the two loops.
  write_end : (fuel offset : ℕ) (j : Journal) → write_chunks s fuel [] offset j ≡ (ok tt, j)
  unfolding write_chunks
  write_end zero offset j = refl
  write_end (suc fuel) offset j = refl

  write_step :
      (fuel offset : ℕ) (value : List ℕ) (j : Journal)
      → 0 < length value
      → offset < u64_max
      → write_chunks s (suc fuel) value offset j
        ≡ write_chunks s fuel (drop 32 value) (offset + 1) (set s offset (chunk value) j)
  unfolding write_chunks put
  write_step fuel offset value j lt room =
      rw (sat_add-eq u64_max offset 1 (omega (arith, room))) (ground (arith, lt))

  read_end : (fuel offset : ℕ) (j : Journal) → get_from s fuel 0 offset j ≡ (ok [], j)
  unfolding get_from
  read_end zero offset j = refl
  read_end (suc fuel) offset j = refl

  read_last :
      (fuel left offset : ℕ) (j : Journal)
      → 0 < left
      → left < 32
      → get_from s (suc fuel) left offset j
        ≡ (ok (drop (32 - left) (be_bytes 32 (get s offset j))), j)
  unfolding get_from get_u256
  read_last fuel left offset j pos lt = rw (not_within 32 left lt) (rw (before 0 left pos))

  read_step :
      (fuel left offset : ℕ) (value : List ℕ) (j : Journal)
      → 32 ≤ left
      → offset < u64_max
      → get_from s fuel (left - 32) (offset + 1) j ≡ (ok value, j)
      → get_from s (suc fuel) left offset j ≡ (ok (be_bytes 32 (get s offset j) ++ value), j)
  unfolding get_from get_u256
  read_step fuel left offset value j le room e =
      rw (sat_add-eq u64_max offset 1 (omega (arith, room))) (rw (within 32 left le) (rw e))

  -- A chunk in its slot is read back in front of the rest.
  read_back :
      (more offset : ℕ) (value : List ℕ) (k : Journal)
      → IsBytes value
      → 0 < length value
      → offset < u64_max
      → get s offset k ≡ chunk value
      → get_from s more (length (drop 32 value)) (offset + 1) k ≡ (ok (drop 32 value), k)
      → get_from s (suc more) (length value) offset k ≡ (ok value, k)
  read_back more offset value k bytes pos room word rest = elim (dec_le 32 (length value)) [
    | yes le ↦
        read_step more (length value) offset (drop 32 value) k le room
          (ap (λ n. get_from s more n (offset + 1) k) (sym (length-drop 32 value)) ∙ rest)
        ∙ ap (λ w. (ok (be_bytes 32 w ++ drop 32 value), k)) word
        ∙ ap (λ l. (ok (l ++ drop 32 value), k))
            (word-whole (take 32 value) (take-IsBytes 32 value bytes) (length-take 32 value le))
        ∙ ap (λ l. (ok l, k)) (take-append_drop 32 value)
    | no lt ↦
        read_last more (length value) offset k pos (omega (arith, lt))
        ∙ ap (λ w. (ok (drop (32 - length value) (be_bytes 32 w)), k))
            (word ∙ ap (from_be_bytes 0) (take-all 32 value (omega (arith, lt))))
        ∙ ap (λ l. (ok l, k)) (word-short value bytes (omega (arith, lt)))
  ]

  -- The loop of writes reports no error, keeps the slots before it, and the loop of reads gives back
  -- what it wrote.
  write-read :
      (fuel more offset : ℕ) (value : List ℕ) (j : Journal)
      → IsBytes value
      → length value < fuel
      → length value < more
      → offset + length value < u64_max
      → ((write_chunks s fuel value offset j).0 ≡ ok tt)
        × ((k : ℕ) → k < offset → get s k (written fuel value offset j) ≡ get s k j)
        × (get_from s more (length value) offset (written fuel value offset j)
            ≡ (ok value, written fuel value offset j))
  write-read fuel more offset [] j bytes a b room =
      let e = write_end fuel offset j in
      (
        ap (λ r. r.0) e,
        λ k lt. ap (λ r. get s k r.1) e,
        read_end more offset (written fuel [] offset j),
      )
  write-read zero more offset (x ∷ xs) j bytes a b room = absurd (omega (arith, a))
  write-read (suc fuel) zero offset (x ∷ xs) j bytes a b room = absurd (omega (arith, b))
  write-read (suc fuel) (suc more) offset (x ∷ xs) j bytes a b room =
      let value = x ∷ xs in
      let pos : 0 < length value = omega arith in
      let j' = set s offset (chunk value) j in
      let short = length-drop 32 value in
      let rest =
        write-read fuel more (offset + 1) (drop 32 value) j' (drop-IsBytes 32 value bytes)
          (omega (arith, a, short)) (omega (arith, b, short)) (omega (arith, room, short)) in
      let e = write_step fuel offset value j pos (omega (arith, room)) in
      let k = written fuel (drop 32 value) (offset + 1) j' in
      let same : written (suc fuel) value offset j ≡ k = ap (λ r. r.1) e in
      let word : get s offset k ≡ chunk value =
        rest.1 offset (omega arith) ∙ get-set_self s offset (chunk value) j in
      (
        ap (λ r. r.0) e ∙ rest.0,
        λ i lt.
            ap (get s i) same
            ∙ rest.1 i (omega (arith, lt))
            ∙ get-set_ne s s offset i (chunk value) j (
                apart offset i (omega (arith, room)) (omega (arith, room, lt)) (omega (arith, lt))),
        ap (λ t. get_from s (suc more) (length value) offset t) same
            ∙ read_back more offset value k bytes pos (omega (arith, room)) word rest.2
            ∙ ap (λ t. (ok value, t)) (sym same),
      )

  -- A byte string of less than 2 ^ 64 - 2 bytes is written and then read back, and its length is
  -- read as its size.
  pub get_bytes-set_fresh :
      (value : List ℕ) (j : Journal)
      → IsBytes value
      → length value + 1 < u64_max
      → ((set_fresh s value j).0 ≡ ok tt)
        × ((get_bytes s (set_fresh s value j).1).0 ≡ ok value)
        × ((size s (set_fresh s value j).1).0 ≡ ok (length value))
  unfolding set_fresh get_bytes size put
  get_bytes-set_fresh value j bytes fits =
      let n = length value in
      let both =
        write-read (suc n) (suc n) 1 value (set s 0 n j) bytes (omega arith) (omega arith)
          (omega (arith, fits)) in
      let k = written (suc n) value 1 (set s 0 n j) in
      let stored : get s 0 k ≡ n = both.1 0 (omega arith) ∙ get-set_self s 0 n j in
      let read = get_u64-eq s 0 k (omega (arith, stored, fits)) in
      (both.0, rw read (rw stored (rw both.2)), rw read (rw stored))

  clear_from-ok : (fuel left offset : ℕ) (j : Journal) → (clear_from s fuel left offset j).0 ≡ ok tt
  unfolding clear_from put
  clear_from-ok zero left offset j = refl
  clear_from-ok (suc fuel) left offset j =
      ground (arith, clear_from-ok fuel (left - 32) (add64 offset 1) (set s offset 0 j))

  pub clear-ok : (j : Journal) → get s 0 j < 2 ^ 64 → (clear s j).0 ≡ ok tt
  unfolding clear size put
  clear-ok j old = rw (get_u64-eq s 0 j old) (rw (clear_from-ok (suc (get s 0 j)) (get s 0 j) 1 j))

  -- Where the slots of the space do not collide and the old length fits a u64, a byte string of
  -- less than 2 ^ 64 - 2 bytes replaces the old one: the write succeeds, and the new string and
  -- its length are read back.
  pub get_bytes-set_bytes :
      (value : List ℕ) (j : Journal)
      → get s 0 j < 2 ^ 64
      → IsBytes value
      → length value + 1 < u64_max
      → ((set_bytes s value j).0 ≡ ok tt)
        × ((get_bytes s (set_bytes s value j).1).0 ≡ ok value)
        × ((size s (set_bytes s value j).1).0 ≡ ok (length value))
  unfolding set_bytes
  get_bytes-set_bytes value j old bytes fits =
      rw (clear-ok j old) (get_bytes-set_fresh value (clear s j).1 bytes fits)

  -- A slot of another space is not touched by clearing.
  clear_from-far :
      (t : StorageSpace) (k fuel left offset : ℕ) (j : Journal)
      → ((i : ℕ) → i < 2 ^ 64 → slot_for_hash s i ≢ slot_for_hash t k)
      → offset < 2 ^ 64
      → get t k (clear_from s fuel left offset j).1 ≡ get t k j
  unfolding clear_from put
  clear_from-far t k zero left offset j far lt = refl
  clear_from-far t k (suc fuel) left offset j far lt = ground (
    arith,
    clear_from-far t k fuel (left - 32) (add64 offset 1) (set s offset 0 j) far
          (omega (arith, sat_add-le u64_max offset 1))
        ∙ get-set_ne s t offset k 0 j (far offset lt),
  )

  pub clear-far :
      (t : StorageSpace) (k : ℕ) (j : Journal)
      → ((i : ℕ) → i < 2 ^ 64 → slot_for_hash s i ≢ slot_for_hash t k)
      → get s 0 j < 2 ^ 64
      → get t k (clear s j).1 ≡ get t k j
  unfolding clear size put
  clear-far t k j far old =
      let n = get s 0 j in
      let swept = (clear_from s (suc n) n 1 j).1 in
      rw (get_u64-eq s 0 j old) (
        rw (clear_from-ok (suc n) n 1 j) (
          get-set_ne s t 0 k 0 swept (far 0 (omega arith))
          ∙ clear_from-far t k (suc n) n 1 j far (omega arith)))
