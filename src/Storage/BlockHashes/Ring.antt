-- ===== src/Storage/BlockHashes/Ring.antt =====
-- crates/arb-revm/src/storage/block_hashes.rs: the ring after a new L1 block is recorded.
use native.Mathlib.Decide.{ℕ_discrete, dec_le}
use arbitrum_revm.Prelude.{
  ℕ, zero, suc, ◌+◌, ◌-◌, ◌%◌, ◌^◌, ◌≤◌, ◌<◌, ◌≡◌, ◌≢◌, refl, ap, arith, false, ◌∙◌, ltb,
  if◌then◌else◌,
}
use arbitrum_revm.Words.{add64, u64_max, sat_add, sat_add-eq}
use arbitrum_revm.Exec.{Journal, Host, ok}
use arbitrum_revm.Storage.{
  StorageSpace, IsApart, get, set, put, get_u256, get_u64-eq, get-set_self, get-set_ne,
}
use arbitrum_revm.Storage.BlockHashes.{
  block_hash, set_block_hash, fill, fill_gap, record_new_l1_block,
}

-- Two blocks of one window of 256 have different places.
place_ne : (a b : ℕ) → a < b → b < a + 256 → 1 + b % 256 ≢ 1 + a % 256
place_ne a b lt le e = omega (arith, e)

module _ ⦃h : Host⦄ (s : StorageSpace) (apart : IsApart s) (hash version : ℕ) where
  -- One place is written, the others stay.
  set_block_hash-place :
      (b v i : ℕ) (j : Journal)
      → i < 2 ^ 64
      → i ≢ 1 + b % 256
      → get s i (set_block_hash s b v j).1 ≡ get s i j
  unfolding set_block_hash put
  set_block_hash-place b v i j lt ne =
      get-set_ne s s (1 + b % 256) i v j
        (apart (1 + b % 256) i (omega arith) lt (λ e. ne (omega (arith, e))))

  set_block_hash_self : (b v : ℕ) (j : Journal) → get s (1 + b % 256) (set_block_hash s b v j).1 ≡ v
  unfolding set_block_hash put
  set_block_hash_self b v j = get-set_self s (1 + b % 256) v j

  stop :
      (next number : ℕ) → number ≤ u64_max → number ≤ next + 1 → ltb (add64 next 1) number ≡ false
  unfolding sat_add
  stop next number le done = ground arith

  abbrev gap : ℕ → ℕ → ℕ → Journal → Journal
  gap fuel next number j = (fill_gap s fuel next number hash version j).1

  -- The rounds of the loop: an end, and a step.
  gap_end :
      (fuel next number : ℕ) (j : Journal)
      → number ≤ u64_max
      → number ≤ next + 1
      → fill_gap s fuel next number hash version j ≡ (ok tt, j)
  unfolding fill_gap
  gap_end zero next number j le done = refl
  gap_end (suc fuel) next number j le done = rw (stop next number le done)

  gap_step :
      (fuel next number : ℕ) (j : Journal)
      → number ≤ u64_max
      → next + 1 < number
      → fill_gap s (suc fuel) next number hash version j
        ≡ fill_gap s fuel
            (next + 1)
            number
            hash
            version
            (set_block_hash s (next + 1) (fill s hash version (next + 1)) j).1
  unfolding fill_gap set_block_hash put
  gap_step fuel next number j le lt =
      rw (sat_add-eq u64_max next 1 (omega (arith, le, lt))) (ground arith)

  -- The loop reports no error, fills the places strictly between `next` and `number`, and keeps
  -- the other slots.
  fill_gap_lem :
      (fuel next number : ℕ) (j : Journal)
      → number ≤ next + fuel
      → number ≤ u64_max
      → number ≤ next + 256
      → ((fill_gap s fuel next number hash version j).0 ≡ ok tt)
        × ((b : ℕ)
            → next < b
            → b < number
            → get s (1 + b % 256) (gap fuel next number j) ≡ fill s hash version b)
        × ((i : ℕ)
            → i < 2 ^ 64
            → ((b : ℕ) → next < b → b < number → i ≢ 1 + b % 256)
            → get s i (gap fuel next number j) ≡ get s i j)
  fill_gap_lem zero next number j enough le near =
      let e = gap_end zero next number j le (omega (arith, enough)) in
      (
        ap (λ r. r.0) e,
        λ b p q. absurd (omega (arith, enough, p, q)),
        λ i lt away. ap (λ r. get s i r.1) e,
      )
  fill_gap_lem (suc fuel) next number j enough le near = elim (dec_le (next + 2) number) [
    | no done ↦
        let e = gap_end (suc fuel) next number j le (omega (arith, done)) in
        (
          ap (λ r. r.0) e,
          λ b p q. absurd (omega (arith, done, p, q)),
          λ i lt away. ap (λ r. get s i r.1) e,
        )
    | yes more ↦
        let j' = (set_block_hash s (next + 1) (fill s hash version (next + 1)) j).1 in
        let rest =
          fill_gap_lem fuel (next + 1) number j' (omega (arith, enough)) le (omega (arith, near)) in
        let e = gap_step fuel next number j le (omega (arith, more)) in
        (
          ap (λ r. r.0) e ∙ rest.0,
          λ b p q. ap (λ r. get s (1 + b % 256) r.1) e ∙ (elim (ℕ_discrete b (next + 1)) [
            | yes same ↦ rw same (
                rest.2 (1 + (next + 1) % 256) (omega arith)
                  (λ c u v e. place_ne (next + 1) c u (omega (arith, v, near)) (omega (arith, e)))
                ∙ set_block_hash_self (next + 1) (fill s hash version (next + 1)) j)
            | no ne ↦ rest.1 b (omega (arith, p, ne)) q
          ]),
          λ i lt away.
              ap (λ r. get s i r.1) e
              ∙ rest.2 i lt (λ b p q. away b (omega (arith, p)) q)
              ∙ set_block_hash-place (next + 1) (fill s hash version (next + 1)) i j lt
                  (away (next + 1) (omega arith) (omega (arith, more))),
        )
  ]

  -- The block from which the loop runs.
  start : ℕ → ℕ → ℕ
  start next number = if ltb (next + 256) number then number - 256 else next

  abbrev pub recorded : ℕ → Journal → Journal
  recorded number j = (record_new_l1_block s number hash version j).1

  not_before : (a b : ℕ) → a ≤ b → ltb b a ≡ false
  not_before a b le = ground arith

  start_near : (next number : ℕ) → number ≤ start next number + 256
  unfolding start
  start_near next number = ground arith

  filled : (number : ℕ) (j : Journal) → Journal
  filled number j = gap (number - start (get s 0 j) number) (start (get s 0 j) number) number j

  gap_result :
      (number : ℕ) (j : Journal)
      → get s 0 j ≤ number
      → number + 256 < 2 ^ 64
      → (fill_gap s
          (number - start (get s 0 j) number)
          (start (get s 0 j) number)
          number
          hash
          version
          j).0
        ≡ ok tt
  gap_result number j le lt =
      (fill_gap_lem (number - start (get s 0 j) number) (start (get s 0 j) number) number j
        (omega arith) (omega (arith, lt)) (start_near (get s 0 j) number)).0

  record_eq :
      (number : ℕ) (j : Journal)
      → get s 0 j ≤ number
      → number + 256 < 2 ^ 64
      → record_new_l1_block s number hash version j
        ≡ (ok tt, set s 0 (number + 1) (set s (1 + number % 256) hash (filled number j)))
  unfolding record_new_l1_block filled start set_block_hash put
  record_eq number j le lt = rw (get_u64-eq s 0 j (omega (arith, le, lt))) (
      rw
        (
          sat_add-eq u64_max (get s 0 j) 256 (omega (arith, le, lt)),
          sat_add-eq u64_max number 1 (omega (arith, lt)),
        )
        (rw (not_before (get s 0 j) number le) (rw (gap_result number j le lt))))

  -- A read of a block of the window, where the cursor is known.
  read_block :
      (number b : ℕ) (k : Journal)
      → get s 0 k ≡ number + 1
      → number + 256 < 2 ^ 64
      → b ≤ number
      → number ≤ b + 255
      → (block_hash s b k).0 ≡ ok (get s (1 + b % 256) k)
  unfolding block_hash get_u256
  read_block number b k cursor lt le near =
      rw (get_u64-eq s 0 k (omega (arith, cursor, lt))) (rw cursor (ground (arith, lt, le, near)))

  -- The slots of the journal after the record.
  cursor_after :
      (number : ℕ) (j : Journal)
      → get s 0 j ≤ number
      → number + 256 < 2 ^ 64
      → get s 0 (recorded number j) ≡ number + 1
  cursor_after number j le lt =
      ap (λ r. get s 0 r.1) (record_eq number j le lt)
      ∙ (get-set_self s 0 (number + 1) (set s (1 + number % 256) hash (filled number j)))

  place_after :
      (number b : ℕ) (j : Journal)
      → get s 0 j ≤ number
      → number + 256 < 2 ^ 64
      → b < number
      → number ≤ b + 255
      → get s (1 + b % 256) (recorded number j) ≡ get s (1 + b % 256) (filled number j)
  place_after number b j le lt before near =
      ap (λ r. get s (1 + b % 256) r.1) (record_eq number j le lt)
      ∙ (get-set_ne s s 0 (1 + b % 256) (number + 1)
            (set s (1 + number % 256) hash (filled number j))
            (apart 0 (1 + b % 256) (omega arith) (omega arith) (omega arith))
          ∙ get-set_ne s s (1 + number % 256) (1 + b % 256) hash (filled number j) (
              apart (1 + number % 256) (1 + b % 256) (omega arith) (omega arith)
                (place_ne b number before (omega (arith, near)))))

  hash_after :
      (number : ℕ) (j : Journal)
      → get s 0 j ≤ number
      → number + 256 < 2 ^ 64
      → get s (1 + number % 256) (recorded number j) ≡ hash
  hash_after number j le lt =
      ap (λ r. get s (1 + number % 256) r.1) (record_eq number j le lt)
      ∙ (get-set_ne s s 0 (1 + number % 256) (number + 1)
            (set s (1 + number % 256) hash (filled number j))
            (apart 0 (1 + number % 256) (omega arith) (omega arith) (omega arith))
          ∙ get-set_self s (1 + number % 256) hash (filled number j))

  -- The places of the window after the loop.
  filled_after :
      (number b : ℕ) (j : Journal)
      → number + 256 < 2 ^ 64
      → get s 0 j < b
      → b < number
      → number ≤ b + 255
      → get s (1 + b % 256) (filled number j) ≡ fill s hash version b
  unfolding filled start
  filled_after number b j lt above before near =
      (fill_gap_lem (number - start (get s 0 j) number) (start (get s 0 j) number) number j
          (omega arith) (omega (arith, lt)) (start_near (get s 0 j) number)).1
        b (ground arith) before

  kept_after :
      (number b : ℕ) (j : Journal)
      → number + 256 < 2 ^ 64
      → b ≤ get s 0 j
      → b < number
      → number ≤ b + 255
      → get s (1 + b % 256) (filled number j) ≡ get s (1 + b % 256) j
  unfolding filled start
  kept_after number b j lt below before near =
      (fill_gap_lem (number - start (get s 0 j) number) (start (get s 0 j) number) number j
          (omega arith) (omega (arith, lt)) (start_near (get s 0 j) number)).2
        (1 + b % 256) (omega arith)
        (λ c p q e. place_ne b c (ground arith) (omega (arith, q, near)) (omega (arith, e)))

  window :
      (number b : ℕ) (j : Journal)
      → number + 256 < 2 ^ 64
      → b < number
      → number ≤ b + 255
      → get s (1 + b % 256) (filled number j)
        ≡ (if ltb (get s 0 j) b then fill s hash version b else get s (1 + b % 256) j)
  window number b j lt before near = elim (dec_le (get s 0 j + 1) b) [
    | yes above ↦
        ground (arith, above, filled_after number b j lt (omega (arith, above)) before near)
    | no below ↦ ground (arith, below, kept_after number b j lt (omega (arith, below)) before near)
  ]

  -- Where the slots of the space do not collide, the cursor `next` holds a block not above
  -- `number`, and `number` + 256 fits a u64, recording `number` succeeds and the cursor comes
  -- after it. A read of `number` then returns the reported hash, and a read of any of the 255
  -- blocks before it the filling hash where the block comes after `next`, and what its place held
  -- before otherwise.
  pub record_new_l1_block_lem :
      (number b : ℕ) (j : Journal)
      → get s 0 j ≤ number
      → number + 256 < 2 ^ 64
      → b < number
      → number ≤ b + 255
      → ((record_new_l1_block s number hash version j).0 ≡ ok tt)
        × (get s 0 (recorded number j) ≡ number + 1)
        × ((block_hash s number (recorded number j)).0 ≡ ok hash)
        × ((block_hash s b (recorded number j)).0
            ≡ ok (if ltb (get s 0 j) b then fill s hash version b else get s (1 + b % 256) j))
  record_new_l1_block_lem number b j le lt before near =
      let cursor = cursor_after number j le lt in
      let read = λ (b : ℕ). read_block number b (recorded number j) cursor lt in
      (
        ap (λ r. r.0) (record_eq number j le lt),
        cursor,
        read number (omega arith) (omega arith) ∙ ap ok (hash_after number j le lt),
        read b (omega (arith, before)) near
            ∙ ap ok (place_after number b j le lt before near ∙ window number b j lt before near),
      )
