-- ===== src/Storage/SendMerkle.antt =====
-- crates/arb-revm/src/storage/send_merkle.rs: the accumulator of L2 to L1 sends. The partial of
-- level i, at slot 2 + i, is the root of a full tree of 2 ^ i leaves, or zero.
use arbitrum_revm.Prelude.{
  ℕ, zero, suc, ◌+◌, ◌-◌, ◌/◌, Option, none, some, List, [], ◌∷◌, ◌++◌, ltb, ◌==◌, if◌then◌else◌,
}
use arbitrum_revm.Words.{add64, mul64}
use arbitrum_revm.Exec.{Host, Exec, pure, ◌>>=◌, ◌>>◌}
use arbitrum_revm.Storage.{StorageSpace, be_bytes, get_u64, get_u256, put}

-- `64 - size.leading_zeros()`, for a size below 2 ^ fuel
pub bit_length : ℕ → ℕ → ℕ
bit_length zero n = 0
bit_length (suc fuel) n = let rest = bit_length fuel (n / 2) in if n == 0 then 0 else suc rest

pub partial_count_for_size : ℕ → ℕ
unfolding bit_length
partial_count_for_size size = if size == 0 then 0 else bit_length 64 size

pub record SendMerkleUpdateEvent : Type 0 where
  pub level : ℕ
  pub num_leaves : ℕ
  pub hash : ℕ

module _ ⦃h : Host⦄ where
  pub keccak_concat : ℕ → ℕ → ℕ
  keccak_concat left right = h.keccak (be_bytes 32 left ++ be_bytes 32 right)

  -- `while capacity_in_hash < capacity`: the capacity in the hash doubles, from 1 at least, so that
  -- 64 rounds are enough for a u64.
  pub pad : ℕ → ℕ → ℕ → ℕ → ℕ
  pad zero capacity_in_hash capacity current = current
  pad (suc fuel) capacity_in_hash capacity current =
      let rest = pad fuel (mul64 capacity_in_hash 2) capacity (keccak_concat current 0) in
      if ltb capacity_in_hash capacity then rest else current

  module _ (s : StorageSpace) where
    pub partial : ℕ → Exec ℕ
    partial level = get_u256 s (add64 2 level)

    pub set_partial : ℕ → ℕ → Exec (Unit {0})
    set_partial level value = put s (add64 2 level) value

    -- The loop of `append`, with `n` levels below `old_partial_count` left.
    pub append_from : ℕ → ℕ → ℕ → ℕ → Exec (List SendMerkleUpdateEvent)
    append_from zero level so_far new_size = do set_partial level so_far; pure []
    append_from (suc n) level so_far new_size = do
      this_level ← partial level
      let combined = h.keccak (be_bytes 32 this_level ++ be_bytes 32 so_far)
      let rest : Exec (List SendMerkleUpdateEvent) = (do
        set_partial level 0
        events ← append_from n (add64 level 1) combined new_size
        pure
            (record { level = add64 level 1; num_leaves = new_size - 1; hash = combined } ∷ events))
      if this_level == 0 then (do set_partial level so_far; pure []) else rest

    pub append : ℕ → Exec (List SendMerkleUpdateEvent)
    append item_hash = do
      old_size ← get_u64 s 0
      put s 0 (add64 old_size 1)
      append_from (partial_count_for_size old_size) 0 (h.keccak (be_bytes 32 item_hash))
          (add64 old_size 1)

    -- The loop of `root` over the levels from `level` on.
    pub root_from : ℕ → ℕ → ℕ → ℕ → Option ℕ → Exec (Option ℕ)
    root_from zero level capacity capacity_in_hash hash_so_far = pure hash_so_far
    root_from (suc n) level capacity capacity_in_hash hash_so_far = do
      value ← partial level
      if value == 0
          then root_from n (level + 1) (mul64 capacity 2) capacity_in_hash hash_so_far
          else elim hash_so_far [
            | none ↦ root_from n (level + 1) (mul64 capacity 2) capacity (some value)
            | some current ↦
                root_from n (level + 1) (mul64 capacity 2) (mul64 capacity 2)
                  (some (keccak_concat value (pad 64 capacity_in_hash capacity current)))
          ]

    pub root : Exec ℕ
    root = do
      size ← get_u64 s 0
      if size == 0 then pure 0 else do
        hash_so_far ← root_from (partial_count_for_size size) 0 1 0 none
        pure (elim hash_so_far [ none ↦ 0 | some hash ↦ hash ])

    pub partials_from : ℕ → ℕ → Exec (List ℕ)
    partials_from zero level = pure []
    partials_from (suc n) level = do
      value ← partial level
      rest ← partials_from n (level + 1)
      pure (value ∷ rest)

    pub state_for_export : Exec (ℕ × ℕ × List ℕ)
    state_for_export = do
      size ← get_u64 s 0
      hash ← root
      partials ← partials_from (partial_count_for_size size) 0
      pure (size, hash, partials)
