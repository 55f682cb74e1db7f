-- ===== src/Storage/AddressSet.antt =====
-- crates/arb-revm/src/storage/address_set.rs: a set of addresses as a list in slots 1 to size and
-- a map from each address to its position. An address is a number below 2 ^ 160.
pub mod Invariant
pub mod Removal
use arbitrum_revm.Prelude.{
  ℕ, zero, suc, ◌+◌, ◌-◌, ◌%◌, ◌^◌, Bool, List, [], ◌∷◌, not, ◌==◌, ◌&&◌, ltb, leb, if◌then◌else◌,
}
use arbitrum_revm.Words.{add64}
use arbitrum_revm.Exec.{Host, Exec, pure, raise, ◌>>=◌, ◌>>◌, not_a_member, correctly_mapped}
use arbitrum_revm.Storage.{StorageSpace, open_subspace_with_key, get_u64, get_u256, put}

module _ ⦃h : Host⦄ (backing : StorageSpace) where
  abbrev pub by_address : StorageSpace
  by_address = open_subspace_with_key backing 0

  unfoldable pub is_member : ℕ → Exec Bool
  is_member address = do position ← get_u256 by_address address; pure (not (position == 0))

  unfoldable pub add : ℕ → Exec (Unit {0})
  add address = do
    member ← is_member address
    if member then pure tt else do
      size ← get_u64 backing 0
      put by_address address (add64 size 1)
      put backing (add64 size 1) address
      put backing 0 (add64 size 1)

  -- `for i in i..i + n`
  unfoldable pub members_from : ℕ → ℕ → Exec (List ℕ)
  members_from zero i = pure []
  members_from (suc n) i = do
    raw ← get_u256 backing i
    rest ← members_from n (i + 1)
    pure (raw % 2 ^ 160 ∷ rest)

  unfoldable pub all_members : Exec (List ℕ)
  all_members = do size ← get_u64 backing 0; members_from size 1

  unfoldable pub clear_from : ℕ → ℕ → Exec (Unit {0})
  clear_from zero i = pure tt
  clear_from (suc n) i = do
    address ← get_u256 backing i
    put backing i 0
    put by_address address 0
    clear_from n (i + 1)

  unfoldable pub clear : Exec (Unit {0})
  clear = do
    size ← get_u64 backing 0
    if size == 0 then pure tt else do clear_from size 1; put backing 0 0

  unfoldable pub clear_list_from : ℕ → ℕ → Exec (Unit {0})
  clear_list_from zero i = pure tt
  clear_list_from (suc n) i = do put backing i 0; clear_list_from n (i + 1)

  unfoldable pub clear_list : Exec (Unit {0})
  clear_list = do
    size ← get_u64 backing 0
    if size == 0 then pure tt else do clear_list_from size 1; put backing 0 0

  unfoldable pub rectify_mapping : ℕ → Exec (Unit {0})
  rectify_mapping address = do
    member ← is_member address
    if not member then raise not_a_member else do
      position ← get_u256 by_address address
      at_position ← get_u256 backing position
      size ← get_u64 backing 0
      if at_position == address && leb position size
          then raise correctly_mapped
          else do put by_address address 0; add address

  unfoldable pub remove : ℕ → ℕ → Exec (Unit {0})
  remove address arbos_version = do
    position ← get_u256 by_address address
    if position == 0 then pure tt else do
      put by_address address 0
      size ← get_u64 backing 0
      (if ltb position size
          then (do
            last_address ← get_u256 backing size
            put backing position last_address
            if leb 11 arbos_version then put by_address last_address position else pure tt)
          else pure tt)
      put backing size 0
      put backing 0 (size - 1)
