-- ===== src/Storage/AddressTable.antt =====
-- crates/arb-revm/src/storage/address_table.rs: addresses and their indices, both ways.
pub mod Registered
use arbitrum_revm.Prelude.{
  ℕ, ◌+◌, ◌-◌, ◌%◌, ◌^◌, Option, none, some, [], ltb, leb, ◌==◌, if◌then◌else◌,
}
use arbitrum_revm.Exec.{Host, Exec, pure, raise, ◌>>=◌, ◌>>◌, slot_out_of_range}
use arbitrum_revm.Storage.{StorageSpace, open_subspace, get_u64, get_u256, put}

module _ ⦃h : Host⦄ (backing : StorageSpace) where
  abbrev pub by_address : StorageSpace
  by_address = open_subspace backing []

  -- `u64::try_from(stored)? - 1`
  abbrev index_of : ℕ → Exec ℕ
  index_of stored = if ltb stored (2 ^ 64) then pure (stored - 1) else raise slot_out_of_range

  pub register : ℕ → Exec ℕ
  register address = do
    existing ← get_u256 by_address address
    if existing == 0
        then (do
          items ← get_u64 backing 0
          -- `+ 1` on a u64, which wraps in a release build; `- 1` at the end undoes it
          put backing ((items + 1) % 2 ^ 64) address
          put by_address address ((items + 1) % 2 ^ 64)
          put backing 0 ((items + 1) % 2 ^ 64)
          pure items)
        else index_of existing

  pub lookup : ℕ → Exec (Option ℕ)
  lookup address = do
    stored ← get_u256 by_address address
    if stored == 0 then pure none else do index ← index_of stored; pure (some index)

  pub lookup_index : ℕ → Exec (Option ℕ)
  lookup_index index = do
    len ← get_u64 backing 0
    if leb len index
        then pure none
        else do stored ← get_u256 backing (index + 1); pure (some (stored % 2 ^ 160))
