-- ===== src/Storage/BatchPosterTable.antt =====
-- crates/arb-revm/src/storage/batch_poster_table.rs: the batch posters and what each is owed.
pub mod Total
use arbitrum_revm.Prelude.{ℕ, ◌+◌, ◌-◌, Bool, leb, if◌then◌else◌}
use arbitrum_revm.Words.{u256_max}
use arbitrum_revm.Exec.{
  Host, Exec, pure, raise, ◌>>=◌, ◌>>◌, poster_registered, poster_unregistered,
}
use arbitrum_revm.Storage.{
  StorageSpace, be_bytes, open_subspace, open_subspace_with_key, get_u256, get_address, put,
}
use arbitrum_revm.Storage.AddressSet.{is_member, add}

-- `prev_total.checked_add(funds_due).and_then(|sum| sum.checked_sub(prev)).unwrap_or(U256::MAX)`
pub next_total_funds_due : ℕ → ℕ → ℕ → ℕ
next_total_funds_due total funds_due prev =
    if leb (total + funds_due) u256_max
    then (if leb prev (total + funds_due) then total + funds_due - prev else u256_max)
    else u256_max

module _ ⦃h : Host⦄ where
  unfoldable pub funds_due : StorageSpace → Exec ℕ
  funds_due state = get_u256 state 0

  unfoldable pub pay_to : StorageSpace → Exec ℕ
  pay_to state = get_address state 1

  unfoldable pub set_pay_to : StorageSpace → ℕ → Exec (Unit {0})
  set_pay_to state address = put state 1 address

module _ ⦃h : Host⦄ (s : StorageSpace) where
  abbrev pub poster_info : StorageSpace
  poster_info = open_subspace_with_key s 1

  abbrev pub poster_address_set : StorageSpace
  poster_address_set = open_subspace_with_key s 0

  -- internal_open: `funds_due` is at 0 and `pay_to` at 1.
  unfoldable pub internal_open : ℕ → StorageSpace
  internal_open poster = open_subspace poster_info (be_bytes 20 poster)

  unfoldable pub total_funds_due : Exec ℕ
  total_funds_due = get_u256 s 0

  unfoldable pub add_poster : ℕ → ℕ → Exec StorageSpace
  add_poster poster pay_to = do
    member ← is_member poster_address_set poster
    if member then raise poster_registered else do
      put (internal_open poster) 0 0
      put (internal_open poster) 1 pay_to
      add poster_address_set poster
      pure (internal_open poster)

  unfoldable pub open_poster_checked : ℕ → Bool → Exec StorageSpace
  open_poster_checked poster create_if_missing = do
    member ← is_member poster_address_set poster
    if member
        then pure (internal_open poster)
        else if create_if_missing
        then add_poster poster poster
        else raise poster_unregistered

  unfoldable pub set_funds_due : StorageSpace → ℕ → Exec (Unit {0})
  set_funds_due state due = do
    prev ← get_u256 state 0
    prev_total ← total_funds_due
    put s 0 (next_total_funds_due prev_total due prev)
    put state 0 due
