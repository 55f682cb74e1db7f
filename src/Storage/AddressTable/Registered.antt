-- ===== src/Storage/AddressTable/Registered.antt =====
-- crates/arb-revm/src/storage/address_table.rs: registering an address and looking it up.
use arbitrum_revm.Prelude.{
  ℕ, ◌+◌, ◌-◌, ◌%◌, ◌^◌, ◌<◌, ◌≡◌, ◌≢◌, ap, sym, ◌∙◌, arith, true, false, some, leb, ltb, ◌==◌,
}
use arbitrum_revm.Exec.{Journal, Host, ok}
use arbitrum_revm.Storage.{
  StorageSpace, IsApart, slot_for_hash, get, set, put, get_u256, get_u64-eq, get-set_self,
  get-set_ne,
}
use arbitrum_revm.Storage.AddressTable.{by_address, register, lookup, lookup_index}

positive : (n : ℕ) → (n + 1 == 0) ≡ false
positive n = ground arith

fits : (n : ℕ) → n + 1 < 2 ^ 64 → ltb (n + 1) (2 ^ 64) ≡ true
fits n lt = ground arith

past : (n : ℕ) → leb (n + 1) n ≡ false
past n = ground arith

pred : (n : ℕ) → n + 1 - 1 ≡ n
pred n = omega arith

low_bytes : {a : ℕ} → a < 2 ^ 160 → a % 2 ^ 160 ≡ a
low_bytes lt = omega (arith, lt)

module _ ⦃h : Host⦄ (backing : StorageSpace) (address : ℕ) where
  -- The slots of the list do not collide with one another, nor with the address's slot of the map.
  pub record IsSeparate : Type 0 where
    pub slots : IsApart backing
    pub across :
        (i : ℕ) → i < 2 ^ 64 → slot_for_hash backing i ≢ slot_for_hash (by_address backing) address

  abbrev items : Journal → ℕ
  items j = get backing 0 j

  abbrev index : Journal → ℕ
  index j = get (by_address backing) address j

  listed : Journal → Journal
  listed j =
      set backing 0 (items j + 1)
        (set (by_address backing) address (items j + 1) (set backing (items j + 1) address j))

  register_eq :
      (j : Journal)
      → index j ≡ 0
      → items j + 1 < 2 ^ 64
      → register backing address j ≡ (ok (items j), listed j)
  unfolding register get_u256 put listed
  register_eq j absent room =
      let wrap : (items j + 1) % 2 ^ 64 ≡ items j + 1 = omega (arith, room) in
      rw absent (rw (get_u64-eq backing 0 j (omega (arith, room))) (rw wrap))

  register_again :
      (n : ℕ) (j : Journal)
      → index j ≡ n + 1
      → n + 1 < 2 ^ 64
      → register backing address j ≡ (ok n, j)
  unfolding register get_u256
  register_again n j e lt = rw e (rw (positive n, fits n lt, pred n))

  lookup_eq :
      (n : ℕ) (j : Journal)
      → index j ≡ n + 1
      → n + 1 < 2 ^ 64
      → lookup backing address j ≡ (ok (some n), j)
  unfolding lookup get_u256
  lookup_eq n j e lt = rw e (rw (positive n, fits n lt, pred n))

  lookup_index_eq :
      (n : ℕ) (j : Journal)
      → items j ≡ n + 1
      → n + 1 < 2 ^ 64
      → address < 2 ^ 160
      → get backing (n + 1) j ≡ address
      → lookup_index backing n j ≡ (ok (some address), j)
  unfolding lookup_index get_u256
  lookup_index_eq n j e lt small at_n =
      rw (get_u64-eq backing 0 j (omega (arith, e, lt)))
        (rw (e, past n) (rw (at_n, low_bytes small)))

  module _ (sep : IsSeparate) where
    items-listed : (j : Journal) → items (listed j) ≡ items j + 1
    unfolding listed
    items-listed j =
        get-set_self backing 0 (items j + 1)
          (set (by_address backing) address (items j + 1) (set backing (items j + 1) address j))

    index-listed : (j : Journal) → index (listed j) ≡ items j + 1
    unfolding listed
    index-listed j =
        get-set_ne backing (by_address backing) 0 address (items j + 1)
          (set (by_address backing) address (items j + 1) (set backing (items j + 1) address j))
          (sep.across 0 (omega arith))
        ∙ get-set_self (by_address backing) address (items j + 1)
            (set backing (items j + 1) address j)

    slot-listed :
        (j : Journal) → items j + 1 < 2 ^ 64 → get backing (items j + 1) (listed j) ≡ address
    unfolding listed
    slot-listed j room =
        get-set_ne backing backing 0 (items j + 1) (items j + 1)
          (set (by_address backing) address (items j + 1) (set backing (items j + 1) address j))
          (sep.slots 0 (items j + 1) (omega arith) room (omega arith))
        ∙ get-set_ne (by_address backing) backing address (items j + 1) (items j + 1)
            (set backing (items j + 1) address j) (λ e. sep.across (items j + 1) room (sym e))
        ∙ get-set_self backing (items j + 1) address j

    abbrev after : Journal → Journal
    after j = (register backing address j).1

    -- Where the slots of the list and the address's slot of the map do not collide, the address is
    -- not registered and the length of the table is below 2 ^ 64 - 1, registering it returns the
    -- old length as its index. The address is then found under that index, the index under the
    -- address, and registering again returns it and writes nothing.
    pub register-lookup :
        (j : Journal)
        → address < 2 ^ 160
        → index j ≡ 0
        → items j + 1 < 2 ^ 64
        → ((register backing address j).0 ≡ ok (items j))
          × (lookup backing address (after j) ≡ (ok (some (items j)), after j))
          × (lookup_index backing (items j) (after j) ≡ (ok (some address), after j))
          × (register backing address (after j) ≡ (ok (items j), after j))
    register-lookup j small absent room =
        let e = register_eq j absent room in
        let k : after j ≡ listed j = ap (λ r. r.1) e in
        let i : index (after j) ≡ items j + 1 = ap index k ∙ index-listed j in
        (
          ap (λ r. r.0) e,
          lookup_eq (items j) (after j) i room,
          lookup_index_eq (items j) (after j) (ap items k ∙ items-listed j) room small
              (ap (get backing (items j + 1)) k ∙ slot-listed j room),
          register_again (items j) (after j) i room,
        )
