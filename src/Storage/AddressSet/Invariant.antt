-- ===== src/Storage/AddressSet/Invariant.antt =====
-- crates/arb-revm/src/storage/address_set.rs: the invariant between the list and the map.
use native.Mathlib.Decide.{ℕ_discrete}
use arbitrum_revm.Prelude.{ℕ, ◌+◌, ◌^◌, ◌≤◌, ◌<◌, ◌≡◌, ◌≢◌, refl, sym, ap, ◌∙◌, arith}
use arbitrum_revm.Words.{sat_add, u64_max}
use arbitrum_revm.Exec.{Journal, Host, ok}
use arbitrum_revm.Storage.{
  StorageSpace, IsApart, slot_for_hash, get, set, get_u256, put, get-set_self, get-set_ne,
  get_u64-eq,
}
use arbitrum_revm.Storage.AddressSet.{by_address, is_member, add}

module _ ⦃h : Host⦄ (backing : StorageSpace) (Known : ℕ → Type 0) where
  -- Among the addresses that are known, no two slots of the set's two spaces collide.
  pub record IsSeparate : Type 0 where
    pub slots : IsApart backing
    pub keys :
        (a b : ℕ)
        → Known a
        → Known b
        → a ≢ b
        → slot_for_hash (by_address backing) a ≢ slot_for_hash (by_address backing) b
    pub across :
        (i a : ℕ)
        → i < 2 ^ 64
        → Known a
        → slot_for_hash backing i ≢ slot_for_hash (by_address backing) a

  abbrev pub size : Journal → ℕ
  size j = get backing 0 j

  abbrev pub member_at : ℕ → Journal → ℕ
  member_at i j = get backing i j

  abbrev pub position : ℕ → Journal → ℕ
  position a j = get (by_address backing) a j

  -- A known address with a position stands there in the list, and each address in the list is
  -- known and has its place for its position.
  pub record IsValid (j : Journal) : Type 0 where
    pub bounded : size j < u64_max
    pub listed :
        (a : ℕ)
        → Known a
        → position a j ≢ 0
        → (position a j ≤ size j) × (member_at (position a j) j ≡ a)
    pub placed :
        (i : ℕ) → 1 ≤ i → i ≤ size j → Known (member_at i j) × (position (member_at i j) j ≡ i)

  module _ (sep : IsSeparate) where
    pub ll :
        (i k v : ℕ) (j : Journal)
        → i < 2 ^ 64
        → k < 2 ^ 64
        → i ≢ k
        → get backing k (set backing i v j) ≡ get backing k j
    ll i k v j a b d = get-set_ne backing backing i k v j (sep.slots i k a b d)

    pub lm :
        (i a v : ℕ) (j : Journal)
        → i < 2 ^ 64
        → Known a
        → position a (set backing i v j) ≡ position a j
    lm i a v j lt known = get-set_ne backing (by_address backing) i a v j (sep.across i a lt known)

    pub ml :
        (a i v : ℕ) (j : Journal)
        → i < 2 ^ 64
        → Known a
        → get backing i (set (by_address backing) a v j) ≡ get backing i j
    ml a i v j lt known =
        get-set_ne (by_address backing) backing a i v j (λ e. sep.across i a lt known (sym e))

    pub mm :
        (a b v : ℕ) (j : Journal)
        → Known a
        → Known b
        → a ≢ b
        → position b (set (by_address backing) a v j) ≡ position b j
    mm a b v j ka kb d =
        get-set_ne (by_address backing) (by_address backing) a b v j (sep.keys a b ka kb d)

    -- What `add` makes of the journal when the address is new.
    added : ℕ → Journal → Journal
    added a j =
        set backing 0 (size j + 1)
          (set backing (size j + 1) a (set (by_address backing) a (size j + 1) j))

    size-added : (a : ℕ) (j : Journal) → size (added a j) ≡ size j + 1
    unfolding added
    size-added a j =
        get-set_self backing 0 (size j + 1)
          (set backing (size j + 1) a (set (by_address backing) a (size j + 1) j))

    position-added_self :
        (a : ℕ) (j : Journal) → Known a → size j < u64_max → position a (added a j) ≡ size j + 1
    unfolding added
    position-added_self a j known room =
        let j1 = set (by_address backing) a (size j + 1) j in
        let j2 = set backing (size j + 1) a j1 in
        lm 0 a (size j + 1) j2 (omega arith) known
        ∙ (lm (size j + 1) a a j1 (omega arith) known
            ∙ get-set_self (by_address backing) a (size j + 1) j)

    position-added_ne :
        (a b : ℕ) (j : Journal)
        → Known a
        → Known b
        → size j < u64_max
        → a ≢ b
        → position b (added a j) ≡ position b j
    unfolding added
    position-added_ne a b j ka kb room d =
        let j1 = set (by_address backing) a (size j + 1) j in
        let j2 = set backing (size j + 1) a j1 in
        lm 0 b (size j + 1) j2 (omega arith) kb
        ∙ (lm (size j + 1) b a j1 (omega arith) kb ∙ mm a b (size j + 1) j ka kb d)

    member_at-added_last :
        (a : ℕ) (j : Journal) → size j < u64_max → member_at (size j + 1) (added a j) ≡ a
    unfolding added
    member_at-added_last a j room =
        let j1 = set (by_address backing) a (size j + 1) j in
        ll 0 (size j + 1) (size j + 1) (set backing (size j + 1) a j1) (omega arith) (omega arith)
          (omega arith)
        ∙ get-set_self backing (size j + 1) a j1

    member_at-added :
        (a i : ℕ) (j : Journal)
        → Known a
        → size j < u64_max
        → 1 ≤ i
        → i ≤ size j
        → member_at i (added a j) ≡ member_at i j
    unfolding added
    member_at-added a i j known room lo hi =
        let j1 = set (by_address backing) a (size j + 1) j in
        ll 0 i (size j + 1) (set backing (size j + 1) a j1) (omega arith) (omega arith)
          (omega arith)
        ∙ (ll (size j + 1) i a j1 (omega arith) (omega arith) (omega arith)
            ∙ ml a i (size j + 1) j (omega arith) known)

    added-IsValid :
        (a : ℕ) (j : Journal)
        → Known a
        → IsValid j
        → position a j ≡ 0
        → size j + 1 < u64_max
        → IsValid (added a j)
    added-IsValid a j known valid fresh room = record {
      bounded = rw (size-added a j) room;
      listed = λ b kb nz. elim (ℕ_discrete a b) [
        | yes e ↦ rw (← e) (
            rw
              (
                position-added_self a j known valid.bounded,
                size-added a j,
                member_at-added_last a j valid.bounded,
              )
              (omega arith, refl))
        | no d ↦
            let same = position-added_ne a b j known kb valid.bounded d in
            let old = valid.listed b kb (λ z. nz (same ∙ z)) in
            let some_place : 1 ≤ position b j =
              omega (arith, λ (z : position b j ≡ 0). nz (same ∙ z)) in
            rw
              (
                same,
                size-added a j,
                member_at-added a (position b j) j known valid.bounded some_place old.0,
              )
              (omega arith, old.1)
      ];
      placed = λ i lo hi. elim (ℕ_discrete i (size j + 1)) [
        | yes e ↦ rw e (
            rw (member_at-added_last a j valid.bounded)
              (known, position-added_self a j known valid.bounded))
        | no d ↦
            let within : i ≤ size j = omega (arith, size-added a j) in
            let old = valid.placed i lo within in
            let other : a ≢ member_at i j =
              (λ e. absurd (omega (arith, old.1, fresh, ap (λ x. position x j) e))) in
            rw (member_at-added a i j known valid.bounded lo within)
              (old.0, position-added_ne a (member_at i j) j known old.0 valid.bounded other ∙ old.1)
      ];
    }

    add_member : (a : ℕ) (j : Journal) → position a j ≢ 0 → add backing a j ≡ (ok tt, j)
    unfolding add is_member get_u256
    add_member a j h = ground arith

    add_fresh :
        (a : ℕ) (j : Journal)
        → position a j ≡ 0
        → size j + 1 < u64_max
        → add backing a j ≡ (ok tt, added a j)
    unfolding add is_member get_u256 put added sat_add
    add_fresh a j fresh room = rw (fresh, get_u64-eq backing 0 j (omega arith)) (ground arith)

    -- Where the slots of the list and of the known addresses do not collide, `add` of a known
    -- address to a valid set with room succeeds and leaves a valid set, in which the address has a
    -- position and every other known address the position that it had.
    pub add-IsValid :
        (a : ℕ) (j : Journal)
        → Known a
        → IsValid j
        → size j + 1 < u64_max
        → ((add backing a j).0 ≡ ok tt)
          × IsValid (add backing a j).1
          × (position a (add backing a j).1 ≢ 0)
          × ((b : ℕ) → Known b → a ≢ b → position b (add backing a j).1 ≡ position b j)
    add-IsValid a j known valid room = elim (ℕ_discrete (position a j) 0) [
      | yes fresh ↦ rw (add_fresh a j fresh room) (
        refl,
        added-IsValid a j known valid fresh room,
        rw (position-added_self a j known valid.bounded) (omega arith),
        λ b kb d. position-added_ne a b j known kb valid.bounded d,
      )
      | no old ↦ rw (add_member a j old) (refl, valid, old, λ b kb d. refl)
    ]
