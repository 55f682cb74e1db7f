-- ===== src/Storage.antt =====
-- crates/arb-revm/src/storage/mod.rs and slot.rs: storage namespaces and typed slots.
pub mod SignedSlots
pub mod Digits
pub mod Queue
pub mod AddressSet
pub mod AddressTable
pub mod BlockHashes
pub mod BatchPosterTable
pub mod Bytes
pub mod Retryables
pub mod SendMerkle
pub mod L1Pricing
pub mod L2Pricing
pub mod Programs
pub mod Features
use arbitrum_revm.Prelude.{
  ℕ, zero, suc, ◌+◌, ◌*◌, ◌/◌, ◌%◌, ◌^◌, ◌<◌, ◌≡◌, refl, ◌≢◌, ◌-◌, Option, none, some, leb, List,
  [], ◌∷◌, ◌++◌, arith, ltb, ◌==◌, if◌then◌else◌,
}
use arbitrum_revm.Prelude.Int.{ℤ, pos, negsuc}
use arbitrum_revm.Words.{i64_max}
use arbitrum_revm.Signed.{u256_twos_complement_to_i256, i256_to_u256_twos_complement}
use arbitrum_revm.Exec.{
  Journal, Host, Exec, Result, ok, err, raise, signed_overflow, signed_underflow, transfer_failed,
  slot_out_of_range, read_slot, write_slot, read_slot-write_slot,
}

-- The last `n` base-256 digits, the most significant first.
unfoldable pub be_bytes : ℕ → ℕ → List ℕ
be_bytes zero x = []
be_bytes (suc n) x = be_bytes n (x / 256) ++ x % 256 ∷ []

pub record StorageSpace : Type 0 where
  pub key : List ℕ
  pub account : ℕ

-- i64::try_from
abbrev pub i64_of : ℤ → Result ℤ
i64_of (pos n) = if leb n i64_max then ok (pos n) else err slot_out_of_range
i64_of (negsuc n) = if leb n i64_max then ok (negsuc n) else err slot_out_of_range

-- U256::from_be_bytes, with what stands before
unfoldable pub from_be_bytes : ℕ → List ℕ → ℕ
from_be_bytes a [] = a
from_be_bytes a (b ∷ bs) = from_be_bytes (a * 256 + b) bs

module _ ⦃h : Host⦄ where
  unfoldable pub open_subspace : StorageSpace → List ℕ → StorageSpace
  open_subspace s id = record s { key = be_bytes 32 (h.keccak (s.key ++ id)) }

  unfoldable pub open_subspace_with_key : StorageSpace → ℕ → StorageSpace
  open_subspace_with_key s id = open_subspace s (id ∷ [])

  -- The digest's first 31 bytes, and the last byte of the key.
  unfoldable pub slot_for_hash : StorageSpace → ℕ → ℕ
  slot_for_hash s hash = h.keccak (s.key ++ be_bytes 31 (hash / 256)) / 256 * 256 + hash % 256

  unfoldable pub get : StorageSpace → ℕ → Journal → ℕ
  get s k j = read_slot j s.account (slot_for_hash s k)

  unfoldable pub set : StorageSpace → ℕ → ℕ → Journal → Journal
  set s k v j = write_slot s.account (slot_for_hash s k) v j

  pub get-set_self : (s : StorageSpace) (k v : ℕ) (j : Journal) → get s k (set s k v j) ≡ v
  unfolding get set
  get-set_self s k v j =
      ground (
        arith,
        read_slot-write_slot j s.account (slot_for_hash s k) v s.account (slot_for_hash s k),
      )

  pub get-set_ne :
      (s t : StorageSpace) (k l v : ℕ) (j : Journal)
      → slot_for_hash s k ≢ slot_for_hash t l
      → get t l (set s k v j) ≡ get t l j
  unfolding get set
  get-set_ne s t k l v j ne =
      ground (
        arith,
        read_slot-write_slot j s.account (slot_for_hash s k) v t.account (slot_for_hash t l),
      )

  pub balance-set : (s : StorageSpace) (k v : ℕ) (j : Journal) → (set s k v j).balance ≡ j.balance
  unfolding set write_slot
  balance-set s k v j = refl

  unfoldable pub get_u64 : StorageSpace → ℕ → Exec ℕ
  get_u64 s k j = (if ltb (get s k j) (2 ^ 64) then ok (get s k j) else err slot_out_of_range, j)

  unfoldable pub get_u256 : StorageSpace → ℕ → Exec ℕ
  get_u256 s k j = (ok (get s k j), j)

  -- The last 20 bytes of the word.
  unfoldable pub get_address : StorageSpace → ℕ → Exec ℕ
  get_address s k j = (ok (get s k j % 2 ^ 160), j)

  unfoldable pub get_u32 : StorageSpace → ℕ → Exec ℕ
  get_u32 s k j = (if ltb (get s k j) (2 ^ 32) then ok (get s k j) else err slot_out_of_range, j)

  unfoldable pub get_i256 : StorageSpace → ℕ → Exec ℤ
  get_i256 s k j = (ok (u256_twos_complement_to_i256 (get s k j)), j)

  unfoldable pub get_i64 : StorageSpace → ℕ → Exec ℤ
  get_i64 s k j = (i64_of (u256_twos_complement_to_i256 (get s k j)), j)

  unfoldable pub put : StorageSpace → ℕ → ℕ → Exec (Unit {0})
  put s k v j = (ok tt, set s k v j)

  pub get_u64-eq :
      (s : StorageSpace) (k : ℕ) (j : Journal)
      → get s k j < 2 ^ 64
      → get_u64 s k j ≡ (ok (get s k j), j)
  unfolding get_u64
  get_u64-eq s k j lt = ground arith

  pub get_u32-eq :
      (s : StorageSpace) (k : ℕ) (j : Journal)
      → get s k j < 2 ^ 32
      → get_u32 s k j ≡ (ok (get s k j), j)
  unfolding get_u32
  get_u32-eq s k j lt = ground arith

  -- StorageBacked<I256>
  unfoldable pub set_i256_checked : StorageSpace → ℕ → ℤ → Exec (Unit {0})
  set_i256_checked s k (pos n) = if leb (2 ^ 255) n then raise signed_overflow else put s k n
  set_i256_checked s k (negsuc n) =
      let raw = i256_to_u256_twos_complement (negsuc n) in
      if ltb raw (2 ^ 255) then raise signed_underflow else put s k raw

  unfoldable pub set_i256_saturating : StorageSpace → ℕ → ℤ → Exec (Unit {0})
  set_i256_saturating s k (pos n) = put s k (if leb (2 ^ 255) n then 2 ^ 255 - 1 else n)
  set_i256_saturating s k (negsuc n) =
      let raw = i256_to_u256_twos_complement (negsuc n) in
      put s k (if ltb raw (2 ^ 255) then 2 ^ 255 else raw)

  unfoldable pub set_i256_pre_version7 : StorageSpace → ℕ → ℤ → Exec (Unit {0})
  set_i256_pre_version7 s k (pos n) = put s k n
  set_i256_pre_version7 s k (negsuc n) = put s k (suc n)

  unfoldable pub set_i64 : StorageSpace → ℕ → ℤ → Exec (Unit {0})
  set_i64 s k value = put s k (i256_to_u256_twos_complement value)

  -- ArbJournal::transfer, where an error of the transfer is an error of the caller.
  unfoldable pub transfer : ℕ → ℕ → ℕ → Exec (Unit {0})
  transfer from to amount j = (
    elim (h.transfer j from to amount).0 [ none ↦ ok tt | some e ↦ err (transfer_failed e) ],
    (h.transfer j from to amount).1,
  )

  -- The keys of a space that fit in a u64 have slots of their own: no two of their preimages
  -- collide in the first 31 bytes of the digest.
  abbrev pub IsApart : StorageSpace → Type 0
  IsApart s = (i k : ℕ) → i < 2 ^ 64 → k < 2 ^ 64 → i ≢ k → slot_for_hash s i ≢ slot_for_hash s k
