-- ===== src/Demo.antt =====
-- A concrete host: its hash is an injective code of the preimage, and its transfers succeed where
-- the sender has the funds. It shows that what is assumed of a host can hold.
pub mod Funds
pub mod Outside
use native.Mathlib.Nat.{pow-suc}
use arbitrum_revm.Prelude.{
  ℕ, zero, suc, ◌+◌, ◌-◌, ◌*◌, ◌/◌, ◌%◌, ◌^◌, ◌<◌, ◌≡◌, refl, ap, Option, none, some, List, [], ◌∷◌,
  ◌++◌, true, arith, ltb, ◌==◌, if◌then◌else◌,
}
use arbitrum_revm.Words.{sat_add, sat_mul}
use arbitrum_revm.Exec.{Journal, Host, TransferError, out_of_funds, read_slot, write_slot}
use arbitrum_revm.Storage.{
  StorageSpace, be_bytes, from_be_bytes, slot_for_hash, IsApart, open_subspace,
  open_subspace_with_key, get, set, put, get_u64, get_u256, get_address, get_i256, get_i64,
}
use arbitrum_revm.Storage.Digits.{from_be_bytes-append, from_be_bytes-be_bytes}

unfoldable pub move : Journal → ℕ → ℕ → ℕ → Option TransferError × Journal
move j from to amount = if ltb (j.balance from) amount then (some out_of_funds, j) else (
  none,
  record j {
    balance = λ a.
        (if a == from then j.balance a - amount else j.balance a) + (if a == to then amount else 0);
  },
)

pub storage-move :
    (j : Journal) (from to amount : ℕ) → (move j from to amount).1.storage ≡ j.storage
unfolding move
storage-move j from to amount = ground arith

instance abbrev pub demo : Host
demo = record {
  keccak = λ xs. 256 * from_be_bytes 1 xs;
  transfer = move;
  storage-transfer = storage-move;
  balance_incr = λ j a v. record j { balance = λ b. j.balance b + (if b == a then v else 0) };
  storage-balance_incr = λ j a v. refl;
  bump_nonce = λ j a. (true, j);
  storage-bump_nonce = λ j a. refl;
  balance-bump_nonce = λ j a. refl;
  mark_created = λ j a. j;
  set_nonce = λ j a n. j;
  set_code = λ j a code. j;
  storage-set_nonce = λ j a n. refl;
  storage-set_code = λ j a code. refl;
}

pub slot_for_hash-demo :
    (s : StorageSpace) (i : ℕ)
    → i < 2 ^ 256
    → slot_for_hash s i ≡ from_be_bytes 1 s.key * 2 ^ 256 + i
unfolding slot_for_hash
slot_for_hash-demo s i lt = omega (
  arith,
  from_be_bytes-append 1 s.key (be_bytes 31 (i / 256)),
  from_be_bytes-be_bytes (from_be_bytes 1 s.key) 31 (i / 256),
)

pub demo-IsApart : (s : StorageSpace) → IsApart s
demo-IsApart s i k a b ne e = ne (omega (arith, e, slot_for_hash-demo s i, slot_for_hash-demo s k))

-- Every slot zero, and no balance.
abbrev pub blank : Journal
blank = record { storage = λ a s. 0; balance = λ a. 0; logs = [] }

-- A test that names `look` computes with the storage below it.
unfoldable pub look : StorageSpace → ℕ → Journal → ℕ
unfolding get set put get_u64 get_u256 get_address get_i256 get_i64 read_slot write_slot
    slot_for_hash open_subspace open_subspace_with_key be_bytes from_be_bytes sat_add sat_mul
look s k j = get s k j
