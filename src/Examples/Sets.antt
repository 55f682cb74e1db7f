-- ===== src/Examples/Sets.antt =====
-- The address set at the demo host.
use arbitrum_revm.Prelude.{ℕ, ◌+◌, ◌^◌, ◌<◌, ◌≡◌, ◌≢◌, ◌↔◌, refl, [], some, arith}
use arbitrum_revm.Exec.{Journal, ok}
use arbitrum_revm.Storage.{StorageSpace, get, from_be_bytes}
use arbitrum_revm.Storage.AddressSet.{by_address, is_member, add, remove}
use arbitrum_revm.Storage.AddressSet.Invariant.{IsSeparate, IsValid, add-IsValid}
use arbitrum_revm.Storage.AddressSet.Removal.Versions.{remove-IsValid, remove-not-IsValid}
use arbitrum_revm.Storage.AddressTable
use arbitrum_revm.Storage.AddressTable.Registered
use arbitrum_revm.Demo.{demo, demo-IsApart, slot_for_hash-demo, blank, look}

abbrev root : StorageSpace
root = record { key = []; account = 1 }

abbrev Known : ℕ → Type 0
Known a = a < 2 ^ 160

map_key : from_be_bytes 1 (by_address root).key ≡ 2 ^ 256 + 65536
unfolding look
map_key = refl

list_key : from_be_bytes 1 root.key ≡ 1
unfolding look
list_key = refl

separate : IsSeparate root Known
separate = record {
  slots = demo-IsApart root;
  keys = λ a b ka kb d e. d (
      omega (
        arith,
        e,
        slot_for_hash-demo (by_address root) a (omega arith),
        slot_for_hash-demo (by_address root) b (omega arith),
      ));
  across = λ i a lt ka e. omega (
    arith,
    e,
    map_key,
    list_key,
    slot_for_hash-demo root i (omega arith),
    slot_for_hash-demo (by_address root) a (omega arith),
  );
}

blank_zero : (s : StorageSpace) (k : ℕ) → get s k blank ≡ 0
unfolding look
blank_zero s k = refl

blank-IsValid : IsValid root Known blank
blank-IsValid = record {
  bounded = omega (arith, blank_zero root 0);
  listed = λ a ka nz. absurd (nz (blank_zero (by_address root) a));
  placed = λ i lo hi. absurd (omega (arith, lo, hi, blank_zero root 0));
}

abbrev one : Journal
one = (add root 5 blank).1

abbrev two : Journal
two = (add root 6 one).1

add-IsValid_example :
    ((add root 5 blank).0 ≡ ok tt)
    × IsValid root Known one
    × (get (by_address root) 5 one ≢ 0)
    × ((b : ℕ) → Known b → 5 ≢ b → get (by_address root) b one ≡ get (by_address root) b blank)
add-IsValid_example =
    add-IsValid root Known separate 5 blank (omega arith) blank-IsValid
      (omega (arith, blank_zero root 0))

one-IsValid : IsValid root Known one
one-IsValid =
    (add-IsValid root Known separate 5 blank (omega arith) blank-IsValid
      (omega (arith, blank_zero root 0))).1

one-size : get root 0 one ≡ 1
unfolding look add is_member
one-size = refl

two-IsValid : IsValid root Known two
two-IsValid =
    (add-IsValid root Known separate 6 one (omega arith) one-IsValid (omega (arith, one-size))).1

first_place : get (by_address root) 5 two ≡ 1
unfolding look add is_member
first_place = refl

two-size : get root 0 two ≡ 2
unfolding look add is_member
two-size = refl

remove-IsValid_example :
    ((remove root 5 11 two).0 ≡ ok tt)
    × IsValid root Known (remove root 5 11 two).1
    × (get (by_address root) 5 (remove root 5 11 two).1 ≡ 0)
    × ((b : ℕ)
        → Known b
        → 5 ≢ b
        → (get (by_address root) b (remove root 5 11 two).1 ≡ 0)
          ↔ (get (by_address root) b two ≡ 0))
remove-IsValid_example =
    remove-IsValid root Known separate 5 11 two (omega arith) two-IsValid (omega arith)

remove-not-IsValid_example : ¬ IsValid root Known (remove root 5 10 two).1
remove-not-IsValid_example =
    remove-not-IsValid root Known separate 5 10 two (omega arith) two-IsValid (omega arith)
      (omega (arith, first_place)) (omega (arith, first_place, two-size))

table_key : from_be_bytes 1 (AddressTable.by_address root).key ≡ 2 ^ 256 + 256
unfolding look
table_key = refl

table_separate : Registered.IsSeparate root 5
table_separate = record {
  slots = demo-IsApart root;
  across = λ i lt e. omega (
    arith,
    e,
    table_key,
    list_key,
    slot_for_hash-demo root i (omega arith),
    slot_for_hash-demo (AddressTable.by_address root) 5 (omega arith),
  );
}

abbrev registered : Journal
registered = (AddressTable.register root 5 blank).1

register-lookup_example :
    ((AddressTable.register root 5 blank).0 ≡ ok (get root 0 blank))
    × (AddressTable.lookup root 5 registered ≡ (ok (some (get root 0 blank)), registered))
    × (AddressTable.lookup_index root (get root 0 blank) registered ≡ (ok (some 5), registered))
    × (AddressTable.register root 5 registered ≡ (ok (get root 0 blank), registered))
register-lookup_example =
    Registered.register-lookup root 5 table_separate blank (omega arith)
      (blank_zero (AddressTable.by_address root) 5) (omega (arith, blank_zero root 0))
