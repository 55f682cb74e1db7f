-- ===== src/Examples/Blocks.antt =====
-- The block hashes, the batch posters and byte strings at the demo host.
use arbitrum_revm.Prelude.{◌%◌, ◌+◌, ◌≡◌, ◌≢◌, refl, [], ◌∷◌, arith, ltb, if◌then◌else◌}
use arbitrum_revm.Exec.{Journal, ok}
use arbitrum_revm.Storage.{StorageSpace, slot_for_hash, get, set}
use arbitrum_revm.Storage.BlockHashes.{block_hash, fill, record_new_l1_block}
use arbitrum_revm.Storage.BlockHashes.Ring.{record_new_l1_block_lem}
use arbitrum_revm.Storage.BatchPosterTable.{set_funds_due}
use arbitrum_revm.Storage.BatchPosterTable.Total.{owed, Misses, set_funds_due-owed}
use arbitrum_revm.Storage.Bytes
use arbitrum_revm.Storage.Bytes.{get_bytes, set_bytes}
use arbitrum_revm.Storage.Digits.{IsBytes}
use arbitrum_revm.Storage.Bytes.RoundTrip.{get_bytes-set_bytes}
use arbitrum_revm.Demo.{demo, demo-IsApart, blank, look}

abbrev hashes : StorageSpace
hashes = record { key = 6 ∷ []; account = 1 }

abbrev at_ten : Journal
at_ten = set hashes 0 10 (set hashes 10 77 blank)

at_ten_slots : (get hashes 0 at_ten ≡ 10) × (get hashes 10 at_ten ≡ 77)
unfolding look
at_ten_slots = (refl, refl)

-- Block 13 is recorded where 10 comes next.
record_new_l1_block_example :
    ((record_new_l1_block hashes 13 99 20 at_ten).0 ≡ ok tt)
    × (get hashes 0 (record_new_l1_block hashes 13 99 20 at_ten).1 ≡ 13 + 1)
    × ((block_hash hashes 13 (record_new_l1_block hashes 13 99 20 at_ten).1).0 ≡ ok 99)
    × ((block_hash hashes 12 (record_new_l1_block hashes 13 99 20 at_ten).1).0
        ≡ ok (
            if ltb (get hashes 0 at_ten) 12
            then fill hashes 99 20 12
            else get hashes (1 + 12 % 256) at_ten))
record_new_l1_block_example =
    record_new_l1_block_lem hashes (demo-IsApart hashes) 99 20 13 12 at_ten
      (omega (arith, at_ten_slots)) (omega arith) (omega arith) (omega arith)

abbrev table : StorageSpace
table = record { key = 5 ∷ []; account = 1 }

abbrev alice : StorageSpace
alice = record { key = 3 ∷ []; account = 1 }

abbrev bob : StorageSpace
bob = record { key = 4 ∷ []; account = 1 }

-- Alice is owed 30 and Bob 12.
abbrev dues : Journal
dues = set table 0 42 (set alice 0 30 (set bob 0 12 blank))

dues_slots : (get table 0 dues ≡ 42) × (get table 0 dues ≡ owed (alice ∷ bob ∷ []) dues)
unfolding look owed
dues_slots = (refl, refl)

apart_slots :
    (slot_for_hash alice 0 ≢ slot_for_hash table 0)
    × (slot_for_hash table 0 ≢ slot_for_hash bob 0)
    × (slot_for_hash alice 0 ≢ slot_for_hash bob 0)
unfolding look
apart_slots = (
  (λ e. absurd (omega (arith, e))),
  (λ e. absurd (omega (arith, e))),
  (λ e. absurd (omega (arith, e))),
)

table-Misses : Misses (slot_for_hash table 0) (bob ∷ [])
unfolding Misses
table-Misses = (apart_slots.1, tt)

alice-Misses : Misses (slot_for_hash alice 0) (bob ∷ [])
unfolding Misses
alice-Misses = (apart_slots.2, tt)

set_funds_due-owed_example :
    ((set_funds_due table alice 7 dues).0 ≡ ok tt)
    × (get alice 0 (set_funds_due table alice 7 dues).1 ≡ 7)
    × (owed (bob ∷ []) (set_funds_due table alice 7 dues).1 ≡ owed (bob ∷ []) dues)
    × (get table 0 (set_funds_due table alice 7 dues).1
        ≡ owed (alice ∷ bob ∷ []) (set_funds_due table alice 7 dues).1)
set_funds_due-owed_example =
    set_funds_due-owed table alice [] (bob ∷ []) 7 dues apart_slots.0 table-Misses alice-Misses
      dues_slots.1 (omega (arith, dues_slots.0))

abbrev text : StorageSpace
text = record { key = 9 ∷ []; account = 1 }

hello-IsBytes : IsBytes (104 ∷ 105 ∷ [])
unfolding IsBytes
hello-IsBytes = (omega arith, (omega arith, tt))

no_text : get text 0 blank ≡ 0
unfolding look
no_text = refl

get_bytes-set_bytes_example :
    ((set_bytes text (104 ∷ 105 ∷ []) blank).0 ≡ ok tt)
    × ((get_bytes text (set_bytes text (104 ∷ 105 ∷ []) blank).1).0 ≡ ok (104 ∷ 105 ∷ []))
    × ((Bytes.size text (set_bytes text (104 ∷ 105 ∷ []) blank).1).0 ≡ ok 2)
get_bytes-set_bytes_example =
    get_bytes-set_bytes text (demo-IsApart text) (104 ∷ 105 ∷ []) blank (omega (arith, no_text))
      hello-IsBytes (omega arith)
