-- ===== src/Exec.antt =====
-- The state that ArbOS code works on, and its error monad (crates/arb-revm/src/arb_journal.rs,
-- and eyre's `Result` with the `?` operator).
-- What was written before an error stays written, so the journal comes back beside the error too.
pub mod Success
pub mod Reads
use arbitrum_revm.Prelude.{
  ℕ, ◌≡◌, refl, Bool, Option, List, [], ◌∷◌, ◌++◌, ◌&&◌, ◌==◌, if◌then◌else◌,
}

pub record Log : Type 0 where
  pub address : ℕ
  pub topics : List ℕ
  pub payload : List ℕ

-- The state that an `ArbJournal` gives access to: storage by account and slot, balances by account,
-- and the logs so far.
pub record Journal : Type 0 where
  pub storage : ℕ → ℕ → ℕ
  pub balance : ℕ → ℕ
  pub logs : List Log

-- revm's `TransferError`.
pub data TransferError : Type 0 where
  out_of_funds overflow_payment create_collision : TransferError

-- What the code takes from revm: the hash, and the changes of accounts. `keccak` is the 256-bit
-- digest of some bytes, read as a big-endian number; `bump_nonce` returns false where the nonce has
-- no successor; `mark_created` is `mark_created` and `mark_touch`.
pub record Host : Type 0 where
  pub keccak : List ℕ → ℕ
  pub transfer : Journal → ℕ → ℕ → ℕ → Option TransferError × Journal
  pub storage-transfer :
      (j : Journal) (from to amount : ℕ) → (transfer j from to amount).1.storage ≡ j.storage
  pub balance_incr : Journal → ℕ → ℕ → Journal
  pub storage-balance_incr :
      (j : Journal) (account amount : ℕ) → (balance_incr j account amount).storage ≡ j.storage
  pub bump_nonce : Journal → ℕ → Bool × Journal
  pub storage-bump_nonce :
      (j : Journal) (account : ℕ) → (bump_nonce j account).1.storage ≡ j.storage
  pub balance-bump_nonce :
      (j : Journal) (account : ℕ) → (bump_nonce j account).1.balance ≡ j.balance
  pub mark_created : Journal → ℕ → Journal
  pub set_nonce : Journal → ℕ → ℕ → Journal
  pub set_code : Journal → ℕ → List ℕ → Journal
  pub storage-set_nonce :
      (j : Journal) (account nonce : ℕ) → (set_nonce j account nonce).storage ≡ j.storage
  pub storage-set_code :
      (j : Journal) (account : ℕ) (code : List ℕ) → (set_code j account code).storage ≡ j.storage

pub data Error : Type 0 where
  slot_out_of_range : Error
  signed_overflow : Error
  signed_underflow : Error
  transfer_failed : TransferError → Error
  not_a_member : Error
  correctly_mapped : Error
  poster_registered : Error
  poster_unregistered : Error
  l1_fees_overflow : Error
  surplus_overflow : Error
  surplus_underflow : Error
  invalid_report_timestamp : Error
  multi_gas_accounting : Error
  not_a_call : Error
  missing_retry_metadata : Error
  retryable_not_found : Error
  nonce_overflow : Error
  timestamp_out_of_range : Error
  missing_chain_id : Error
  calldata_too_short : Error
  selector_mismatch : Error
  missing_word : Error
  word_out_of_range : Error
  invalid_data_offset : Error
  data_offset_out_of_bounds : Error
  data_out_of_bounds : Error
  unsupported_version : ℕ → Error
  unsupported_selector : Error
  block_number_mismatch : Error
  block_number_out_of_range : Error
  version_zero : Error
  table_slot_mismatch : Error

pub data Result (A : Type 0) : Type 0 where
  ok : A → Result A
  err : Error → Result A

abbrev pub Exec : Type 0 → Type 0
Exec A = Journal → Result A × Journal

abbrev pub continue : {A B : Type 0} → Result A → (A → Exec B) → Exec B
continue (ok a) f j = f a j
continue (err e) f j = (err e, j)

infixl 5 ◌>>=◌ ◌>>◌
abbrev pub ◌>>=◌ : {A B : Type 0} → Exec A → (A → Exec B) → Exec B
◌>>=◌ m f j = continue (m j).0 f (m j).1

abbrev pub ◌>>◌ : {B : Type 0} → Exec (Unit {0}) → Exec B → Exec B
m >> k = m >>= λ _. k

abbrev pub pure : {A : Type 0} → A → Exec A
pure a j = (ok a, j)

abbrev pub raise : {A : Type 0} → Error → Exec A
raise e j = (err e, j)

-- A step that returned: the rest of the block runs on its result.
pub bind-eq :
    {A B : Type 0} (m : Exec A) (f : A → Exec B) {j k : Journal} {a : A}
    → m j ≡ (ok a, k)
    → (m >>= f) j ≡ f a k
bind-eq m f {j} {k} {a} e = rw e

-- ArbJournal::read_slot, ArbJournal::write_slot
unfoldable pub read_slot : Journal → ℕ → ℕ → ℕ
read_slot j account slot = j.storage account slot

unfoldable pub write_slot : ℕ → ℕ → ℕ → Journal → Journal
write_slot account slot value j = record j {
  storage = λ a s. if a == account && s == slot then value else j.storage a s;
}

pub read_slot-write_slot :
    (j : Journal) (a s v b t : ℕ)
    → read_slot (write_slot a s v j) b t ≡ (if b == a && t == s then v else read_slot j b t)
unfolding read_slot write_slot
read_slot-write_slot j a s v b t = refl

-- JournalTr::log
unfoldable pub emit_log : Log → Exec (Unit {0})
emit_log l j = (ok tt, record j { logs = j.logs ++ l ∷ [] })

module _ ⦃h : Host⦄ where
  -- JournalTr::transfer, whose error is a value.
  unfoldable pub try_transfer : ℕ → ℕ → ℕ → Exec (Option TransferError)
  try_transfer from to amount j =
      (ok (h.transfer j from to amount).0, (h.transfer j from to amount).1)

  unfoldable pub incr : ℕ → ℕ → Exec (Unit {0})
  incr account amount j = (ok tt, h.balance_incr j account amount)
