-- ===== src/Tx.antt =====
-- crates/arb-revm/src/transaction.rs: what the hooks read of a transaction, and what they assume of
-- revm's movements of funds.
pub mod Filter
pub mod Funds
pub mod Deposit
pub mod Retry
pub mod Submit
pub mod Fees
use arbitrum_revm.Prelude.{
  ℕ, ◌+◌, ◌-◌, ◌^◌, ◌≤◌, ◌<◌, ◌≡◌, ◌≢◌, Bool, true, false, Option, none, some, List, [], ◌∷◌, ◌==◌,
  if◌then◌else◌,
}
use arbitrum_revm.Exec.{
  Journal, Host, Exec, TransferError, out_of_funds, transfer_failed, pure, raise,
}

pub record RetryTxMeta : Type 0 where
  pub ticket_id : ℕ
  pub refund_to : ℕ
  pub max_refund : ℕ
  pub submission_fee_refund : ℕ

-- `kind` is the address that is called, and none for the creation of a contract.
pub record ArbTransaction : Type 0 where
  pub caller : ℕ
  pub kind : Option ℕ
  pub value : ℕ
  pub input : List ℕ
  pub gas_limit : ℕ
  pub gas_price : ℕ
  pub chain_id : Option ℕ
  pub retry_meta : Option RetryTxMeta
  pub tx_hash : Option ℕ
  pub encoded_2718 : Option (List ℕ)

-- Option::or_else
abbrev pub or_else : {A : Type 0} → Option A → Option A → Option A
or_else none y = y
or_else (some x) y = some x

abbrev pub map_transfer_error : Option TransferError → Exec (Unit {0})
map_transfer_error none = pure tt
map_transfer_error (some e) = raise (transfer_failed e)

abbrev pub contains : ℕ → List ℕ → Bool
contains x [] = false
contains x (y ∷ ys) = if x == y then true else contains x ys

module _ ⦃h : Host⦄ where
  -- What revm documents of its movements of funds: a transfer that the sender can pay and the
  -- recipient can hold moves the amount, and a sum that fits a word is credited.
  pub record MovesFunds : Type 0 where
    pub incr_self :
        (j : Journal) (a v : ℕ)
        → j.balance a + v < 2 ^ 256
        → (h.balance_incr j a v).balance a ≡ j.balance a + v
    pub incr_other :
        (j : Journal) (a v b : ℕ) → b ≢ a → (h.balance_incr j a v).balance b ≡ j.balance b
    pub paid :
        (j : Journal) (from to v : ℕ)
        → from ≢ to
        → v ≤ j.balance from
        → j.balance to + v < 2 ^ 256
        → ((h.transfer j from to v).0 ≡ none)
          × ((h.transfer j from to v).1.balance from ≡ j.balance from - v)
          × ((h.transfer j from to v).1.balance to ≡ j.balance to + v)
    pub bystander :
        (j : Journal) (from to v b : ℕ)
        → b ≢ from
        → b ≢ to
        → (h.transfer j from to v).1.balance b ≡ j.balance b
    pub unpaid :
        (j : Journal) (from to v : ℕ)
        → j.balance from < v
        → ((h.transfer j from to v).0 ≡ some out_of_funds)
          × ((b : ℕ) → (h.transfer j from to v).1.balance b ≡ j.balance b)
