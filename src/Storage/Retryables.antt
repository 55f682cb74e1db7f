-- ===== src/Storage/Retryables.antt =====
-- crates/arb-revm/src/storage/retryables.rs: retryable tickets and the queue of their timeouts.
-- A ticket's space is opened from its id; the accessors take that space.
pub mod Renewal
pub mod Deletion
use arbitrum_revm.Prelude.{
  ℕ, ◌-◌, ◌*◌, ◌%◌, ◌^◌, Bool, true, false, Option, none, some, List, [], ◌∷◌, ◌++◌, ltb, leb, ◌==◌,
  if◌then◌else◌,
}
use arbitrum_revm.Words.{add64, mul64}
use arbitrum_revm.Exec.{Host, Exec, ok, pure, ◌>>=◌, ◌>>◌}
use arbitrum_revm.Storage.{
  StorageSpace, be_bytes, open_subspace, open_subspace_with_key, get_u64, get_u256, get_address,
  put, transfer,
}
use arbitrum_revm.Storage.Queue
use arbitrum_revm.Storage.Bytes

abbrev pub lifetime_seconds : ℕ
lifetime_seconds = 7 * 24 * 60 * 60

-- "retryable escrow"
abbrev pub escrow_tag : List ℕ
escrow_tag =
    b'r' ∷ b'e' ∷ b't' ∷ b'r' ∷ b'y' ∷ b'a' ∷ b'b' ∷ b'l' ∷ b'e' ∷ b' ' ∷ b'e' ∷ b's' ∷ b'c' ∷ b'r'
    ∷ b'o' ∷ b'w' ∷ []

abbrev pub nil_address_representation : ℕ
nil_address_representation = 2 ^ 255

-- `account_balance` of an ArbJournal
abbrev pub account_balance : ℕ → Exec ℕ
account_balance account j = (ok (j.balance account), j)

module _ ⦃h : Host⦄ where
  unfoldable pub retryable_escrow_address : ℕ → ℕ
  retryable_escrow_address ticket_id = h.keccak (escrow_tag ++ be_bytes 32 ticket_id) % 2 ^ 160

  -- RetryableRecord: num_tries 0, from 1, to_raw 2, callvalue 3, beneficiary 4, timeout 5,
  -- timeout_windows_left 6, and the calldata in a subspace.
  module _ (record_space : StorageSpace) where
    unfoldable pub timeout_with_windows : Exec ℕ
    timeout_with_windows = do
      timeout ← get_u64 record_space 5
      windows ← get_u64 record_space 6
      pure (add64 timeout (mul64 windows lifetime_seconds))

    unfoldable pub exists_at : ℕ → ℕ → Exec Bool
    exists_at current_timestamp arbos_version = do
      timeout ← get_u64 record_space 5
      if timeout == 0
          then pure false
          else if leb current_timestamp timeout
          then pure true
          else if ltb arbos_version 60
          then pure false
          else do extended ← timeout_with_windows; pure (leb current_timestamp extended)

    pub to : Exec (Option ℕ)
    to = do
      raw ← get_u256 record_space 2
      pure (if raw == nil_address_representation then none else some (raw % 2 ^ 160))

    pub raw_to : Option ℕ → ℕ
    raw_to none = nil_address_representation
    raw_to (some address) = address

    pub set_to : Option ℕ → Exec (Unit {0})
    set_to address = put record_space 2 (raw_to address)

    -- The writes of `delete_retryable`.
    pub clear_record : Exec (Unit {0})
    clear_record = do
      put record_space 0 0
      put record_space 1 0
      put record_space 2 0
      put record_space 3 0
      put record_space 4 0
      put record_space 5 0
      put record_space 6 0
      Bytes.clear (open_subspace_with_key record_space 1)

  module _ (root : StorageSpace) where
    abbrev pub timeout_queue : StorageSpace
    timeout_queue = open_subspace_with_key root 0

    unfoldable pub retryable : ℕ → StorageSpace
    retryable id = open_subspace root (be_bytes 32 id)

    pub delete_retryable : ℕ → Exec Bool
    delete_retryable id = do
      timeout ← get_u64 (retryable id) 5
      if timeout == 0 then pure false else do
        beneficiary ← get_address (retryable id) 4
        escrow_balance ← account_balance (retryable_escrow_address id)
        (if ltb 0 escrow_balance
            then transfer (retryable_escrow_address id) beneficiary escrow_balance
            else pure tt)
        clear_record (retryable id)
        pure true

    -- What `try_to_reap_one` does once the first entry of the queue is known.
    pub reap : ℕ → ℕ → Exec Bool
    reap current_timestamp id = do
      timeout ← get_u64 (retryable id) 5
      if timeout == 0 then (do _ ← Queue.pop timeout_queue; pure true) else do
        windows_left ← get_u64 (retryable id) 6
        if leb current_timestamp timeout then pure false else do
          _ ← Queue.pop timeout_queue
          if windows_left == 0 then (do _ ← delete_retryable id; pure true) else do
            put (retryable id) 5 (add64 timeout lifetime_seconds)
            put (retryable id) 6 (windows_left - 1)
            pure true

    pub reap_first : ℕ → Option ℕ → Exec Bool
    reap_first current_timestamp none = pure false
    reap_first current_timestamp (some id) = reap current_timestamp id

    pub try_to_reap_one : ℕ → Exec Bool
    try_to_reap_one current_timestamp = do
      entry ← Queue.peek timeout_queue
      reap_first current_timestamp entry
