-- ===== src/Storage/Retryables/Deletion.antt =====
-- crates/arb-revm/src/storage/retryables.rs: the deletion of a ticket.
use arbitrum_revm.Prelude.{
  ℕ, ◌%◌, ◌^◌, ◌<◌, ◌≡◌, ◌≢◌, refl, ap, sym, ◌∙◌, Bool, arith, true, false, ltb, ◌==◌,
  if◌then◌else◌,
}
use arbitrum_revm.Exec.{Journal, Host, ok, Exec, read_slot}
use arbitrum_revm.Storage.{
  StorageSpace, IsApart, slot_for_hash, get, set, put, get_address, get_u64-eq, get-set_self,
  get-set_ne, open_subspace_with_key, transfer,
}
use arbitrum_revm.Storage.Bytes
use arbitrum_revm.Storage.Bytes.RoundTrip.{clear-ok, clear-far}
use arbitrum_revm.Storage.Retryables.{
  retryable, retryable_escrow_address, clear_record, delete_retryable, exists_at,
}

module _ ⦃h : Host⦄ (root : StorageSpace) (id : ℕ) where
  abbrev r : StorageSpace
  r = retryable root id

  abbrev calldata : StorageSpace
  calldata = open_subspace_with_key r 1

  -- The ticket and its calldata keep their slots apart.
  pub record IsSeparate : Type 0 where
    pub ticket : IsApart r
    pub bytes : IsApart calldata
    pub far : (i k : ℕ) → i < 2 ^ 64 → k < 2 ^ 64 → slot_for_hash calldata i ≢ slot_for_hash r k

  wiped : Journal → Journal
  wiped j = set r 6 0 (set r 5 0 (set r 4 0 (set r 3 0 (set r 2 0 (set r 1 0 (set r 0 0 j))))))

  abbrev pub pays : Exec (Unit {0})
  pays j =
      (if ltb 0 (j.balance (retryable_escrow_address id))
          then transfer (retryable_escrow_address id) (get r 4 j % 2 ^ 160)
              (j.balance (retryable_escrow_address id))
          else (λ k. (ok tt, k)))
        j

  get-choice :
      (s : StorageSpace) (k : ℕ) (b : Bool) (from to amount : ℕ) (j : Journal)
      → get s k ((if b then transfer from to amount else (λ k. (ok tt, k))) j).1 ≡ get s k j
  unfolding transfer get read_slot
  get-choice s k true from to amount j =
      ap (λ (t : ℕ → ℕ → ℕ). t s.account (slot_for_hash s k)) (h.storage-transfer j from to amount)
  get-choice s k false from to amount j = refl

  get-pays : (s : StorageSpace) (k : ℕ) (j : Journal) → get s k (pays j).1 ≡ get s k j
  get-pays s k j =
      get-choice s k (ltb 0 (j.balance (retryable_escrow_address id))) (retryable_escrow_address id)
        (get r 4 j % 2 ^ 160) (j.balance (retryable_escrow_address id)) j

  module _ (sep : IsSeparate) where
    step :
        (i k : ℕ) (j : Journal)
        → i < 2 ^ 64
        → k < 2 ^ 64
        → get calldata i (set r k 0 j) ≡ get calldata i j
    step i k j lt small = get-set_ne r calldata k i 0 j (λ e. sep.far i k lt small (sym e))

    get-wiped : (i : ℕ) (j : Journal) → i < 2 ^ 64 → get calldata i (wiped j) ≡ get calldata i j
    unfolding wiped
    get-wiped i j lt =
        step i 6 _ lt (omega arith)
        ∙ step i 5 _ lt (omega arith)
        ∙ step i 4 _ lt (omega arith)
        ∙ step i 3 _ lt (omega arith)
        ∙ step i 2 _ lt (omega arith)
        ∙ step i 1 _ lt (omega arith)
        ∙ step i 0 _ lt (omega arith)

    timeout-wiped : (j : Journal) → get r 5 (wiped j) ≡ 0
    unfolding wiped
    timeout-wiped j =
        let j' = set r 4 0 (set r 3 0 (set r 2 0 (set r 1 0 (set r 0 0 j)))) in
        get-set_ne r r 6 5 0 (set r 5 0 j')
          (sep.ticket 6 5 (omega arith) (omega arith) (omega arith))
        ∙ get-set_self r 5 0 j'

    clear_record_eq : (j : Journal) → clear_record r j ≡ Bytes.clear calldata (wiped j)
    unfolding clear_record wiped put
    clear_record_eq j = refl

    wiped-ok : (j : Journal) → get calldata 0 j < 2 ^ 64 → (clear_record r j).0 ≡ ok tt
    wiped-ok j old =
        ap (λ x. x.0) (clear_record_eq j)
        ∙ clear-ok calldata sep.bytes (wiped j) (omega (arith, get-wiped 0 j (omega arith), old))

    wiped-timeout : (j : Journal) → get calldata 0 j < 2 ^ 64 → get r 5 (clear_record r j).1 ≡ 0
    wiped-timeout j old =
        ap (λ x. get r 5 x.1) (clear_record_eq j)
        ∙ clear-far calldata sep.bytes r 5 (wiped j) (λ i lt. sep.far i 5 lt (omega arith))
            (omega (arith, get-wiped 0 j (omega arith), old))
        ∙ timeout-wiped j

    positive : (n : ℕ) → 0 < n → (n == 0) ≡ false
    positive n lt = ground arith

    delete_eq :
        (j : Journal)
        → 0 < get r 5 j
        → get r 5 j < 2 ^ 64
        → get calldata 0 j < 2 ^ 64
        → (pays j).0 ≡ ok tt
        → delete_retryable root id j ≡ (ok true, (clear_record r (pays j).1).1)
    unfolding delete_retryable get_address
    delete_eq j alive fits old success = rw (get_u64-eq r 5 j fits) (
        rw (positive (get r 5 j) alive)
          (rw success (rw (wiped-ok (pays j).1 (omega (arith, get-pays calldata 0 j, old))))))

    gone :
        (now version : ℕ) (k : Journal) → get r 5 k ≡ 0 → (exists_at r now version k).0 ≡ ok false
    unfolding exists_at
    gone now version k zero_now = rw (get_u64-eq r 5 k (omega (arith, zero_now))) (rw zero_now)

    again : (k : Journal) → get r 5 k ≡ 0 → delete_retryable root id k ≡ (ok false, k)
    unfolding delete_retryable
    again k zero_now = rw (get_u64-eq r 5 k (omega (arith, zero_now))) (rw zero_now)

    abbrev deleted : Journal → Journal
    deleted j = (delete_retryable root id j).1

    -- Let the slots of the ticket and of its calldata not collide, the timeout be a u64 that is
    -- not zero, the length of the calldata fit a u64, and the payment of what the escrow holds
    -- succeed. Then the deletion reports true, the ticket exists at no time and under no version,
    -- and a second deletion reports false and writes nothing.
    pub delete_retryable-gone :
        (now version : ℕ) (j : Journal)
        → 0 < get r 5 j
        → get r 5 j < 2 ^ 64
        → get calldata 0 j < 2 ^ 64
        → (pays j).0 ≡ ok tt
        → ((delete_retryable root id j).0 ≡ ok true)
          × ((exists_at r now version (deleted j)).0 ≡ ok false)
          × (delete_retryable root id (deleted j) ≡ (ok false, deleted j))
    delete_retryable-gone now version j alive fits old success =
        let e = delete_eq j alive fits old success in
        let z : get r 5 (deleted j) ≡ 0 =
          ap (λ x. get r 5 x.1) e
          ∙ wiped-timeout (pays j).1 (omega (arith, get-pays calldata 0 j, old)) in
        (ap (λ x. x.0) e, gone now version (deleted j) z, again (deleted j) z)
