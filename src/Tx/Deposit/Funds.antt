-- ===== src/Tx/Deposit/Funds.antt =====
-- crates/arb-revm/src/deposit_tx.rs: whose funds a deposit changes.
use native.Mathlib.Decide.{dec_le}
use arbitrum_revm.Prelude.{
  ℕ, ◌+◌, ◌%◌, ◌^◌, ◌≤◌, ◌<◌, ◌≡◌, ◌≢◌, refl, ap, sym, ◌∙◌, Bool, true, false, Option, none, some,
  inl, inr, leb, ltb, ◌==◌, if◌then◌else◌, arith, Bool-cases, eq_cases,
}
use arbitrum_revm.Exec.{Journal, Host, ok, incr, try_transfer}
use arbitrum_revm.Storage.{get, get_u64-eq, get_u256, get_address}
use arbitrum_revm.ArbosState.{arbos_root, filtered_transactions}
use arbitrum_revm.Tx.{ArbTransaction, MovesFunds}
use arbitrum_revm.Tx.Filter.{
  known_hash, version_or_read, is_tx_hash_filtered, filtered_funds_recipient_or_default,
}
use arbitrum_revm.Tx.Deposit.{applied, filtered, redirect, deposit_to, apply_deposit_tx}

module _ ⦃h : Host⦄ where
  -- What the filter says of a hash, and where it sends the funds.
  unfoldable pub hash_is_filtered : Option ℕ → Journal → Bool
  hash_is_filtered none j = false
  hash_is_filtered (some tx_hash) j =
      if leb 60 (get arbos_root 0 j) then get filtered_transactions tx_hash j == 1 else false

  unfoldable pub recipient : Journal → ℕ
  recipient j =
      if get arbos_root 10 j % 2 ^ 160 == 0
      then get arbos_root 3 j % 2 ^ 160
      else get arbos_root 10 j % 2 ^ 160

  unfoldable pub destination : Option ℕ → ℕ → Journal → ℕ
  destination tx_hash to j = if hash_is_filtered tx_hash j then recipient j else to

  recipient_lem : (j : Journal) → filtered_funds_recipient_or_default j ≡ (ok (recipient j), j)
  unfolding filtered_funds_recipient_or_default get_address recipient
  recipient_lem j = ground arith

  not_before : (a b : ℕ) → b ≤ a → ltb a b ≡ false
  not_before a b le = ground arith

  within : (a b : ℕ) → b ≤ a → leb b a ≡ true
  within a b le = ground arith

  redirect_lem :
      (tx_hash : Option ℕ) (to : ℕ) (j : Journal)
      → get arbos_root 0 j < 2 ^ 64
      → redirect tx_hash to j ≡ (ok (destination tx_hash to j, hash_is_filtered tx_hash j), j)
  unfolding redirect destination hash_is_filtered is_tx_hash_filtered version_or_read get_u256
  redirect_lem none to j fits = refl
  redirect_lem (some tx_hash) to j fits =
      rw (get_u64-eq arbos_root 0 j fits) (elim (dec_le 60 (get arbos_root 0 j)) [
        | yes new ↦ rw (not_before (get arbos_root 0 j) 60 new) (
            rw (within (get arbos_root 0 j) 60 new)
              (elim (Bool-cases (get filtered_transactions tx_hash j == 1)) [
                | inl e ↦ rw e (rw (recipient_lem j) refl)
                | inr e ↦ rw e refl
              ]))
        | no old ↦ ground (arith, old)
      ])

  -- Let the version fit a u64 and the funds move as documented. A deposit to an account other than
  -- the sender, where neither balance overflows, succeeds: the account is the one that is named,
  -- or where the hash is filtered the recipient of filtered funds; it holds the value more, and
  -- the balance of every other account, the sender's with it, is what it was.
  pub apply_deposit_tx_lem :
      (moves : MovesFunds) (tx : ArbTransaction) (to : ℕ) (j : Journal)
      → tx.kind ≡ some to
      → get arbos_root 0 j < 2 ^ 64
      → tx.caller ≢ destination (known_hash tx) to j
      → j.balance tx.caller + tx.value < 2 ^ 256
      → j.balance (destination (known_hash tx) to j) + tx.value < 2 ^ 256
      → ((apply_deposit_tx tx j).0
          ≡ ok (if hash_is_filtered (known_hash tx) j then filtered else applied))
        × ((apply_deposit_tx tx j).1.balance (destination (known_hash tx) to j)
            ≡ j.balance (destination (known_hash tx) to j) + tx.value)
        × ((a : ℕ)
            → a ≢ destination (known_hash tx) to j
            → (apply_deposit_tx tx j).1.balance a ≡ j.balance a)
        × ((apply_deposit_tx tx j).1.storage ≡ j.storage)
  unfolding apply_deposit_tx deposit_to incr try_transfer
  apply_deposit_tx_lem moves tx to j kind fits other caller_fits to_fits =
      let d = destination (known_hash tx) to j in
      let v = tx.value in
      let c = tx.caller in
      let j1 = h.balance_incr j c v in
      let minted = moves.incr_self j c v caller_fits in
      let kept : (a : ℕ) → a ≢ c → j1.balance a ≡ j.balance a = moves.incr_other j c v in
      let at_d = kept d (λ e. other (sym e)) in
      let paid = moves.paid j1 c d v other (omega (arith, minted)) (omega (arith, at_d, to_fits)) in
      let j2 = (h.transfer j1 c d v).1 in
      let same : (a : ℕ) → a ≢ d → j2.balance a ≡ j.balance a = λ a ne. elim (eq_cases a c) [
        | inl e ↦ ap j2.balance e ∙ paid.1 ∙ omega (arith, minted) ∙ ap j.balance (sym e)
        | inr far ↦ moves.bystander j1 c d v a far ne ∙ kept a far
      ] in
      rw kind (
        rw (redirect_lem (known_hash tx) to j fits) (
          rw paid.0 (
            refl,
            paid.2 ∙ ap (λ n. n + v) at_d,
            same,
            h.storage-transfer j1 c d v ∙ h.storage-balance_incr j c v,
          )))
