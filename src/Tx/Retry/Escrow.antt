-- ===== src/Tx/Retry/Escrow.antt =====
-- crates/arb-revm/src/retry_tx.rs: the escrow of a ticket around a retry that fails.
use arbitrum_revm.Prelude.{
  ℕ, ◌+◌, ◌^◌, ◌≤◌, ◌<◌, ◌≡◌, ◌≢◌, refl, ap, sym, ◌∙◌, true, false, Option, none, some, inl, inr,
  leb, arith, eq_cases, List,
}
use arbitrum_revm.Exec.{Journal, Host, Exec, ok, ◌>>◌}
use arbitrum_revm.Storage.{get, get_u64-eq, get_u256}
use arbitrum_revm.Storage.Retryables.{retryable, exists_at, retryable_escrow_address}
use arbitrum_revm.ArbosState.{arbos_root, retryables}
use arbitrum_revm.Tx.{ArbTransaction, RetryTxMeta, MovesFunds}
use arbitrum_revm.Tx.Funds.{move_value, move_value_lem, get_of_storage}
use arbitrum_revm.Tx.Retry.{
  apply_retry_tx_pre_execution, apply_retry_tx_post_execution, take_from_escrow, bump_unless_create,
  bump_sender_nonce,
}

module _ ⦃h : Host⦄ where
  abbrev pub callvalue : ℕ → Journal → ℕ
  callvalue ticket_id j = get (retryable retryables ticket_id) 3 j

  abbrev pub attempt : ArbTransaction → ℕ → List ℕ → Exec (Unit {0})
  attempt tx timestamp zombies =
      apply_retry_tx_pre_execution tx timestamp >> apply_retry_tx_post_execution tx zombies false

  bump_run :
      (kind : Option ℕ) (from : ℕ) (j : Journal)
      → (h.bump_nonce j from).0 ≡ true
      → ((bump_unless_create kind from j).0 ≡ ok tt)
        × ((bump_unless_create kind from j).1.storage ≡ j.storage)
        × ((bump_unless_create kind from j).1.balance ≡ j.balance)
  unfolding bump_unless_create bump_sender_nonce
  bump_run none from j e = (refl, refl, refl)
  bump_run (some to) from j e =
      rw e (refl, h.storage-bump_nonce j from, h.balance-bump_nonce j from)

  -- Let the funds move as documented, the version and the time fit a u64, the ticket be found,
  -- its escrow hold its value, the sender be another account with room for it, and have a next
  -- nonce. Then the value goes to the sender before a retry runs; and where the retry fails
  -- without touching state itself, the hook after it succeeds too, and the balances of all
  -- accounts and the storage are what they were at first.
  pub failed_retry :
      (moves : MovesFunds) (tx : ArbTransaction) (meta : RetryTxMeta) (timestamp : ℕ)
      (zombies : List ℕ) (j : Journal)
      → tx.retry_meta ≡ some meta
      → timestamp < 2 ^ 64
      → get arbos_root 0 j < 2 ^ 64
      → exists_at (retryable retryables meta.ticket_id) timestamp (get arbos_root 0 j) j
        ≡ (ok true, j)
      → ((k : Journal) → (h.bump_nonce k tx.caller).0 ≡ true)
      → tx.caller ≢ retryable_escrow_address meta.ticket_id
      → callvalue meta.ticket_id j ≤ j.balance (retryable_escrow_address meta.ticket_id)
      → j.balance (retryable_escrow_address meta.ticket_id) < 2 ^ 256
      → j.balance tx.caller + callvalue meta.ticket_id j < 2 ^ 256
      → ((apply_retry_tx_pre_execution tx timestamp j).0 ≡ ok tt)
        × ((apply_retry_tx_pre_execution tx timestamp j).1.balance tx.caller
            ≡ j.balance tx.caller + callvalue meta.ticket_id j)
        × ((attempt tx timestamp zombies j).0 ≡ ok tt)
        × ((a : ℕ) → (attempt tx timestamp zombies j).1.balance a ≡ j.balance a)
        × ((attempt tx timestamp zombies j).1.storage ≡ j.storage)
  unfolding apply_retry_tx_pre_execution apply_retry_tx_post_execution take_from_escrow get_u256
  failed_retry moves tx meta timestamp zombies j has fits version found nonce other held held_fits
        room =
      let esc = retryable_escrow_address meta.ticket_id in
      let from = tx.caller in
      let s = retryable retryables meta.ticket_id in
      let c = get s 3 j in
      let first = move_value_lem moves esc from c j (λ e. other (sym e)) held room in
      let j1 = (move_value esc from c j).1 in
      let bumped = bump_run tx.kind from j1 (nonce j1) in
      let k = (bump_unless_create tx.kind from j1).1 in
      let bal : (a : ℕ) → k.balance a ≡ j1.balance a = λ a. ap (λ f. f a) bumped.2 in
      let stored : get s 3 k ≡ c =
        get_of_storage s 3 k j1 bumped.1 ∙ get_of_storage s 3 j1 j first.1.kept in
      let at_esc = bal esc ∙ first.1.out in
      let at_from = bal from ∙ first.1.into in
      let second =
        move_value_lem moves from esc c k other (omega (arith, at_from))
          (omega (arith, at_esc, held, held_fits)) in
      let small : leb (2 ^ 64) timestamp ≡ false = ground (arith, fits) in
      let pre : apply_retry_tx_pre_execution tx timestamp j ≡ (ok tt, k) = rw has (
        rw small (
          rw (get_u64-eq arbos_root 0 j version) (rw found (rw first.0 (λ i. (bumped.0 i, k)))))) in
      let post : apply_retry_tx_post_execution tx zombies false k
          ≡ (ok tt, (move_value from esc c k).1) =
        rw has (rw stored (λ i. (second.0 i, (move_value from esc c k).1))) in
      let l = (move_value from esc c k).1 in
      let both : attempt tx timestamp zombies j ≡ (ok tt, l) = rw pre post in
      let same : (a : ℕ) → l.balance a ≡ j.balance a = λ a. elim (eq_cases a from) [
        | inl e ↦ ap l.balance e ∙ second.1.out ∙ omega (arith, at_from) ∙ ap j.balance (sym e)
        | inr p ↦ elim (eq_cases a esc) [
          | inl e ↦
              ap l.balance e ∙ second.1.into ∙ omega (arith, at_esc, held) ∙ ap j.balance (sym e)
          | inr q ↦ second.1.rest a p q ∙ bal a ∙ first.1.rest a q p
        ]
      ] in
      (
        ap (λ r. r.0) pre,
        ap (λ r. r.1.balance from) pre ∙ at_from,
        ap (λ r. r.0) both,
        λ a. ap (λ r. r.1.balance a) both ∙ same a,
        ap (λ r. r.1.storage) both ∙ second.1.kept ∙ bumped.1 ∙ first.1.kept,
      )
