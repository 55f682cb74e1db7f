-- ===== src/Tx/Funds.antt =====
-- crates/arb-revm/src: a transfer of an amount that may be zero, as the hooks make it.
use arbitrum_revm.Prelude.{
  ℕ, ◌+◌, ◌-◌, ◌^◌, ◌≤◌, ◌<◌, ◌≡◌, ◌≢◌, refl, ap, inl, inr, ltb, if◌then◌else◌, arith, Bool-cases,
}
use arbitrum_revm.Exec.{Journal, Host, Exec, ok, pure, read_slot}
use arbitrum_revm.Storage.{StorageSpace, get, slot_for_hash, transfer}
use arbitrum_revm.Tx.{MovesFunds}

module _ ⦃h : Host⦄ where
  -- A read depends on the storage alone.
  pub get_of_storage :
      (s : StorageSpace) (i : ℕ) (j k : Journal) → j.storage ≡ k.storage → get s i j ≡ get s i k
  unfolding get read_slot
  get_of_storage s i j k e = ap (λ f. f s.account (slot_for_hash s i)) e

  -- A transfer that can be paid, as a step.
  transfer_run :
      (moves : MovesFunds) (from to v : ℕ) (j : Journal)
      → from ≢ to
      → v ≤ j.balance from
      → j.balance to + v < 2 ^ 256
      → transfer from to v j ≡ (ok tt, (h.transfer j from to v).1)
  unfolding transfer
  transfer_run moves from to v j other held room =
      rw (moves.paid j from to v other held room).0 refl

  -- What moves when the value of a ticket leaves an account for another, where there is any.
  pub record Moved (from to v : ℕ) (j k : Journal) : Type 0 where
    pub out : k.balance from ≡ j.balance from - v
    pub into : k.balance to ≡ j.balance to + v
    pub rest : (a : ℕ) → a ≢ from → a ≢ to → k.balance a ≡ j.balance a
    pub kept : k.storage ≡ j.storage

  abbrev pub move_value : ℕ → ℕ → ℕ → Exec (Unit {0})
  move_value from to v = if ltb 0 v then transfer from to v else pure tt

  pub move_value_lem :
      (moves : MovesFunds) (from to v : ℕ) (j : Journal)
      → from ≢ to
      → v ≤ j.balance from
      → j.balance to + v < 2 ^ 256
      → ((move_value from to v j).0 ≡ ok tt) × Moved from to v j (move_value from to v j).1
  move_value_lem moves from to v j other held room = elim (Bool-cases (ltb 0 v)) [
    | inl some_value ↦
        let paid = moves.paid j from to v other held room in
        rw some_value (
          rw (transfer_run moves from to v j other held room) (
            refl,
            record {
              out = paid.1;
              into = paid.2;
              rest = λ a p q. moves.bystander j from to v a p q;
              kept = h.storage-transfer j from to v;
            },
          ))
    | inr no_value ↦
        let z : v ≡ 0 = ground (arith, no_value) in
        rw no_value (
          refl,
          record {
            out = omega (arith, z);
            into = omega (arith, z);
            rest = λ a p q. refl;
            kept = refl;
          },
        )
  ]
