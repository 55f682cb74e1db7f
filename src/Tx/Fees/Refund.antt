-- ===== src/Tx/Fees/Refund.antt =====
-- crates/arb-revm/src/handler.rs: the refund of a retry, and its budget.
use arbitrum_revm.Prelude.{
  ℕ, ◌+◌, ◌-◌, ◌^◌, ◌≤◌, ◌<◌, ◌≡◌, ◌≢◌, refl, ap, sym, ◌∙◌, inl, inr, true, false, ltb, leb, ◌==◌,
  min, arith, Bool-cases,
}
use arbitrum_revm.Exec.{Journal, Host, ok, try_transfer}
use arbitrum_revm.Tx.{MovesFunds}
use arbitrum_revm.Tx.Funds.{Moved}
use arbitrum_revm.Tx.Fees.{pay_if_covered, retry_fee_refund}

module _ ⦃h : Host⦄ where
  pay_lem :
      (moves : MovesFunds) (from to v : ℕ) (j : Journal)
      → from ≢ to
      → v ≤ j.balance from
      → j.balance to + v < 2 ^ 256
      → ((pay_if_covered from to v j).0 ≡ ok tt) × Moved from to v j (pay_if_covered from to v j).1
  unfolding pay_if_covered try_transfer
  pay_lem moves from to v j other held room = elim (Bool-cases (ltb 0 v)) [
    | inl some_value ↦
        let covered : leb v (j.balance from) ≡ true = ground (arith, held) in
        let paid = moves.paid j from to v other held room in
        rw some_value (
          rw covered (
            refl,
            record {
              out = paid.1;
              into = paid.2;
              rest = λ a p q. moves.bystander j from to v a p q;
              kept = h.storage-transfer j from to v;
            },
          ))
    | inr no_value ↦
        let z : v ≡ 0 = ground (arith, no_value) in
        rw no_value (
          refl,
          record {
            out = omega (arith, z);
            into = omega (arith, z);
            rest = λ a p q. refl;
            kept = refl;
          },
        )
  ]

  -- Let the funds move as documented, and the fee account be set, hold the amount, and be neither
  -- the address for refunds nor the sender, which are two accounts with room for it. Then a refund
  -- succeeds: the address for refunds gets the amount up to the budget, the sender gets the rest,
  -- the fee account pays both, no other balance and no storage changes, and the budget falls by
  -- what the address for refunds got.
  pub retry_fee_refund_lem :
      (moves : MovesFunds) (account amount refund_to from budget : ℕ) (j : Journal)
      → account ≢ 0
      → account ≢ refund_to
      → account ≢ from
      → refund_to ≢ from
      → amount ≤ j.balance account
      → j.balance refund_to + amount < 2 ^ 256
      → j.balance from + amount < 2 ^ 256
      → ((retry_fee_refund account amount refund_to from budget j).0
          ≡ ok (budget - min amount budget))
        × ((retry_fee_refund account amount refund_to from budget j).1.balance account
            ≡ j.balance account - amount)
        × ((retry_fee_refund account amount refund_to from budget j).1.balance refund_to
            ≡ j.balance refund_to + min amount budget)
        × ((retry_fee_refund account amount refund_to from budget j).1.balance from
            ≡ j.balance from + (amount - min amount budget))
        × ((a : ℕ)
            → a ≢ account
            → a ≢ refund_to
            → a ≢ from
            → (retry_fee_refund account amount refund_to from budget j).1.balance a ≡ j.balance a)
        × ((retry_fee_refund account amount refund_to from budget j).1.storage ≡ j.storage)
  unfolding retry_fee_refund
  retry_fee_refund_lem moves account amount refund_to from budget j used to_lem from_lem other held
        to_room from_room =
      elim (Bool-cases (amount == 0)) [
        | inl none_due ↦
            let z : amount ≡ 0 = ground (arith, none_due) in
            rw none_due (
              ap ok (omega (arith, z)),
              omega (arith, z),
              omega (arith, z),
              omega (arith, z),
              λ a p q r. refl,
              refl,
            )
        | inr due ↦
            let x = min amount budget in
            let first =
              pay_lem moves account refund_to x j to_lem (omega (arith, held))
                (omega (arith, to_room)) in
            let k = (pay_if_covered account refund_to x j).1 in
            let at_account = first.1.out in
            let at_from = first.1.rest from (λ e. from_lem (sym e)) (λ e. other (sym e)) in
            let second =
              pay_lem moves account from (amount - x) k from_lem (omega (arith, at_account, held))
                (omega (arith, at_from, from_room)) in
            let set_lem : (account == 0) ≡ false = ground (arith, used) in
            rw due (
              rw set_lem (
                rw first.0 (
                  rw second.0 (
                    refl,
                    second.1.out ∙ omega (arith, at_account, held),
                    second.1.rest refund_to (λ e. to_lem (sym e)) other ∙ first.1.into,
                    second.1.into ∙ ap (λ n. n + (amount - x)) at_from,
                    λ a p q r. second.1.rest a p r ∙ first.1.rest a p q,
                    second.1.kept ∙ first.1.kept,
                  ))))
      ]
