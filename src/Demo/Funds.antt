-- ===== src/Demo/Funds.antt =====
-- The movements of funds of the concrete host.
use arbitrum_revm.Prelude.{arith}
use arbitrum_revm.Tx.{MovesFunds}
use arbitrum_revm.Demo.{demo, move}

pub demo-MovesFunds : MovesFunds
unfolding move
demo-MovesFunds = record {
  incr_self = λ j a v fits. ground arith;
  incr_other = λ j a v b ne. ground arith;
  paid = λ j from to v ne le fits. (ground arith, ground arith, ground arith);
  bystander = λ j from to v b p q. ground arith;
  unpaid = λ j from to v lt. (ground arith, λ b. ground arith);
}
