-- ===== src/Demo/Outside.antt =====
-- Values for what the precompiles take from other code: a meter and balances that do as revm says of its own,
-- an encoder, and the selectors of Nitro's list.
use arbitrum_revm.Prelude.{
  ℕ, [], ◌+◌, ◌-◌, ◌^◌, ◌≤◌, ◌<◌, ◌≡◌, ◌≢◌, Bool, true, false, ltb, ◌==◌, if◌then◌else◌, arith,
}
use arbitrum_revm.Exec.{Journal}
use arbitrum_revm.Storage.{be_bytes}
use arbitrum_revm.Precompiles.{Selectors}
use arbitrum_revm.Precompiles.Methods.Agreement.{nitro_selectors}
use arbitrum_revm.Precompiles.Outcome.{GasMeter}
use arbitrum_revm.Prelude.Int.{pos}
use arbitrum_revm.Precompiles.GasInfo
use arbitrum_revm.Precompiles.NativeToken.{Balances}
use arbitrum_revm.Precompiles.Owner.{Encoder}

abbrev pub meter_cost : ℕ → ℕ → Bool × ℕ
meter_cost remaining cost =
    if ltb remaining cost then (false, remaining) else (true, remaining - cost)

pub meter_covered :
    (remaining cost : ℕ) → cost ≤ remaining → meter_cost remaining cost ≡ (true, remaining - cost)
meter_covered remaining cost le = ground arith

pub meter_uncovered :
    (remaining cost : ℕ) → remaining < cost → meter_cost remaining cost ≡ (false, remaining)
meter_uncovered remaining cost lt = ground arith

instance abbrev pub meter : GasMeter
meter = record {
  record_regular_cost = meter_cost;
  covered = meter_covered;
  uncovered = meter_uncovered;
}

instance abbrev pub selectors : Selectors
selectors = nitro_selectors

instance abbrev pub encoder : Encoder
encoder = record {
  encode_uint = be_bytes 32;
  encode_bool = λ b. be_bytes 32 (if b then 1 else 0);
  encode_addresses = λ accounts. accounts;
}

abbrev pub credit_to : Journal → ℕ → ℕ → Bool × Journal
credit_to j account amount =
    if ltb (j.balance account + amount) (2 ^ 256)
    then (
      true,
      record j { balance = λ a. if a == account then j.balance a + amount else j.balance a },
    )
    else (false, j)

abbrev pub debit_from : Journal → ℕ → ℕ → Bool × Journal
debit_from j account amount = if ltb (j.balance account) amount then (false, j) else (
  true,
  record j { balance = λ a. if a == account then j.balance a - amount else j.balance a },
)

pub credited_lem :
    (j : Journal) (account amount : ℕ)
    → j.balance account + amount < 2 ^ 256
    → ((credit_to j account amount).0 ≡ true)
      × ((credit_to j account amount).1.balance account ≡ j.balance account + amount)
credited_lem j account amount lt = ground arith

pub debited_lem :
    (j : Journal) (account amount : ℕ)
    → amount ≤ j.balance account
    → ((debit_from j account amount).0 ≡ true)
      × ((debit_from j account amount).1.balance account ≡ j.balance account - amount)
debited_lem j account amount le = ground arith

pub credit_bystander_lem :
    (j : Journal) (account amount other : ℕ)
    → other ≢ account
    → (credit_to j account amount).1.balance other ≡ j.balance other
credit_bystander_lem j account amount other ne = ground arith

pub debit_bystander_lem :
    (j : Journal) (account amount other : ℕ)
    → other ≢ account
    → (debit_from j account amount).1.balance other ≡ j.balance other
debit_bystander_lem j account amount other ne = ground arith

instance abbrev pub balances : Balances
balances = record {
  credit = credit_to;
  debit = debit_from;
  credited = credited_lem;
  debited = debited_lem;
  credit_bystander = credit_bystander_lem;
  debit_bystander = debit_bystander_lem;
}

instance abbrev pub gas_info_encoder : GasInfo.Encoder
gas_info_encoder = record {
  from_u256 = pos;
  encode_words = λ words. words;
  encode_signed = λ v. [];
  encode_fees = λ fees. fees;
  encode_constraints = λ cs. [];
  encode_resources = λ cs. [];
}
