-- ===== src/Examples/Owners.antt =====
-- The precompiles on the demo host.
use arbitrum_revm.Prelude.{
  ℕ, ◌+◌, ◌-◌, ◌*◌, ◌^◌, ◌≤◌, ◌<◌, ◌≡◌, ◌≢◌, ◌⊎◌, refl, inl, inr, Bool, true, false, Option, none,
  some, List, [], ◌∷◌, min, arith,
}
use arbitrum_revm.Exec.{Journal, ok}
use arbitrum_revm.Storage.{get, set, be_bytes, from_be_bytes}
use arbitrum_revm.Storage.AddressSet.{by_address}
use arbitrum_revm.Storage.Digits.{be_bytes-IsBytes}
use arbitrum_revm.Storage.Programs.Word.{pack_uint, unpack_uint}
use arbitrum_revm.ArbosState.{arbos_root, chain_owners, transaction_filterers, native_token_owners}
use arbitrum_revm.Tx.Filter.{is_tx_hash_filtered}
use arbitrum_revm.Precompiles.{ArbPrecompilesEnum, arb_filtered_transactions_manager, method_purity}
use arbitrum_revm.Precompiles.Methods.{nitro_methods}
use arbitrum_revm.Precompiles.Methods.Agreement.{AllMatch, nitro_selectors, tables-nitro}
use arbitrum_revm.Precompiles.Outcome.{
  ArbCall, Run, fatal_external_error, ok_result, gated_revert_result, done,
}
use arbitrum_revm.Precompiles.Dispatch.{
  owner_check_gas, run_owner_wrapper, run_dispatch, selector_of, changes_state,
}
use arbitrum_revm.Precompiles.Dispatch.Promises.{
  IsNormal, run_dispatch-IsNormal, run_dispatch-static, run_owner_wrapper_lem,
}
use arbitrum_revm.Precompiles.FilterManager.{
  FilterCall, add_filtered_transaction, is_transaction_filtered,
  run_arb_filtered_transactions_manager, run_filter_call, read_entry, settle,
}
use arbitrum_revm.Precompiles.FilterManager.Access.{write_cost, run_change_lem}
use arbitrum_revm.Precompiles.GoAbi.{
  Tys, end, next, uint, values_ok, value_ok, uint_ok, word_u64, word_at, all_are, more_words,
}
use arbitrum_revm.Precompiles.GoAbi.Range.{InRange, values_ok-InRange}
use arbitrum_revm.Precompiles.NativeToken.{
  NativeCall, mint_native_token, run_arb_native_token_manager,
}
use arbitrum_revm.Precompiles.NativeToken.Supply.{balance_after, run_arb_native_token_manager_lem}
use arbitrum_revm.Precompiles.Owner.{release_surplus, feature_enable_delay_seconds}
use arbitrum_revm.Precompiles.Owner.Params.{update_word}
use arbitrum_revm.Precompiles.Owner.Params.Update.{word_in, update_word_lem}
use arbitrum_revm.Precompiles.Owner.Schedule.{
  Attempt, AllWithin, NotBefore, attempts, attempts-NotBefore,
}
use arbitrum_revm.Precompiles.Owner.Surplus.{recognized, release_surplus_lem}
use arbitrum_revm.Meter.{metered_read_slot, burn}
use arbitrum_revm.Precompiles.Burner.{metered_get, charge_burned}
use arbitrum_revm.Precompiles.GasInfo.{GasInfoCall, get_prices_in_wei, run_arb_gas_info}
use arbitrum_revm.Precompiles.GasInfo.View.{run_arb_gas_info-stays}
use arbitrum_revm.Demo.{demo, blank, look}
use arbitrum_revm.Demo.Outside.{meter, selectors, encoder, gas_info_encoder, balances}

tables-nitro_example : AllMatch ⦃s = nitro_selectors⦄ 40 nitro_methods
tables-nitro_example = tables-nitro nitro_selectors 40 refl

-- A static call of `isTransactionFiltered`, by account 5.
abbrev call : ArbCall
call = record {
  input = 133 ∷ 199 ∷ 51 ∷ 164 ∷ [];
  gas_limit = 50_000;
  caller = 5;
  value = 0;
  bytecode_address = 0x74;
  acting_address = 0x74;
  is_static = true;
}

abbrev decode : List ℕ → Option FilterCall
decode input = some (is_transaction_filtered 77)

abbrev encode : Bool → List ℕ
encode b = []

-- The manager of the filter, and nothing at any other address.
abbrev bodies : ArbPrecompilesEnum → ArbCall → Run
bodies arb_filtered_transactions_manager c = run_arb_filtered_transactions_manager encode decode c
bodies arb c = done (ok_result c.gas_limit [])

abbrev args_ok : ArbPrecompilesEnum → ℕ → List ℕ → Bool
args_ok arb sel input = true

abbrev no_debug : List ℕ → Bool
no_debug config = false

-- ArbOS 60, where account 5 is a filterer and an owner of native tokens.
abbrev state : Journal
state =
    set (by_address native_token_owners) 5 1
      (set (by_address transaction_filterers) 5 1 (set arbos_root 0 60 blank))

state_slots : (get arbos_root 0 state ≡ 60) × (get (by_address transaction_filterers) 5 state ≡ 1)
unfolding look
state_slots = (refl, refl)

run_5 :
    (run_arb_filtered_transactions_manager encode decode call state) ≡ (ok_result 49_200 [], state)
unfolding look run_arb_filtered_transactions_manager run_filter_call read_entry metered_get
    metered_read_slot settle charge_burned ok_result burn
run_5 = refl

thrifty : (arb : ArbPrecompilesEnum) → (bodies arb call state).0.remaining ≤ 50_000
unfolding ok_result
thrifty arb_filtered_transactions_manager = rw run_5 (omega arith)
thrifty arb = omega arith

quiet :
    (arb : ArbPrecompilesEnum) (sel : ℕ)
    → selector_of call.input ≡ some sel
    → changes_state (method_purity arb sel) ≡ false
    → ((bodies arb call state).1.storage ≡ state.storage)
      × ((bodies arb call state).1.balance ≡ state.balance)
quiet arb_filtered_transactions_manager sel chosen pure_or_view = rw run_5 (refl, refl)
quiet arb sel chosen pure_or_view = (refl, refl)

run_dispatch-IsNormal_example :
    IsNormal 50_000
      (run_dispatch args_ok no_debug bodies arb_filtered_transactions_manager call state).0
run_dispatch-IsNormal_example =
    run_dispatch-IsNormal args_ok no_debug bodies arb_filtered_transactions_manager call state
      thrifty

run_dispatch-static_example :
    ((run_dispatch args_ok no_debug bodies arb_filtered_transactions_manager call state).1.storage
      ≡ state.storage)
    × ((run_dispatch args_ok no_debug bodies arb_filtered_transactions_manager call state).1.balance
        ≡ state.balance)
run_dispatch-static_example =
    run_dispatch-static args_ok no_debug bodies arb_filtered_transactions_manager call state refl
      quiet

run_owner_wrapper_lem_example :
    ((get (by_address chain_owners) 5 state ≡ 0) ⊎ (50_000 < owner_check_gas))
      × (run_owner_wrapper args_ok no_debug bodies call 60 state
          ≡ (gated_revert_result 50_000, state))
    ⊎ (get (by_address chain_owners) 5 state ≢ 0)
      × (owner_check_gas ≤ 50_000)
      × (((run_owner_wrapper args_ok no_debug bodies call 60 state).0.result ≡ fatal_external_error)
          ⊎ ((run_owner_wrapper args_ok no_debug bodies call 60 state).0.remaining ≡ 50_000))
run_owner_wrapper_lem_example = run_owner_wrapper_lem args_ok no_debug bodies call 60 state

abbrev params : Tys
params = next (uint 64) (next (uint 8) end)

abbrev arguments : List ℕ
arguments = be_bytes 64 (500 * 2 ^ 256 + 7)

accepted : values_ok params 0 arguments ≡ true
unfolding values_ok value_ok uint_ok word_u64 word_at all_are more_words be_bytes from_be_bytes
accepted = refl

values_ok-InRange_example : InRange params 0 arguments
values_ok-InRange_example =
    values_ok-InRange params 0 arguments (be_bytes-IsBytes 64 (500 * 2 ^ 256 + 7)) accepted

abbrev tries : List Attempt
tries = record { now = 2_000; timestamp = 900_000 } ∷ record { now = 3_000; timestamp = 0 } ∷ []

tries_within : AllWithin 1_000 tries
unfolding AllWithin
tries_within = omega arith

off_at_first : get arbos_root 8 state ≡ 0
unfolding look
off_at_first = refl

attempts-NotBefore_example :
    NotBefore
      (1_000 + feature_enable_delay_seconds)
      (get arbos_root 8 (attempts call 8 tries state))
attempts-NotBefore_example =
    attempts-NotBefore call 8 1_000 tries state (omega arith) tries_within (inl off_at_first)

-- A pool of 500.
abbrev pool : Journal
pool = record state { balance = λ a. 500 }

release_surplus_lem_example :
    ((release_surplus 100 30 pool).0 ≡ ok_result 100 (be_bytes 32 (min (500 - recognized pool) 30)))
    × (recognized (release_surplus 100 30 pool).1
        ≡ recognized pool + min (500 - recognized pool) 30)
    × ((release_surplus 100 30 pool).1.balance ≡ pool.balance)
    × ((recognized (release_surplus 100 30 pool).1 ≡ recognized pool)
        ⊎ (recognized (release_surplus 100 30 pool).1 ≤ 500))
release_surplus_lem_example = release_surplus_lem 100 30 pool (omega arith)

update_word_lem_example :
    ((update_word 100 (λ word. pack_uint word 9 2 7) state).0 ≡ ok_result 100 [])
    × (unpack_uint (word_in (update_word 100 (λ word. pack_uint word 9 2 7) state).1) 9 2 ≡ 7)
    × (unpack_uint (word_in (update_word 100 (λ word. pack_uint word 9 2 7) state).1) 11 2
        ≡ unpack_uint (word_in state) 11 2)
update_word_lem_example =
    update_word_lem 100 9 2 7 11 2 state (omega arith) (omega arith) (inr (omega arith))

abbrev decode_add : List ℕ → Option FilterCall
decode_add input = some (add_filtered_transaction 77)

enough : write_cost 1 ≤ 50_000
unfolding write_cost
enough = omega arith

run_change_lem_example :
    (get (by_address transaction_filterers) 5 state ≡ 0)
      × (run_arb_filtered_transactions_manager encode decode_add call state
          ≡ (gated_revert_result 50_000, state))
    ⊎ (get (by_address transaction_filterers) 5 state ≢ 0)
      × ((run_arb_filtered_transactions_manager encode decode_add call state).0
          ≡ ok_result (50_000 - write_cost 1) [])
      × ((is_tx_hash_filtered 77 none
            (run_arb_filtered_transactions_manager encode decode_add call state).1).0
          ≡ ok true)
run_change_lem_example =
    run_change_lem encode decode_add call true 77 state (omega (arith, state_slots))
      (omega (arith, state_slots)) refl enough

abbrev mint_ten : List ℕ → Option NativeCall
mint_ten input = some (mint_native_token 10)

room : state.balance 5 + 10 < 2 ^ 256
unfolding look
room = omega arith

run_arb_native_token_manager_lem_example :
    (get (by_address native_token_owners) 5 state ≡ 0)
      × (run_arb_native_token_manager mint_ten call state ≡ (gated_revert_result 50_000, state))
    ⊎ (get (by_address native_token_owners) 5 state ≢ 0)
      × ((run_arb_native_token_manager mint_ten call state).1.balance 5
          ≡ balance_after (mint_native_token 10) (state.balance 5))
      × ((run_arb_native_token_manager mint_ten call state).1.balance 6 ≡ state.balance 6)
run_arb_native_token_manager_lem_example =
    run_arb_native_token_manager_lem mint_ten call (mint_native_token 10) state 6 refl room
      (omega arith)

abbrev ask_prices : List ℕ → Option GasInfoCall
ask_prices input = some get_prices_in_wei

run_arb_gas_info-stays_example : (run_arb_gas_info ask_prices 100_000_000 7 call state).1 ≡ state
run_arb_gas_info-stays_example = run_arb_gas_info-stays ask_prices 100_000_000 7 call state
