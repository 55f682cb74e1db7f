-- ===== src/Precompiles/FilterManager/Access.antt =====
-- crates/arb-revm/src/precompiles/arb_filtered_transactions_manager.rs: the calls of the manager, and what
-- transaction_filter.rs reads after them.
use arbitrum_revm.Prelude.{
  ℕ, ◌+◌, ◌-◌, ◌^◌, ◌≤◌, ◌<◌, ◌≡◌, ◌≢◌, ◌⊎◌, inl, inr, refl, ap, ◌∙◌, Bool, true, false, Option,
  none, some, List, [], ltb, ◌==◌, if◌then◌else◌, arith, Bool-cases,
}
use arbitrum_revm.Prelude.Text.{codes}
use arbitrum_revm.Words.{sat_add}
use arbitrum_revm.Exec.{Journal, Host, ok, emit_log, read_slot, write_slot}
use arbitrum_revm.Storage.{get, set, get_u64-eq, get_u256, get-set_self}
use arbitrum_revm.Storage.AddressSet.{by_address}
use arbitrum_revm.ArbosState.{arbos_root, filtered_transactions, transaction_filterers}
use arbitrum_revm.Meter.{burn, log_gas, metered_read_slot, metered_write_slot, metered_emit_log}
use arbitrum_revm.Tx.Filter.{is_tx_hash_filtered, version_or_read}
use arbitrum_revm.Precompiles.Outcome.{ArbCall, revert, GasMeter, ok_result, gated_revert_result}
use arbitrum_revm.Precompiles.Burner.{
  metered_get, metered_set, metered_is_member, charge_burned-covered,
}
use arbitrum_revm.Precompiles.FilterManager.{
  FilterCall, add_filtered_transaction, delete_filtered_transaction, filter_event, settle,
  write_entry, run_filter_call, run_arb_filtered_transactions_manager,
}

module _ ⦃h : Host⦄ ⦃g : GasMeter⦄ where
  unfoldable pub write_cost : ℕ → ℕ
  write_cost value = 800 + (if value == 0 then 5_000 else 20_000) + 1_125

  -- The journal after an entry is written.
  abbrev after : ArbCall → ℕ → ℕ → List ℕ → Journal → Journal
  after call tx_hash value signature j =
      (emit_log (filter_event call signature tx_hash) (set filtered_transactions tx_hash value j)).1

  write_entry-admitted :
      (call : ArbCall) (tx_hash value : ℕ) (signature : List ℕ) (j : Journal)
      → get (by_address transaction_filterers) call.caller j ≢ 0
      → write_cost value ≤ call.gas_limit
      → write_entry call tx_hash value signature j
        ≡ (ok_result (call.gas_limit - write_cost value) [], after call tx_hash value signature j)
  unfolding write_entry metered_is_member metered_get metered_set metered_read_slot
      metered_write_slot metered_emit_log burn sat_add log_gas settle filter_event ok_result
      write_cost get set
  write_entry-admitted call tx_hash value signature j member enough =
      let found : (get (by_address transaction_filterers) call.caller j == 0) ≡ false =
        ground (arith, member) in
      elim (Bool-cases (value == 0)) [
        | inl zero_value ↦
            rw (found, zero_value)
              (rw
                (charge_burned-covered revert (ok_result call.gas_limit []) 6_925
                  (rw zero_value at enough))
                refl)
        | inr one_value ↦
            rw (found, one_value)
              (rw
                (charge_burned-covered revert (ok_result call.gas_limit []) 21_925
                  (rw one_value at enough))
                refl)
      ]

  write_entry-refused :
      (call : ArbCall) (tx_hash value : ℕ) (signature : List ℕ) (j : Journal)
      → get (by_address transaction_filterers) call.caller j ≡ 0
      → write_entry call tx_hash value signature j ≡ (gated_revert_result call.gas_limit, j)
  unfolding write_entry metered_is_member metered_get metered_read_slot burn get
  write_entry-refused call tx_hash value signature j nobody =
      let missing : (get (by_address transaction_filterers) call.caller j == 0) ≡ true =
        ground (arith, nobody) in
      rw missing refl

  after-version :
      (call : ArbCall) (tx_hash value : ℕ) (signature : List ℕ) (j : Journal)
      → get arbos_root 0 (after call tx_hash value signature j) ≡ get arbos_root 0 j
  unfolding get set read_slot write_slot emit_log
  after-version call tx_hash value signature j = refl

  after-entry :
      (call : ArbCall) (tx_hash value : ℕ) (signature : List ℕ) (j : Journal)
      → get filtered_transactions tx_hash (after call tx_hash value signature j) ≡ value
  unfolding emit_log get read_slot
  after-entry call tx_hash value signature j = get-set_self filtered_transactions tx_hash value j

  -- The call that adds a hash, or removes it.
  abbrev pub change : Bool → ℕ → FilterCall
  change true tx_hash = add_filtered_transaction tx_hash
  change false tx_hash = delete_filtered_transaction tx_hash

  abbrev pub entry : Bool → ℕ
  entry adding = if adding then 1 else 0

  entry-eq : (adding : Bool) → (entry adding == 1) ≡ adding
  entry-eq true = refl
  entry-eq false = refl

  abbrev pub says_filtered : ℕ → Journal → Bool
  says_filtered tx_hash j = get filtered_transactions tx_hash j == 1

  is_tx_hash_filtered-eq :
      (tx_hash : ℕ) (j : Journal)
      → 60 ≤ get arbos_root 0 j
      → get arbos_root 0 j < 2 ^ 64
      → (is_tx_hash_filtered tx_hash none j).0 ≡ ok (says_filtered tx_hash j)
  unfolding is_tx_hash_filtered version_or_read get_u256
  is_tx_hash_filtered-eq tx_hash j late small =
      let not_early : ltb (get arbos_root 0 j) 60 ≡ false = ground (arith, late) in
      rw (get_u64-eq arbos_root 0 j small) (rw not_early refl)

  module _ (encode_bool : Bool → List ℕ) (decode : List ℕ → Option FilterCall) where
    run_change :
        (call : ArbCall) (adding : Bool) (tx_hash : ℕ) (j : Journal)
        → 60 ≤ get arbos_root 0 j
        → get arbos_root 0 j < 2 ^ 64
        → decode call.input ≡ some (change adding tx_hash)
        → (signature : List ℕ) × (run_arb_filtered_transactions_manager encode_bool decode call j
            ≡ write_entry call tx_hash (entry adding) signature j)
    unfolding run_arb_filtered_transactions_manager run_filter_call
    run_change call true tx_hash j late small decoded =
        let not_early : ltb (get arbos_root 0 j) 60 ≡ false = ground (arith, late) in
        (
          codes "FilteredTransactionAdded(bytes32)",
          rw (get_u64-eq arbos_root 0 j small) (rw (not_early, decoded) refl),
        )
    run_change call false tx_hash j late small decoded =
        let not_early : ltb (get arbos_root 0 j) 60 ≡ false = ground (arith, late) in
        (
          codes "FilteredTransactionDeleted(bytes32)",
          rw (get_u64-eq arbos_root 0 j small) (rw (not_early, decoded) refl),
        )

    -- From ArbOS 60 on, a decoded call that adds a hash or removes it, with the gas that its storage
    -- and its event cost: from an account that is no filterer it is refused with all its gas and
    -- changes nothing; from a filterer it returns, and the filter of transactions then says of the
    -- hash that it is filtered just where it was added.
    pub run_change_lem :
        (call : ArbCall) (adding : Bool) (tx_hash : ℕ) (j : Journal)
        → 60 ≤ get arbos_root 0 j
        → get arbos_root 0 j < 2 ^ 64
        → decode call.input ≡ some (change adding tx_hash)
        → write_cost (entry adding) ≤ call.gas_limit
        → (get (by_address transaction_filterers) call.caller j ≡ 0)
            × (run_arb_filtered_transactions_manager encode_bool decode call j
                ≡ (gated_revert_result call.gas_limit, j))
          ⊎ (get (by_address transaction_filterers) call.caller j ≢ 0)
            × ((run_arb_filtered_transactions_manager encode_bool decode call j).0
                ≡ ok_result (call.gas_limit - write_cost (entry adding)) [])
            × ((is_tx_hash_filtered tx_hash none
                  (run_arb_filtered_transactions_manager encode_bool decode call j).1).0
                ≡ ok adding)
    run_change_lem call adding tx_hash j late small decoded enough =
        let (signature, runs) = run_change call adding tx_hash j late small decoded in
        let k = after call tx_hash (entry adding) signature j in
        let version = after-version call tx_hash (entry adding) signature j in
        let reads : (is_tx_hash_filtered tx_hash none k).0 ≡ ok adding =
          is_tx_hash_filtered-eq tx_hash k (rw version late) (rw version small)
          ∙ ap (λ v. ok (v == 1)) (after-entry call tx_hash (entry adding) signature j)
          ∙ ap ok (entry-eq adding) in
        elim (Bool-cases (get (by_address transaction_filterers) call.caller j == 0)) [
          | inl nobody ↦
              let none_there : get (by_address transaction_filterers) call.caller j ≡ 0 =
                ground (arith, nobody) in
              inl (
                none_there,
                runs ∙ write_entry-refused call tx_hash (entry adding) signature j none_there,
              )
          | inr member ↦
              let one_there : get (by_address transaction_filterers) call.caller j ≢ 0 =
                ground (arith, member) in
              let whole =
                runs
                ∙ write_entry-admitted call tx_hash (entry adding) signature j one_there enough in
              inr (
                one_there,
                ap (λ r. r.0) whole,
                ap (λ r. (is_tx_hash_filtered tx_hash none r.1).0) whole ∙ reads,
              )
        ]
