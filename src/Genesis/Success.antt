-- ===== src/Genesis/Success.antt =====
-- crates/arb-revm/src/arbos_init.rs: a new chain starts at its version.
use arbitrum_revm.Prelude.{
  ℕ, ◌≤◌, ◌<◌, ◌^◌, ◌≡◌, ◌≢◌, ◌⊎◌, refl, ◌∙◌, Bool, true, false, not, List, [], ◌∷◌, ltb, leb, ◌==◌,
  if◌then◌else◌, arith, inl, inr, Bool-cases,
}
use arbitrum_revm.Prelude.Int.{pos}
use arbitrum_revm.Exec.{Journal, Host, Exec, ok, pure, ◌>>◌}
use arbitrum_revm.Exec.Success.{Succeeds, then-Succeeds, if-Succeeds}
use arbitrum_revm.Storage.{
  StorageSpace, slot_for_hash, get, set, put, get_u64-eq, get_u256, set_i64, get-set_self,
  get-set_ne,
}
use arbitrum_revm.Storage.AddressSet
use arbitrum_revm.Storage.AddressSet.{by_address, is_member}
use arbitrum_revm.Storage.BatchPosterTable.{add_poster, internal_open, poster_address_set}
use arbitrum_revm.Storage.Bytes.Success.{set_bytes-ok}
use arbitrum_revm.Storage.L1Pricing.{batch_poster_table}
use arbitrum_revm.Storage.Queue
use arbitrum_revm.Storage.Retryables.{timeout_queue}
use arbitrum_revm.ArbosState.{
  arbos_root, l1_pricing, l2_pricing, retryables, chain_owners, chain_config,
}
use arbitrum_revm.L1Cost.{batch_poster_address}
use arbitrum_revm.Internal.Upgrade.{
  arbos_precompiles, set_account_code, set_account_nonce, upgrade_arbos_version,
}
use arbitrum_revm.Internal.Upgrade.Success.{upgrade_arbos_version-past}
use arbitrum_revm.Genesis.{
  ArbosInitConfig, install_up_to, write_metadata, write_top_level, write_l1_pricing,
  write_l2_pricing, first_time_constants, initialize_arbos_state,
}

-- The rest of a block after a step that returned.
then-eq : (m n : Exec (Unit {0})) (j : Journal) → (m j).0 ≡ ok tt → (m >> n) j ≡ n (m j).1
then-eq m n j e = rw e refl

module _ ⦃h : Host⦄ where
  put-Succeeds : (s : StorageSpace) (k v : ℕ) → Succeeds (put s k v)
  unfolding put
  put-Succeeds s k v j = refl

  install_up_to-Succeeds : (ps : List (ℕ × ℕ × Bool)) (v : ℕ) → Succeeds (install_up_to ps v)
  unfolding install_up_to set_account_code
  install_up_to-Succeeds [] v = λ j. refl
  install_up_to-Succeeds (p ∷ ps) v =
      then-Succeeds (if ltb v p.1 then pure tt else set_account_code p.0 (0xfe ∷ []))
        (install_up_to ps v) (if-Succeeds (ltb v p.1) _ _ (λ j. refl) (λ e j. refl))
        (install_up_to-Succeeds ps v)

  write_metadata-Succeeds : (config : ArbosInitConfig) → Succeeds (write_metadata config)
  unfolding write_metadata put
  write_metadata-Succeeds config =
      let number = config.genesis_block_number in
      let owner = put arbos_root 3 config.initial_chain_owner in
      let named = leb 2 config.initial_arbos_version in
      then-Succeeds (put arbos_root 0 1)
        (put arbos_root 4 config.chain_id
          >> ((if number == 0 then pure tt else put arbos_root 5 number)
              >> (if named then owner else pure tt)))
        (λ j. refl)
        (then-Succeeds (put arbos_root 4 config.chain_id)
          ((if number == 0 then pure tt else put arbos_root 5 number)
            >> (if named then owner else pure tt))
          (λ j. refl)
          (then-Succeeds (if number == 0 then pure tt else put arbos_root 5 number)
            (if named then owner else pure tt)
            (if-Succeeds (number == 0) _ _ (λ j. refl) (λ e j. refl))
            (if-Succeeds named _ _ (λ j. refl) (λ e j. refl))))

  add-ok :
      (s : StorageSpace) (account : ℕ) (j : Journal)
      → get s 0 j < 2 ^ 64
      → (AddressSet.add s account j).0 ≡ ok tt
  unfolding AddressSet.add is_member get_u256 put
  add-ok s account j lt = elim (Bool-cases (not (get (by_address s) account j == 0))) [
    | inl e ↦ rw e refl
    | inr e ↦ rw e (rw (get_u64-eq s 0 j lt) refl)
  ]

  -- The poster's own slots, before it is counted.
  abbrev pub opened : StorageSpace → ℕ → ℕ → Journal → Journal
  opened s poster pay_to j =
      set (internal_open s poster) 1 pay_to (set (internal_open s poster) 0 0 j)

  add_poster-ok :
      (s : StorageSpace) (poster pay_to : ℕ) (j : Journal)
      → get (by_address (poster_address_set s)) poster j ≡ 0
      → get (poster_address_set s) 0 (opened s poster pay_to j) < 2 ^ 64
      → (add_poster s poster pay_to j).0 ≡ ok (internal_open s poster)
  unfolding add_poster is_member get_u256 put
  add_poster-ok s poster pay_to j new count =
      rw new (rw (add-ok (poster_address_set s) poster (opened s poster pay_to j) count) refl)

  abbrev pub posters : StorageSpace
  posters = batch_poster_table l1_pricing

  -- The journals on the way: when the chain configuration, the poster and the owner are written.
  abbrev pub with_metadata : ArbosInitConfig → Journal → Journal
  with_metadata config j =
      let k = h.set_nonce j arbos_root.account 1 in
      (write_metadata config (install_up_to arbos_precompiles config.initial_arbos_version k).1).1

  abbrev pub with_poster : ArbosInitConfig → Journal → Journal
  with_poster config j =
      (add_poster posters batch_poster_address batch_poster_address (write_top_level config j).1).1

  abbrev pub with_prices : ArbosInitConfig → Journal → Journal
  with_prices config j = (write_l2_pricing (write_l1_pricing config (with_poster config j)).1).1

  abbrev pub with_queue : ArbosInitConfig → Journal → Journal
  with_queue config j = (Queue.initialize (timeout_queue retryables) (with_prices config j)).1

  -- A state in which the poster is unknown, and the sizes are machine words.
  pub record IsNew (config : ArbosInitConfig) (j : Journal) : Type 0 where
    pub config_size : get chain_config 0 (with_metadata config j) < 2 ^ 64
    pub poster_unknown :
        get
          (by_address (poster_address_set posters))
          batch_poster_address
          (write_top_level config j).1
        ≡ 0
    pub poster_count :
        get
          (poster_address_set posters)
          0
          (opened posters batch_poster_address batch_poster_address (write_top_level config j).1)
        < 2 ^ 64
    pub owner_count : get chain_owners 0 (with_queue config j) < 2 ^ 64

  -- The slots of the constants of version 6 are apart from one another and from the version.
  pub record IsSeparate : Type 0 where
    pub version_charge : slot_for_hash l1_pricing 9 ≢ slot_for_hash arbos_root 0
    pub version_units : slot_for_hash l1_pricing 1 ≢ slot_for_hash arbos_root 0
    pub version_speed : slot_for_hash l2_pricing 0 ≢ slot_for_hash arbos_root 0
    pub version_limit : slot_for_hash l2_pricing 1 ≢ slot_for_hash arbos_root 0
    pub units_speed : slot_for_hash l2_pricing 0 ≢ slot_for_hash l1_pricing 1
    pub units_limit : slot_for_hash l2_pricing 1 ≢ slot_for_hash l1_pricing 1
    pub speed_limit : slot_for_hash l2_pricing 1 ≢ slot_for_hash l2_pricing 0

  write_top_level-ok :
      (config : ArbosInitConfig) (j : Journal)
      → get chain_config 0 (with_metadata config j) < 2 ^ 64
      → (write_top_level config j).0 ≡ ok tt
  unfolding write_top_level set_account_nonce
  write_top_level-ok config j size =
      let v = config.initial_arbos_version in
      let k = h.set_nonce j arbos_root.account 1 in
      rw (install_up_to-Succeeds arbos_precompiles v k) (
        rw (write_metadata-Succeeds config (install_up_to arbos_precompiles v k).1)
          (set_bytes-ok chain_config config.serialized_chain_config (with_metadata config j) size))

  abbrev three : Journal → Journal
  three j =
      set l2_pricing 1 32_000_000 (set l2_pricing 0 7_000_000 (set l1_pricing 1 160_000_000 j))

  three_lem :
      (j : Journal)
      → IsSeparate
      → (get arbos_root 0 (three j) ≡ get arbos_root 0 j)
        × (get l1_pricing 1 (three j) ≡ 160_000_000)
        × (get l2_pricing 0 (three j) ≡ 7_000_000)
        × (get l2_pricing 1 (three j) ≡ 32_000_000)
  three_lem j apart =
      let j1 = set l1_pricing 1 160_000_000 j in
      let j2 = set l2_pricing 0 7_000_000 j1 in
      (
        get-set_ne l2_pricing arbos_root 1 0 32_000_000 j2 apart.version_limit
            ∙ get-set_ne l2_pricing arbos_root 0 0 7_000_000 j1 apart.version_speed
            ∙ get-set_ne l1_pricing arbos_root 1 0 160_000_000 j apart.version_units,
        get-set_ne l2_pricing l1_pricing 1 1 32_000_000 j2 apart.units_limit
            ∙ get-set_ne l2_pricing l1_pricing 0 1 7_000_000 j1 apart.units_speed
            ∙ get-set_self l1_pricing 1 160_000_000 j,
        get-set_ne l2_pricing l2_pricing 1 0 32_000_000 j2 apart.speed_limit
            ∙ get-set_self l2_pricing 0 7_000_000 j1,
        get-set_self l2_pricing 1 32_000_000 j2,
      )

  constants_lem :
      (v : ℕ) (j : Journal)
      → IsSeparate
      → get arbos_root 0 j ≡ v
      → ((first_time_constants v j).0 ≡ ok tt)
        × (get arbos_root 0 (first_time_constants v j).1 ≡ v)
        × ((v < 6)
            ⊎ (get l1_pricing 1 (first_time_constants v j).1 ≡ 160_000_000)
              × (get l2_pricing 0 (first_time_constants v j).1 ≡ 7_000_000)
              × (get l2_pricing 1 (first_time_constants v j).1 ≡ 32_000_000))
  unfolding first_time_constants set_i64 put
  constants_lem v j apart stored = elim (Bool-cases (leb 6 v)) [
    | inr old ↦ rw old (refl, stored, inl (ground (arith, old)))
    | inl late ↦ elim (Bool-cases (ltb v 11)) [
      | inl low ↦
          let charged = (set_i64 l1_pricing 9 (pos 100_000) j).1 in
          let all = three_lem charged apart in
          rw (late, low)
            (
              refl,
              all.0 ∙ get-set_ne l1_pricing arbos_root 9 0 _ j apart.version_charge ∙ stored,
              inr (all.1, all.2, all.3),
            )
      | inr high ↦
          let all = three_lem j apart in
          rw (late, high) (refl, all.0 ∙ stored, inr (all.1, all.2, all.3))
    ]
  ]

  -- Everything before the upgrade returns.
  initialize-eq :
      (config : ArbosInitConfig) (j : Journal)
      → 2 ≤ config.initial_arbos_version
      → IsNew config j
      → initialize_arbos_state config j
        ≡ (upgrade_arbos_version 1 config.initial_arbos_version true
              >> first_time_constants config.initial_arbos_version)
            (AddressSet.add chain_owners config.initial_chain_owner (with_queue config j)).1
  unfolding initialize_arbos_state write_l1_pricing write_l2_pricing put Queue.initialize
  initialize-eq config j low new =
      let v = config.initial_arbos_version in
      let some_version : (v == 0) ≡ false = ground (arith, low) in
      let upgraded : ltb 1 v ≡ true = ground (arith, low) in
      let top = write_top_level-ok config j new.config_size in
      let poster =
        add_poster-ok posters batch_poster_address batch_poster_address (write_top_level config j).1
          new.poster_unknown new.poster_count in
      let owner =
        add-ok chain_owners config.initial_chain_owner (with_queue config j) new.owner_count in
      rw (some_version, upgraded) (rw top (rw poster (rw owner refl)))

  -- For a version from 2 to 61, on a state that does not know the poster, whose sizes are machine
  -- words where they are read, and with the slots of the constants apart: initialisation returns
  -- without an error and stores the version; from version 6 on it leaves the units of
  -- equilibration, the speed limit and the limit of a block at the constants of version 6.
  pub initialize_arbos_state-ends :
      (config : ArbosInitConfig) (j : Journal)
      → 2 ≤ config.initial_arbos_version
      → config.initial_arbos_version ≤ 61
      → IsNew config j
      → IsSeparate
      → ((initialize_arbos_state config j).0 ≡ ok tt)
        × (get arbos_root 0 (initialize_arbos_state config j).1 ≡ config.initial_arbos_version)
        × ((config.initial_arbos_version < 6)
            ⊎ (get l1_pricing 1 (initialize_arbos_state config j).1 ≡ 160_000_000)
              × (get l2_pricing 0 (initialize_arbos_state config j).1 ≡ 7_000_000)
              × (get l2_pricing 1 (initialize_arbos_state config j).1 ≡ 32_000_000))
  initialize_arbos_state-ends config j low high new apart =
      let v = config.initial_arbos_version in
      let k = (AddressSet.add chain_owners config.initial_chain_owner (with_queue config j)).1 in
      let up = upgrade_arbos_version-past 1 v true k (omega arith) (omega (arith, low)) high in
      let e =
        initialize-eq config j low new
        ∙ then-eq (upgrade_arbos_version 1 v true) (first_time_constants v) k up.0 in
      rw e (constants_lem v (upgrade_arbos_version 1 v true k).1 apart up.1)
