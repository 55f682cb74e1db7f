-- ===== src/Examples/Upgrades.antt =====
-- Upgrades of the state of the demo host, and a new chain on it.
use arbitrum_revm.Prelude.{◌≡◌, ◌<◌, ◌⊎◌, refl, false, [], ◌∷◌, arith}
use arbitrum_revm.Exec.{Journal, ok, err, unsupported_version}
use arbitrum_revm.Storage.{get, set}
use arbitrum_revm.ArbosState.{arbos_root}
use arbitrum_revm.Internal.Upgrade.{upgrade_arbos_version}
use arbitrum_revm.Internal.Upgrade.Success.{
  upgrade_arbos_version-ends, upgrade_arbos_version-unsupported,
}
use arbitrum_revm.Internal.Upgrade.{set_account_nonce, set_account_code}
use arbitrum_revm.Storage.AddressSet.{by_address, is_member}
use arbitrum_revm.Storage.BatchPosterTable.{poster_address_set, add_poster, internal_open}
use arbitrum_revm.Storage.Bytes.{size, clear, clear_from, write_chunks, set_fresh, set_bytes}
use arbitrum_revm.Storage.AddressSet
use arbitrum_revm.Storage.Queue
use arbitrum_revm.ArbosState.{l1_pricing, l2_pricing, chain_config, chain_owners}
use arbitrum_revm.L1Cost.{batch_poster_address}
use arbitrum_revm.Genesis.{
  ArbosInitConfig, initialize_arbos_state, install_up_to, write_metadata, write_top_level,
  write_l1_pricing, write_l2_pricing,
}
use arbitrum_revm.Genesis.Success.{
  IsNew, IsSeparate, posters, opened, with_metadata, with_queue, initialize_arbos_state-ends,
}
use arbitrum_revm.Demo.{demo, blank, look}

abbrev at_10 : Journal
at_10 = set arbos_root 0 10 blank

at_10_lem : get arbos_root 0 at_10 ≡ 10
unfolding look
at_10_lem = refl

upgrade_arbos_version-ends_example :
    ((upgrade_arbos_version 10 60 false at_10).0 ≡ ok tt)
    × (get arbos_root 0 (upgrade_arbos_version 10 60 false at_10).1 ≡ 60)
upgrade_arbos_version-ends_example =
    upgrade_arbos_version-ends 10 60 false at_10 (omega arith) (omega arith) (omega arith) at_10_lem

upgrade_arbos_version-unsupported_example :
    ((upgrade_arbos_version 10 70 false at_10).0 ≡ err (unsupported_version 62))
    × (get arbos_root 0 (upgrade_arbos_version 10 70 false at_10).1 ≡ 61)
upgrade_arbos_version-unsupported_example =
    upgrade_arbos_version-unsupported 10 70 false at_10 (omega arith) (omega arith) (omega arith)
      at_10_lem

-- A chain of version 40, owned by account 5.
abbrev chain : ArbosInitConfig
chain = record {
  initial_arbos_version = 40;
  initial_chain_owner = 5;
  chain_id = 412_346;
  genesis_block_number = 0;
  initial_l1_base_fee = 50_000_000_000;
  serialized_chain_config = 123 ∷ 125 ∷ [];
  debug_precompiles = false;
}

config_empty : get chain_config 0 (with_metadata chain blank) ≡ 0
unfolding look install_up_to write_metadata set_account_code
config_empty = refl

poster_free :
    get
      (by_address (poster_address_set posters))
      batch_poster_address
      (write_top_level chain blank).1
    ≡ 0
unfolding look install_up_to write_metadata set_account_code write_top_level set_account_nonce size
    clear clear_from write_chunks set_fresh set_bytes
poster_free = refl

no_posters :
    get
      (poster_address_set posters)
      0
      (opened posters batch_poster_address batch_poster_address (write_top_level chain blank).1)
    ≡ 0
unfolding look install_up_to write_metadata set_account_code write_top_level set_account_nonce size
    clear clear_from write_chunks set_fresh set_bytes internal_open
no_posters = refl

no_owners : get chain_owners 0 (with_queue chain blank) ≡ 0
unfolding look install_up_to write_metadata set_account_code write_top_level set_account_nonce size
    clear clear_from write_chunks set_fresh set_bytes internal_open add_poster is_member
    AddressSet.add Queue.initialize write_l1_pricing write_l2_pricing
no_owners = refl

chain-IsNew : IsNew chain blank
chain-IsNew = record {
  config_size = omega (arith, config_empty);
  poster_unknown = poster_free;
  poster_count = omega (arith, no_posters);
  owner_count = omega (arith, no_owners);
}

slots-IsSeparate : IsSeparate
unfolding look
slots-IsSeparate = record {
  version_charge = λ e. absurd (omega (arith, e));
  version_units = λ e. absurd (omega (arith, e));
  version_speed = λ e. absurd (omega (arith, e));
  version_limit = λ e. absurd (omega (arith, e));
  units_speed = λ e. absurd (omega (arith, e));
  units_limit = λ e. absurd (omega (arith, e));
  speed_limit = λ e. absurd (omega (arith, e));
}

initialize_arbos_state-ends_example :
    ((initialize_arbos_state chain blank).0 ≡ ok tt)
    × (get arbos_root 0 (initialize_arbos_state chain blank).1 ≡ 40)
    × ((40 < 6)
        ⊎ (get l1_pricing 1 (initialize_arbos_state chain blank).1 ≡ 160_000_000)
          × (get l2_pricing 0 (initialize_arbos_state chain blank).1 ≡ 7_000_000)
          × (get l2_pricing 1 (initialize_arbos_state chain blank).1 ≡ 32_000_000))
initialize_arbos_state-ends_example =
    initialize_arbos_state-ends chain blank (omega arith) (omega arith) chain-IsNew slots-IsSeparate
