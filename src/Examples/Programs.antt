-- ===== src/Examples/Programs.antt =====
-- Stylus programs in the storage of the demo host.
use arbitrum_revm.Prelude.{◌-◌, ◌≤◌, ◌<◌, ◌≡◌, ◌⊎◌, refl, [], ◌∷◌, none, some, true, false, arith}
use arbitrum_revm.Exec.{Journal, ok}
use arbitrum_revm.Storage.{StorageSpace, get, set}
use arbitrum_revm.Storage.Programs.{ProgramInfo, expired, read_program, write_program}
use arbitrum_revm.Storage.Programs.RoundTrip.{IsPackable, read_program-write_program}
use arbitrum_revm.Storage.Programs.Expiry.{
  activation, last_second, call_test, activation_test, validate_active-write_program,
}
use arbitrum_revm.Storage.Programs.Pricer
use arbitrum_revm.Demo.{demo, demo-IsApart, blank, look}

abbrev root : StorageSpace
root = record { key = []; account = 1 }

abbrev program : ProgramInfo
program = record {
  version = 2;
  init_cost = 300;
  cached_cost = 20;
  footprint = 7;
  activated_at = 90_000;
  asm_estimate_kb = 70_000;
  cached = true;
}

program-IsPackable : IsPackable program
program-IsPackable = record {
  version_fits = omega arith;
  init_cost_fits = omega arith;
  cached_cost_fits = omega arith;
  footprint_fits = omega arith;
  activated_at_fits = omega arith;
  asm_estimate_kb_fits = omega arith;
}

read_program-write_program_example :
    (read_program root 77 (write_program root 77 program blank).1).0 ≡ ok program
read_program-write_program_example =
    read_program-write_program root 77 program blank program-IsPackable

-- Activated on the 23rd of April 2025: 365 days later it may be called.
validate_active-write_program_example :
    (1_745_400_000 ≤ last_second program 365)
      × ((call_test root 77 1_745_400_000 2 365 (write_program root 77 program blank).1).0
          ≡ ok none)
      × ((activation_test root 77 1_745_400_000 365 (write_program root 77 program blank).1).0
          ≡ ok false)
    ⊎ (last_second program 365 < 1_745_400_000)
      × ((call_test root 77 1_745_400_000 2 365 (write_program root 77 program blank).1).0
          ≡ ok (some (expired (1_745_400_000 - activation program))))
      × ((activation_test root 77 1_745_400_000 365 (write_program root 77 program blank).1).0
          ≡ ok true)
validate_active-write_program_example =
    validate_active-write_program root 77 program 1_745_400_000 365 blank program-IsPackable
      (λ e. absurd (omega (arith, e))) (omega arith) (omega arith)

abbrev pricer : StorageSpace
pricer = record { key = 1 ∷ []; account = 1 }

-- The rates of the start, and a demand of 1,000,000.
abbrev demanded : Journal
demanded = set pricer 0 1_000_000 (
    set pricer 1 34_865
      (set pricer 2 1_421_388_000 (set pricer 3 82_928_201 (set pricer 4 21_360_419 blank))))

demanded_slots :
    (get pricer 0 demanded ≡ 1_000_000)
    × (get pricer 1 demanded ≡ 34_865)
    × (get pricer 2 demanded ≡ 1_421_388_000)
    × (get pricer 3 demanded ≡ 82_928_201)
    × (get pricer 4 demanded ≡ 21_360_419)
unfolding look
demanded_slots = (refl, refl, refl, refl, refl)

demanded-IsValid : Pricer.IsValid pricer demanded
demanded-IsValid = record {
  demand_fits = omega (arith, demanded_slots);
  bytes_per_second_fits = omega (arith, demanded_slots);
  last_update_time_fits = omega (arith, demanded_slots);
  min_price_fits = omega (arith, demanded_slots);
  inertia_fits = omega (arith, demanded_slots);
}

update_data_model_lem_example :
    ((Pricer.update_data_model pricer 4_096 1_421_388_005 demanded).0
      ≡ ok (Pricer.fee_after pricer 4_096 1_421_388_005 demanded))
    × ((Pricer.update_data_model pricer 8_192 1_421_388_005 demanded).0
        ≡ ok (Pricer.fee_after pricer 8_192 1_421_388_005 demanded))
    × (Pricer.fee_after pricer 4_096 1_421_388_005 demanded
        ≤ Pricer.fee_after pricer 8_192 1_421_388_005 demanded)
    × Pricer.IsValid pricer (Pricer.update_data_model pricer 4_096 1_421_388_005 demanded).1
    × (get pricer 2 (Pricer.update_data_model pricer 4_096 1_421_388_005 demanded).1
        ≡ 1_421_388_005)
update_data_model_lem_example =
    Pricer.update_data_model_lem pricer (demo-IsApart pricer) 4_096 8_192 1_421_388_005 demanded
      demanded-IsValid (omega arith) (omega arith)
