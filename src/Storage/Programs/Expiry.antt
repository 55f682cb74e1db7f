-- ===== src/Storage/Programs/Expiry.antt =====
-- crates/arb-revm/src/storage/programs.rs: until when a stored program may be called.
use arbitrum_revm.Prelude.{
  ℕ, ◌+◌, ◌-◌, ◌*◌, ◌^◌, ◌≤◌, ◌<◌, ◌≡◌, ◌≢◌, ◌⊎◌, inl, inr, refl, ap, arith, Bool, true, false,
  none, some, Option,
}
use native.Mathlib.Decide.{dec_le}
use arbitrum_revm.Words.{u64_max, sat_add-eq, sat_mul-eq}
use arbitrum_revm.Exec.{Host, Journal, Exec, ok, pure, ◌>>=◌}
use arbitrum_revm.Storage.{StorageSpace}
use arbitrum_revm.Storage.Programs.{
  ProgramInfo, ProgramActivationError, expired, age_seconds, lifetime, validate_active, is_expired,
  read_program, write_program,
}
use arbitrum_revm.Storage.Programs.RoundTrip.{IsPackable, read_program-write_program}

-- The activation counts hours from the 16th of January 2015, 06:00 UTC.
abbrev pub activation : ProgramInfo → ℕ
activation p = 1_421_388_000 + p.activated_at * 3_600

-- The last second at which the program may be called, after so many days of 86,400 seconds.
abbrev pub last_second : ProgramInfo → ℕ → ℕ
last_second p expiry_days = activation p + expiry_days * 86_400

age_seconds-activation :
    (p : ProgramInfo) (timestamp : ℕ)
    → p.activated_at < 2 ^ 24
    → age_seconds p timestamp ≡ timestamp - activation p
unfolding age_seconds
age_seconds-activation p timestamp fits =
    rw (sat_mul-eq u64_max p.activated_at 3_600 (omega (arith, fits)))
      (rw (sat_add-eq u64_max 1_421_388_000 (p.activated_at * 3_600) (omega (arith, fits))) refl)

lifetime-days :
    (expiry_days : ℕ) → expiry_days < 2 ^ 16 → lifetime expiry_days ≡ expiry_days * 86_400
lifetime-days expiry_days fits = sat_mul-eq u64_max expiry_days 86_400 (omega (arith, fits))

in_time :
    (p : ProgramInfo) (timestamp expiry_days : ℕ)
    → p.activated_at < 2 ^ 24
    → p.version ≢ 0
    → 0 < p.activated_at
    → expiry_days < 2 ^ 16
    → timestamp ≤ last_second p expiry_days
    → (validate_active p timestamp p.version expiry_days ≡ none)
      × (is_expired p timestamp expiry_days ≡ false)
unfolding validate_active is_expired
in_time p timestamp expiry_days hours known started days le =
    rw (age_seconds-activation p timestamp hours, lifetime-days expiry_days days) (ground arith)

too_late :
    (p : ProgramInfo) (timestamp expiry_days : ℕ)
    → p.activated_at < 2 ^ 24
    → p.version ≢ 0
    → expiry_days < 2 ^ 16
    → last_second p expiry_days < timestamp
    → (validate_active p timestamp p.version expiry_days
        ≡ some (expired (timestamp - activation p)))
      × (is_expired p timestamp expiry_days ≡ true)
unfolding validate_active is_expired
too_late p timestamp expiry_days hours known days lt =
    rw (age_seconds-activation p timestamp hours, lifetime-days expiry_days days) (ground arith)

module _ ⦃h : Host⦄ (root : StorageSpace) (code_hash : ℕ) where
  -- A call's test of the program that is stored, and the activation's.
  abbrev pub call_test : ℕ → ℕ → ℕ → Exec (Option ProgramActivationError)
  call_test timestamp stylus_version expiry_days = do
    p ← read_program root code_hash
    pure (validate_active p timestamp stylus_version expiry_days)

  abbrev pub activation_test : ℕ → ℕ → Exec Bool
  activation_test timestamp expiry_days = do
    p ← read_program root code_hash
    pure (is_expired p timestamp expiry_days)

  -- A program of the version in force whose fields fit their bytes, that is activated and then
  -- stored, with a number of expiry days that fits 16 bits: up to the start of Arbitrum plus its
  -- hours and those days, in seconds, calls are let through and it does not count as expired; at
  -- every later second calls fail with its age in seconds, and it counts as expired.
  pub validate_active-write_program :
      (p : ProgramInfo) (timestamp expiry_days : ℕ) (j : Journal)
      → IsPackable p
      → p.version ≢ 0
      → 0 < p.activated_at
      → expiry_days < 2 ^ 16
      → (timestamp ≤ last_second p expiry_days)
          × ((call_test timestamp p.version expiry_days (write_program root code_hash p j).1).0
              ≡ ok none)
          × ((activation_test timestamp expiry_days (write_program root code_hash p j).1).0
              ≡ ok false)
        ⊎ (last_second p expiry_days < timestamp)
          × ((call_test timestamp p.version expiry_days (write_program root code_hash p j).1).0
              ≡ ok (some (expired (timestamp - activation p))))
          × ((activation_test timestamp expiry_days (write_program root code_hash p j).1).0
              ≡ ok true)
  validate_active-write_program p timestamp expiry_days j fits known started days =
      let back = read_program-write_program root code_hash p j fits in
      elim (dec_le timestamp (last_second p expiry_days)) [
        | yes le ↦
            let r = in_time p timestamp expiry_days fits.activated_at_fits known started days le in
            inl (le, rw back (ap ok r.0), rw back (ap ok r.1))
        | no gt ↦
            let late : last_second p expiry_days < timestamp = omega (arith, gt) in
            let r = too_late p timestamp expiry_days fits.activated_at_fits known days late in
            inr (late, rw back (ap ok r.0), rw back (ap ok r.1))
      ]
