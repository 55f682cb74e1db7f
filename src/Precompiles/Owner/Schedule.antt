-- ===== src/Precompiles/Owner/Schedule.antt =====
-- crates/arb-revm/src/precompiles/arb_owner.rs: the notice that the start of a feature takes.
use arbitrum_revm.Prelude.{
  ℕ, ◌+◌, ◌*◌, ◌^◌, ◌≤◌, ◌<◌, ◌≡◌, ◌⊎◌, inl, inr, refl, true, List, [], ◌∷◌, ltb, arith, Bool-cases,
}
use arbitrum_revm.Words.{u64_max, sat_add-eq}
use arbitrum_revm.Exec.{Journal, Host}
use arbitrum_revm.Storage.{get, get_u64, put, get-set_self}
use arbitrum_revm.ArbosState.{arbos_root}
use arbitrum_revm.Precompiles.Outcome.{ArbCall}
use arbitrum_revm.Precompiles.Owner.{feature_enable_delay_seconds, may_move, set_feature_start}

-- The feature is off, or starts no sooner than at a time.
abbrev pub NotBefore : ℕ → ℕ → Type 0
NotBefore time start = (start ≡ 0) ⊎ (time ≤ start)

-- A call at a time, for a start.
pub record Attempt : Type 0 where
  pub now : ℕ
  pub timestamp : ℕ

-- Every attempt falls within the delay after `since`.
unfoldable pub AllWithin : ℕ → List Attempt → Type 0
AllWithin since [] = Unit {0}
AllWithin since (a ∷ rest) =
    (since ≤ a.now) × (a.now < since + feature_enable_delay_seconds) × AllWithin since rest

may_move-NotBefore :
    (since now current timestamp : ℕ)
    → since + 2 * feature_enable_delay_seconds ≤ u64_max
    → since ≤ now
    → now < since + feature_enable_delay_seconds
    → NotBefore (since + feature_enable_delay_seconds) current
    → may_move now current timestamp ≡ true
    → NotBefore (since + feature_enable_delay_seconds) timestamp
unfolding may_move
may_move-NotBefore since now current timestamp room after before held e =
    let sum = sat_add-eq u64_max now feature_enable_delay_seconds (omega arith) in
    ground (arith, sum, held, e)

module _ ⦃h : Host⦄ (call : ArbCall) (from : ℕ) where
  unfoldable pub attempts : List Attempt → Journal → Journal
  attempts [] j = j
  attempts (a ∷ rest) j = attempts rest (set_feature_start call a.now from a.timestamp j).1

  unfoldable pub outcome_of : ℕ → ℕ → Journal → ℕ
  outcome_of now timestamp j = get arbos_root from (set_feature_start call now from timestamp j).1

  set_feature_start-slot :
      (now timestamp : ℕ) (j : Journal)
      → (outcome_of now timestamp j ≡ get arbos_root from j)
        ⊎ (may_move now (get arbos_root from j) timestamp ≡ true)
          × (outcome_of now timestamp j ≡ timestamp)
  unfolding outcome_of set_feature_start get_u64 put
  set_feature_start-slot now timestamp j =
      elim (Bool-cases (ltb (get arbos_root from j) (2 ^ 64))) [
        | inr large ↦ rw large (inl refl)
        | inl small ↦ rw small (elim (Bool-cases (may_move now (get arbos_root from j) timestamp)) [
          | inr refused ↦ rw refused (inl refl)
          | inl allowed ↦ rw allowed (inr (refl, get-set_self arbos_root from timestamp j))
        ])
      ]

  -- Where a feature is off or starts no sooner than the delay of 7 days after `since`, any calls that
  -- set its start within that delay, in any number and order, leave it so: nothing that an owner
  -- calls in those days makes the feature start in them.
  pub attempts-NotBefore :
      (since : ℕ) (tries : List Attempt) (j : Journal)
      → since + 2 * feature_enable_delay_seconds ≤ u64_max
      → AllWithin since tries
      → NotBefore (since + feature_enable_delay_seconds) (get arbos_root from j)
      → NotBefore (since + feature_enable_delay_seconds) (get arbos_root from (attempts tries j))
  unfolding attempts AllWithin outcome_of
  attempts-NotBefore since [] j room times held = held
  attempts-NotBefore since (a ∷ rest) j room times held =
      let k = (set_feature_start call a.now from a.timestamp j).1 in
      let step : NotBefore (since + feature_enable_delay_seconds) (get arbos_root from k) =
        elim (set_feature_start-slot a.now a.timestamp j) [
          | inl kept ↦ rw kept held
          | inr moved ↦ rw moved.1 (
              may_move-NotBefore since a.now (get arbos_root from j) a.timestamp room times.0
                times.1 held moved.0)
        ] in
      attempts-NotBefore since rest k room times.2 step
