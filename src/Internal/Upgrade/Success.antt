-- ===== src/Internal/Upgrade/Success.antt =====
-- crates/arb-revm/src/internal_tx.rs: when an upgrade ends, and how.
use native.Mathlib.Decide.{dec_le}
use arbitrum_revm.Prelude.{
  ℕ, zero, suc, ◌+◌, ◌-◌, ◌≤◌, ◌<◌, ◌≡◌, refl, ap, ◌∙◌, Bool, true, not, List, [], ◌∷◌, ◌&&◌, ◌==◌,
  if◌then◌else◌, arith, inl, inr, Bool-cases,
}
use arbitrum_revm.Exec.Success.{Succeeds, then-Succeeds, if-Succeeds, bind-Succeeds}
use arbitrum_revm.Exec.{Journal, Host, Exec, Result, ok, err, pure, unsupported_version}
use arbitrum_revm.Storage.{
  get, set, put, get-set_self, set_i64, set_i256_pre_version7, get_u256, get_u64,
}
use arbitrum_revm.Storage.Programs.{initialize, read_params_word, write_params_word}
use arbitrum_revm.ArbosState.{arbos_root, l1_pricing, chain_owners}
use arbitrum_revm.Prelude.Int.{pos}
use arbitrum_revm.Words.{u64_max}
use arbitrum_revm.Storage.AddressSet.{clear_list}
use arbitrum_revm.Tx.Fees.{unwrap_or}
use arbitrum_revm.Internal.Upgrade.{
  arbos_precompiles, migrate, unchanged, install_from, install_precompiles_introduced_at,
  upgrade_loop, upgrade_arbos_version, to_version_10, to_version_11, to_version_31, to_version_40,
  to_version_50, to_version_59, to_version_60, set_account_code, set_account_nonce,
}

unwrap_or-returns :
    {A : Type 0} (m : Exec A) (default : A) (j : Journal)
    → (a : A) × ((unwrap_or m default j).0 ≡ ok a)
unfolding unwrap_or
unwrap_or-returns {A} m default j = go (m j).0
  where
    go :
        (r : Result A)
        → (a : A) × (elim r as (λ x. Result A) [ ok a ↦ ok a | err e ↦ ok default ] ≡ ok a)
    go (ok a) = (a, refl)
    go (err e) = (default, refl)

unwrap_or-Succeeds : (m : Exec (Unit {0})) → Succeeds (unwrap_or m tt)
unfolding unwrap_or
unwrap_or-Succeeds m j = go (m j).0
  where
    go :
        (r : Result (Unit {0}))
        → elim r as (λ x. Result (Unit {0})) [ ok a ↦ ok a | err e ↦ ok tt ] ≡ ok tt
    go (ok tt) = refl
    go (err e) = refl

module _ ⦃h : Host⦄ where
  install-Succeeds : (ps : List (ℕ × ℕ × Bool)) (v : ℕ) → Succeeds (install_from ps v)
  unfolding install_from set_account_code
  install-Succeeds [] v j = refl
  install-Succeeds (p ∷ ps) v j = elim (Bool-cases (p.1 == v && not p.2)) [
    | inl e ↦ rw e (install-Succeeds ps v (h.set_code j p.0 (0xfe ∷ [])))
    | inr e ↦ rw e (install-Succeeds ps v j)
  ]

  to_version_11-Succeeds : (first_time : Bool) → Succeeds (to_version_11 first_time)
  unfolding to_version_11 set_i64 put
  to_version_11-Succeeds first_time j =
      let k = (set_i64 l1_pricing 9 (pos 210_000) j).1 in
      bind-Succeeds (unwrap_or (get_u64 l1_pricing 10) 0) _
        (unwrap_or-returns (get_u64 l1_pricing 10) 0)
        (λ old_cap.
          then-Succeeds (if old_cap == u64_max then put l1_pricing 10 0 else pure tt)
            (if not first_time then unwrap_or (clear_list chain_owners) tt else pure tt)
            (if-Succeeds (old_cap == u64_max) (put l1_pricing 10 0) (pure tt) (λ i. refl)
              (λ e i. refl))
            (if-Succeeds (not first_time) (unwrap_or (clear_list chain_owners) tt) (pure tt)
              (unwrap_or-Succeeds (clear_list chain_owners)) (λ e i. refl)))
        k

  to_version_50-Succeeds : Succeeds to_version_50
  unfolding to_version_50 read_params_word write_params_word put get_u256
  to_version_50-Succeeds j = ground arith

  -- The versions that an upgrade knows.
  migrate-Succeeds : (first_time : Bool) (v : ℕ) → 2 ≤ v → v ≤ 61 → Succeeds (migrate first_time v)
  unfolding migrate set_i64 set_i256_pre_version7 put initialize write_params_word read_params_word
      get_u256 to_version_10 to_version_31 to_version_40 to_version_59 to_version_60
      set_account_code set_account_nonce
  migrate-Succeeds first_time v low high =
      if-Succeeds (v == 2) _ _ (λ j. refl)
        (λ e2.
          if-Succeeds (v == 3) _ _ (λ j. refl)
            (λ e3.
              if-Succeeds (v == 10) _ _ (λ j. refl)
                (λ e10. if-Succeeds (v == 11) _ _ (to_version_11-Succeeds first_time) (λ e11.
                  if-Succeeds (v == 20) _ _ (λ j. refl)
                    (λ e20.
                      if-Succeeds (v == 30) _ _ (λ j. refl)
                        (λ e30.
                          if-Succeeds (v == 31) _ _ (λ j. refl)
                            (λ e31.
                              if-Succeeds (v == 40) _ _ (λ j. refl)
                                (λ e40. if-Succeeds (v == 50) _ _ to_version_50-Succeeds (λ e50.
                                  if-Succeeds (v == 59) _ _ (λ j. refl)
                                    (λ e59.
                                      if-Succeeds (v == 60) _ _ (λ j. refl)
                                        (λ e60.
                                          let rest : unchanged v ≡ true = ground (
                                            arith, low, high, e2, e3, e10, e11, e20, e30, e31, e40,
                                            e50, e59, e60,
                                          ) in
                                          λ j. rw rest refl)))))))))))

  migrate-unknown :
      (first_time : Bool) (v : ℕ) (j : Journal)
      → 61 < v
      → migrate first_time v j ≡ (err (unsupported_version v), j)
  unfolding migrate
  migrate-unknown first_time v j high = ground (arith, high)

  -- The journal after one version.
  abbrev next : Bool → ℕ → Journal → Journal
  next first_time v j =
      set arbos_root 0 v (install_precompiles_introduced_at v (migrate first_time v j).1).1

  loop_step :
      (n : ℕ) (first_time : Bool) (v : ℕ) (j : Journal)
      → 1 ≤ v
      → v < 61
      → upgrade_loop (suc n) first_time v j
        ≡ upgrade_loop n first_time (v + 1) (next first_time (v + 1) j)
  unfolding upgrade_loop put install_precompiles_introduced_at
  loop_step n first_time v j low high =
      rw (migrate-Succeeds first_time (v + 1) (omega (arith, low)) (omega (arith, high)) j)
        (rw (install-Succeeds arbos_precompiles (v + 1) (migrate first_time (v + 1) j).1) refl)

  loop-Succeeds :
      (n : ℕ) (first_time : Bool) (v : ℕ) (j : Journal)
      → 1 ≤ v
      → v + n ≤ 61
      → get arbos_root 0 j ≡ v
      → ((upgrade_loop n first_time v j).0 ≡ ok tt)
        × (get arbos_root 0 (upgrade_loop n first_time v j).1 ≡ v + n)
  unfolding upgrade_loop
  loop-Succeeds zero first_time v j low high stored = (refl, omega (arith, stored))
  loop-Succeeds (suc n) first_time v j low high stored =
      let k = next first_time (v + 1) j in
      let rest =
        loop-Succeeds n first_time (v + 1) k (omega arith) (omega (arith, high))
          (get-set_self arbos_root 0 (v + 1) _) in
      let e = loop_step n first_time v j low (omega (arith, high)) in
      (ap (λ r. r.0) e ∙ rest.0, ap (λ r. get arbos_root 0 r.1) e ∙ rest.1 ∙ omega arith)

  loop-unsupported :
      (n : ℕ) (first_time : Bool) (v : ℕ) (j : Journal)
      → 1 ≤ v
      → v ≤ 61
      → 61 < v + n
      → get arbos_root 0 j ≡ v
      → ((upgrade_loop n first_time v j).0 ≡ err (unsupported_version 62))
        × (get arbos_root 0 (upgrade_loop n first_time v j).1 ≡ 61)
  unfolding upgrade_loop
  loop-unsupported zero first_time v j low high past stored = absurd (omega (arith, high, past))
  loop-unsupported (suc n) first_time v j low high past stored = elim (dec_le 61 v) [
    | yes last ↦
        let at_end : v ≡ 61 = omega (arith, last, high) in
        let unknown = migrate-unknown first_time (v + 1) j (omega (arith, at_end)) in
        let code : unsupported_version (v + 1) ≡ unsupported_version 62 =
          ap unsupported_version (omega (arith, at_end)) in
        rw unknown (ap err code, stored ∙ at_end)
    | no before ↦
        let k = next first_time (v + 1) j in
        let e = loop_step n first_time v j low (omega (arith, before)) in
        let rest =
          loop-unsupported n first_time (v + 1) k (omega arith) (omega (arith, before))
            (omega (arith, past)) (get-set_self arbos_root 0 (v + 1) _) in
        (ap (λ r. r.0) e ∙ rest.0, ap (λ r. get arbos_root 0 r.1) e ∙ rest.1)
  ]

  -- Where there is a version to go to, the stored one does not matter.
  pub upgrade_arbos_version-past :
      (current_version target_version : ℕ) (first_time : Bool) (j : Journal)
      → 1 ≤ current_version
      → current_version < target_version
      → target_version ≤ 61
      → ((upgrade_arbos_version current_version target_version first_time j).0 ≡ ok tt)
        × (get arbos_root 0 (upgrade_arbos_version current_version target_version first_time j).1
            ≡ target_version)
  unfolding upgrade_arbos_version
  upgrade_arbos_version-past v target first_time j low lt high =
      let n = target - v - 1 in
      let k = next first_time (v + 1) j in
      let left : target - v ≡ suc n = omega (arith, lt) in
      let e = loop_step n first_time v j low (omega (arith, lt, high)) in
      let rest =
        loop-Succeeds n first_time (v + 1) k (omega arith) (omega (arith, lt, high))
          (get-set_self arbos_root 0 (v + 1) _) in
      rw left
        (ap (λ r. r.0) e ∙ rest.0, ap (λ r. get arbos_root 0 r.1) e ∙ rest.1 ∙ omega (arith, lt))

  -- From a stored version, not zero, an upgrade to a version that is not below it and not past 61
  -- runs through all the versions between them without an error, and the target is stored at the
  -- end.
  pub upgrade_arbos_version-ends :
      (current_version target_version : ℕ) (first_time : Bool) (j : Journal)
      → 1 ≤ current_version
      → current_version ≤ target_version
      → target_version ≤ 61
      → get arbos_root 0 j ≡ current_version
      → ((upgrade_arbos_version current_version target_version first_time j).0 ≡ ok tt)
        × (get arbos_root 0 (upgrade_arbos_version current_version target_version first_time j).1
            ≡ target_version)
  unfolding upgrade_arbos_version
  upgrade_arbos_version-ends current_version target_version first_time j low le high stored =
      let run =
        loop-Succeeds (target_version - current_version) first_time current_version j low
          (omega (arith, le, high)) stored in
      (run.0, run.1 ∙ omega (arith, le))

  -- From a stored version that is known and not zero, an upgrade to a version past 61 goes as far
  -- as version 61, which is stored, and fails at version 62.
  pub upgrade_arbos_version-unsupported :
      (current_version target_version : ℕ) (first_time : Bool) (j : Journal)
      → 1 ≤ current_version
      → current_version ≤ 61
      → 61 < target_version
      → get arbos_root 0 j ≡ current_version
      → ((upgrade_arbos_version current_version target_version first_time j).0
          ≡ err (unsupported_version 62))
        × (get arbos_root 0 (upgrade_arbos_version current_version target_version first_time j).1
            ≡ 61)
  unfolding upgrade_arbos_version
  upgrade_arbos_version-unsupported current_version target_version first_time j low high past
        stored =
      loop-unsupported (target_version - current_version) first_time current_version j low high
        (omega (arith, high, past)) stored
