-- ===== src/Storage/AddressSet/Removal.antt =====
-- crates/arb-revm/src/storage/address_set.rs: the journals that a removal passes through.
pub mod Versions
use native.Mathlib.Decide.{ℕ_discrete, dec_lt}
use arbitrum_revm.Prelude.{
  ℕ, ◌+◌, ◌-◌, ◌^◌, ◌≤◌, ◌<◌, ◌≡◌, ◌≢◌, refl, sym, ap, ◌∙◌, arith, true, false, ◌==◌, ltb, leb,
  Bool-cases, inl, inr, if◌then◌else◌,
}
use arbitrum_revm.Words.{u64_max}
use arbitrum_revm.Exec.{Journal, Host, Exec, ok, pure, ◌>>=◌, ◌>>◌}
use arbitrum_revm.Storage.{StorageSpace, get, set, get_u64, get_u256, put, get-set_self, get_u64-eq}
use arbitrum_revm.Storage.AddressSet.{by_address, remove}
use arbitrum_revm.Storage.AddressSet.Invariant.{
  IsSeparate, IsValid, size, member_at, position, ll, lm, ml, mm,
}

module _ ⦃h : Host⦄ (backing : StorageSpace) (Known : ℕ → Type 0)
    (sep : IsSeparate backing Known) where
  abbrev S : StorageSpace
  S = by_address backing

  abbrev sz : Journal → ℕ
  sz j = size backing Known j

  abbrev at : ℕ → Journal → ℕ
  at i j = member_at backing Known i j

  abbrev place : ℕ → Journal → ℕ
  place a j = position backing Known a j

  -- The end of `remove`: the last list slot and the size.
  trimmed : Journal → Journal → Journal
  trimmed j k = set backing 0 (sz j - 1) (set backing (sz j) 0 k)

  size-trimmed : (j k : Journal) → sz (trimmed j k) ≡ sz j - 1
  unfolding trimmed
  size-trimmed j k = get-set_self backing 0 (sz j - 1) (set backing (sz j) 0 k)

  place-trimmed :
      (b : ℕ) (j k : Journal) → Known b → sz j < u64_max → place b (trimmed j k) ≡ place b k
  unfolding trimmed
  place-trimmed b j k known lt =
      lm backing Known sep 0 b (sz j - 1) (set backing (sz j) 0 k) (omega arith) known
      ∙ lm backing Known sep (sz j) b 0 k (omega arith) known

  at-trimmed :
      (i : ℕ) (j k : Journal) → sz j < u64_max → 1 ≤ i → i < sz j → at i (trimmed j k) ≡ at i k
  unfolding trimmed
  at-trimmed i j k lt lo hi =
      ll backing Known sep 0 i (sz j - 1) (set backing (sz j) 0 k) (omega arith) (omega arith)
        (omega arith)
      ∙ ll backing Known sep (sz j) i 0 k (omega arith) (omega arith) (omega arith)

  -- The list with the last address in the place of `a`, with its position brought up to date or not.
  dropped : ℕ → Journal → Journal
  dropped a j = set S a 0 j

  stale : ℕ → Journal → Journal
  stale a j = set backing (place a j) (at (sz j) j) (dropped a j)

  moved : ℕ → Journal → Journal
  moved a j = set S (at (sz j) j) (place a j) (stale a j)

  abbrev cut : ℕ → ℕ → Journal → Journal
  cut arbos_version a j =
      if ltb (place a j) (sz j)
      then (if leb 11 arbos_version then trimmed j (moved a j) else trimmed j (stale a j))
      else trimmed j (dropped a j)

  remove_present :
      (arbos_version a : ℕ) (j : Journal)
      → Known a
      → IsValid backing Known j
      → place a j ≢ 0
      → remove backing a arbos_version j ≡ (ok tt, cut arbos_version a j)
  unfolding remove get_u256 put trimmed moved stale dropped
  remove_present arbos_version a j known valid present =
      let here = valid.listed a known present in
      let j1 = set S a 0 j in
      let n = ml backing Known sep a 0 0 j (omega arith) known in
      let last = ml backing Known sep a (sz j) 0 j (omega (arith, valid.bounded)) known in
      let size_lem = get_u64-eq backing 0 j1 (omega (arith, valid.bounded, n)) in
      let shut_lem : (place a j == 0) ≡ false = ground arith in
      rw shut_lem (
        rw size_lem (
          rw n (elim (Bool-cases (ltb (place a j) (sz j))) [
            | inl inner ↦ rw inner (
                rw last (elim (Bool-cases (leb 11 arbos_version)) [
                  | inl new ↦ rw new
                  | inr old ↦ rw old
                ]))
            | inr final ↦ rw final
          ])))

  remove_absent :
      (arbos_version a : ℕ) (j : Journal)
      → place a j ≡ 0
      → remove backing a arbos_version j ≡ (ok tt, j)
  unfolding remove get_u256
  remove_absent arbos_version a j absent = rw absent

  -- Positions and places after the last address has moved into the place of `a`.
  module _ (a : ℕ) (j : Journal) (known : Known a) (valid : IsValid backing Known j)
      (present : place a j ≢ 0) where
    here : (place a j ≤ sz j) × (at (place a j) j ≡ a)
    here = valid.listed a known present

    place-dropped_ne : (b : ℕ) → Known b → a ≢ b → place b (dropped a j) ≡ place b j
    unfolding dropped
    place-dropped_ne b kb d = mm backing Known sep a b 0 j known kb d

    at-dropped : (i : ℕ) → i < 2 ^ 64 → at i (dropped a j) ≡ at i j
    unfolding dropped
    at-dropped i lt = ml backing Known sep a i 0 j lt known

    module _ (inner : place a j < sz j) where
      last : Known (at (sz j) j) × (place (at (sz j) j) j ≡ sz j)
      last = valid.placed (sz j) (omega (arith, present)) (omega arith)

      place-stale : (b : ℕ) → Known b → place b (stale a j) ≡ place b (dropped a j)
      unfolding stale
      place-stale b kb =
          lm backing Known sep (place a j) b (at (sz j) j) (dropped a j)
            (omega (arith, valid.bounded)) kb

      at-stale :
          (i : ℕ) → i < 2 ^ 64 → at i (stale a j) ≡ (if i == place a j then at (sz j) j else at i j)
      unfolding stale
      at-stale i lt = elim (ℕ_discrete i (place a j)) [
        | yes e ↦ rw e (
            let self : (place a j == place a j) ≡ true = ground arith in
            rw self (get-set_self backing (place a j) (at (sz j) j) (dropped a j)))
        | no d ↦
            let other : (i == place a j) ≡ false = ground arith in
            rw other (
              ll backing Known sep (place a j) i (at (sz j) j) (dropped a j)
                (omega (arith, valid.bounded)) lt (λ e. d (sym e))
              ∙ at-dropped i lt)
      ]

      place-moved_last : place (at (sz j) j) (moved a j) ≡ place a j
      unfolding moved
      place-moved_last = get-set_self S (at (sz j) j) (place a j) (stale a j)

      place-moved_ne :
          (b : ℕ) → Known b → at (sz j) j ≢ b → place b (moved a j) ≡ place b (dropped a j)
      unfolding moved
      place-moved_ne b kb d =
          mm backing Known sep (at (sz j) j) b (place a j) (stale a j) last.0 kb d
          ∙ place-stale b kb

      at-moved :
          (i : ℕ) → i < 2 ^ 64 → at i (moved a j) ≡ (if i == place a j then at (sz j) j else at i j)
      unfolding moved
      at-moved i lt =
          ml backing Known sep (at (sz j) j) i (place a j) (stale a j) lt last.0 ∙ at-stale i lt
