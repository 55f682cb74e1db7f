-- ===== src/Storage/AddressSet/Removal/Versions.antt =====
-- crates/arb-revm/src/storage/address_set.rs: removal and the invariant, by the version of ArbOS.
use native.Mathlib.Decide.{ℕ_discrete, dec_lt}
use arbitrum_revm.Prelude.{
  ℕ, ◌-◌, ◌≤◌, ◌<◌, ◌≡◌, ◌≢◌, ◌↔◌, refl, sym, ap, ◌∙◌, arith, true, false, ◌==◌, ltb, leb,
  if◌then◌else◌,
}
use arbitrum_revm.Exec.{Journal, Host, ok}
use arbitrum_revm.Storage.{StorageSpace, get, get-set_self}
use arbitrum_revm.Storage.AddressSet.{by_address, remove}
use arbitrum_revm.Storage.AddressSet.Invariant.{IsSeparate, IsValid}
use arbitrum_revm.Storage.AddressSet.Removal.{
  trimmed, dropped, stale, moved, cut, size-trimmed, place-trimmed, at-trimmed, remove_present,
  remove_absent, here, place-dropped_ne, at-dropped, place-stale, place-moved_last, place-moved_ne,
  at-moved,
}

module _ ⦃h : Host⦄ (backing : StorageSpace) (Known : ℕ → Type 0)
    (sep : IsSeparate backing Known) where
  abbrev Valid : Journal → Type 0
  Valid j = IsValid backing Known j

  abbrev at' : ℕ → Journal → ℕ
  at' i j = get backing i j

  abbrev place' : ℕ → Journal → ℕ
  place' b j = get (by_address backing) b j

  abbrev sz' : Journal → ℕ
  sz' j = get backing 0 j

  module _ (a : ℕ) (j : Journal) (known : Known a) (valid : Valid j)
      (present : place' a j ≢ 0) where
    abbrev tail_address : ℕ
    tail_address = at' (sz' j) j

    place-tail : Known tail_address × (place' tail_address j ≡ sz' j)
    place-tail =
        valid.placed (sz' j)
          (omega (arith, present, here backing Known sep a j known valid present)) (omega arith)

    -- A journal from which `a` is gone, the last address in its place.
    record IsDropped (m : Journal) : Type 0 where
      shorter : sz' m ≡ sz' j - 1
      gone : place' a m ≡ 0
      tail_moved : a ≢ tail_address → place' tail_address m ≡ place' a j
      kept : (b : ℕ) → Known b → a ≢ b → tail_address ≢ b → place' b m ≡ place' b j
      slots :
          (i : ℕ)
          → 1 ≤ i
          → i < sz' j
          → at' i m ≡ (if i == place' a j then tail_address else at' i j)

    inner_of_ne : a ≢ tail_address → place' a j < sz' j
    inner_of_ne d = elim (dec_lt (place' a j) (sz' j)) [
      | yes lt ↦ lt
      | no nlt ↦
          let end_lem : place' a j ≡ sz' j =
            omega (arith, here backing Known sep a j known valid present) in
          absurd
            (d (sym (here backing Known sep a j known valid present).1 ∙ ap (λ i. at' i j) end_lem))
    ]

    drop-listed :
        (m : Journal)
        → IsDropped m
        → (b : ℕ) → Known b
        → place' b m ≢ 0
        → (place' b m ≤ sz' m) × (at' (place' b m) m ≡ b)
    drop-listed m d b kb nz = elim (ℕ_discrete a b) [
      | yes e ↦ absurd (nz (ap (λ x. place' x m) (sym e) ∙ d.gone))
      | no nab ↦ elim (ℕ_discrete tail_address b) [
        | yes e ↦
            let ne_tail : a ≢ tail_address = (λ q. nab (q ∙ e)) in
            let lt = inner_of_ne ne_tail in
            let self : (place' a j == place' a j) ≡ true = ground arith in
            let s = d.slots (place' a j) (omega (arith, present)) lt in
            rw (← e) (rw (d.tail_moved ne_tail, d.shorter, s, self) (omega (arith, lt), refl))
        | no ntb ↦
            let same = d.kept b kb nab ntb in
            let old = valid.listed b kb (λ z. nz (same ∙ z)) in
            let not_end : place' b j ≢ sz' j = (λ q. ntb (ap (λ i. at' i j) (sym q) ∙ old.1)) in
            let other : (place' b j == place' a j) ≡ false = ground (
              arith,
              λ (q : place' b j ≡ place' a j). nab (
                  sym (here backing Known sep a j known valid present).1
                  ∙ ap (λ i. at' i j) (sym q)
                  ∙ old.1),
            ) in
            let s =
              d.slots (place' b j) (omega (arith, λ (z : place' b j ≡ 0). nz (same ∙ z)))
                (omega (arith, old.0, not_end)) in
            rw (same, d.shorter, s, other) (omega (arith, old.0, not_end), old.1)
      ]
    ]

    drop-placed :
        (m : Journal)
        → IsDropped m
        → (i : ℕ) → 1 ≤ i
        → i ≤ sz' m
        → Known (at' i m) × (place' (at' i m) m ≡ i)
    drop-placed m d i lo hi =
        let within : i < sz' j = omega (arith, d.shorter, hi) in
        let s = d.slots i lo within in
        elim (ℕ_discrete i (place' a j)) [
          | yes e ↦
              let test : (i == place' a j) ≡ true = ground arith in
              let ne_tail : a ≢ tail_address =
                (λ q. absurd (omega (arith, e, within, place-tail.1, ap (λ x. place' x j) q))) in
              rw (s, test) (place-tail.0, d.tail_moved ne_tail ∙ sym e)
          | no ne ↦
              let test : (i == place' a j) ≡ false = ground arith in
              let old = valid.placed i lo (omega arith) in
              let na : a ≢ at' i j = (λ q. ne (sym old.1 ∙ ap (λ x. place' x j) (sym q))) in
              let nt : tail_address ≢ at' i j = (λ q.
                absurd (omega (arith, within, old.1, place-tail.1, ap (λ x. place' x j) q))) in
              rw (s, test) (old.0, d.kept (at' i j) old.0 na nt ∙ old.1)
        ]

    drop-IsValid : (m : Journal) → IsDropped m → Valid m
    drop-IsValid m d = record {
      bounded = rw d.shorter (omega (arith, valid.bounded));
      listed = drop-listed m d;
      placed = drop-placed m d;
    }

    place-dropped_self : place' a (dropped backing Known sep a j) ≡ 0
    unfolding dropped
    place-dropped_self = get-set_self (by_address backing) a 0 j

    module _ (final : place' a j ≡ sz' j) where
      final-IsDropped : IsDropped (trimmed backing Known sep j (dropped backing Known sep a j))
      final-IsDropped =
          let m = dropped backing Known sep a j in
          record {
            shorter = size-trimmed backing Known sep j m;
            gone = place-trimmed backing Known sep a j m known valid.bounded ∙ place-dropped_self;
            tail_moved = λ d. absurd (omega (arith, final, inner_of_ne d));
            kept = λ b kb nab ntb.
                place-trimmed backing Known sep b j m kb valid.bounded
                ∙ place-dropped_ne backing Known sep a j known valid present b kb nab;
            slots = λ i lo hi.
                let other : (i == place' a j) ≡ false = ground arith in
                rw other (
                  at-trimmed backing Known sep i j m valid.bounded lo hi
                  ∙ at-dropped backing Known sep a j known valid present i
                      (omega (arith, hi, valid.bounded)));
          }

    module _ (inner : place' a j < sz' j) where
      tail_ne : a ≢ tail_address
      tail_ne q = omega (arith, inner, place-tail.1, ap (λ x. place' x j) q)

      inner-IsDropped : IsDropped (trimmed backing Known sep j (moved backing Known sep a j))
      inner-IsDropped =
          let m = moved backing Known sep a j in
          record {
            shorter = size-trimmed backing Known sep j m;
            gone =
                place-trimmed backing Known sep a j m known valid.bounded
                ∙ (place-moved_ne backing Known sep a j known valid present inner a known
                      (λ q. tail_ne (sym q))
                    ∙ place-dropped_self);
            tail_moved = λ d.
                place-trimmed backing Known sep tail_address j m place-tail.0 valid.bounded
                ∙ place-moved_last backing Known sep a j known valid present inner;
            kept = λ b kb nab ntb.
                place-trimmed backing Known sep b j m kb valid.bounded
                ∙ (place-moved_ne backing Known sep a j known valid present inner b kb ntb
                    ∙ place-dropped_ne backing Known sep a j known valid present b kb nab);
            slots = λ i lo hi.
                at-trimmed backing Known sep i j m valid.bounded lo hi
                ∙ at-moved backing Known sep a j known valid present inner i
                    (omega (arith, hi, valid.bounded));
          }

    cut-IsDropped :
        (arbos_version : ℕ)
        → 11 ≤ arbos_version
        → IsDropped (cut backing Known sep arbos_version a j)
    cut-IsDropped arbos_version new = elim (dec_lt (place' a j) (sz' j)) [
      | yes lt ↦
          let t : ltb (place' a j) (sz' j) ≡ true = ground arith in
          let u : leb 11 arbos_version ≡ true = ground arith in rw (t, u) (inner-IsDropped lt)
      | no nlt ↦
          let t : ltb (place' a j) (sz' j) ≡ false = ground arith in
          rw t
            (final-IsDropped (omega (arith, nlt, here backing Known sep a j known valid present)))
    ]

    IsDropped-members :
        (m : Journal)
        → IsDropped m
        → (b : ℕ) → Known b
        → a ≢ b
        → (place' b m ≡ 0) ↔ (place' b j ≡ 0)
    IsDropped-members m d b kb nab = elim (ℕ_discrete tail_address b) [
      | yes e ↦
          let moved_lem = d.tail_moved (λ q. nab (q ∙ e)) in
          rw (← e) (
            rw moved_lem (
              (λ z. absurd (present z)),
              (λ z. absurd (
                  omega (
                    arith,
                    z,
                    place-tail.1,
                    here backing Known sep a j known valid present,
                    present,
                  ))),
            ))
      | no ntb ↦ rw (d.kept b kb nab ntb) ((λ z. z), (λ z. z))
    ]

  -- Where the slots of the list and of the known addresses do not collide, and from ArbOS 11 on,
  -- `remove` of a known address from a valid set succeeds and leaves a valid set, in which the
  -- address has no position and the other known members are those that were.
  pub remove-IsValid :
      (a arbos_version : ℕ) (j : Journal)
      → Known a
      → Valid j
      → 11 ≤ arbos_version
      → ((remove backing a arbos_version j).0 ≡ ok tt)
        × Valid (remove backing a arbos_version j).1
        × (place' a (remove backing a arbos_version j).1 ≡ 0)
        × ((b : ℕ)
            → Known b
            → a ≢ b
            → (place' b (remove backing a arbos_version j).1 ≡ 0) ↔ (place' b j ≡ 0))
  remove-IsValid a arbos_version j known valid new = elim (ℕ_discrete (place' a j) 0) [
    | yes absent ↦
        rw (remove_absent backing Known sep arbos_version a j absent)
          (refl, valid, absent, λ b kb nab. ((λ z. z), (λ z. z)))
    | no present ↦
        let d = cut-IsDropped a j known valid present arbos_version new in
        rw (remove_present backing Known sep arbos_version a j known valid present) (
          refl,
          drop-IsValid a j known valid present _ d,
          d.gone,
          IsDropped-members a j known valid present _ d,
        )
  ]

  -- Where the slots of the list and of the known addresses do not collide, and before ArbOS 11,
  -- `remove` of a known member of a valid set that is not the last of the list leaves an invalid
  -- set.
  pub remove-not-IsValid :
      (a arbos_version : ℕ) (j : Journal)
      → Known a
      → Valid j
      → arbos_version < 11
      → place' a j ≢ 0
      → place' a j < sz' j
      → ¬ Valid (remove backing a arbos_version j).1
  remove-not-IsValid a arbos_version j known valid old present inner broken =
      let m = trimmed backing Known sep j (stale backing Known sep a j) in
      let t : ltb (place' a j) (sz' j) ≡ true = ground arith in
      let u : leb 11 arbos_version ≡ false = ground arith in
      let after : (remove backing a arbos_version j).1 ≡ m =
        rw (remove_present backing Known sep arbos_version a j known valid present) (rw (t, u)) in
      let v : Valid m = rw after at broken in
      let tail = place-tail a j known valid present in
      let same : place' (tail_address a j known valid present) m ≡ sz' j =
        place-trimmed backing Known sep (tail_address a j known valid present) j
          (stale backing Known sep a j) tail.0 valid.bounded
        ∙ (place-stale backing Known sep a j known valid present inner
              (tail_address a j known valid present) tail.0
            ∙ (place-dropped_ne backing Known sep a j known valid present
                  (tail_address a j known valid present) tail.0
                  (tail_ne a j known valid present inner)
                ∙ tail.1)) in
      omega (
        arith,
        same,
        inner,
        size-trimmed backing Known sep j (stale backing Known sep a j),
        (v.listed (tail_address a j known valid present) tail.0
            (λ z. omega (arith, z, same, inner))).0,
      )
