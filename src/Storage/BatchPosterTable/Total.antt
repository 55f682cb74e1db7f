-- ===== src/Storage/BatchPosterTable/Total.antt =====
-- crates/arb-revm/src/storage/batch_poster_table.rs: the total of what the batch posters are owed.
use arbitrum_revm.Prelude.{ℕ, ◌+◌, ◌≤◌, ◌≡◌, ◌≢◌, refl, ap, ◌∙◌, arith, List, [], ◌∷◌, ◌++◌}
use arbitrum_revm.Words.{u256_max}
use arbitrum_revm.Exec.{Journal, Host, ok}
use arbitrum_revm.Storage.{
  StorageSpace, slot_for_hash, get, set, put, get_u256, get-set_self, get-set_ne,
}
use arbitrum_revm.Storage.BatchPosterTable.{set_funds_due, total_funds_due, next_total_funds_due}

next_total_eq :
    (total due prev : ℕ)
    → prev ≤ total
    → total + due ≤ u256_max
    → next_total_funds_due total due prev + prev ≡ total + due
unfolding next_total_funds_due
next_total_eq total due prev le fits = ground arith

module _ ⦃h : Host⦄ where
  -- What the posters of a list are owed together.
  unfoldable pub owed : List StorageSpace → Journal → ℕ
  owed [] j = 0
  owed (t ∷ ts) j = get t 0 j + owed ts j

  -- No poster of the list keeps its dues in the slot.
  unfoldable pub Misses : ℕ → List StorageSpace → Type 0
  Misses slot [] = Unit {0}
  Misses slot (t ∷ ts) = (slot ≢ slot_for_hash t 0) × Misses slot ts

  owed-append :
      (xs ys : List StorageSpace) (j : Journal) → owed (xs ++ ys) j ≡ owed xs j + owed ys j
  unfolding owed
  owed-append [] ys j = omega arith
  owed-append (x ∷ xs) ys j = omega (arith, owed-append xs ys j)

  owed-middle :
      (xs ys : List StorageSpace) (t : StorageSpace) (j : Journal)
      → owed (xs ++ t ∷ ys) j ≡ owed (xs ++ ys) j + get t 0 j
  unfolding owed
  owed-middle xs ys t j = omega (arith, owed-append xs (t ∷ ys) j, owed-append xs ys j)

  owed-set :
      (s : StorageSpace) (v : ℕ) (ts : List StorageSpace) (j : Journal)
      → Misses (slot_for_hash s 0) ts
      → owed ts (set s 0 v j) ≡ owed ts j
  unfolding owed Misses
  owed-set s v [] j m = refl
  owed-set s v (t ∷ ts) j m = omega (arith, get-set_ne s t 0 0 v j m.0, owed-set s v ts j m.1)

  set_funds_due_eq :
      (s state : StorageSpace) (due : ℕ) (j : Journal)
      → set_funds_due s state due j ≡ (
        ok tt,
        set state 0 due (set s 0 (next_total_funds_due (get s 0 j) due (get state 0 j)) j),
      )
  unfolding set_funds_due total_funds_due get_u256 put
  set_funds_due_eq s state due j = refl

  -- Let the table's total be what its posters are owed together, the poster `state` among them,
  -- with the total and the dues of `state` in slots of their own. If the total and the new dues of
  -- `state` together fit a U256, setting those dues succeeds, they are read back, the other
  -- posters' dues stay, and the table's total is again what its posters are owed together.
  pub set_funds_due-owed :
      (s state : StorageSpace) (xs ys : List StorageSpace) (due : ℕ) (j : Journal)
      → slot_for_hash state 0 ≢ slot_for_hash s 0
      → Misses (slot_for_hash s 0) (xs ++ ys)
      → Misses (slot_for_hash state 0) (xs ++ ys)
      → get s 0 j ≡ owed (xs ++ state ∷ ys) j
      → get s 0 j + due ≤ u256_max
      → ((set_funds_due s state due j).0 ≡ ok tt)
        × (get state 0 (set_funds_due s state due j).1 ≡ due)
        × (owed (xs ++ ys) (set_funds_due s state due j).1 ≡ owed (xs ++ ys) j)
        × (get s 0 (set_funds_due s state due j).1
            ≡ owed (xs ++ state ∷ ys) (set_funds_due s state due j).1)
  set_funds_due-owed s state xs ys due j apart off_total off_state total fits =
      let sum = next_total_funds_due (get s 0 j) due (get state 0 j) in
      let j' = set s 0 sum j in
      let k = (set_funds_due s state due j).1 in
      let e = set_funds_due_eq s state due j in
      let own : get state 0 k ≡ due = ap (λ r. get state 0 r.1) e ∙ get-set_self state 0 due j' in
      let rest : owed (xs ++ ys) k ≡ owed (xs ++ ys) j =
        ap (λ r. owed (xs ++ ys) r.1) e
        ∙ owed-set state due (xs ++ ys) j' off_state
        ∙ owed-set s sum (xs ++ ys) j off_total in
      let new : get s 0 k ≡ sum =
        ap (λ r. get s 0 r.1) e ∙ get-set_ne state s 0 0 due j' apart ∙ get-set_self s 0 sum j in
      (
        ap (λ r. r.0) e,
        own,
        rest,
        omega (
          arith,
          own,
          rest,
          new,
          fits,
          total,
          owed-middle xs ys state j,
          owed-middle xs ys state k,
          next_total_eq (get s 0 j) due (get state 0 j)
              (omega (arith, total, owed-middle xs ys state j)) fits,
        ),
      )
