-- ===== src/Storage/SignedSlots.antt =====
-- crates/arb-revm/src/storage/slot.rs: the three ways of writing a signed slot.
use arbitrum_revm.Prelude.{ℕ, suc, ◌≡◌, refl, ap, ◌∙◌, arith, true}
use arbitrum_revm.Prelude.Int.{ℤ, pos, negsuc}
use arbitrum_revm.Signed.{fits_i256, i256_to_u256_twos_complement, u256_twos_complement_to_i256}
use arbitrum_revm.Signed.RoundTrip.{twos_complement_round_trip}
use arbitrum_revm.Exec.{Journal, Host, ok}
use arbitrum_revm.Storage.{
  StorageSpace, put, get_i256, get-set_self, set_i256_checked, set_i256_saturating,
  set_i256_pre_version7,
}

abbrev pub abs : ℤ → ℤ
abs (pos n) = pos n
abs (negsuc n) = pos (suc n)

module _ ⦃h : Host⦄ where
  checked_eq :
      (s : StorageSpace) (k : ℕ) (z : ℤ) (j : Journal)
      → fits_i256 z ≡ true
      → set_i256_checked s k z j ≡ put s k (i256_to_u256_twos_complement z) j
  unfolding set_i256_checked i256_to_u256_twos_complement
  checked_eq s k (pos n) j fits = ground arith
  checked_eq s k (negsuc n) j fits = ground arith

  saturating_eq :
      (s : StorageSpace) (k : ℕ) (z : ℤ) (j : Journal)
      → fits_i256 z ≡ true
      → set_i256_saturating s k z j ≡ put s k (i256_to_u256_twos_complement z) j
  unfolding set_i256_saturating i256_to_u256_twos_complement
  saturating_eq s k (pos n) j fits = ground arith
  saturating_eq s k (negsuc n) j fits = ground arith

  put-ok : (s : StorageSpace) (k v : ℕ) (j : Journal) → (put s k v j).0 ≡ ok tt
  unfolding put
  put-ok s k v j = refl

  -- What is read after a word is written.
  get_i256-put :
      (s : StorageSpace) (k v : ℕ) (j : Journal)
      → (get_i256 s k (put s k v j).1).0 ≡ ok (u256_twos_complement_to_i256 v)
  unfolding get_i256 put
  get_i256-put s k v j = ap (λ t. ok (u256_twos_complement_to_i256 t)) (get-set_self s k v j)

  pre_version7-get :
      (s : StorageSpace) (k : ℕ) (z : ℤ) (j : Journal)
      → fits_i256 (abs z) ≡ true
      → ((set_i256_pre_version7 s k z j).0 ≡ ok tt)
        × ((get_i256 s k (set_i256_pre_version7 s k z j).1).0 ≡ ok (abs z))
  unfolding set_i256_pre_version7 i256_to_u256_twos_complement
  pre_version7-get s k (pos n) j small =
      (put-ok s k n j, get_i256-put s k n j ∙ ap ok (twos_complement_round_trip (pos n) small).0)
  pre_version7-get s k (negsuc n) j small = (
    put-ok s k (suc n) j,
    get_i256-put s k (suc n) j ∙ ap ok (twos_complement_round_trip (pos (suc n)) small).0,
  )

  -- For an integer in the range of an I256 other than the least, the checked and the saturating
  -- write succeed and the integer is read back; the write from before ArbOS 7 succeeds too,
  -- but its absolute value is read back.
  pub signed_slot_round_trip :
      (s : StorageSpace) (k : ℕ) (z : ℤ) (j : Journal)
      → fits_i256 z ≡ true
      → fits_i256 (abs z) ≡ true
      → ((set_i256_checked s k z j).0 ≡ ok tt)
        × ((set_i256_saturating s k z j).0 ≡ ok tt)
        × ((set_i256_pre_version7 s k z j).0 ≡ ok tt)
        × ((get_i256 s k (set_i256_checked s k z j).1).0 ≡ ok z)
        × ((get_i256 s k (set_i256_saturating s k z j).1).0 ≡ ok z)
        × ((get_i256 s k (set_i256_pre_version7 s k z j).1).0 ≡ ok (abs z))
  signed_slot_round_trip s k z j fits small =
      let c = checked_eq s k z j fits in
      let t = saturating_eq s k z j fits in
      let back =
        get_i256-put s k (i256_to_u256_twos_complement z) j
        ∙ ap ok (twos_complement_round_trip z fits).0 in
      (
        ap (λ r. r.0) c ∙ put-ok s k (i256_to_u256_twos_complement z) j,
        ap (λ r. r.0) t ∙ put-ok s k (i256_to_u256_twos_complement z) j,
        (pre_version7-get s k z j small).0,
        ap (λ r. (get_i256 s k r.1).0) c ∙ back,
        ap (λ r. (get_i256 s k r.1).0) t ∙ back,
        (pre_version7-get s k z j small).1,
      )
