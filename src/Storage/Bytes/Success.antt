-- ===== src/Storage/Bytes/Success.antt =====
-- crates/arb-revm/src/storage/bytes.rs: a string whose stored length is a machine word can be replaced.
use arbitrum_revm.Prelude.{ℕ, zero, suc, ◌-◌, ◌<◌, ◌^◌, ◌≡◌, refl, List, ltb, length, take, drop}
use arbitrum_revm.Words.{add64}
use arbitrum_revm.Exec.{Journal, Host, ok}
use arbitrum_revm.Exec.Success.{Succeeds, then-Succeeds, if-Succeeds}
use arbitrum_revm.Storage.{StorageSpace, from_be_bytes, get, get_u64-eq, put}
use arbitrum_revm.Storage.Bytes.{size, clear, clear_from, write_chunks, set_bytes, set_fresh}

module _ ⦃h : Host⦄ (s : StorageSpace) where
  clear_from-Succeeds : (fuel left offset : ℕ) → Succeeds (clear_from s fuel left offset)
  unfolding clear_from put
  clear_from-Succeeds zero left offset = λ j. refl
  clear_from-Succeeds (suc fuel) left offset =
      if-Succeeds (ltb 0 left) _ _
        (then-Succeeds (put s offset 0) (clear_from s fuel (left - 32) (add64 offset 1)) (λ j. refl)
          (clear_from-Succeeds fuel (left - 32) (add64 offset 1)))
        (λ e j. refl)

  write_chunks-Succeeds :
      (fuel : ℕ) (value : List ℕ) (offset : ℕ) → Succeeds (write_chunks s fuel value offset)
  unfolding write_chunks put
  write_chunks-Succeeds zero value offset = λ j. refl
  write_chunks-Succeeds (suc fuel) value offset =
      if-Succeeds (ltb 0 (length value)) _ _
        (then-Succeeds (put s offset (from_be_bytes 0 (take 32 value)))
          (write_chunks s fuel (drop 32 value) (add64 offset 1)) (λ j. refl)
          (write_chunks-Succeeds fuel (drop 32 value) (add64 offset 1)))
        (λ e j. refl)

  set_fresh-Succeeds : (value : List ℕ) → Succeeds (set_fresh s value)
  unfolding set_fresh put
  set_fresh-Succeeds value =
      then-Succeeds (put s 0 (length value)) (write_chunks s (suc (length value)) value 1)
        (λ j. refl) (write_chunks-Succeeds (suc (length value)) value 1)

  pub set_bytes-ok :
      (value : List ℕ) (j : Journal) → get s 0 j < 2 ^ 64 → (set_bytes s value j).0 ≡ ok tt
  unfolding set_bytes clear put size
  set_bytes-ok value j lt =
      let n = get s 0 j in
      rw (get_u64-eq s 0 j lt) (rw (clear_from-Succeeds (suc n) n 1 j) (set_fresh-Succeeds value _))
