-- ===== src/Storage/Bytes.antt =====
-- crates/arb-revm/src/storage/bytes.rs: a byte string in 32-byte words, its length in slot 0.
pub mod RoundTrip
pub mod Success
use arbitrum_revm.Prelude.{
  ℕ, zero, suc, ◌-◌, List, [], ◌++◌, ltb, leb, if◌then◌else◌, length, take, drop,
}
use arbitrum_revm.Words.{add64}
use arbitrum_revm.Exec.{Host, Exec, pure, ◌>>=◌, ◌>>◌}
use arbitrum_revm.Storage.{StorageSpace, be_bytes, from_be_bytes, get_u64, get_u256, put}

module _ ⦃h : Host⦄ (s : StorageSpace) where
  unfoldable pub size : Exec ℕ
  size = get_u64 s 0

  -- `while bytes_left >= 32`, and the last word. A round takes 32 bytes off, so that any fuel above
  -- `bytes_left` is enough.
  pub get_from : ℕ → ℕ → ℕ → Exec (List ℕ)
  get_from zero bytes_left offset = pure []
  get_from (suc fuel) bytes_left offset =
      let rest : Exec (List ℕ) = (do
        word ← get_u256 s offset
        more ← get_from fuel (bytes_left - 32) (add64 offset 1)
        pure (be_bytes 32 word ++ more)) in
      let last : Exec (List ℕ) = (do
        word ← get_u256 s offset
        pure (drop (32 - bytes_left) (be_bytes 32 word))) in
      if leb 32 bytes_left then rest else if ltb 0 bytes_left then last else pure []

  pub get_bytes : Exec (List ℕ)
  get_bytes = do bytes_left ← size; get_from (suc bytes_left) bytes_left 1

  unfoldable pub clear_from : ℕ → ℕ → ℕ → Exec (Unit {0})
  clear_from zero bytes_left offset = pure tt
  clear_from (suc fuel) bytes_left offset =
      let rest : Exec (Unit {0}) = (do
        put s offset 0
        clear_from fuel (bytes_left - 32) (add64 offset 1)) in
      if ltb 0 bytes_left then rest else pure tt

  unfoldable pub clear : Exec (Unit {0})
  clear = do bytes_left ← size; clear_from (suc bytes_left) bytes_left 1; put s 0 0

  -- `for chunk in value.chunks(32)`: a short chunk stands at the right end of its word.
  unfoldable pub write_chunks : ℕ → List ℕ → ℕ → Exec (Unit {0})
  write_chunks zero value offset = pure tt
  write_chunks (suc fuel) value offset =
      let rest : Exec (Unit {0}) = (do
        put s offset (from_be_bytes 0 (take 32 value))
        write_chunks fuel (drop 32 value) (add64 offset 1)) in
      if ltb 0 (length value) then rest else pure tt

  unfoldable pub set_fresh : List ℕ → Exec (Unit {0})
  set_fresh value = do put s 0 (length value); write_chunks (suc (length value)) value 1

  unfoldable pub set_bytes : List ℕ → Exec (Unit {0})
  set_bytes value = do clear; set_fresh value
