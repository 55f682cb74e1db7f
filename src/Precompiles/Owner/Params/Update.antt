-- ===== src/Precompiles/Owner/Params/Update.antt =====
-- crates/arb-revm/src/precompiles/arb_owner.rs: a setter of a Stylus parameter against the other parameters.
use arbitrum_revm.Prelude.{ℕ, ◌+◌, ◌^◌, ◌≤◌, ◌<◌, ◌≡◌, refl, ap, ◌∙◌, ◌⊎◌, List, [], length, arith}
use arbitrum_revm.Exec.{Journal, Host}
use arbitrum_revm.Storage.{get, set, be_bytes, from_be_bytes, get_u256, put, get-set_self}
use arbitrum_revm.Storage.Digits.{IsBytes, word-whole, be_bytes-IsBytes, length-be_bytes}
use arbitrum_revm.Storage.Programs.{params, read_params_word, write_params_word}
use arbitrum_revm.Storage.Programs.Word.{pack_uint, unpack_uint}
use arbitrum_revm.Storage.Programs.RoundTrip.{put-IsBytes}
use arbitrum_revm.Storage.Programs.Fields.{
  unpack_uint-pack_uint, unpack_uint-pack_uint_apart, length-pack_uint,
}
use arbitrum_revm.ArbosState.{programs}
use arbitrum_revm.Precompiles.Outcome.{ok_result}
use arbitrum_revm.Precompiles.Owner.Params.{update_word}

pack_uint-IsBytes :
    (word : List ℕ) (start n value : ℕ) → IsBytes word → IsBytes (pack_uint word start n value)
unfolding pack_uint
pack_uint-IsBytes word start n value b = put-IsBytes word start n value b

module _ ⦃h : Host⦄ where
  -- The word of parameters in the state.
  abbrev pub word_in : Journal → List ℕ
  word_in j = be_bytes 32 (get (params programs) 0 j)

  -- A setter of the field of `n` bytes at `start` of the word of parameters, for a value of at most
  -- that many bytes, returns; the field then holds the value, and any other field, one that ends
  -- before it or begins after it, holds what it held.
  pub update_word_lem :
      (gas_limit start n value other m : ℕ) (j : Journal)
      → start + n ≤ 32
      → value < 256 ^ n
      → (other + m ≤ start) ⊎ (start + n ≤ other)
      → ((update_word gas_limit (λ word. pack_uint word start n value) j).0
          ≡ ok_result gas_limit [])
        × (unpack_uint
              (word_in (update_word gas_limit (λ word. pack_uint word start n value) j).1)
              start
              n
            ≡ value)
        × (unpack_uint
              (word_in (update_word gas_limit (λ word. pack_uint word start n value) j).1)
              other
              m
            ≡ unpack_uint (word_in j) other m)
  unfolding update_word read_params_word write_params_word get_u256 put
  update_word_lem gas_limit start n value other m j room fits apart =
      let old = word_in j in
      let new = pack_uint old start n value in
      let wide : start + n ≤ length old =
        omega (arith, length-be_bytes 32 (get (params programs) 0 j), room) in
      let stored : word_in (set (params programs) 0 (from_be_bytes 0 new) j) ≡ new =
        ap (be_bytes 32) (get-set_self (params programs) 0 (from_be_bytes 0 new) j)
        ∙ word-whole new
            (pack_uint-IsBytes old start n value (be_bytes-IsBytes 32 (get (params programs) 0 j)))
            (length-pack_uint old start n value wide
              ∙ length-be_bytes 32 (get (params programs) 0 j)) in
      (
        refl,
        ap (λ w. unpack_uint w start n) stored ∙ unpack_uint-pack_uint old start n value wide fits,
        ap (λ w. unpack_uint w other m) stored
            ∙ unpack_uint-pack_uint_apart old start n value wide other m apart,
      )
