-- ===== src/Storage/Programs/Initial.antt =====
-- crates/arb-revm/src/storage/programs.rs and stylus/params.rs: the parameters at the start.
use arbitrum_revm.Prelude.{
  ℕ, ◌^◌, ◌<◌, ◌≡◌, ◌≢◌, refl, ap, ◌∙◌, arith, leb, if◌then◌else◌, length, inl, inr, Bool-cases,
}
use arbitrum_revm.Exec.{Host, Journal, ok}
use arbitrum_revm.Storage.{
  StorageSpace, be_bytes, from_be_bytes, slot_for_hash, get, set, get-set_self, get-set_ne,
  get_u256, put,
}
use arbitrum_revm.Storage.Digits.{IsBytes, word-whole}
use arbitrum_revm.Storage.Programs.Word.{splice, pack_uint, unpack_uint, byte_at}
use arbitrum_revm.Storage.Programs.{
  arbitrum_start_time, StylusParams, from_word, initial_word, initialize, read_params_word,
  write_params_word, params, data_pricer,
}

unfoldable pub initial_params : ℕ → StylusParams
initial_params arbos_version = record {
  version = 1;
  ink_price = 10_000;
  max_stack_depth = 262_144;
  free_pages = 2;
  page_gas = 1_000;
  page_limit = 128;
  min_init_gas = 72;
  min_cached_init_gas = 11;
  init_cost_scalar = 50;
  cached_cost_scalar = 50;
  expiry_days = 365;
  block_cache_size = 32;
  max_wasm_size = if leb 40 arbos_version then 131_072 else 0;
  max_fragment_count = if leb 60 arbos_version then 4 else 0;
}

initial_word_lem :
    (v : ℕ)
    → (from_word (initial_word v) ≡ initial_params v)
      × IsBytes (initial_word v)
      × (length (initial_word v) ≡ 32)
unfolding from_word initial_word initial_params pack_uint splice unpack_uint byte_at be_bytes
    from_be_bytes IsBytes
initial_word_lem v = elim (Bool-cases (leb 40 v)) [
  | inl a ↦ elim (Bool-cases (leb 60 v)) [
    | inl b ↦ rw a (rw b (refl, ground arith, refl))
    | inr b ↦ rw a (rw b (refl, ground arith, refl))
  ]
  | inr a ↦ elim (Bool-cases (leb 60 v)) [
    | inl b ↦ rw a (rw b (refl, ground arith, refl))
    | inr b ↦ rw a (rw b (refl, ground arith, refl))
  ]
]

module _ ⦃h : Host⦄ (root : StorageSpace) where
  -- Where no slot of the data pricer is the slot of the parameters, the parameters are read back
  -- after the start: each has its initial value, the greatest size of a program from ArbOS 40 on
  -- and the greatest number of fragments from ArbOS 60 on, and zero before.
  pub read_params_word-initialize :
      (v : ℕ) (j : Journal)
      → ((i : ℕ) → i < 2 ^ 64 → slot_for_hash (data_pricer root) i ≢ slot_for_hash (params root) 0)
      → ((read_params_word root (initialize root v j).1).0 ≡ ok (initial_word v))
        × (from_word (initial_word v) ≡ initial_params v)
  unfolding read_params_word initialize write_params_word put get_u256
  read_params_word-initialize v j far =
      let s = data_pricer root in
      let t = params root in
      let whole = initial_word_lem v in
      let other : (i n : ℕ) (k : Journal) → i < 2 ^ 64 → get t 0 (set s i n k) ≡ get t 0 k =
        λ i n k lt. get-set_ne s t i 0 n k (far i lt) in
      let k0 = set t 0 (from_be_bytes 0 (initial_word v)) j in
      let k1 = set s 1 34_865 k0 in
      let k2 = set s 2 arbitrum_start_time k1 in
      let k3 = set s 3 82_928_201 k2 in
      (
        ap (λ w. ok (be_bytes 32 w))
              (other 4 21_360_419 k3 (omega arith)
                ∙ other 3 82_928_201 k2 (omega arith)
                ∙ other 2 arbitrum_start_time k1 (omega arith)
                ∙ other 1 34_865 k0 (omega arith)
                ∙ get-set_self t 0 (from_be_bytes 0 (initial_word v)) j)
            ∙ ap ok (word-whole (initial_word v) whole.1 whole.2),
        whole.0,
      )
