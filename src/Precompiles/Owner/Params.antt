-- ===== src/Precompiles/Owner/Params.antt =====
-- crates/arb-revm/src/precompiles/arb_owner.rs: the setters of Stylus parameters, which change a field of the
-- packed word.
pub mod Update
use arbitrum_revm.Prelude.{ℕ, ◌+◌, ◌-◌, ◌/◌, ◌%◌, ◌^◌, List, [], ltb, ◌||◌, ◌==◌, if◌then◌else◌}
use arbitrum_revm.Words.{add64}
use arbitrum_revm.Exec.{Host, Exec}
use arbitrum_revm.Storage.Programs.{read_params_word, write_params_word}
use arbitrum_revm.Storage.Programs.Word.{pack_uint}
use arbitrum_revm.ArbosState.{programs}
use arbitrum_revm.Precompiles.Outcome.{Run, ok_result, plain_error, done, try_or}

-- `set_or_revert!`
abbrev pub set_or_revert : ℕ → Exec (Unit {0}) → Run
set_or_revert gas_limit m = try_or (plain_error gas_limit) m (λ _. done (ok_result gas_limit []))

-- A u64 cast to u32.
abbrev pub as_u32 : ℕ → ℕ
as_u32 n = n % 2 ^ 32

module _ ⦃h : Host⦄ (gas_limit : ℕ) where
  unfoldable pub update_word : (List ℕ → List ℕ) → Run
  update_word change =
      try_or (plain_error gas_limit) (read_params_word programs)
        λ word. set_or_revert gas_limit (write_params_word programs (change word))

  unfoldable pub set_ink_price : ℕ → Run
  set_ink_price price =
      if price == 0 || ltb 0xffffff price
      then done (plain_error gas_limit)
      else update_word (λ word. pack_uint word 2 3 price)

  unfoldable pub set_wasm_max_stack_depth : ℕ → Run
  set_wasm_max_stack_depth depth = update_word (λ word. pack_uint word 5 4 depth)

  unfoldable pub set_wasm_free_pages : ℕ → Run
  set_wasm_free_pages pages = update_word (λ word. pack_uint word 9 2 pages)

  unfoldable pub set_wasm_page_gas : ℕ → Run
  set_wasm_page_gas gas = update_word (λ word. pack_uint word 11 2 gas)

  unfoldable pub set_wasm_page_limit : ℕ → Run
  set_wasm_page_limit limit = update_word (λ word. pack_uint word 13 2 limit)

  -- The arguments are a u8 and a u16, so that the sums do not saturate.
  unfoldable pub set_wasm_min_init_gas : ℕ → ℕ → Run
  set_wasm_min_init_gas gas cached =
      let gas_units = (gas + 127) / 128 in
      let cached_units = (cached + 31) / 32 in
      update_word
        (λ word. pack_uint (pack_uint word 15 1 (as_u32 gas_units)) 16 1 (as_u32 cached_units))

  unfoldable pub set_wasm_init_cost_scalar : ℕ → Run
  set_wasm_init_cost_scalar percent =
      let units = add64 percent 1 / 2 in update_word (λ word. pack_uint word 17 1 (as_u32 units))

  unfoldable pub set_wasm_expiry_days : ℕ → Run
  set_wasm_expiry_days days = update_word (λ word. pack_uint word 19 2 days)

  unfoldable pub set_wasm_keepalive_days : ℕ → Run
  set_wasm_keepalive_days days = update_word (λ word. pack_uint word 21 2 days)

  unfoldable pub set_wasm_block_cache_size : ℕ → Run
  set_wasm_block_cache_size count = update_word (λ word. pack_uint word 23 2 count)

  unfoldable pub set_wasm_max_size : ℕ → Run
  set_wasm_max_size size = update_word (λ word. pack_uint word 25 4 size)

  unfoldable pub set_max_stylus_contract_fragments : ℕ → Run
  set_max_stylus_contract_fragments fragments = update_word (λ word. pack_uint word 29 1 fragments)
