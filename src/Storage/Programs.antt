-- ===== src/Storage/Programs.antt =====
-- crates/arb-revm/src/storage/programs.rs: what ArbOS stores of Stylus programs. The parameters and
-- each program's metadata are packed in one word, whose bytes are in Word; the fee for the data of
-- an activation is in Pricer. A word is the list of its 32 bytes.
pub mod Word
pub mod Pricer
pub mod RoundTrip
pub mod Fields
pub mod Initial
pub mod Expiry
use arbitrum_revm.Prelude.{
  ℕ, ◌+◌, ◌-◌, ◌*◌, ◌^◌, Bool, true, false, not, ◌||◌, Option, none, some, List, [], ◌∷◌, ltb, leb,
  ◌==◌, if◌then◌else◌, map,
}
use arbitrum_revm.Words.{add64, mul64}
use arbitrum_revm.Exec.{Host, Exec, pure, ◌>>=◌, ◌>>◌}
use arbitrum_revm.Storage.{
  StorageSpace, be_bytes, from_be_bytes, open_subspace_with_key, get_u256, put,
}
use arbitrum_revm.Storage.Programs.Word.{splice, pack_uint, unpack_uint, zero_word, byte_at}

abbrev pub arbitrum_start_time : ℕ
arbitrum_start_time = 1_421_388_000

pub record ProgramInfo : Type 0 where
  pub version : ℕ
  pub init_cost : ℕ
  pub cached_cost : ℕ
  pub footprint : ℕ
  pub activated_at : ℕ
  pub asm_estimate_kb : ℕ
  pub cached : Bool

pub data ProgramActivationError : Type 0 where
  not_activated : ProgramActivationError
  needs_upgrade : ℕ → ℕ → ProgramActivationError
  expired : ℕ → ProgramActivationError

unfoldable pub age_seconds : ProgramInfo → ℕ → ℕ
age_seconds p timestamp = timestamp - add64 arbitrum_start_time (mul64 p.activated_at 3_600)

abbrev pub lifetime : ℕ → ℕ
lifetime expiry_days = mul64 expiry_days (24 * 60 * 60)

-- `none` is `Ok(())`.
unfoldable pub validate_active : ProgramInfo → ℕ → ℕ → ℕ → Option ProgramActivationError
validate_active p timestamp stylus_version expiry_days =
    if p.version == 0
    then some not_activated
    else if not (p.version == stylus_version)
    then some (needs_upgrade p.version stylus_version)
    else if ltb (lifetime expiry_days) (age_seconds p timestamp)
    then some (expired (age_seconds p timestamp))
    else none

unfoldable pub is_expired : ProgramInfo → ℕ → ℕ → Bool
is_expired p timestamp expiry_days =
    p.activated_at == 0 || ltb (lifetime expiry_days) (age_seconds p timestamp)

-- The bytes that `write_program` packs and that `read_program` takes apart.
unfoldable pub word_of_program : ProgramInfo → List ℕ
word_of_program p =
    splice
      (pack_uint
        (pack_uint
          (splice
            (splice (splice (splice zero_word 0 (be_bytes 2 p.version)) 2 (be_bytes 2 p.init_cost))
              4 (be_bytes 2 p.cached_cost))
            6 (be_bytes 2 p.footprint))
          8 3 p.activated_at)
        11 3 p.asm_estimate_kb)
      14 ((if p.cached then 1 else 0) ∷ [])

unfoldable pub program_of_word : List ℕ → ProgramInfo
program_of_word word = record {
  version = unpack_uint word 0 2;
  init_cost = unpack_uint word 2 2;
  cached_cost = unpack_uint word 4 2;
  footprint = unpack_uint word 6 2;
  activated_at = unpack_uint word 8 3;
  asm_estimate_kb = unpack_uint word 11 3;
  cached = not (byte_at word 14 == 0);
}

-- StylusParams, of crates/arb-revm/src/stylus/params.rs
pub record StylusParams : Type 0 where
  pub version : ℕ
  pub ink_price : ℕ
  pub max_stack_depth : ℕ
  pub free_pages : ℕ
  pub page_gas : ℕ
  pub page_limit : ℕ
  pub min_init_gas : ℕ
  pub min_cached_init_gas : ℕ
  pub init_cost_scalar : ℕ
  pub cached_cost_scalar : ℕ
  pub expiry_days : ℕ
  pub block_cache_size : ℕ
  pub max_wasm_size : ℕ
  pub max_fragment_count : ℕ

unfoldable pub from_word : List ℕ → StylusParams
from_word word = record {
  version = unpack_uint word 0 2;
  ink_price = unpack_uint word 2 3;
  max_stack_depth = unpack_uint word 5 4;
  free_pages = unpack_uint word 9 2;
  page_gas = unpack_uint word 11 2;
  page_limit = unpack_uint word 13 2;
  min_init_gas = byte_at word 15;
  min_cached_init_gas = byte_at word 16;
  init_cost_scalar = byte_at word 17;
  cached_cost_scalar = byte_at word 18;
  expiry_days = unpack_uint word 19 2;
  block_cache_size = unpack_uint word 23 2;
  max_wasm_size = unpack_uint word 25 4;
  max_fragment_count = byte_at word 29;
}

-- StylusParams::max_wasm_size
unfoldable pub max_wasm_size_at : StylusParams → ℕ → ℕ
max_wasm_size_at p arbos_version = if ltb arbos_version 40 then 128 * 1_024 else p.max_wasm_size

-- The word that `initialize` builds.
unfoldable pub initial_word : ℕ → List ℕ
initial_word arbos_version =
    let pages = pack_uint (pack_uint (pack_uint zero_word 0 2 1) 2 3 10_000) 5 4 (4 * 65_536) in
    let page = pack_uint (pack_uint (pack_uint pages 9 2 2) 11 2 1_000) 13 2 128 in
    let costs =
      pack_uint (pack_uint (pack_uint (pack_uint page 15 1 72) 16 1 11) 17 1 50) 18 1 50 in
    let days = pack_uint (pack_uint (pack_uint costs 19 2 365) 21 2 31) 23 2 32 in
    let wasm = if leb 40 arbos_version then pack_uint days 25 4 (128 * 1_024) else days in
    if leb 60 arbos_version then pack_uint wasm 29 1 4 else wasm

module _ ⦃h : Host⦄ (root : StorageSpace) where
  abbrev pub params : StorageSpace
  params = open_subspace_with_key root 0

  abbrev pub program_data : StorageSpace
  program_data = open_subspace_with_key root 1

  abbrev pub module_hashes : StorageSpace
  module_hashes = open_subspace_with_key root 2

  abbrev pub data_pricer : StorageSpace
  data_pricer = open_subspace_with_key root 3

  unfoldable pub read_params_word : Exec (List ℕ)
  read_params_word = do word ← get_u256 params 0; pure (be_bytes 32 word)

  unfoldable pub write_params_word : List ℕ → Exec (Unit {0})
  write_params_word word = put params 0 (from_be_bytes 0 word)

  unfoldable pub read_program : ℕ → Exec ProgramInfo
  read_program code_hash = do
    word ← get_u256 program_data code_hash
    pure (program_of_word (be_bytes 32 word))

  unfoldable pub write_program : ℕ → ProgramInfo → Exec (Unit {0})
  write_program code_hash info = put program_data code_hash (from_be_bytes 0 (word_of_program info))

  unfoldable pub write_module_hash : ℕ → ℕ → Exec (Unit {0})
  write_module_hash code_hash module_hash = put module_hashes code_hash module_hash

  unfoldable pub initialize : ℕ → Exec (Unit {0})
  initialize arbos_version = do
    write_params_word (initial_word arbos_version)
    put data_pricer 1 34_865
    put data_pricer 2 arbitrum_start_time
    put data_pricer 3 82_928_201
    put data_pricer 4 21_360_419
