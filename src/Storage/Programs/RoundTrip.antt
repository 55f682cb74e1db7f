-- ===== src/Storage/Programs/RoundTrip.antt =====
-- crates/arb-revm/src/storage/programs.rs: packing the fields of a word and taking them apart.
use arbitrum_revm.Prelude.{
  ℕ, ◌+◌, ◌^◌, ◌<◌, ◌≡◌, refl, ap, ◌∙◌, arith, Bool, true, false, not, ◌==◌, if◌then◌else◌, List,
  [], ◌∷◌, ◌++◌, length, take, drop,
}
use arbitrum_revm.Exec.{Host, Journal, ok}
use arbitrum_revm.Storage.{StorageSpace, be_bytes, from_be_bytes, get-set_self, get_u256, put}
use arbitrum_revm.Storage.Digits.{
  IsBytes, word-whole, be_bytes-IsBytes, append-IsBytes, take-IsBytes, drop-IsBytes,
}
use arbitrum_revm.Storage.Programs.Word.{splice, pack_uint, unpack_uint, byte_at}
use arbitrum_revm.Storage.Programs.{
  ProgramInfo, word_of_program, program_of_word, program_data, read_program, write_program,
}

pub record IsPackable (p : ProgramInfo) : Type 0 where
  pub version_fits : p.version < 2 ^ 16
  pub init_cost_fits : p.init_cost < 2 ^ 16
  pub cached_cost_fits : p.cached_cost < 2 ^ 16
  pub footprint_fits : p.footprint < 2 ^ 16
  pub activated_at_fits : p.activated_at < 2 ^ 24
  pub asm_estimate_kb_fits : p.asm_estimate_kb < 2 ^ 24

flag : (b : Bool) → not ((if b then 1 else 0) == 0) ≡ b
flag true = refl
flag false = refl

splice-IsBytes :
    (word bytes : List ℕ) (start : ℕ)
    → IsBytes word
    → IsBytes bytes
    → IsBytes (splice word start bytes)
unfolding splice
splice-IsBytes word bytes start w b =
    append-IsBytes (take start word ++ bytes) (drop (start + length bytes) word)
      (append-IsBytes (take start word) bytes (take-IsBytes start word w) b)
      (drop-IsBytes (start + length bytes) word w)

pub put-IsBytes :
    (word : List ℕ) (start n x : ℕ) → IsBytes word → IsBytes (splice word start (be_bytes n x))
put-IsBytes word start n x w = splice-IsBytes word (be_bytes n x) start w (be_bytes-IsBytes n x)

flag-IsBytes : (b : Bool) → IsBytes ((if b then 1 else 0) ∷ [])
unfolding IsBytes
flag-IsBytes true = (omega arith, tt)
flag-IsBytes false = (omega arith, tt)

program_of_word-word : (p : ProgramInfo) → IsPackable p → program_of_word (word_of_program p) ≡ p
unfolding program_of_word word_of_program splice pack_uint unpack_uint byte_at be_bytes
    from_be_bytes
program_of_word-word p f =
    let version-eq : unpack_uint (word_of_program p) 0 2 ≡ p.version =
      omega (arith, f.version_fits) in
    let init_cost-eq : unpack_uint (word_of_program p) 2 2 ≡ p.init_cost =
      omega (arith, f.init_cost_fits) in
    let cached_cost-eq : unpack_uint (word_of_program p) 4 2 ≡ p.cached_cost =
      omega (arith, f.cached_cost_fits) in
    let footprint-eq : unpack_uint (word_of_program p) 6 2 ≡ p.footprint =
      omega (arith, f.footprint_fits) in
    let activated_at-eq : unpack_uint (word_of_program p) 8 3 ≡ p.activated_at =
      omega (arith, f.activated_at_fits) in
    let asm_estimate_kb-eq : unpack_uint (word_of_program p) 11 3 ≡ p.asm_estimate_kb =
      omega (arith, f.asm_estimate_kb_fits) in
    λ i. record {
      version = version-eq i;
      init_cost = init_cost-eq i;
      cached_cost = cached_cost-eq i;
      footprint = footprint-eq i;
      activated_at = activated_at-eq i;
      asm_estimate_kb = asm_estimate_kb-eq i;
      cached = flag p.cached i;
    }

word_of_program-IsBytes : (p : ProgramInfo) → IsBytes (word_of_program p)
unfolding word_of_program pack_uint
word_of_program-IsBytes p =
    splice-IsBytes _ _ 14
      (put-IsBytes _ 11 3 p.asm_estimate_kb (
        put-IsBytes _ 8 3 p.activated_at (
          put-IsBytes _ 6 2 p.footprint (
            put-IsBytes _ 4 2 p.cached_cost (
              put-IsBytes _ 2 2 p.init_cost
                (put-IsBytes _ 0 2 p.version (be_bytes-IsBytes 32 0)))))))
      (flag-IsBytes p.cached)

length-word_of_program : (p : ProgramInfo) → length (word_of_program p) ≡ 32
unfolding word_of_program pack_uint splice be_bytes
length-word_of_program p = refl

module _ ⦃h : Host⦄ (root : StorageSpace) where
  -- A program whose fields fit their bytes is written and read back.
  pub read_program-write_program :
      (code_hash : ℕ) (p : ProgramInfo) (j : Journal)
      → IsPackable p
      → (read_program root code_hash (write_program root code_hash p j).1).0 ≡ ok p
  unfolding read_program write_program put get_u256
  read_program-write_program code_hash p j fits =
      ap (λ w. ok (program_of_word (be_bytes 32 w)))
        (get-set_self (program_data root) code_hash (from_be_bytes 0 (word_of_program p)) j)
      ∙ ap (λ l. ok (program_of_word l))
          (word-whole (word_of_program p) (word_of_program-IsBytes p) (length-word_of_program p))
      ∙ ap ok (program_of_word-word p fits)
