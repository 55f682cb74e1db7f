-- ===== src/Storage/Programs/Word.antt =====
-- crates/arb-revm/src/storage/programs.rs: the bytes of a packed word, and its fields.
use arbitrum_revm.Prelude.{ℕ, zero, suc, ◌+◌, List, [], ◌∷◌, ◌++◌, length, take, drop}
use arbitrum_revm.Storage.{be_bytes, from_be_bytes}

abbrev pub zero_word : List ℕ
zero_word = be_bytes 32 0

-- `word[start..start + n].copy_from_slice(bytes)`, for `n` bytes
unfoldable pub splice : List ℕ → ℕ → List ℕ → List ℕ
splice word start bytes = take start word ++ bytes ++ drop (start + length bytes) word

-- The last `len` bytes of the value, most significant first.
unfoldable pub pack_uint : List ℕ → ℕ → ℕ → ℕ → List ℕ
pack_uint word start len value = splice word start (be_bytes len value)

unfoldable pub unpack_uint : List ℕ → ℕ → ℕ → ℕ
unpack_uint word start len = from_be_bytes 0 (take len (drop start word))

unfoldable pub byte_at : List ℕ → ℕ → ℕ
byte_at [] i = 0
byte_at (b ∷ bs) zero = b
byte_at (b ∷ bs) (suc i) = byte_at bs i
