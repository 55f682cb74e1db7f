-- ===== src/Util.antt =====
-- crates/arb-revm/src/util.rs: the aliases of L1 addresses on L2.
use arbitrum_revm.Prelude.{ℕ, ◌+◌, ◌-◌, ◌%◌, ◌^◌, ◌<◌, ◌≡◌, arith}

-- ADDRESS_ALIAS_OFFSET_HEX, of constants.rs
abbrev pub alias_offset : ℕ
alias_offset = 0x1111000000000000000000000000000000001111

-- The sum is a U256 that wraps, and its last 20 bytes are the address.
pub remap_l1_address : ℕ → ℕ
remap_l1_address l1_address = (l1_address + alias_offset) % 2 ^ 256 % 2 ^ 160

pub inverse_remap_l1_address : ℕ → ℕ
inverse_remap_l1_address aliased = (aliased + (2 ^ 160 - alias_offset)) % 2 ^ 256 % 2 ^ 160

-- Aliasing is a bijection of the 160-bit addresses: each of the two functions undoes the other.
pub remap_inverse :
    (a : ℕ)
    → a < 2 ^ 160
    → (inverse_remap_l1_address (remap_l1_address a) ≡ a)
      × (remap_l1_address (inverse_remap_l1_address a) ≡ a)
unfolding remap_l1_address inverse_remap_l1_address
remap_inverse a lt = omega arith
