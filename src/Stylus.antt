-- ===== src/Stylus.antt =====
-- crates/arb-revm/src/stylus/gas.rs and constants.rs: the gas of a Stylus call's memory pages, and
-- of the initialisation of a program.
pub mod Pages
use arbitrum_revm.Prelude.{
  ℕ, zero, suc, ◌+◌, ◌-◌, ◌*◌, ◌/◌, ◌^◌, List, [], ◌∷◌, Option, none, some, max, ltb, leb,
  if◌then◌else◌, length,
}
use arbitrum_revm.Words.{sat_add, add64, mul64, u64_max}

-- MEMORY_EXPONENTS
pub memory_exponents : List ℕ
memory_exponents =
    1 ∷ 1 ∷ 1 ∷ 1 ∷ 1 ∷ 1 ∷ 2 ∷ 2 ∷ 2 ∷ 3 ∷ 3 ∷ 4 ∷ 5 ∷ 5 ∷ 6 ∷ 7 ∷ 8 ∷ 9 ∷ 11 ∷ 12 ∷ 14 ∷ 17 ∷ 19
    ∷ 22 ∷ 25 ∷ 29 ∷ 33 ∷ 38 ∷ 43 ∷ 50 ∷ 57 ∷ 65 ∷ 75 ∷ 85 ∷ 98 ∷ 112 ∷ 128 ∷ 147 ∷ 168 ∷ 193 ∷ 221
    ∷ 253 ∷ 289 ∷ 331 ∷ 379 ∷ 434 ∷ 497 ∷ 569 ∷ 651 ∷ 745 ∷ 853 ∷ 976 ∷ 1117 ∷ 1279 ∷ 1463 ∷ 1675
    ∷ 1917 ∷ 2194 ∷ 2511 ∷ 2874 ∷ 3290 ∷ 3765 ∷ 4309 ∷ 4932 ∷ 5645 ∷ 6461 ∷ 7395 ∷ 8464 ∷ 9687
    ∷ 11087 ∷ 12689 ∷ 14523 ∷ 16621 ∷ 19024 ∷ 21773 ∷ 24919 ∷ 28521 ∷ 32642 ∷ 37359 ∷ 42758 ∷ 48938
    ∷ 56010 ∷ 64104 ∷ 73368 ∷ 83971 ∷ 96106 ∷ 109994 ∷ 125890 ∷ 144082 ∷ 164904 ∷ 188735 ∷ 216010
    ∷ 247226 ∷ 282953 ∷ 323844 ∷ 370643 ∷ 424206 ∷ 485509 ∷ 555672 ∷ 635973 ∷ 727880 ∷ 833067
    ∷ 953456 ∷ 1091243 ∷ 1248941 ∷ 1429429 ∷ 1636000 ∷ 1872423 ∷ 2143012 ∷ 2452704 ∷ 2807151
    ∷ 3212820 ∷ 3677113 ∷ 4208502 ∷ 4816684 ∷ 5512756 ∷ 6309419 ∷ 7221210 ∷ 8264766 ∷ 9459129
    ∷ 10826093 ∷ 12390601 ∷ 14181199 ∷ 16230562 ∷ 18576084 ∷ 21260563 ∷ 24332984 ∷ 27849408
    ∷ 31873999 ∷ []

-- `table[x]`, and u64::MAX from the table's end on
pub exp_in : List ℕ → ℕ → ℕ
exp_in [] x = u64_max
exp_in (e ∷ es) zero = e
exp_in (e ∷ es) (suc x) = exp_in es x

pub exp : ℕ → ℕ
unfolding memory_exponents exp_in
exp x = exp_in memory_exponents x

abbrev pub u16_max : ℕ
u16_max = 0xffff

pub stylus_call_cost : ℕ → ℕ → ℕ → ℕ → ℕ → ℕ
stylus_call_cost new_pages open_pages ever free_pages page_gas =
    let new_open = sat_add u16_max open_pages new_pages in
    let new_ever = max ever new_open in
    let adding = (new_open - free_pages) - (open_pages - free_pages) in
    if leb new_ever free_pages then 0 else add64 (mul64 adding page_gas) (exp new_ever - exp ever)

-- u64::div_ceil(100)
abbrev pub div_ceil_100 : ℕ → ℕ
div_ceil_100 x = (x + 99) / 100

pub init_gas_cost : ℕ → ℕ → ℕ → ℕ
init_gas_cost init_cost min_init_gas init_cost_scaler =
    add64 (min_init_gas * 128) (div_ceil_100 (mul64 init_cost (init_cost_scaler * 2)))

pub cached_gas_cost : ℕ → ℕ → ℕ → ℕ
cached_gas_cost cached_init_cost min_cached_init_gas cached_init_cost_scaler =
    add64 (min_cached_init_gas * 32)
      (div_ceil_100 (mul64 cached_init_cost (cached_init_cost_scaler * 2)))
