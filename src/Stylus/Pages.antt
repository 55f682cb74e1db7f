-- ===== src/Stylus/Pages.antt =====
-- crates/arb-revm/src/stylus/gas.rs: the order of the page table and of the cost of pages.
use arbitrum_revm.Prelude.{
  ℕ, zero, suc, ◌-◌, max, ◌≤◌, ◌≡◌, refl, Bool, true, ◌&&◌, if◌then◌else◌, List, [], ◌∷◌, arith,
  leb,
}
use native.Mathlib.Nat.{le_refl}
use arbitrum_revm.Words.{u64_max, sat_add, add64, mul64, sat_mul_mono}
use arbitrum_revm.Stylus.{memory_exponents, exp_in, exp, stylus_call_cost, u16_max}

rises : ℕ → List ℕ → Bool
rises low [] = leb low u64_max
rises low (e ∷ es) = leb low e && rises e es

rises-le : (low : ℕ) (es : List ℕ) (x : ℕ) → rises low es ≡ true → low ≤ exp_in es x
unfolding rises exp_in
rises-le low [] x h = ground arith
rises-le low (e ∷ es) zero h = ground arith
rises-le low (e ∷ es) (suc x) h = ground (arith, rises-le e es x)

rises_mono :
    (low : ℕ) (es : List ℕ) (x y : ℕ) → rises low es ≡ true → x ≤ y → exp_in es x ≤ exp_in es y
unfolding rises exp_in
rises_mono low [] x y h le = omega arith
rises_mono low (e ∷ es) zero zero h le = omega arith
rises_mono low (e ∷ es) zero (suc y) h le = ground (arith, rises-le e es y)
rises_mono low (e ∷ es) (suc x) zero h le = absurd (omega arith)
rises_mono low (e ∷ es) (suc x) (suc y) h le = ground (arith, rises_mono e es x y)

memory_exponents_rise : rises 0 memory_exponents ≡ true
unfolding rises memory_exponents
memory_exponents_rise = refl

pub exp_mono : (x y : ℕ) → x ≤ y → exp x ≤ exp y
unfolding exp
exp_mono x y le = rises_mono 0 memory_exponents x y memory_exponents_rise le

cost_mono : (a b c d p q : ℕ) → a ≤ b → c ≤ d → p ≤ q → add64 (mul64 a p) c ≤ add64 (mul64 b q) d
unfolding sat_add
cost_mono a b c d p q le le' le'' = ground (arith, sat_mul_mono u64_max a b p q le le'')

opened_mono : (o n m : ℕ) → n ≤ m → sat_add u16_max o n ≤ sat_add u16_max o m
unfolding sat_add
opened_mono o n m le = ground arith

pages_mono :
    (a b : ℕ) (open_pages ever free_pages page_gas : ℕ)
    → a ≤ b
    → (if leb (max ever a) free_pages
        then 0
        else add64
            (mul64 (a - free_pages - (open_pages - free_pages)) page_gas)
            (exp (max ever a) - exp ever))
      ≤ (if leb (max ever b) free_pages
          then 0
          else add64
              (mul64 (b - free_pages - (open_pages - free_pages)) page_gas)
              (exp (max ever b) - exp ever))
pages_mono a b open_pages ever free_pages page_gas le = ground (
  arith,
  cost_mono (a - free_pages - (open_pages - free_pages))
      (b - free_pages - (open_pages - free_pages)) (exp (max ever a) - exp ever)
      (exp (max ever b) - exp ever) page_gas page_gas (omega (arith, le))
      (omega (arith, exp_mono (max ever a) (max ever b) (omega (arith, le)))) (le_refl page_gas),
)

-- A call that opens more pages does not cost less.
pub stylus_call_cost_mono :
    (new more open_pages ever free_pages page_gas : ℕ)
    → new ≤ more
    → stylus_call_cost new open_pages ever free_pages page_gas
      ≤ stylus_call_cost more open_pages ever free_pages page_gas
unfolding stylus_call_cost
stylus_call_cost_mono new more open_pages ever free_pages page_gas le =
    pages_mono (sat_add u16_max open_pages new) (sat_add u16_max open_pages more) open_pages ever
      free_pages page_gas (opened_mono open_pages new more le)
