-- ===== src/Exec/Reads.antt =====
-- Code of crates/arb-revm that only reads.
use arbitrum_revm.Prelude.{◌≡◌, ◌∙◌, Bool, true, false, Option, none, some, if◌then◌else◌}
use arbitrum_revm.Exec.{Journal, Exec, Result, ok, err, continue, ◌>>=◌}

abbrev pub OnlyReads : {A : Type 0} → Exec A → Type 0
OnlyReads m = (j : Journal) → (m j).1 ≡ j

continue-OnlyReads :
    {A B : Type 0} (r : Result A) (f : A → Exec B) (j k : Journal)
    → k ≡ j
    → ((a : A) → OnlyReads (f a))
    → (continue r f k).1 ≡ j
continue-OnlyReads (ok a) f j k e each = each a k ∙ e
continue-OnlyReads (err x) f j k e each = e

pub bind-OnlyReads :
    {A B : Type 0} (m : Exec A) (f : A → Exec B)
    → OnlyReads m
    → ((a : A) → OnlyReads (f a))
    → OnlyReads (m >>= f)
bind-OnlyReads m f first each j = continue-OnlyReads (m j).0 f j (m j).1 (first j) each

pub if-OnlyReads :
    {A : Type 0} (t : Bool) (m n : Exec A)
    → OnlyReads m
    → OnlyReads n
    → OnlyReads (if t then m else n)
if-OnlyReads true m n p q = p
if-OnlyReads false m n p q = q

pub option-OnlyReads :
    {A B : Type 0} (o : Option A) (m : Exec B) (f : A → Exec B)
    → OnlyReads m
    → ((a : A) → OnlyReads (f a))
    → OnlyReads (elim o as (λ x. Exec B) [ none ↦ m | some a ↦ f a ])
option-OnlyReads none m f p each = p
option-OnlyReads (some a) m f p each = each a
