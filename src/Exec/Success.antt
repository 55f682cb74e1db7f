-- ===== src/Exec/Success.antt =====
-- Code of crates/arb-revm that returns without an error, whatever the state.
use arbitrum_revm.Prelude.{◌≡◌, refl, Bool, true, false, if◌then◌else◌}
use arbitrum_revm.Exec.{Journal, Exec, ok, ◌>>=◌, ◌>>◌}

abbrev pub Succeeds : Exec (Unit {0}) → Type 0
Succeeds m = (j : Journal) → (m j).0 ≡ ok tt

pub then-Succeeds : (m n : Exec (Unit {0})) → Succeeds m → Succeeds n → Succeeds (m >> n)
then-Succeeds m n p q j = rw (p j) (q (m j).1)

pub if-Succeeds :
    (t : Bool) (m n : Exec (Unit {0}))
    → Succeeds m
    → (t ≡ false → Succeeds n)
    → Succeeds (if t then m else n)
if-Succeeds true m n p q = p
if-Succeeds false m n p q = q refl

pub bind-Succeeds :
    {A : Type 0} (m : Exec A) (f : A → Exec (Unit {0}))
    → ((j : Journal) → (a : A) × ((m j).0 ≡ ok a))
    → ((a : A) → Succeeds (f a))
    → Succeeds (m >>= f)
bind-Succeeds m f p q j = rw (p j).1 (q (p j).0 (m j).1)
