-- ===== src/Post.antt =====
-- What holds after a run of the error monad of crates/arb-revm, where the run returns.
use arbitrum_revm.Prelude.{◌≡◌, refl, Bool, true, false, if◌then◌else◌}
use arbitrum_revm.Exec.{Journal, Exec, Result, ok, err, continue, ◌>>=◌}

-- A run that returns ends in a state where the predicate holds of the result.
unfoldable pub Post : {A : Type 0} → (A → Journal → Type 0) → Result A × Journal → Type 0
Post P r = elim r.0 [ ok a ↦ P a r.1 | err e ↦ Unit {0} ]

continue-Post :
    {A B : Type 0} (P : B → Journal → Type 0) (f : A → Exec B) (r : Result A) (k : Journal)
    → ((a : A) (l : Journal) → Post P (f a l))
    → Post P (continue r f k)
unfolding Post
continue-Post P f (ok a) k each = each a k
continue-Post P f (err e) k each = tt

pub bind-Post :
    {A B : Type 0} (P : B → Journal → Type 0) (m : Exec A) (f : A → Exec B) (j : Journal)
    → ((a : A) (l : Journal) → Post P (f a l))
    → Post P ((m >>= f) j)
bind-Post P m f j each = continue-Post P f (m j).0 (m j).1 each

pub if-Post :
    {B : Type 0} (P : B → Journal → Type 0) (t : Bool) (x y : Exec B) (j : Journal)
    → (t ≡ true → Post P (x j))
    → (t ≡ false → Post P (y j))
    → Post P ((if t then x else y) j)
if-Post P true x y j p q = p refl
if-Post P false x y j p q = q refl
