-- ===== src/Storage/Queue/Drain.antt =====
-- crates/arb-revm/src/storage/queue.rs: every entry of the queue has its turn.
use arbitrum_revm.Prelude.{
  ℕ, suc, ◌+◌, ◌<◌, ◌≡◌, ◌⊎◌, refl, ap, sym, subst, ◌∙◌, Option, some, List, [], ◌∷◌, ◌++◌, arith,
  inl, inr, length,
}
use mathlib.Core.List.{append_assoc}
use arbitrum_revm.Words.{u64_max}
use arbitrum_revm.Exec.{Journal, Host, ok}
use arbitrum_revm.Storage.{StorageSpace, IsApart, get}
use arbitrum_revm.Storage.Queue.Fifo.{contents, IsValid}
use arbitrum_revm.Storage.Queue.Refinement.{Op, pushes, pops, model, pushes_of, run, run-eq-model}

abbrev pub pops_of : List Op → ℕ
pops_of [] = 0
pops_of (pushes v ∷ ops) = pops_of ops
pops_of (pops ∷ ops) = suc (pops_of ops)

-- The value is among the results.
abbrev pub Occurs : ℕ → List (Option ℕ) → Type 0
Occurs x [] = ⊥
Occurs x (out ∷ outs) = (out ≡ some x) ⊎ Occurs x outs

model-Occurs :
    (x : ℕ) (ops : List Op) (front back : List ℕ)
    → length front < pops_of ops
    → Occurs x (model ops (front ++ x ∷ back)).0
unfolding model
model-Occurs x [] front back lt = absurd (omega arith)
model-Occurs x (pushes v ∷ ops) front back lt =
    subst (λ l. Occurs x (model ops l).0) (sym (append_assoc front (x ∷ back) (v ∷ [])))
      (model-Occurs x ops front (back ++ v ∷ []) lt)
model-Occurs x (pops ∷ ops) [] back lt = inl refl
model-Occurs x (pops ∷ ops) (y ∷ front) back lt = inr (model-Occurs x ops front back (omega arith))

module _ ⦃h : Host⦄ (s : StorageSpace) where
  -- Where the slots of the queue's keys do not collide, and on a valid queue whose put cursor has
  -- room for the pushes: every run with more pops than there are entries before a value, whatever
  -- it pushes and in whatever order, returns without an error and pops that value.
  pub run-Occurs :
      IsApart s
      → (ops : List Op) (j : Journal) (front : List ℕ) (x : ℕ) (back : List ℕ) → IsValid s j
      → get s 0 j + pushes_of ops < u64_max
      → contents s j ≡ front ++ x ∷ back
      → length front < pops_of ops
      → (outs : List (Option ℕ)) × ((run s ops j).0 ≡ ok outs) × Occurs x outs
  run-Occurs apart ops j front x back valid room e lt = (
    (model ops (front ++ x ∷ back)).0,
    (run-eq-model s apart ops j valid room).0 ∙ ap (λ xs. ok (model ops xs).0) e,
    model-Occurs x ops front back lt,
  )
