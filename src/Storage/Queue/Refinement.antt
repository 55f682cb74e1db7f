-- ===== src/Storage/Queue/Refinement.antt =====
-- crates/arb-revm/src/storage/queue.rs: runs of the queue, and the list that models it.
use arbitrum_revm.Prelude.{
  ℕ, suc, ◌+◌, ◌<◌, ◌≡◌, refl, ap, ◌∙◌, Option, none, some, List, [], ◌∷◌, ◌++◌, arith, inl, inr,
}
use arbitrum_revm.Words.{u64_max}
use arbitrum_revm.Exec.{Journal, Host, Exec, ok, pure, ◌>>=◌, ◌>>◌}
use arbitrum_revm.Storage.{StorageSpace, IsApart, get}
use arbitrum_revm.Storage.Queue.{push, pop}
use arbitrum_revm.Storage.Queue.Fifo.{contents, IsValid, contents-push, contents-pop, put-push}

pub data Op : Type 0 where
  pushes : ℕ → Op
  pops : Op

-- The queue that a list is: what each operation returns, and the list in the end.
unfoldable pub model : List Op → List ℕ → List (Option ℕ) × List ℕ
model [] xs = ([], xs)
model (pushes v ∷ ops) xs = model ops (xs ++ v ∷ [])
model (pops ∷ ops) [] = (none ∷ (model ops []).0, (model ops []).1)
model (pops ∷ ops) (x ∷ xs) = (some x ∷ (model ops xs).0, (model ops xs).1)

abbrev pub pushes_of : List Op → ℕ
pushes_of [] = 0
pushes_of (pushes v ∷ ops) = suc (pushes_of ops)
pushes_of (pops ∷ ops) = pushes_of ops

module _ ⦃h : Host⦄ (s : StorageSpace) where
  pub run : List Op → Exec (List (Option ℕ))
  run [] = pure []
  run (pushes v ∷ ops) = do push s v; run ops
  run (pops ∷ ops) = do x ← pop s; rest ← run ops; pure (x ∷ rest)

  run_lem :
      IsApart s
      → (ops : List Op) (xs : List ℕ) (j : Journal) → IsValid s j
      → get s 0 j + pushes_of ops < u64_max
      → contents s j ≡ xs
      → ((run ops j).0 ≡ ok (model ops xs).0) × (contents s (run ops j).1 ≡ (model ops xs).1)
  unfolding run model
  run_lem apart [] xs j valid room e = (refl, e)
  run_lem apart (pushes v ∷ ops) xs j valid room e =
      let step = contents-push s apart v j valid (omega (arith, room)) in
      rw step.0 (
        run_lem apart ops (xs ++ v ∷ []) (push s v j).1 step.2
          (rw (put-push s apart v j valid) (omega arith)) (step.1 ∙ ap (λ l. l ++ v ∷ []) e))
  run_lem apart (pops ∷ ops) [] j valid room e = elim (contents-pop s apart j valid) [
    | inl (empty, stays) ↦
        let rest = run_lem apart ops [] j valid room e in rw stays (rw rest.0 (refl, rest.1))
    | inr (y, put, split, out, valid', clear) ↦ cc
  ]
  run_lem apart (pops ∷ ops) (x ∷ xs) j valid room e = elim (contents-pop s apart j valid) [
    | inl (empty, stays) ↦ cc
    | inr (y, put, split, out, valid', clear) ↦
        let rest = run_lem apart ops xs (pop s j).1 valid' (rw put room) (cc) in
        let head_lem : y ≡ x = cc in rw out (rw (rest.0, head_lem) (refl, rest.1))
  ]

  -- Where the slots of the queue's keys do not collide, and on a valid queue whose put cursor has
  -- room for the pushes, every run of operations returns what the list queue returns, and leaves
  -- the contents that it leaves.
  pub run-eq-model :
      IsApart s
      → (ops : List Op) (j : Journal) → IsValid s j
      → get s 0 j + pushes_of ops < u64_max
      → ((run ops j).0 ≡ ok (model ops (contents s j)).0)
        × (contents s (run ops j).1 ≡ (model ops (contents s j)).1)
  run-eq-model apart ops j valid room = run_lem apart ops (contents s j) j valid room refl
