-- ===== src/Examples/Queues.antt =====
-- The queue of timeouts at the demo host.
use arbitrum_revm.Prelude.{ℕ, ◌≡◌, refl, Option, List, [], ◌∷◌, arith}
use arbitrum_revm.Exec.{Journal, ok}
use arbitrum_revm.Storage.{StorageSpace, get, set}
use arbitrum_revm.Storage.Queue.Fifo.{IsValid, contents, entries}
use arbitrum_revm.Storage.Queue.Refinement.{run, run-eq-model, model, pushes, pops}
use arbitrum_revm.Storage.Queue.Drain.{Occurs, run-Occurs}
use arbitrum_revm.Demo.{demo, demo-IsApart, blank, look}

abbrev space : StorageSpace
space = record { key = 7 ∷ []; account = 1 }

-- One entry, 42.
abbrev queued : Journal
queued = set space 2 42 (set space 0 3 (set space 1 2 blank))

put_cursor : get space 0 queued ≡ 3
unfolding look
put_cursor = refl

get_cursor : get space 1 queued ≡ 2
unfolding look
get_cursor = refl

queued-IsValid : IsValid space queued
queued-IsValid = record {
  above = omega (arith, get_cursor);
  ordered = omega (arith, get_cursor, put_cursor);
  bounded = omega (arith, put_cursor);
}

run-eq-model_example :
    ((run space (pops ∷ pushes 5 ∷ pops ∷ pops ∷ []) queued).0
      ≡ ok (model (pops ∷ pushes 5 ∷ pops ∷ pops ∷ []) (contents space queued)).0)
    × (contents space (run space (pops ∷ pushes 5 ∷ pops ∷ pops ∷ []) queued).1
        ≡ (model (pops ∷ pushes 5 ∷ pops ∷ pops ∷ []) (contents space queued)).1)
run-eq-model_example =
    run-eq-model space (demo-IsApart space) (pops ∷ pushes 5 ∷ pops ∷ pops ∷ []) queued
      queued-IsValid (omega (arith, put_cursor))

one_entry : contents space queued ≡ 42 ∷ []
unfolding look entries
one_entry = refl

run-Occurs_example :
    (outs : List (Option ℕ)) × ((run space (pushes 5 ∷ pops ∷ []) queued).0 ≡ ok outs)
    × Occurs 42 outs
run-Occurs_example =
    run-Occurs space (demo-IsApart space) (pushes 5 ∷ pops ∷ []) queued [] 42 [] queued-IsValid
      (omega (arith, put_cursor)) one_entry (omega arith)
