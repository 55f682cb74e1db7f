-- ===== src/Examples/Metering.antt =====
-- The metered journal on the demo host.
use arbitrum_revm.Prelude.{List, [], ◌∷◌}
use arbitrum_revm.Meter.{MeteredJournal}
use arbitrum_revm.Meter.Refinement.{Op, read_op, write_op, keccak_op}
use arbitrum_revm.Demo.{demo, blank}

abbrev fresh : MeteredJournal
fresh = record { inner = blank; burned = 0 }

abbrev ops : List Op
ops = write_op 1 2 3 ∷ read_op 1 2 ∷ keccak_op (1 ∷ []) ∷ []
