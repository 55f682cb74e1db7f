-- ===== src/Spec.antt =====
-- crates/arb-revm/src/spec.rs: the specification of an ArbOS version. An `ArbSpecId` is the number
-- of its version.
use arbitrum_revm.Prelude.{ℕ, ◌≤◌, ◌≡◌, ◌⊎◌, Bool, ltb, leb, ◌==◌, if◌then◌else◌, arith}

pub data SpecId : Type 0 where
  london shanghai cancun prague osaka : SpecId

unfoldable pub from_arbos_version : ℕ → ℕ
from_arbos_version version =
    if ltb version 2
    then 1
    else if leb version 11
    then version
    else if ltb version 20
    then 11
    else if ltb version 30
    then 20
    else if leb version 32
    then version
    else if ltb version 40
    then 32
    else if leb version 41
    then version
    else if ltb version 50
    then 41
    else if leb version 51
    then version
    else if ltb version 60
    then 51
    else if version == 60
    then 60
    else 61

unfoldable pub is_enabled_in : ℕ → ℕ → Bool
is_enabled_in spec other = leb other spec

unfoldable pub into_eth_spec : ℕ → SpecId
into_eth_spec v =
    if leb 50 v
    then SpecId.osaka
    else if leb 40 v
    then SpecId.prague
    else if leb 20 v
    then SpecId.cancun
    else if leb 11 v
    then SpecId.shanghai
    else SpecId.london

-- The numbers of the specifications.
unfoldable pub IsDefined : ℕ → Type 0
IsDefined w =
    ((1 ≤ w) × (w ≤ 11))
    ⊎ ((w ≡ 20)
        ⊎ (((30 ≤ w) × (w ≤ 32))
            ⊎ (((40 ≤ w) × (w ≤ 41)) ⊎ (((50 ≤ w) × (w ≤ 51)) ⊎ ((60 ≤ w) × (w ≤ 61))))))

-- A version clamps to a specification that is defined, and enables a defined one exactly where the
-- version is not below it; version 0 counts as 1. The rules of Ethereum are those of the version.
pub from_arbos_version_lem :
    (v w : ℕ)
    → IsDefined w
    → 1 ≤ v
    → IsDefined (from_arbos_version v)
      × (from_arbos_version v ≤ v)
      × (is_enabled_in (from_arbos_version v) w ≡ leb w v)
      × (into_eth_spec (from_arbos_version v) ≡ into_eth_spec v)
unfolding from_arbos_version is_enabled_in into_eth_spec IsDefined
from_arbos_version_lem v w defined some_version = ground arith
