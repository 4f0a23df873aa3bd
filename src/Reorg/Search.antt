-- ===== src/Reorg/Search.antt =====
-- `findForkPoint` of server/src/domain/reorg.ts. `low` is `agrees + 1` and `high` is `disagrees`, so
-- that -1 is written 0; a probe may answer differently at every call.
use devnet_deftrack.Common.{
  ℕ, zero, suc, ◌+◌, ◌-◌, ◌/◌, String, Bool, true, false, Option, none, some, ltb, if◌then◌else◌,
}

-- `ForkPointProbe`
pub data ForkPointProbe : Type 0 where
  agrees : Bool → ForkPointProbe
  undecidable : (reason : String) → ForkPointProbe

-- `ForkPointSearch`
pub data ForkPointSearch : Type 0 where
  found : (height probes : ℕ) → ForkPointSearch
  no_common_history : (probes : ℕ) → ForkPointSearch
  unknown : (height : ℕ) → (reason : String) → (probes : ℕ) → ForkPointSearch

-- `Math.floor((agrees + disagrees) / 2)`
abbrev pub middle : ℕ → ℕ → ℕ
middle low high = (low + high - 1) / 2

-- What stands behind the loop.
abbrev pub conclude : ℕ → ℕ → ForkPointSearch
conclude zero probes = no_common_history probes
conclude (suc height) probes = found height probes

-- The loop, for at most `fuel` probes.
unfoldable pub search :
    (fuel low high probes : ℕ) → (ℕ → ℕ → ForkPointProbe) → Option ForkPointSearch
search zero low high probes probe = if ltb low high then none else some (conclude low probes)
search (suc fuel) low high probes probe = elim (ltb low high) [
  | false ↦ some (conclude low probes)
  | true ↦ elim (probe probes (middle low high)) [
    | undecidable reason ↦ some (unknown (middle low high) reason (probes + 1))
    | agrees is_same ↦
        search fuel (if is_same then suc (middle low high) else low)
          (if is_same then high else middle low high) (probes + 1) probe
  ]
]

-- `findForkPoint`: a probe for every height is enough fuel, by `find_fork_point_probes`.
unfoldable pub find_fork_point : ℕ → (ℕ → ℕ → ForkPointProbe) → Option ForkPointSearch
unfolding search
find_fork_point indexed_height probe = search indexed_height 0 indexed_height 0 probe
