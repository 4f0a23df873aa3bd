-- ===== src/Reorg.antt =====
-- server/src/domain/reorg.ts: what the sync may conclude when the node and the index disagree. A height
-- that may be -1 is an `Option ℕ`: `none` is below genesis. The children model the bisection, the
-- rewind of the database and the rollbacks of server/src/services/sync.service.ts.
pub mod Search
pub mod Bisection
pub mod Index
pub mod Rollback
pub mod Walk
pub mod Survivors
pub mod Cut
pub mod Operator
mod Tests
use devnet_deftrack.Common.{
  ℕ, ◌-◌, String, Bool, true, false, not, ◌&&◌, ◌||◌, Option, none, some, ltb, ◌==◌, ◌===◌,
  if◌then◌else◌,
}

-- `MAX_ROLLBACK_DEPTH`
abbrev pub max_rollback_depth : ℕ
max_rollback_depth = 200

-- Why the sync waits; the texts of the reasons are left out.
pub data WaitReason : Type 0 where
  tip_below_index no_hash_at_index no_hash_while_rewinding too_deep : WaitReason

-- `ReorgVerdict`
pub data ReorgVerdict : Type 0 where
  proceed : ReorgVerdict
  rewind : ReorgVerdict
  wait : WaitReason → ReorgVerdict

-- `reorgVerdict`
unfoldable pub reorg_verdict :
    (indexed_height : ℕ) → (indexed_hash : String) → (node_tip : ℕ) → Option String → ReorgVerdict
reorg_verdict indexed_height indexed_hash node_tip none =
    if ltb node_tip indexed_height then wait tip_below_index else wait no_hash_at_index
reorg_verdict indexed_height indexed_hash node_tip (some node_hash) =
    if ltb node_tip indexed_height
    then wait tip_below_index
    else if node_hash === indexed_hash
    then proceed
    else rewind

-- `RewindStep`; `too_deep` is the wait that `needsOperator`.
pub data RewindStep : Type 0 where
  settle : RewindStep
  step : RewindStep
  halt : WaitReason → RewindStep

-- `storedHash !== null && storedHash === nodeHash`
abbrev pub is_stored : Option String → String → Bool
is_stored none node_hash = false
is_stored (some stored_hash) node_hash = stored_hash === node_hash

-- `rewindStep`; `cursor - 1 < floor` is `cursor <= floor`
unfoldable pub rewind_step :
    (cursor floor : ℕ) → (stored_hash node_hash : Option String) → RewindStep
rewind_step cursor floor stored_hash none = halt no_hash_while_rewinding
rewind_step cursor floor stored_hash (some node_hash) =
    if is_stored stored_hash node_hash
    then settle
    else if not (ltb floor cursor)
    then halt too_deep
    else step
