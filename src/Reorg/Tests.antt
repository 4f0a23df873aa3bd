-- ===== src/Reorg/Tests.antt =====
-- A chain of stored blocks, a node that left it, and the laws of the rollbacks at them.
use devnet_deftrack.Common.{
  ℕ, zero, suc, ◌≤◌, ◌≡◌, refl, String, true, false, Option, none, some, List, [], ◌∷◌, ltb, ok,
  All, arith,
}
use devnet_deftrack.Reorg.{reorg_verdict, rewind_step}
use devnet_deftrack.Reorg.Search.{ForkPointProbe, ForkPointSearch, agrees, find_fork_point, search}
use devnet_deftrack.Reorg.Bisection.{probes_of, find_fork_point_probes}
use devnet_deftrack.Reorg.Index.{
  Block, Round, RoundStatus, EventSource, Index, above, apply_write, apply_writes, after_writes,
  rewind_to, rewind_writes, quorum_reorg_reset, is_invalidated,
}
use devnet_deftrack.Reorg.Rollback.{
  Node, walk, rollback_if_reorged, inspect_rewind, confirm_rewind, compare_at, Confirmation,
  ForkPoint, confirmed,
}
use devnet_deftrack.Reorg.Walk.{RollbackOutcome, rollback_outcome}
use devnet_deftrack.Reorg.Survivors.{IsContiguous, rewind-IsContiguous, rewind_cut_off}
use devnet_deftrack.Reorg.Cut.{IsClean, rewind_to-IsClean}
use devnet_deftrack.Reorg.Operator.{IsOperatorFork, confirm_rewind_outcome}

rollback_code : Unit {0}
unfolding find_fork_point search rollback_if_reorged walk reorg_verdict rewind_step inspect_rewind
    confirm_rewind compare_at rewind_to apply_writes apply_write after_writes quorum_reorg_reset
    is_invalidated
rollback_code = tt

-- A probe of a chain whose first three heights agree.
abbrev three : ℕ → ℕ → ForkPointProbe
three call h = agrees (ltb h 3)

find_fork_point_probes_example :
    (r : ForkPointSearch) × (find_fork_point 100 three ≡ some r) × (probes_of r ≤ 7)
find_fork_point_probes_example = find_fork_point_probes 7 100 three (omega arith)

abbrev block : ℕ → String → Block
block h hash = record { height = h; hash = hash; nextblockhash = none }

abbrev missed : Round
missed = record {
  round_key = "2:2:0";
  llmq_type = 2;
  expected_height = 2;
  quorum_index = 0;
  status = RoundStatus.failed;
  is_formed = false;
  quorum_hash = none;
  mined_block_hash = none;
  mined_height = none;
  effective_size = some 4;
  num_valid_members = none;
  health_ratio = none;
  members = [];
  invalid_members = [];
  punished_count = 0;
  resolved_at = some 5;
  max_possible_ban = none;
  consecutive_failures = 1;
  first_seen_at = 2;
  detected_at = 5;
  details_complete = true;
}

abbrev stored : Index
stored = record {
  last_synced_height = some 2;
  last_synced_hash = "c";
  blocks = block 0 "a" ∷ block 1 "b" ∷ block 2 "c" ∷ [];
  transactions = 1 ∷ 2 ∷ [];
  epoch_boundaries = [];
  commitments = 2 ∷ [];
  rounds = missed ∷ [];
  events = record { source = EventSource.listdiff; height = 2 } ∷ [];
  diff_cursor = some 2;
  has_penalty_baseline = true;
  error = none;
  operator_rewind = none;
}

-- The node agrees up to height 1.
abbrev left_it : Node
left_it call zero = some "a"
left_it call (suc zero) = some "b"
left_it call (suc (suc h)) = some "x"

rollback_outcome_example :
    RollbackOutcome 2 left_it stored (some (some 1)) (rewind_to (some 1) (some "b") stored)
unfolding rollback_code
rollback_outcome_example =
    rollback_outcome 2 "c" 5 left_it stored (rewind_to (some 1) (some "b") stored) (some (some 1))
      refl

stored-IsContiguous : IsContiguous stored
stored-IsContiguous zero low = refl
stored-IsContiguous (suc zero) low = refl
stored-IsContiguous (suc (suc zero)) low = refl
stored-IsContiguous (suc (suc (suc h))) low = absurd (ground arith)

one_down : (h : ℕ) → above (some 1) h ≡ false → above (some 2) h ≡ false
one_down h low = ground arith

rewind-IsContiguous_example :
    All IsContiguous (after_writes (some 1) (rewind_writes (some "b")) stored)
rewind-IsContiguous_example =
    rewind-IsContiguous (some 1) (some "b") stored one_down stored-IsContiguous

rewind_cut_off_example :
    All
      (λ left. rollback_if_reorged 1 left.last_synced_hash 5 left_it left ≡ ok (none, left))
      (after_writes (some 1) (rewind_writes (some "b")) stored)
rewind_cut_off_example =
    rewind_cut_off 1 5 "b" left_it stored one_down stored-IsContiguous (omega arith) refl

rewind_to-IsClean_example : IsClean (some 1) (rewind_to (some 1) (some "b") stored)
rewind_to-IsClean_example = rewind_to-IsClean (some 1) (some "b") stored

-- The blocks below a height, the highest first.
abbrev chain : ℕ → List Block
chain zero = []
chain (suc h) = block h "a" ∷ chain h

abbrev long : Index
long = record stored { last_synced_height = some 202; last_synced_hash = "a"; blocks = chain 203 }

-- The node agrees on the genesis alone.
abbrev far_off : Node
far_off call zero = some "a"
far_off call (suc h) = some "x"

abbrev confirmation : Confirmation
confirmation = record { height = 0; hash = "a"; actor = "ann"; at_ms = 7 }

abbrev genesis_fork : ForkPoint
genesis_fork = record { height = 0; hash = "a"; depth = 202 }

confirm_rewind_outcome_example :
    (false ≡ false)
    × (genesis_fork.height ≡ confirmation.height)
    × (genesis_fork.hash ≡ confirmation.hash)
    × ((top : ℕ) × (some 202 ≡ some top) × IsOperatorFork far_off long top genesis_fork)
    × ((survivor : Option String) × (confirmed confirmation genesis_fork (some "a") long
          ≡ confirmed confirmation genesis_fork survivor long))
unfolding rollback_code
confirm_rewind_outcome_example =
    confirm_rewind_outcome false confirmation 300 far_off long
      (confirmed confirmation genesis_fork (some "a") long) genesis_fork refl
