-- ===== src/Reorg/Rollback.antt =====
-- `rollbackIfReorged`, `inspectRewind` and `confirmRewind` of server/src/services/sync.service.ts. The
-- node may answer differently at every call: its answers are numbered by the call.
use devnet_deftrack.Common.{
  ℕ, zero, suc, ◌+◌, ◌-◌, String, Bool, ◌&&◌, Option, none, some, ltb, leb, ◌==◌, ◌===◌,
  if◌then◌else◌, find, filter, Result, ok, err, ◌>>=◌, ◌>>◌, throw_if, length,
}
use devnet_deftrack.Reorg.{
  max_rollback_depth, WaitReason, proceed, rewind, wait, reorg_verdict, settle, step, halt,
  rewind_step,
}
use devnet_deftrack.Reorg.Search.{
  ForkPointProbe, agrees, undecidable, ForkPointSearch, found, no_common_history, unknown,
  find_fork_point,
}
use devnet_deftrack.Reorg.Index.{Index, rewind_to}

-- What `getblockhash` answers to a call, or `none` if it does not answer.
abbrev pub Node : Type 0
Node = (call height : ℕ) → Option String

-- `Block.findOne({ height }).select('hash')`
abbrev pub stored_hash : Index → ℕ → Option String
stored_hash index h = elim (find (λ block. block.height == h) index.blocks) [
  | none ↦ none
  | some block ↦ some block.hash
]

-- Why a rollback or a rewind is refused.
pub data Refusal : Type 0 where
  undecided : WaitReason → Refusal
  sync_running nothing_to_confirm other_fork_point : Refusal

-- The node is asked for a hash only if its tip is not below the indexed height.
abbrev pub hash_below_tip : Node → ℕ → ℕ → Option String
hash_below_tip node tip height = if ltb tip height then none else node 0 height

-- The walk of `rollbackIfReorged`, from a cursor down; `call` numbers the node's next answer. It yields
-- the height that the index is rewound to and what the node answers when it is asked there again.
unfoldable pub walk :
    (floor call cursor : ℕ) → Node → Index → Result Refusal (Option ℕ × Option String)
unfolding rewind_step
walk floor call zero node index =
    elim (rewind_step zero floor (stored_hash index zero) (node call zero)) [
      | settle ↦ ok (some zero, node (suc call) zero)
      | halt reason ↦ err (undecided reason)
      | step ↦ ok (none, none)
    ]
walk floor call (suc cursor) node index =
    elim (rewind_step (suc cursor) floor (stored_hash index (suc cursor))
      (node call (suc cursor))) [
        | settle ↦ ok (some (suc cursor), node (suc call) (suc cursor))
        | halt reason ↦ err (undecided reason)
        | step ↦ walk floor (suc call) cursor node index
      ]

-- `rollbackIfReorged`: the height that the index was rewound to, if it was, and the index.
unfoldable pub rollback_if_reorged :
    (height : ℕ)
    → (hash : String) → (tip : ℕ) → Node
    → Index
    → Result Refusal (Option (Option ℕ) × Index)
unfolding reorg_verdict walk rewind_to
rollback_if_reorged height hash tip node index =
    elim (reorg_verdict height hash tip (hash_below_tip node tip height)) [
      | proceed ↦ ok (none, index)
      | wait reason ↦ err (undecided reason)
      | rewind ↦
          (walk (height - max_rollback_depth) 1 height node index >>= λ (cursor, survivor).
          ok (some cursor, rewind_to cursor survivor index))
    ]

pub record ForkPoint : Type 0 where
  pub height : ℕ
  pub hash : String
  pub depth : ℕ

-- `RewindInspection`, by its verdict
pub data RewindInspection : Type 0 where
  in_sync : RewindInspection
  undecidable_now : RewindInspection
  different_chain : RewindInspection
  automatic : ForkPoint → RewindInspection
  operator : ForkPoint → (probes : ℕ) → RewindInspection

-- The probe of `inspectRewind`; its first call of the node is the one after the verdict's.
unfoldable pub compare_at : Node → Index → (call height : ℕ) → ForkPointProbe
compare_at node index call height = elim (node (suc call) height) [
  | none ↦ undecidable "the node did not answer"
  | some node_hash ↦ elim (stored_hash index height) [
    | none ↦ undecidable "nothing is stored at this height"
    | some hash ↦ agrees (hash === node_hash)
  ]
]

-- The fork point of `inspectRewind`; the node's answer there is the stored hash, since they agreed.
abbrev pub fork_point_at : Index → (indexed_height height : ℕ) → ForkPoint
fork_point_at index indexed_height height = record {
  height = height;
  hash = elim (stored_hash index height) [ none ↦ "" | some hash ↦ hash ];
  depth = indexed_height - height;
}

-- What stands behind the search in `inspectRewind`. The search always ends.
abbrev pub judge : Index → ℕ → Option ForkPointSearch → RewindInspection
judge index indexed_height none = undecidable_now
judge index indexed_height (some (unknown h reason probes)) = undecidable_now
judge index indexed_height (some (no_common_history probes)) = different_chain
judge index indexed_height (some (found height probes)) =
    if leb (indexed_height - height) max_rollback_depth
    then automatic (fork_point_at index indexed_height height)
    else operator (fork_point_at index indexed_height height) probes

-- `inspectRewind` once something is indexed
abbrev pub inspect_at : (height tip : ℕ) → Node → Index → RewindInspection
inspect_at height tip node index =
    elim (reorg_verdict height index.last_synced_hash tip (hash_below_tip node tip height)) [
      | proceed ↦ in_sync
      | wait reason ↦ undecidable_now
      | rewind ↦ judge index height (find_fork_point height (compare_at node index))
    ]

-- `inspectRewind`
unfoldable pub inspect_rewind : (tip : ℕ) → Node → Index → RewindInspection
unfolding reorg_verdict find_fork_point compare_at
inspect_rewind tip node index = elim index.last_synced_height [
  | none ↦ in_sync
  | some height ↦ inspect_at height tip node index
]

pub record Confirmation : Type 0 where
  pub height : ℕ
  pub hash : String
  pub actor : String
  pub at_ms : ℕ

-- The rewind that an operator confirmed, recorded in the sync state.
abbrev pub confirmed : Confirmation → ForkPoint → (survivor : Option String) → Index → Index
confirmed input fork survivor index = record (rewind_to (some fork.height) survivor index) {
  error = none;
  operator_rewind = some (record {
    height = fork.height;
    hash = fork.hash;
    depth = fork.depth;
    dropped_blocks = length (filter (λ block. ltb fork.height block.height) index.blocks);
    actor = input.actor;
    at_ms = input.at_ms;
  });
}

-- What `confirmRewind` does with its inspection
abbrev pub confirm_inspected :
    Confirmation → Node → Index → RewindInspection → Result Refusal (ForkPoint × Index)
confirm_inspected input node index (operator fork probes) =
    if fork.height == input.height && fork.hash === input.hash
    then ok (fork, confirmed input fork (node (probes + 1) fork.height) index)
    else err other_fork_point
confirm_inspected input node index in_sync = err nothing_to_confirm
confirm_inspected input node index undecidable_now = err nothing_to_confirm
confirm_inspected input node index different_chain = err nothing_to_confirm
confirm_inspected input node index (automatic fork) = err nothing_to_confirm

-- `confirmRewind`, on an inspection whose search took `probes` calls after the first
unfoldable pub confirm_rewind :
    (is_running : Bool)
    → Confirmation
    → (tip : ℕ) → Node
    → Index
    → Result Refusal (ForkPoint × Index)
unfolding inspect_rewind rewind_to
confirm_rewind is_running input tip node index =
    throw_if is_running sync_running
    >> confirm_inspected input node index (inspect_rewind tip node index)
