-- ===== src/Reorg/Index.antt =====
-- `rewindTo` of server/src/services/sync.service.ts: the collections that a rewind cuts, in the order of
-- its writes. The process may die between two writes, so the rewind is a list of steps.
use devnet_deftrack.Common.{
  ℕ, String, Bool, true, false, not, ◌&&◌, ◌||◌, Option, none, some, List, [], ◌∷◌, map, ltb, ◌==◌,
  if◌then◌else◌, filter,
}

-- `h > cursor`, where the cursor may be -1.
abbrev pub above : Option ℕ → ℕ → Bool
above none h = true
above (some cursor) h = ltb cursor h

-- `{ field: { $gt: cursor } }` on a field that may be null.
abbrev pub field_above : Option ℕ → Option ℕ → Bool
field_above cursor none = false
field_above cursor (some h) = above cursor h

-- A stored block, as far as the sync reads it.
pub record Block : Type 0 where
  pub height : ℕ
  pub hash : String
  pub nextblockhash : Option String

pub data RoundStatus : Type 0 where
  pending formed failed impossible : RoundStatus

pub record RoundMember : Type 0 where
  pub pro_tx_hash : String
  pub service : Option String
  pub valid : Bool
  pub operator_label : Option String

-- A quorum round, less the snapshot of its profile. A ratio is its numerator and denominator.
pub record Round : Type 0 where
  pub round_key : String
  pub llmq_type : ℕ
  pub expected_height : ℕ
  pub quorum_index : ℕ
  pub status : RoundStatus
  pub is_formed : Bool
  pub quorum_hash : Option String
  pub mined_block_hash : Option String
  pub mined_height : Option ℕ
  pub effective_size : Option ℕ
  pub num_valid_members : Option ℕ
  pub health_ratio : Option (ℕ × ℕ)
  pub members : List RoundMember
  pub invalid_members : List String
  pub punished_count : ℕ
  pub resolved_at : Option ℕ
  pub max_possible_ban : Option ℕ
  pub consecutive_failures : ℕ
  pub first_seen_at : ℕ
  pub detected_at : ℕ
  pub details_complete : Bool

pub data EventSource : Type 0 where
  listdiff poll : EventSource

pub record MasternodeEvent : Type 0 where
  pub source : EventSource
  pub height : ℕ

-- `operatorRewind` of the sync state
pub record RewindRecord : Type 0 where
  pub height : ℕ
  pub hash : String
  pub depth : ℕ
  pub dropped_blocks : ℕ
  pub actor : String
  pub at_ms : ℕ

-- The collections, by what the sync reads and cuts them by.
pub record Index : Type 0 where
  pub last_synced_height : Option ℕ
  pub last_synced_hash : String
  pub blocks : List Block
  pub transactions : List ℕ
  pub epoch_boundaries : List ℕ
  pub commitments : List ℕ
  pub rounds : List Round
  pub events : List MasternodeEvent
  pub diff_cursor : Option ℕ
  pub has_penalty_baseline : Bool
  pub error : Option String
  pub operator_rewind : Option RewindRecord

-- The filter of `quorumReorgReset`
unfoldable pub is_invalidated : Option ℕ → Round → Bool
is_invalidated cursor round =
    above cursor round.expected_height || field_above cursor round.mined_height

-- The update of `quorumReorgReset`
abbrev pub forgotten : Round → Round
forgotten round = record round {
  status = RoundStatus.pending;
  is_formed = false;
  quorum_hash = none;
  mined_block_hash = none;
  mined_height = none;
  effective_size = none;
  num_valid_members = none;
  health_ratio = none;
  members = [];
  invalid_members = [];
  punished_count = 0;
  resolved_at = none;
}

-- `quorumReorgReset`, carried out on a round
unfoldable pub quorum_reorg_reset : Option ℕ → Round → Round
unfolding is_invalidated
quorum_reorg_reset cursor round = if is_invalidated cursor round then forgotten round else round

abbrev pub is_at : Option ℕ → ℕ → Bool
is_at none h = false
is_at (some cursor) h = h == cursor

abbrev pub is_chain_derived : EventSource → Bool
is_chain_derived EventSource.listdiff = true
is_chain_derived EventSource.poll = false

-- `{ source: 'listdiff', height: { $gt: cursor } }`
abbrev pub is_abandoned : Option ℕ → MasternodeEvent → Bool
is_abandoned cursor event = is_chain_derived event.source && above cursor event.height

-- A write of `rewindTo`.
pub data Write : Type 0 where
  move_cursor : (survivor : Option String) → Write
  drop_blocks drop_transactions drop_epochs drop_commitments reset_rounds unlink drop_events : Write
  move_diff_cursor forget_penalties : Write

-- What a write does to the index, for a rewind to `cursor`.
unfoldable pub apply_write : Option ℕ → Write → Index → Index
unfolding quorum_reorg_reset
apply_write cursor (move_cursor survivor) index = record index {
  last_synced_height = cursor;
  last_synced_hash = elim survivor [ none ↦ "" | some hash ↦ hash ];
}
apply_write cursor drop_blocks index = record index {
  blocks = filter (λ block. not (above cursor block.height)) index.blocks;
}
apply_write cursor drop_transactions index = record index {
  transactions = filter (λ h. not (above cursor h)) index.transactions;
}
apply_write cursor drop_epochs index = record index {
  epoch_boundaries = filter (λ h. not (above cursor h)) index.epoch_boundaries;
}
apply_write cursor drop_commitments index = record index {
  commitments = filter (λ h. not (above cursor h)) index.commitments;
}
apply_write cursor reset_rounds index = record index {
  rounds = map (quorum_reorg_reset cursor) index.rounds;
}
apply_write cursor unlink index = record index {
  blocks =
      map
        (λ block.
          if is_at cursor block.height then record block { nextblockhash = none } else block)
        index.blocks;
}
apply_write cursor drop_events index = record index {
  events = filter (λ event. not (is_abandoned cursor event)) index.events;
}
apply_write cursor move_diff_cursor index = record index {
  diff_cursor = if field_above cursor index.diff_cursor then cursor else index.diff_cursor;
}
apply_write cursor forget_penalties index = record index { has_penalty_baseline = false }

-- The writes of `rewindTo` behind the first, in order.
abbrev pub cuts : List Write
cuts =
    drop_blocks ∷ drop_transactions ∷ drop_epochs ∷ drop_commitments ∷ reset_rounds ∷ unlink
    ∷ drop_events ∷ move_diff_cursor ∷ forget_penalties ∷ []

-- The writes of `rewindTo`, in order.
abbrev pub rewind_writes : Option String → List Write
rewind_writes survivor = move_cursor survivor ∷ cuts

-- The index after each of a list of writes.
unfoldable pub after_writes : Option ℕ → List Write → Index → List Index
unfolding apply_write
after_writes cursor [] index = []
after_writes cursor (write ∷ writes) index =
    let next = apply_write cursor write index in next ∷ after_writes cursor writes next

-- The index after all of a list of writes.
unfoldable pub apply_writes : Option ℕ → List Write → Index → Index
unfolding apply_write
apply_writes cursor [] index = index
apply_writes cursor (write ∷ writes) index =
    apply_writes cursor writes (apply_write cursor write index)

-- `rewindTo`, for the node's answer at the height that survives
unfoldable pub rewind_to : Option ℕ → Option String → Index → Index
unfolding apply_writes
rewind_to cursor survivor index = apply_writes cursor (rewind_writes survivor) index
