-- ===== src/Reorg/Survivors.antt =====
-- `rewindTo` of server/src/services/sync.service.ts: what a rewind leaves, and what a rewind that the
-- process did not live to finish leaves.
use devnet_deftrack.Common.{
  ℕ, ◌≤◌, ◌≡◌, ◌≢◌, inl, inr, refl, String, Bool, true, false, not, Option, none, some, List, [],
  ◌∷◌, map, ltb, ◌==◌, if◌then◌else◌, filter, any, All, All-implies, ok, arith, Bool-cases, subst,
  sym, ◌∙◌, eq_refl,
}
use devnet_deftrack.Reorg.{reorg_verdict, proceed}
use devnet_deftrack.Reorg.Index.{
  cuts, Block, Index, Write, move_cursor, drop_blocks, drop_transactions, drop_epochs,
  drop_commitments, reset_rounds, unlink, drop_events, move_diff_cursor, forget_penalties, above,
  is_at, apply_write, rewind_writes, after_writes,
}
use devnet_deftrack.Reorg.Rollback.{Node, rollback_if_reorged, hash_below_tip}

-- A block is stored at a height.
abbrev pub is_stored_at : ℕ → List Block → Bool
is_stored_at h blocks = any (λ block. block.height == h) blocks

-- Every height up to the sync cursor is stored.
abbrev pub IsContiguous : Index → Type 0
IsContiguous index =
    (h : ℕ) → above index.last_synced_height h ≡ false → is_stored_at h index.blocks ≡ true

is_stored_at-filter :
    (c : Option ℕ) (h : ℕ) (blocks : List Block)
    → above c h ≡ false
    → is_stored_at h blocks ≡ true
    → is_stored_at h (filter (λ block. not (above c block.height)) blocks) ≡ true
is_stored_at-filter c h [] k s = s
is_stored_at-filter c h (block ∷ blocks) k s = elim (Bool-cases (block.height == h)) [
  | inl here ↦
      let same : block.height ≡ h = ground arith in
      let kept : above c block.height ≡ false = subst (λ x. above c x ≡ false) (sym same) k in
      rw kept (rw here refl)
  | inr there ↦ let rest = is_stored_at-filter c h blocks k (rw there at s) in ground arith
]

is_stored_at-unlink :
    (c : Option ℕ) (h : ℕ) (blocks : List Block)
    → is_stored_at h (
        map
          (λ block. if is_at c block.height then record block { nextblockhash = none } else block)
          blocks)
      ≡ is_stored_at h blocks
is_stored_at-unlink c h [] = refl
is_stored_at-unlink c h (block ∷ blocks) = let rest = is_stored_at-unlink c h blocks in ground arith

-- The cursor is at its height, and every height up to it is stored.
record IsCut (c : Option ℕ) (hash : String) (index : Index) : Type 0 where
  cursor : index.last_synced_height ≡ c
  last_hash : index.last_synced_hash ≡ hash
  stored : (h : ℕ) → above c h ≡ false → is_stored_at h index.blocks ≡ true

IsLater : Write → Type 0
IsLater write = (survivor : Option String) → write ≢ move_cursor survivor

apply_write-IsCut :
    (c : Option ℕ) (hash : String) (write : Write) (index : Index)
    → IsLater write
    → IsCut c hash index
    → IsCut c hash (apply_write c write index)
unfolding apply_write IsLater
apply_write-IsCut c hash (move_cursor survivor) index other k = absurd (other survivor refl)
apply_write-IsCut c hash drop_blocks index other k = record {
  cursor = k.cursor;
  last_hash = k.last_hash;
  stored = λ h low. is_stored_at-filter c h index.blocks low (k.stored h low);
}
apply_write-IsCut c hash unlink index other k = record {
  cursor = k.cursor;
  last_hash = k.last_hash;
  stored = λ h low. is_stored_at-unlink c h index.blocks ∙ k.stored h low;
}
apply_write-IsCut c hash move_diff_cursor index other k = record {
  cursor = k.cursor;
  last_hash = k.last_hash;
  stored = k.stored;
}
apply_write-IsCut c hash drop_transactions index other k = record {
  cursor = k.cursor;
  last_hash = k.last_hash;
  stored = k.stored;
}
apply_write-IsCut c hash drop_epochs index other k = record {
  cursor = k.cursor;
  last_hash = k.last_hash;
  stored = k.stored;
}
apply_write-IsCut c hash drop_commitments index other k = record {
  cursor = k.cursor;
  last_hash = k.last_hash;
  stored = k.stored;
}
apply_write-IsCut c hash reset_rounds index other k = record {
  cursor = k.cursor;
  last_hash = k.last_hash;
  stored = k.stored;
}
apply_write-IsCut c hash drop_events index other k = record {
  cursor = k.cursor;
  last_hash = k.last_hash;
  stored = k.stored;
}
apply_write-IsCut c hash forget_penalties index other k = record {
  cursor = k.cursor;
  last_hash = k.last_hash;
  stored = k.stored;
}

after_writes-IsCut :
    (c : Option ℕ) (hash : String) (writes : List Write) (index : Index)
    → All IsLater writes
    → IsCut c hash index
    → All (IsCut c hash) (after_writes c writes index)
unfolding after_writes
after_writes-IsCut c hash [] index later k = tt
after_writes-IsCut c hash (write ∷ writes) index (later, more) k =
    let next = apply_write-IsCut c hash write index later k in
    (next, after_writes-IsCut c hash writes (apply_write c write index) more next)

cuts-IsLater : All IsLater cuts
unfolding IsLater
cuts-IsLater = (
  (λ s e. cc),
  (
    (λ s e. cc),
    (
      (λ s e. cc),
      ((λ s e. cc), ((λ s e. cc), ((λ s e. cc), ((λ s e. cc), ((λ s e. cc), ((λ s e. cc), tt)))))),
    ),
  ),
)

-- The hash that a rewind records.
abbrev recorded_hash : Option String → String
recorded_hash survivor = elim survivor [ none ↦ "" | some hash ↦ hash ]

-- A rewind to a height that is not above the sync cursor.
abbrev pub IsRewind : Option ℕ → Index → Type 0
IsRewind c index = (h : ℕ) → above c h ≡ false → above index.last_synced_height h ≡ false

rewind-IsCut :
    (c : Option ℕ) (survivor : Option String) (index : Index)
    → IsRewind c index
    → IsContiguous index
    → All (IsCut c (recorded_hash survivor)) (after_writes c (rewind_writes survivor) index)
unfolding after_writes apply_write
rewind-IsCut c survivor index down full =
    let start : IsCut c (recorded_hash survivor) (apply_write c (move_cursor survivor) index) =
      record { cursor = refl; last_hash = refl; stored = λ h low. full h (down h low) } in
    (
      start,
      after_writes-IsCut c (recorded_hash survivor) cuts
          (apply_write c (move_cursor survivor) index) cuts-IsLater start,
    )

-- If every height up to the sync cursor is stored and the process dies after any write of a rewind to a
-- height that is not above it, then still every height up to the sync cursor is stored.
pub rewind-IsContiguous :
    (c : Option ℕ) (survivor : Option String) (index : Index)
    → IsRewind c index
    → IsContiguous index
    → All IsContiguous (after_writes c (rewind_writes survivor) index)
rewind-IsContiguous c survivor index down full =
    All-implies (IsCut c (recorded_hash survivor)) IsContiguous
      (λ i k h low. k.stored h (subst (λ x. above x h ≡ false) k.cursor low))
      (after_writes c (rewind_writes survivor) index) (rewind-IsCut c survivor index down full)

same_hash_verdict :
    (c tip : ℕ) (hash : String) → ltb tip c ≡ false → reorg_verdict c hash tip (some hash) ≡ proceed
unfolding reorg_verdict
same_hash_verdict c tip hash below =
    let same = eq_refl hash in rw (below, reorg_verdict) (rw same refl)

-- A rewind that was cut off after any of its writes is not taken up again: if the node still gives the
-- hash of the height that survived, the next rollback leaves the index as the crash left it.
pub rewind_cut_off :
    (c tip : ℕ) (hash : String) (node : Node) (index : Index)
    → IsRewind (some c) index
    → IsContiguous index
    → c ≤ tip
    → node 0 c ≡ some hash
    → All
        (λ left. rollback_if_reorged c left.last_synced_hash tip node left ≡ ok (none, left))
        (after_writes (some c) (rewind_writes (some hash)) index)
unfolding rollback_if_reorged reorg_verdict
rewind_cut_off c tip hash node index down full le answer =
    All-implies (IsCut (some c) hash) _ taken_up
      (after_writes (some c) (rewind_writes (some hash)) index)
      (rewind-IsCut (some c) (some hash) index down full)
  where
    taken_up :
        (left : Index)
        → IsCut (some c) hash left
        → rollback_if_reorged c left.last_synced_hash tip node left ≡ ok (none, left)
    taken_up left k =
        let below : ltb tip c ≡ false = ground arith in
        let given : hash_below_tip node tip c ≡ some hash = rw below answer in
        let agrees : reorg_verdict c left.last_synced_hash tip (hash_below_tip node tip c)
            ≡ proceed =
          subst (λ a. reorg_verdict c left.last_synced_hash tip a ≡ proceed) (sym given)
            (subst (λ s. reorg_verdict c s tip (some hash) ≡ proceed) (sym k.last_hash)
              (same_hash_verdict c tip hash below)) in
        rw (agrees, rollback_if_reorged) refl
