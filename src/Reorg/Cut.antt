-- ===== src/Reorg/Cut.antt =====
-- `rewindTo` of server/src/services/sync.service.ts: what a finished rewind has cut.
use devnet_deftrack.Common.{
  ℕ, ◌≡◌, ◌⊎◌, inl, inr, refl, String, Bool, true, false, not, Option, none, some, List, [], ◌∷◌,
  map, if◌then◌else◌, filter, All, arith, Bool-cases,
}
use devnet_deftrack.Reorg.Index.{
  Block, Round, Index, above, field_above, is_at, is_invalidated, forgotten, quorum_reorg_reset,
  is_abandoned, apply_write, apply_writes, rewind_to,
}

-- Nothing above a height is left that was derived from a block, and the rounds that one decided or that
-- are due above it hold no observation.
pub record IsClean (c : Option ℕ) (index : Index) : Type 0 where
  pub cursor : index.last_synced_height ≡ c
  pub blocks : All (λ block. above c block.height ≡ false) index.blocks
  pub transactions : All (λ h. above c h ≡ false) index.transactions
  pub epochs : All (λ h. above c h ≡ false) index.epoch_boundaries
  pub commitments : All (λ h. above c h ≡ false) index.commitments
  pub rounds :
      All (λ round. (is_invalidated c round ≡ false) ⊎ (round ≡ forgotten round)) index.rounds
  pub events : All (λ event. is_abandoned c event ≡ false) index.events
  pub diff_cursor : field_above c index.diff_cursor ≡ false
  pub penalties : index.has_penalty_baseline ≡ false

All-kept {ℓ} :
    {A : Type ℓ} (drop : A → Bool) (xs : List A)
    → All (λ x. drop x ≡ false) (filter (λ x. not (drop x)) xs)
All-kept drop [] = tt
All-kept drop (x ∷ xs) = elim (Bool-cases (drop x)) [
  | inl dropped ↦ rw dropped (All-kept drop xs)
  | inr kept ↦ rw kept (kept, All-kept drop xs)
]

unlinked :
    (c : Option ℕ) (blocks : List Block)
    → All (λ block. above c block.height ≡ false) blocks
    → All
        (λ block. above c block.height ≡ false)
        (map
          (λ block. if is_at c block.height then record block { nextblockhash = none } else block)
          blocks)
unlinked c [] h = tt
unlinked c (block ∷ blocks) (h, hs) = elim (Bool-cases (is_at c block.height)) [
  | inl here ↦ rw here (h, unlinked c blocks hs)
  | inr there ↦ rw there (h, unlinked c blocks hs)
]

reset_rounds-All :
    (c : Option ℕ) (rounds : List Round)
    → All
        (λ round. (is_invalidated c round ≡ false) ⊎ (round ≡ forgotten round))
        (map (quorum_reorg_reset c) rounds)
unfolding quorum_reorg_reset
reset_rounds-All c [] = tt
reset_rounds-All c (round ∷ rounds) = elim (Bool-cases (is_invalidated c round)) [
  | inl stale ↦ rw (stale, quorum_reorg_reset) (inr refl, reset_rounds-All c rounds)
  | inr fresh ↦ rw (fresh, quorum_reorg_reset) (inl fresh, reset_rounds-All c rounds)
]

not_above_self : (c : Option ℕ) → field_above c c ≡ false
not_above_self none = refl
not_above_self (some h) = ground arith

-- A finished rewind leaves the index clean above the height that it went to, whatever was in it.
pub rewind_to-IsClean :
    (c : Option ℕ) (survivor : Option String) (index : Index)
    → IsClean c (rewind_to c survivor index)
unfolding rewind_to apply_writes apply_write
rewind_to-IsClean c survivor index = record {
  cursor = refl;
  blocks =
      unlinked c (filter (λ block. not (above c block.height)) index.blocks)
        (All-kept (λ block. above c block.height) index.blocks);
  transactions = All-kept (above c) index.transactions;
  epochs = All-kept (above c) index.epoch_boundaries;
  commitments = All-kept (above c) index.commitments;
  rounds = reset_rounds-All c index.rounds;
  events = All-kept (is_abandoned c) index.events;
  diff_cursor = moved (field_above c index.diff_cursor) refl;
  penalties = refl;
}
  where
    moved :
        (b : Bool)
        → field_above c index.diff_cursor ≡ b
        → field_above c (if field_above c index.diff_cursor then c else index.diff_cursor) ≡ false
    moved true e = rw e (not_above_self c)
    moved false e = rw (e, e) refl
