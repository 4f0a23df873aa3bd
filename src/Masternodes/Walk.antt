-- ===== src/Masternodes/Walk.antt =====
-- server/src/services/mnListDiff.service.ts: the walk over the heights of a batch, which a rewind of the block
-- sync may reset wherever the walk waits for an answer.
use devnet_deftrack.Common.{
  ℕ, suc, ◌+◌, Bool, true, false, not, ◌&&◌, ◌==◌, none, List, [], ◌∷◌, if◌then◌else◌,
}
use devnet_deftrack.Masternodes.{
  ListDiffResult, MnChange, Penalties, classify_list_diff, penalties_after,
}

-- The state of `MnListDiffService` that a walk reads
pub record MnListDiffService : Type 0 where
  pub penalties : Penalties
  pub seeded : Bool
  pub generation : ℕ

-- `reset`
unfoldable pub reset : MnListDiffService → MnListDiffService
reset s = record { penalties = λ hash. none; seeded = false; generation = suc s.generation }

-- What an `await` meets: the sync resets the service before the answer comes, or not.
abbrev pub await : (is_reset : Bool) → MnListDiffService → MnListDiffService
unfolding reset
await is_reset s = if is_reset then reset s else s

-- Which of the two waits of a height meet a reset
pub record HeightScript : Type 0 where
  pub during_diff : Bool
  pub during_write : Bool

-- One `bulkWrite` of a height's changes, which is not sent where there are none
pub record Batch : Type 0 where
  pub height : ℕ
  pub changes : List MnChange

pub record WalkEnd : Type 0 where
  pub cursor : ℕ
  pub batches : List Batch
  pub abandoned : Bool
  pub service : MnListDiffService

abbrev is_empty : List MnChange → Bool
is_empty [] = true
is_empty (c ∷ cs) = false

module _ (listdiff : (base block : ℕ) → ListDiffResult) where
  -- The loop, with the two tests of the generation: at each height, and behind the loop, before the cursor is saved
  unfoldable pub walk_heights :
      (generation cursor : ℕ) → MnListDiffService → List HeightScript → WalkEnd
  unfolding reset
  walk_heights generation cursor s [] = record {
    cursor = cursor;
    batches = [];
    abandoned = not (s.generation == generation);
    service = s;
  }
  walk_heights generation cursor s (height ∷ heights) =
      let diff = listdiff cursor (cursor + 1) in
      let answered = await height.during_diff s in
      let changes = classify_list_diff diff answered.penalties in
      let moved : MnListDiffService = record {
        penalties = penalties_after diff answered.penalties;
        seeded = answered.seeded;
        generation = answered.generation;
      } in
      let written = await (height.during_write && not (is_empty changes)) moved in
      let rest = walk_heights generation (cursor + 1) written heights in
      if not (s.generation == generation)
      then record { cursor = cursor; batches = []; abandoned = true; service = s }
      else record {
        cursor = rest.cursor;
        batches = record { height = cursor + 1; changes = changes } ∷ rest.batches;
        abandoned = rest.abandoned;
        service = rest.service;
      }

  -- `seed`
  unfoldable pub seed : (cursor : ℕ) → (is_reset : Bool) → MnListDiffService → MnListDiffService
  unfolding reset
  seed cursor is_reset s =
      let answered = await is_reset s in
      record {
        penalties = penalties_after (listdiff 1 cursor) (λ hash. none);
        seeded = true;
        generation = answered.generation;
      }

  -- `walk` from the cursor that was read, over the heights of a batch
  unfoldable pub walk_batch :
      (cursor : ℕ)
      → (during_seed during_lookups : Bool) → List HeightScript
      → MnListDiffService
      → WalkEnd
  unfolding reset seed walk_heights
  walk_batch cursor during_seed during_lookups heights s =
      let ready = if s.seeded then s else seed cursor during_seed s in
      let looked_up = await during_lookups ready in
      walk_heights looked_up.generation cursor looked_up heights
