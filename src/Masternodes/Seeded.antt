-- ===== src/Masternodes/Seeded.antt =====
-- A walk of server/src/services/mnListDiff.service.ts that no rewind interrupts.
use devnet_deftrack.Common.{
  ℕ, suc, ◌+◌, String, ◌≡◌, inl, inr, refl, sym, ap, ◌∙◌, true, false, ◌==◌, none, List, [], ◌∷◌,
  length, any, All, Bool-cases, arith,
}
use devnet_deftrack.Masternodes.{ListDiffResult, Penalties, penalties_after}
use devnet_deftrack.Masternodes.Follow.{IsDiffOf}
use devnet_deftrack.Masternodes.Track.{penalties_after-IsDiffOf}
use devnet_deftrack.Masternodes.Rises.{reports_rise, rises, classify_list_diff-rises}
use devnet_deftrack.Masternodes.Walk.{
  MnListDiffService, HeightScript, Batch, WalkEnd, walk_heights, seed, walk_batch,
}

-- A node's lists by height, with the differences that it answers; the first block has no masternodes.
pub record IsNode (lists : ℕ → Penalties) (listdiff : ℕ → ℕ → ListDiffResult) : Type 0 where
  pub differs : (from to : ℕ) → IsDiffOf (lists from) (lists to) (listdiff from to)
  pub empty : (hash : String) → lists 1 hash ≡ none

abbrev pub IsQuiet : HeightScript → Type 0
IsQuiet height = (height.during_diff ≡ false) × (height.during_write ≡ false)

-- The batches are those of the heights above a cursor, in order, and a penalty is reported as up exactly where it rose.
unfoldable pub IsHistory : (lists : ℕ → Penalties) → (cursor : ℕ) → List Batch → Type 0
IsHistory lists cursor [] = Unit
IsHistory lists cursor (batch ∷ batches) =
    (batch.height ≡ cursor + 1)
    × ((hash : String)
        → any (reports_rise hash) batch.changes
          ≡ rises (lists cursor hash) (lists (cursor + 1) hash))
    × IsHistory lists (cursor + 1) batches

pub record Follows (lists : ℕ → Penalties) (cursor heights : ℕ) (end : WalkEnd) : Type 0 where
  pub whole : end.abandoned ≡ false
  pub moved : end.cursor ≡ cursor + heights
  pub count : length end.batches ≡ heights
  pub tracked : (hash : String) → end.service.penalties hash ≡ lists end.cursor hash
  pub history : IsHistory lists cursor end.batches

module _ (lists : ℕ → Penalties) (listdiff : ℕ → ℕ → ListDiffResult)
    (node : IsNode lists listdiff) where
  walk_heights-Follows :
      (heights : List HeightScript) (generation cursor : ℕ) (s : MnListDiffService)
      → s.generation ≡ generation
      → ((hash : String) → s.penalties hash ≡ lists cursor hash)
      → All IsQuiet heights
      → Follows lists cursor (length heights) (walk_heights listdiff generation cursor s heights)
  unfolding walk_heights IsHistory
  walk_heights-Follows [] generation cursor s same tracked _ = record {
    whole = ground arith;
    moved = omega arith;
    count = refl;
    tracked = tracked;
    history = tt;
  }
  walk_heights-Follows (height ∷ heights) generation cursor s same tracked ((d, w), quiet) =
      let d1 = node.differs cursor (cursor + 1) in
      let diff = listdiff cursor (cursor + 1) in
      let next : MnListDiffService = record {
        penalties = penalties_after diff s.penalties;
        seeded = s.seeded;
        generation = s.generation;
      } in
      let on : (s.generation == generation) ≡ true = ground arith in
      let rest =
        walk_heights-Follows heights generation (cursor + 1) next same
          (penalties_after-IsDiffOf (lists cursor) (lists (cursor + 1)) s.penalties diff d1 tracked)
          quiet in
      rw (on, d, w)
        (record {
          whole = rest.whole;
          moved = rest.moved ∙ omega arith;
          count = ap suc rest.count;
          tracked = rest.tracked;
          history = (
            refl,
            classify_list_diff-rises (lists cursor) (lists (cursor + 1)) s.penalties diff d1
                tracked,
            rest.history,
          );
        })

  -- A walk that meets no reset, of a service that is not seeded or has the penalties at the cursor, goes through
  -- every height of its batch: for each it writes down that a penalty is up exactly for the masternodes whose
  -- penalty rose in that block, and it leaves the penalties of the node's list at the cursor it reached.
  pub walk_batch-Follows :
      (cursor : ℕ) (heights : List HeightScript) (s : MnListDiffService)
      → (s.seeded ≡ true → (hash : String) → s.penalties hash ≡ lists cursor hash)
      → All IsQuiet heights
      → Follows lists cursor (length heights) (walk_batch listdiff cursor false false heights s)
  unfolding walk_batch seed
  walk_batch-Follows cursor heights s tracked quiet = elim (Bool-cases s.seeded) [
    | inl seeded ↦
        let start : MnListDiffService = record {
          penalties = s.penalties;
          seeded = true;
          generation = s.generation;
        } in
        rw seeded
          (walk_heights-Follows heights s.generation cursor start refl (tracked seeded) quiet)
    | inr fresh ↦
        let start : MnListDiffService = record {
          penalties = penalties_after (listdiff 1 cursor) (λ hash. none);
          seeded = true;
          generation = s.generation;
        } in
        rw fresh (
          walk_heights-Follows heights s.generation cursor start refl
            (penalties_after-IsDiffOf (lists 1) (lists cursor) (λ hash. none) (listdiff 1 cursor)
              (node.differs 1 cursor) (λ hash. sym (node.empty hash)))
            quiet)
  ]
