-- ===== src/Masternodes/Unseen.antt =====
-- A rewind between the seed of a walk of server/src/services/mnListDiff.service.ts and the moment at which it
-- takes the generation.
use devnet_deftrack.Common.{
  ℕ, suc, ◌+◌, ◌<◌, String, ◌≡◌, inl, inr, refl, sym, ap, ◌∙◌, true, false, ◌==◌, ◌===◌, none, some,
  List, [], ◌∷◌, any, All, if◌then◌else◌, Bool-cases, eq_iff, arith,
}
use devnet_deftrack.Masternodes.{ListDiffResult, Penalties, first_penalty, penalties_after}
use devnet_deftrack.Masternodes.Follow.{IsDiffOf, updates, adds}
use devnet_deftrack.Masternodes.Rises.{reports_rise, All-any, classify_list_diff-forgotten}
use devnet_deftrack.Masternodes.Walk.{
  MnListDiffService, HeightScript, reset, walk_heights, seed, walk_batch,
}
use devnet_deftrack.Masternodes.Seeded.{IsNode, IsQuiet}

-- A masternode of both lists with another penalty has an update.
decay_updated :
    (before after : Penalties) (diff : ListDiffResult) (hash : String) (b a : ℕ)
    → IsDiffOf before after diff
    → before hash ≡ some b
    → after hash ≡ some a
    → a < b
    → any (any (updates hash)) diff.updated_mns ≡ true
decay_updated before after diff hash b a d was now less =
    elim (Bool-cases (any (any (updates hash)) diff.updated_mns)) [
      | inl u ↦ u
      | inr nu ↦ elim (Bool-cases (any (λ gone. gone === hash) diff.removed_mns)) [
        | inl r ↦
            let gone : after hash ≡ none =
              All-any (λ gone. after gone ≡ none) (λ gone. gone === hash) diff.removed_mns
                (λ gone g h. sym (ap after ((eq_iff gone hash).0 h)) ∙ g) d.removed r in
            absurd (ground arith)
        | inr nr ↦ elim (Bool-cases (any (adds hash) diff.added_mns)) [
          | inl c ↦
              let new : before hash ≡ none =
                All-any
                  (λ a.
                    (before a.pro_tx_hash ≡ none)
                    × (after a.pro_tx_hash ≡ some (first_penalty a.state)))
                  (adds hash) diff.added_mns
                  (λ a g h. sym (ap before ((eq_iff a.pro_tx_hash hash).0 h)) ∙ g.0) d.added c in
              absurd (ground arith)
          | inr na ↦ let still = d.complete hash na nr nu in absurd (ground arith)
        ]
      ]
    ]

module _ (lists : ℕ → Penalties) (listdiff : ℕ → ℕ → ListDiffResult)
    (node : IsNode lists listdiff) where
  walk_heights-whole :
      (heights : List HeightScript) (generation cursor : ℕ) (s : MnListDiffService)
      → s.generation ≡ generation
      → All IsQuiet heights
      → (walk_heights listdiff generation cursor s heights).abandoned ≡ false
  unfolding walk_heights
  walk_heights-whole [] generation cursor s same _ = ground arith
  walk_heights-whole (height ∷ heights) generation cursor s same ((d, w), quiet) =
      let next : MnListDiffService = record {
        penalties = penalties_after (listdiff cursor (cursor + 1)) s.penalties;
        seeded = s.seeded;
        generation = s.generation;
      } in
      let on : (s.generation == generation) ≡ true = ground arith in
      let rest = walk_heights-whole heights generation (cursor + 1) next same quiet in
      rw (on, d, w) rest

  -- If the block sync resets the service after a walk has its seed and before it takes the generation, while it
  -- waits for the operators and hosts, and not again, then the walk is not abandoned, and a masternode whose penalty
  -- is lower in the first block of the batch than before is written down as one whose penalty is up.
  pub walk_unseen_reset :
      (cursor : ℕ) (height : HeightScript) (heights : List HeightScript) (s : MnListDiffService)
      → All IsQuiet (height ∷ heights)
      → (hash : String) (b a : ℕ) → lists cursor hash ≡ some b
      → lists (cursor + 1) hash ≡ some a
      → a < b
      → let end = walk_batch listdiff cursor false true (height ∷ heights) s in
        (end.abandoned ≡ false)
        × (any (λ batch. any (reports_rise hash) batch.changes) end.batches ≡ true)
  unfolding walk_batch reset walk_heights
  walk_unseen_reset cursor height heights s quiet hash b a was now less =
      let ready = if s.seeded then s else seed listdiff cursor false s in
      let g = suc ready.generation in
      let cleared : MnListDiffService = record {
        penalties = λ hash. none;
        seeded = false;
        generation = g;
      } in
      let whole = walk_heights-whole (height ∷ heights) g cursor cleared refl quiet in
      let updated =
        decay_updated (lists cursor) (lists (cursor + 1)) (listdiff cursor (cursor + 1)) hash b a
          (node.differs cursor (cursor + 1)) was now less in
      let reported = classify_list_diff-forgotten (listdiff cursor (cursor + 1)) hash ∙ updated in
      let on : (g == g) ≡ true = ground arith in (whole, rw (on, quiet.0.0, reported) refl)
