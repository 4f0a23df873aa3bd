-- ===== src/Masternodes/Tests.antt =====
-- A difference with a masternode that comes, one that goes, one that is banned and one that decays.
use devnet_deftrack.Common.{
  ℕ, ◌===◌, ◌≡◌, refl, true, false, Option, none, some, [], ◌∷◌, any, if◌then◌else◌, arith, zero,
  suc,
}
use devnet_deftrack.Masternodes.{
  first_penalty, MnStateDiff, ListDiffResult, Penalties, classify_list_diff,
}
use devnet_deftrack.Masternodes.Follow.{IsDiffOf}
use devnet_deftrack.Masternodes.Walk.{MnListDiffService, HeightScript, walk_batch}
use devnet_deftrack.Masternodes.Seeded.{IsNode, Follows, walk_batch-Follows}
use devnet_deftrack.Masternodes.Unseen.{walk_unseen_reset}
use devnet_deftrack.Masternodes.Rises.{reports_rise, classify_list_diff-rises}

abbrev penalised : ℕ → MnStateDiff
penalised penalty = record {
  service = none;
  pose_penalty = some penalty;
  pose_ban_height = none;
  revocation_reason = none;
  owner_address = none;
  voting_address = none;
  payout_address = none;
  pub_key_operator = none;
}

abbrev lists_before : Penalties
lists_before hash =
    if "up" === hash
    then some 10
    else if "down" === hash
    then some 66
    else if "gone" === hash
    then some 0
    else none

abbrev lists_after : Penalties
lists_after hash =
    if "up" === hash
    then some 76
    else if "down" === hash
    then some 65
    else if "new" === hash
    then some 0
    else none

abbrev difference : ListDiffResult
difference = record {
  block_height = 2404;
  added_mns = record { pro_tx_hash = "new"; state = none } ∷ [];
  removed_mns = "gone" ∷ [];
  updated_mns =
      (record { pro_tx_hash = "up"; state = penalised 76 }
        ∷ record { pro_tx_hash = "down"; state = penalised 65 }
        ∷ [])
      ∷ [];
}

difference-IsDiffOf : IsDiffOf lists_before lists_after difference
unfolding first_penalty
difference-IsDiffOf = record {
  added = ((refl, refl), tt);
  removed = (refl, tt);
  updated = (
    (
      record { registered = (10, refl); given = λ p h. h },
      (record { registered = (66, refl); given = λ p h. h }, tt),
    ),
    tt,
  );
  complete = λ hash a r u.
      let up : "up" === hash ≡ false = ground arith in
      let down : "down" === hash ≡ false = ground arith in
      let new : "new" === hash ≡ false = ground arith in
      let gone : "gone" === hash ≡ false = ground arith in rw (up, down, new, gone) refl;
}

classify_list_diff-rises_example :
    any (reports_rise "down") (classify_list_diff difference lists_before) ≡ false
classify_list_diff-rises_example =
    classify_list_diff-rises lists_before lists_after lists_before difference difference-IsDiffOf
      (λ hash. refl) "down"

-- A chain on which one masternode registers at height 2, misses a duty at 3 and decays from 4 on.
abbrev penalty_at : ℕ → Option ℕ
penalty_at zero = none
penalty_at (suc zero) = none
penalty_at (suc (suc zero)) = some 10
penalty_at (suc (suc (suc zero))) = some 76
penalty_at (suc (suc (suc (suc h)))) = some 75

abbrev lists : ℕ → Penalties
lists h hash = if "mn" === hash then penalty_at h else none

abbrev listdiff_of : (height : ℕ) → (before after : Option ℕ) → ListDiffResult
listdiff_of height none none = record {
  block_height = height;
  added_mns = [];
  removed_mns = [];
  updated_mns = [];
}
listdiff_of height none (some p) = record {
  block_height = height;
  added_mns = record { pro_tx_hash = "mn"; state = some (penalised p) } ∷ [];
  removed_mns = [];
  updated_mns = [];
}
listdiff_of height (some b) none = record {
  block_height = height;
  added_mns = [];
  removed_mns = "mn" ∷ [];
  updated_mns = [];
}
listdiff_of height (some b) (some p) = record {
  block_height = height;
  added_mns = [];
  removed_mns = [];
  updated_mns = (record { pro_tx_hash = "mn"; state = penalised p } ∷ []) ∷ [];
}

listdiff_of-IsDiffOf :
    (height : ℕ) (before after : Option ℕ)
    → IsDiffOf
        (λ hash. if "mn" === hash then before else none)
        (λ hash. if "mn" === hash then after else none)
        (listdiff_of height before after)
unfolding first_penalty
listdiff_of-IsDiffOf height none none = record {
  added = tt;
  removed = tt;
  updated = tt;
  complete = λ hash a r u. refl;
}
listdiff_of-IsDiffOf height none (some p) = record {
  added = ((refl, refl), tt);
  removed = tt;
  updated = tt;
  complete = λ hash a r u. let other : "mn" === hash ≡ false = ground arith in rw other refl;
}
listdiff_of-IsDiffOf height (some b) none = record {
  added = tt;
  removed = (refl, tt);
  updated = tt;
  complete = λ hash a r u. let other : "mn" === hash ≡ false = ground arith in rw other refl;
}
listdiff_of-IsDiffOf height (some b) (some p) = record {
  added = tt;
  removed = tt;
  updated = ((record { registered = (b, refl); given = λ q h. h }, tt), tt);
  complete = λ hash a r u. let other : "mn" === hash ≡ false = ground arith in rw other refl;
}

abbrev listdiff : ℕ → ℕ → ListDiffResult
listdiff base block = listdiff_of block (penalty_at base) (penalty_at block)

node : IsNode lists listdiff
node = record {
  differs = λ from to. listdiff_of-IsDiffOf to (penalty_at from) (penalty_at to);
  empty = λ hash. ground arith;
}

abbrev fresh : MnListDiffService
fresh = record { penalties = λ hash. none; seeded = false; generation = 0 }

abbrev quiet_height : HeightScript
quiet_height = record { during_diff = false; during_write = false }

walk_batch-Follows_example :
    Follows lists 2 2 (walk_batch listdiff 2 false false (quiet_height ∷ quiet_height ∷ []) fresh)
walk_batch-Follows_example =
    walk_batch-Follows lists listdiff node 2 (quiet_height ∷ quiet_height ∷ []) fresh
      (λ h. absurd (ground arith)) ((refl, refl), ((refl, refl), tt))

walk_unseen_reset_example :
    let end = walk_batch listdiff 3 false true (quiet_height ∷ []) fresh in
    (end.abandoned ≡ false)
    × (any (λ batch. any (reports_rise "mn") batch.changes) end.batches ≡ true)
walk_unseen_reset_example =
    walk_unseen_reset lists listdiff node 3 quiet_height [] fresh ((refl, refl), tt) "mn" 76 75 refl
      refl (omega arith)
