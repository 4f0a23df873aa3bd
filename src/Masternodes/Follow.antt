-- ===== src/Masternodes/Follow.antt =====
-- What the difference between two lists says of the masternodes' penalties, as `protx listdiff` gives it.
use devnet_deftrack.Common.{ℕ, String, ◌===◌, ◌≡◌, Bool, false, ◌&&◌, none, some, any, All}
use devnet_deftrack.Masternodes.{
  AddedMn, UpdatedMn, ListDiffResult, Penalties, is_given, first_penalty,
}

-- An update that gives a penalty gives the one that the masternode has afterwards, which is registered in both lists.
pub record IsUpdate (before after : Penalties) (u : UpdatedMn) : Type 0 where
  pub registered : (penalty : ℕ) × (before u.pro_tx_hash ≡ some penalty)
  pub given :
      (penalty : ℕ) → u.state.pose_penalty ≡ some penalty → after u.pro_tx_hash ≡ some penalty

-- Whether an update gives a masternode's penalty.
abbrev pub updates : String → UpdatedMn → Bool
updates hash u = u.pro_tx_hash === hash && is_given u.state.pose_penalty

abbrev pub adds : String → AddedMn → Bool
adds hash a = a.pro_tx_hash === hash

-- The difference between the lists of two blocks: each entry is true, and a masternode whose penalty differs, that
-- has come or that has gone has one.
pub record IsDiffOf (before after : Penalties) (diff : ListDiffResult) : Type 0 where
  pub added :
      All
        (λ a. (before a.pro_tx_hash ≡ none) × (after a.pro_tx_hash ≡ some (first_penalty a.state)))
        diff.added_mns
  pub removed : All (λ hash. after hash ≡ none) diff.removed_mns
  pub updated : All (All (IsUpdate before after)) diff.updated_mns
  pub complete :
      (hash : String)
      → any (adds hash) diff.added_mns ≡ false
      → any (λ gone. gone === hash) diff.removed_mns ≡ false
      → any (any (updates hash)) diff.updated_mns ≡ false
      → after hash ≡ before hash
