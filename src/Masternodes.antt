-- ===== src/Masternodes.antt =====
-- server/src/domain/mnListDiff.ts: the transitions of masternodes in the differences between the lists of two
-- blocks, and the penalties that are remembered for the next one.
pub mod Follow
pub mod Track
pub mod Rises
pub mod Walk
pub mod Seeded
pub mod Unseen
mod Tests
use devnet_deftrack.Common.{
  ℕ, String, ◌===◌, Bool, true, false, ◌||◌, Option, none, some, List, [], ◌∷◌, ◌++◌, ltb,
  if◌then◌else◌,
}

-- `MnChangeType`
pub data MnChangeType : Type 0 where
  registered removed banned revived penalty_up service_changed key_changed revoked : MnChangeType

-- `PoSeBanHeight`, which is -1 where there is no ban
pub data BanHeight : Type 0 where
  no_ban : BanHeight
  at_height : ℕ → BanHeight

-- `MnStateDiff`, by the fields that are read
pub record MnStateDiff : Type 0 where
  pub service : Option String
  pub pose_penalty : Option ℕ
  pub pose_ban_height : Option BanHeight
  pub revocation_reason : Option ℕ
  pub owner_address : Option String
  pub voting_address : Option String
  pub payout_address : Option String
  pub pub_key_operator : Option String

pub record AddedMn : Type 0 where
  pub pro_tx_hash : String
  pub state : Option MnStateDiff

-- A member of an entry of `updatedMNs`
pub record UpdatedMn : Type 0 where
  pub pro_tx_hash : String
  pub state : MnStateDiff

-- `ListDiffResult`, with its lists given
pub record ListDiffResult : Type 0 where
  pub block_height : ℕ
  pub added_mns : List AddedMn
  pub removed_mns : List String
  pub updated_mns : List (List UpdatedMn)

-- `MnChange`
pub record MnChange : Type 0 where
  pub pro_tx_hash : String
  pub type : MnChangeType
  pub height : ℕ
  pub service_after : Option String
  pub penalty_after : Option ℕ
  pub revocation_reason : Option ℕ

-- A map from hashes to penalties, of which only `get` is read
abbrev pub Penalties : Type 0
Penalties = String → Option ℕ

-- `map.set`
abbrev pub set : String → Option ℕ → Penalties → Penalties
set hash value m other = if hash === other then value else m other

abbrev pub is_given {ℓ} : {A : Type ℓ} → Option A → Bool
is_given none = false
is_given (some a) = true

-- `base`
unfoldable pub base : (height : ℕ) → String → MnChangeType → Option MnStateDiff → MnChange
base height pro_tx_hash type none = record {
  pro_tx_hash = pro_tx_hash;
  type = type;
  height = height;
  service_after = none;
  penalty_after = none;
  revocation_reason = none;
}
base height pro_tx_hash type (some state) = record {
  pro_tx_hash = pro_tx_hash;
  type = type;
  height = height;
  service_after = state.service;
  penalty_after = state.pose_penalty;
  revocation_reason = state.revocation_reason;
}

abbrev pub when : Bool → MnChange → List MnChange
when test change = if test then change ∷ [] else []

-- `type` of a change of `PoSeBanHeight`
abbrev pub ban_type : BanHeight → MnChangeType
ban_type no_ban = revived
ban_type (at_height height) = banned

-- Whether the penalty has risen, as far as is known
abbrev pub has_risen : (before : Option ℕ) → (penalty : ℕ) → Bool
has_risen none penalty = true
has_risen (some before) penalty = ltb before penalty

-- `KEY_FIELDS.some(...)`
abbrev pub has_key_field : MnStateDiff → Bool
has_key_field state =
    is_given state.owner_address
    || is_given state.voting_address
    || is_given state.payout_address
    || is_given state.pub_key_operator

-- The change for a `PoSeBanHeight`, where there is one
unfoldable pub ban_changes :
    (height : ℕ) → (pro_tx_hash : String) → MnStateDiff → Option BanHeight → List MnChange
unfolding base
ban_changes height pro_tx_hash state none = []
ban_changes height pro_tx_hash state (some ban) =
    base height pro_tx_hash (ban_type ban) (some state) ∷ []

-- The change for a `PoSePenalty`, where there is one
unfoldable pub penalty_changes :
    (height : ℕ)
    → (before : Option ℕ) → (pro_tx_hash : String) → MnStateDiff
    → Option ℕ
    → List MnChange
unfolding base
penalty_changes height before pro_tx_hash state none = []
penalty_changes height before pro_tx_hash state (some penalty) =
    when (has_risen before penalty) (base height pro_tx_hash penalty_up (some state))

-- The body of the loop over `Object.entries(entry)`
unfoldable pub updated_changes : (height : ℕ) → Penalties → UpdatedMn → List MnChange
unfolding base ban_changes penalty_changes
updated_changes height previous_penalty u =
    ban_changes height u.pro_tx_hash u.state u.state.pose_ban_height
    ++ penalty_changes height (previous_penalty u.pro_tx_hash) u.pro_tx_hash u.state
        u.state.pose_penalty
    ++ when (is_given u.state.service) (base height u.pro_tx_hash service_changed (some u.state))
    ++ when (is_given u.state.revocation_reason) (base height u.pro_tx_hash revoked (some u.state))
    ++ when (has_key_field u.state) (base height u.pro_tx_hash key_changed (some u.state))

-- A loop that pushes what each element gives
unfoldable pub push_all : {A : Type 0} → (A → List MnChange) → List A → List MnChange
push_all f [] = []
push_all f (a ∷ more) = f a ++ push_all f more

-- `classifyListDiff`
unfoldable pub classify_list_diff : ListDiffResult → (previous_penalty : Penalties) → List MnChange
unfolding push_all updated_changes base
classify_list_diff diff previous_penalty =
    push_all (λ a. base diff.block_height a.pro_tx_hash registered a.state ∷ []) diff.added_mns
    ++ push_all (λ hash. base diff.block_height hash removed none ∷ []) diff.removed_mns
    ++ push_all (push_all (updated_changes diff.block_height previous_penalty)) diff.updated_mns

-- A loop that changes the map for each element
unfoldable pub for_each :
    {A : Type 0} → (A → Penalties → Penalties) → List A → Penalties → Penalties
for_each f [] m = m
for_each f (a ∷ more) m = for_each f more (f a m)

-- `added.state?.PoSePenalty ?? 0`
unfoldable pub first_penalty : Option MnStateDiff → ℕ
first_penalty none = 0
first_penalty (some state) = elim state.pose_penalty [ none ↦ 0 | some penalty ↦ penalty ]

unfoldable pub set_added : AddedMn → Penalties → Penalties
unfolding first_penalty
set_added a m = set a.pro_tx_hash (some (first_penalty a.state)) m

-- `next.delete`
unfoldable pub delete : String → Penalties → Penalties
delete hash m = set hash none m

unfoldable pub set_updated : UpdatedMn → Penalties → Penalties
set_updated u m = elim u.state.pose_penalty [
  | none ↦ m
  | some penalty ↦ set u.pro_tx_hash (some penalty) m
]

-- `penaltiesAfter`
unfoldable pub penalties_after : ListDiffResult → (previous : Penalties) → Penalties
unfolding for_each set_added delete set_updated
penalties_after diff previous =
    for_each (for_each set_updated) diff.updated_mns
      (for_each delete diff.removed_mns (for_each set_added diff.added_mns previous))
