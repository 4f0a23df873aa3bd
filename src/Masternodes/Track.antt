-- ===== src/Masternodes/Track.antt =====
-- `penaltiesAfter` of server/src/domain/mnListDiff.ts and the node's list.
use devnet_deftrack.Common.{
  ℕ, String, ◌===◌, ◌≡◌, ◌⊎◌, inl, inr, sym, ap, ◌∙◌, Bool, true, Option, none, some, List, [], ◌∷◌,
  any, All, All-implies, Bool-cases, Option-cases, eq_iff, arith,
}
use devnet_deftrack.Masternodes.{
  AddedMn, UpdatedMn, ListDiffResult, Penalties, set, first_penalty, for_each, set_added, delete,
  set_updated, penalties_after,
}
use devnet_deftrack.Masternodes.Follow.{IsUpdate, updates, adds, IsDiffOf}

module _ {A : Type 0} (f : A → Penalties → Penalties) (hits : A → Bool) (hash : String)
    (value : Option ℕ) where
  -- A step that leaves a right value right, and makes it right where it hits.
  pub record Leads (a : A) : Type 0 where
    pub keeps : (m : Penalties) → m hash ≡ value → f a m hash ≡ value
    pub reaches : hits a ≡ true → (m : Penalties) → f a m hash ≡ value

  for_each-keeps :
      (xs : List A) → All Leads xs → (m : Penalties) → m hash ≡ value → for_each f xs m hash ≡ value
  unfolding for_each
  for_each-keeps [] _ m h = h
  for_each-keeps (a ∷ xs) (l, ls) m h = for_each-keeps xs ls (f a m) (l.keeps m h)

  for_each-reaches :
      (xs : List A)
      → All Leads xs
      → any hits xs ≡ true
      → (m : Penalties) → for_each f xs m hash ≡ value
  unfolding for_each
  for_each-reaches [] _ h m = absurd (ground arith)
  for_each-reaches (a ∷ xs) (l, ls) h m = elim (Bool-cases (hits a)) [
    | inl here ↦ for_each-keeps xs ls (f a m) (l.reaches here m)
    | inr other ↦ for_each-reaches xs ls (ground arith) (f a m)
  ]

  -- So does the whole loop.
  for_each-Leads :
      (xs : List A)
      → All Leads xs
      → (m : Penalties) → (any hits xs ≡ true) ⊎ (m hash ≡ value)
      → for_each f xs m hash ≡ value
  for_each-Leads xs ls m (inl h) = for_each-reaches xs ls h m
  for_each-Leads xs ls m (inr h) = for_each-keeps xs ls m h

set-Leads :
    (key hash : String) (new value : Option ℕ) (m : Penalties)
    → (key ≡ hash → new ≡ value)
    → (key === hash ≡ true) ⊎ (m hash ≡ value)
    → set key new m hash ≡ value
set-Leads key hash new value m right (inl here) = rw here (right ((eq_iff key hash).0 here))
set-Leads key hash new value m right (inr h) = elim (Bool-cases (key === hash)) [
  | inl here ↦ rw here (right ((eq_iff key hash).0 here))
  | inr other ↦ rw other h
]

module _ (before after : Penalties) (hash : String) where
  added-Leads :
      (a : AddedMn)
      → (before a.pro_tx_hash ≡ none) × (after a.pro_tx_hash ≡ some (first_penalty a.state))
      → Leads set_added (adds hash) hash (after hash) a
  unfolding set_added
  added-Leads a (_, gives) =
      let right : a.pro_tx_hash ≡ hash → some (first_penalty a.state) ≡ after hash =
        λ e. sym gives ∙ ap after e in
      record {
        keeps = λ m h.
            set-Leads a.pro_tx_hash hash (some (first_penalty a.state)) (after hash) m right
              (inr h);
        reaches = λ h m.
            set-Leads a.pro_tx_hash hash (some (first_penalty a.state)) (after hash) m right
              (inl h);
      }

  removed-Leads :
      (gone : String)
      → after gone ≡ none
      → Leads delete (λ gone. gone === hash) hash (after hash) gone
  unfolding delete
  removed-Leads gone gives =
      let right : gone ≡ hash → none ≡ after hash = λ e. sym gives ∙ ap after e in
      record {
        keeps = λ m h. set-Leads gone hash none (after hash) m right (inr h);
        reaches = λ h m. set-Leads gone hash none (after hash) m right (inl h);
      }

  updated-Leads :
      (u : UpdatedMn)
      → IsUpdate before after u
      → Leads set_updated (updates hash) hash (after hash) u
  unfolding set_updated
  updated-Leads u k = elim (Option-cases u.state.pose_penalty) [
    | inl without ↦ record {
      keeps = λ m h. rw without h;
      reaches = λ h m. absurd (let e = without in ground arith);
    }
    | inr (penalty, given) ↦
        let right : u.pro_tx_hash ≡ hash → some penalty ≡ after hash =
          λ e. sym (k.given penalty given) ∙ ap after e in
        record {
          keeps = λ m h.
              rw given (set-Leads u.pro_tx_hash hash (some penalty) (after hash) m right (inr h));
          reaches = λ h m.
              let here : u.pro_tx_hash === hash ≡ true = ground arith in
              rw given
                (set-Leads u.pro_tx_hash hash (some penalty) (after hash) m right (inl here));
        }
  ]

  entry-Leads :
      (us : List UpdatedMn)
      → All (IsUpdate before after) us
      → Leads (for_each set_updated) (any (updates hash)) hash (after hash) us
  entry-Leads us ks =
      let each =
        All-implies (IsUpdate before after) (Leads set_updated (updates hash) hash (after hash))
          updated-Leads us ks in
      record {
        keeps = λ m h. for_each-keeps set_updated (updates hash) hash (after hash) us each m h;
        reaches = λ h m. for_each-reaches set_updated (updates hash) hash (after hash) us each h m;
      }

-- If the penalties that are remembered are those of the node's list before a difference, then those remembered
-- after it are those of the list after it, for every masternode, come, gone or changed.
pub penalties_after-IsDiffOf :
    (before after previous : Penalties) (diff : ListDiffResult)
    → IsDiffOf before after diff
    → ((hash : String) → previous hash ≡ before hash)
    → (hash : String) → penalties_after diff previous hash ≡ after hash
unfolding penalties_after
penalties_after-IsDiffOf before after previous diff d same hash =
    let added =
      All-implies
        (λ a. (before a.pro_tx_hash ≡ none) × (after a.pro_tx_hash ≡ some (first_penalty a.state)))
        (Leads set_added (adds hash) hash (after hash)) (added-Leads before after hash)
        diff.added_mns d.added in
    let removed =
      All-implies (λ gone. after gone ≡ none)
        (Leads delete (λ gone. gone === hash) hash (after hash)) (removed-Leads before after hash)
        diff.removed_mns d.removed in
    let updated =
      All-implies (All (IsUpdate before after))
        (Leads (for_each set_updated) (any (updates hash)) hash (after hash))
        (entry-Leads before after hash) diff.updated_mns d.updated in
    let come =
      for_each-Leads set_added (adds hash) hash (after hash) diff.added_mns added previous in
    let gone =
      for_each-Leads delete (λ gone. gone === hash) hash (after hash) diff.removed_mns removed
        (for_each set_added diff.added_mns previous) in
    let changed =
      for_each-Leads (for_each set_updated) (any (updates hash)) hash (after hash) diff.updated_mns
        updated (for_each delete diff.removed_mns (for_each set_added diff.added_mns previous)) in
    elim (Bool-cases (any (any (updates hash)) diff.updated_mns)) [
      | inl u ↦ changed (inl u)
      | inr nu ↦ elim (Bool-cases (any (λ gone. gone === hash) diff.removed_mns)) [
        | inl r ↦ changed (inr (gone (inl r)))
        | inr nr ↦ elim (Bool-cases (any (adds hash) diff.added_mns)) [
          | inl a ↦ changed (inr (gone (inr (come (inl a)))))
          | inr na ↦
              changed (inr (gone (inr (come (inr (same hash ∙ sym (d.complete hash na nr nu)))))))
        ]
      ]
    ]
