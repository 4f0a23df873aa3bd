-- ===== src/Masternodes/Rises.antt =====
-- `classifyListDiff` of server/src/domain/mnListDiff.ts: the reports of a penalty that is up.
use devnet_deftrack.Common.{
  ℕ, String, ◌===◌, ◌≡◌, inl, inr, refl, sym, ap, ◌∙◌, Bool, true, false, ◌&&◌, ◌||◌, Option, none,
  some, List, [], ◌∷◌, ◌++◌, ltb, any, any-append, All, All-implies, Bool-cases, Option-cases,
  eq_iff, arith,
}
use devnet_deftrack.Masternodes.{
  MnChangeType, registered, removed, banned, revived, penalty_up, service_changed, key_changed,
  revoked, MnStateDiff, UpdatedMn, ListDiffResult, MnChange, Penalties, is_given, first_penalty,
  base, when, BanHeight, no_ban, at_height, ban_changes, penalty_changes, has_risen, has_key_field,
  updated_changes, push_all, classify_list_diff,
}
use devnet_deftrack.Masternodes.Follow.{IsUpdate, updates, adds, IsDiffOf}

abbrev is_penalty_up : MnChangeType → Bool
is_penalty_up penalty_up = true
is_penalty_up _ = false

-- A change that says that a masternode's penalty has gone up.
abbrev pub reports_rise : String → MnChange → Bool
reports_rise hash c = c.pro_tx_hash === hash && is_penalty_up c.type

-- A masternode in both lists with a higher penalty in the second.
abbrev pub rises : Option ℕ → Option ℕ → Bool
rises (some b) (some a) = ltb b a
rises (some b) none = false
rises none _ = false

never : (o : Option ℕ) → rises o o ≡ false
never none = refl
never (some n) = ground arith

any-push_all :
    {A : Type 0} (test : MnChange → Bool) (f : A → List MnChange) (xs : List A)
    → any test (push_all f xs) ≡ any (λ a. any test (f a)) xs
unfolding push_all
any-push_all test f [] = refl
any-push_all test f (a ∷ xs) =
    any-append test (f a) (push_all f xs) ∙ ap (λ b. any test (f a) || b) (any-push_all test f xs)

any-none :
    {A : Type 0} (test : A → Bool) (xs : List A) → ((a : A) → test a ≡ false) → any test xs ≡ false
any-none test [] h = refl
any-none test (a ∷ xs) h = rw (h a) (any-none test xs h)

any-and :
    {A : Type 0} (test hits : A → Bool) (b : Bool) (xs : List A)
    → All (λ a. test a ≡ (hits a && b)) xs
    → any test xs ≡ (any hits xs && b)
any-and test hits b [] _ = refl
any-and test hits b (a ∷ xs) (h, hs) = let rest = any-and test hits b xs hs in ground arith

pub All-any :
    {A : Type 0} {P : Type 0} (Good : A → Type 0) (hits : A → Bool) (xs : List A)
    → ((a : A) → Good a → hits a ≡ true → P)
    → All Good xs
    → any hits xs ≡ true
    → P
All-any Good hits [] step _ h = absurd (ground arith)
All-any Good hits (a ∷ xs) step (g, gs) h = elim (Bool-cases (hits a)) [
  | inl here ↦ step a g here
  | inr other ↦ All-any Good hits xs step gs (ground arith)
]

any-quiet_right :
    {A : Type 0} (test : A → Bool) (xs ys : List A)
    → any test ys ≡ false
    → any test (xs ++ ys) ≡ any test xs
any-quiet_right test xs ys h = let e = any-append test xs ys in ground arith

any-quiet_left :
    {A : Type 0} (test : A → Bool) (xs ys : List A)
    → any test xs ≡ false
    → any test (xs ++ ys) ≡ any test ys
any-quiet_left test xs ys h = let e = any-append test xs ys in ground arith

base-quiet :
    (hash key : String) (height : ℕ) (type : MnChangeType) (state : Option MnStateDiff)
    → is_penalty_up type ≡ false
    → reports_rise hash (base height key type state) ≡ false
unfolding base
base-quiet hash key height type none h = ground arith
base-quiet hash key height type (some state) h = ground arith

when-quiet :
    (hash key : String) (height : ℕ) (type : MnChangeType) (state : Option MnStateDiff) (b : Bool)
    → is_penalty_up type ≡ false
    → any (reports_rise hash) (when b (base height key type state)) ≡ false
when-quiet hash key height type state true h = rw (base-quiet hash key height type state h) refl
when-quiet hash key height type state false h = refl

base-reports :
    (hash key : String) (height : ℕ) (state : MnStateDiff)
    → reports_rise hash (base height key penalty_up (some state)) ≡ (key === hash)
unfolding base
base-reports hash key height state = ground arith

ban_changes-quiet :
    (hash key : String) (height : ℕ) (state : MnStateDiff) (ban : Option BanHeight)
    → any (reports_rise hash) (ban_changes height key state ban) ≡ false
unfolding ban_changes
ban_changes-quiet hash key height state none = refl
ban_changes-quiet hash key height state (some no_ban) =
    rw (base-quiet hash key height revived (some state) refl) refl
ban_changes-quiet hash key height state (some (at_height n)) =
    rw (base-quiet hash key height banned (some state) refl) refl

-- Whether a penalty, where one is given, is a masternode's and has risen.
abbrev risen : (hash key : String) (before penalty : Option ℕ) → Bool
risen hash key before none = false
risen hash key before (some penalty) = key === hash && has_risen before penalty

penalty_changes-reports :
    (hash key : String) (height : ℕ) (before : Option ℕ) (state : MnStateDiff) (penalty : Option ℕ)
    → any (reports_rise hash) (penalty_changes height before key state penalty)
      ≡ risen hash key before penalty
unfolding penalty_changes
penalty_changes-reports hash key height before state none = refl
penalty_changes-reports hash key height before state (some penalty) =
    let e = base-reports hash key height state in
    elim (Bool-cases (has_risen before penalty)) [
      | inl up ↦ rw (up, e) (ground arith)
      | inr not_up ↦ rw not_up (ground arith)
    ]

-- Of the five kinds of change that an update may give, only one says that a penalty has gone up.
updated_changes-reports :
    (hash : String) (height : ℕ) (previous : Penalties) (u : UpdatedMn)
    → any (reports_rise hash) (updated_changes height previous u)
      ≡ risen hash u.pro_tx_hash (previous u.pro_tx_hash) u.state.pose_penalty
unfolding updated_changes
updated_changes-reports hash height previous u =
    let t = reports_rise hash in
    let key = u.pro_tx_hash in
    let bans = ban_changes height key u.state u.state.pose_ban_height in
    let ups = penalty_changes height (previous key) key u.state u.state.pose_penalty in
    let service =
      when (is_given u.state.service) (base height key service_changed (some u.state)) in
    let reason =
      when (is_given u.state.revocation_reason) (base height key revoked (some u.state)) in
    let keys = when (has_key_field u.state) (base height key key_changed (some u.state)) in
    let a = ban_changes-quiet hash key height u.state u.state.pose_ban_height in
    let b = penalty_changes-reports hash key height (previous key) u.state u.state.pose_penalty in
    let c =
      when-quiet hash key height service_changed (some u.state) (is_given u.state.service) refl in
    let d =
      when-quiet hash key height revoked (some u.state) (is_given u.state.revocation_reason) refl in
    let e = when-quiet hash key height key_changed (some u.state) (has_key_field u.state) refl in
    any-quiet_right t (bans ++ ups ++ service ++ reason) keys e
    ∙ any-quiet_right t (bans ++ ups ++ service) reason d
    ∙ any-quiet_right t (bans ++ ups) service c
    ∙ any-quiet_left t bans ups a
    ∙ b

-- What an update reports of a masternode is whether it rises, if the update gives its penalty.
update_reports :
    (before after previous : Penalties) (hash : String) (height : ℕ)
    → ((hash : String) → previous hash ≡ before hash)
    → (u : UpdatedMn) → IsUpdate before after u
    → any (reports_rise hash) (updated_changes height previous u)
      ≡ (updates hash u && rises (before hash) (after hash))
update_reports before after previous hash height same u k =
    let (b, was) = k.registered in
    let known = same u.pro_tx_hash in
    let reported = updated_changes-reports hash height previous u in
    elim (Option-cases u.state.pose_penalty) [
      | inl without ↦ reported ∙ rw without (ground arith)
      | inr (penalty, given) ↦
          let now = k.given penalty given in
          reported
          ∙ rw (given, known, was)
              (elim (Bool-cases (u.pro_tx_hash === hash)) [
                | inl here ↦
                    let e = (eq_iff u.pro_tx_hash hash).0 here in
                    let was_here : before hash ≡ some b = sym (ap before e) ∙ was in
                    let now_here : after hash ≡ some penalty = sym (ap after e) ∙ now in
                    rw (was_here, now_here, here) refl
                | inr other ↦ rw other refl
              ])
    ]

updates_report :
    (before after previous : Penalties) (hash : String) (height : ℕ)
    → ((hash : String) → previous hash ≡ before hash)
    → (entries : List (List UpdatedMn)) → All (All (IsUpdate before after)) entries
    → any (reports_rise hash) (push_all (push_all (updated_changes height previous)) entries)
      ≡ (any (any (updates hash)) entries && rises (before hash) (after hash))
updates_report before after previous hash height same entries ks =
    let t = reports_rise hash in
    let r = rises (before hash) (after hash) in
    let f = updated_changes height previous in
    any-push_all t (push_all f) entries
    ∙ any-and (λ us. any t (push_all f us)) (any (updates hash)) r entries
        (All-implies (All (IsUpdate before after))
          (λ us. any t (push_all f us) ≡ (any (updates hash) us && r))
          (λ us k.
            any-push_all t f us
            ∙ any-and (λ u. any t (f u)) (updates hash) r us
                (All-implies (IsUpdate before after) (λ u. any t (f u) ≡ (updates hash u && r))
                  (update_reports before after previous hash height same) us k))
          entries ks)

-- A masternode whose penalty rises is in both lists and has an update.
rises_reported :
    (before after : Penalties) (diff : ListDiffResult)
    → IsDiffOf before after diff
    → (hash : String)
    → (any (any (updates hash)) diff.updated_mns && rises (before hash) (after hash))
      ≡ rises (before hash) (after hash)
rises_reported before after diff d hash =
    elim (Bool-cases (any (any (updates hash)) diff.updated_mns)) [
      | inl u ↦ rw u refl
      | inr nu ↦
          let quiet : rises (before hash) (after hash) ≡ false =
            elim (Bool-cases (any (λ gone. gone === hash) diff.removed_mns)) [
              | inl r ↦
                  let gone : after hash ≡ none =
                    All-any (λ gone. after gone ≡ none) (λ gone. gone === hash) diff.removed_mns
                      (λ gone g h. sym (ap after ((eq_iff gone hash).0 h)) ∙ g) d.removed r in
                  ground arith
              | inr nr ↦ elim (Bool-cases (any (adds hash) diff.added_mns)) [
                | inl a ↦
                    let new : before hash ≡ none =
                      All-any
                        (λ a.
                          (before a.pro_tx_hash ≡ none)
                          × (after a.pro_tx_hash ≡ some (first_penalty a.state)))
                        (adds hash) diff.added_mns
                        (λ a g h. sym (ap before ((eq_iff a.pro_tx_hash hash).0 h)) ∙ g.0) d.added
                        a in
                    ground arith
                | inr na ↦ let still = d.complete hash na nr nu in rw still (never (before hash))
              ]
            ] in
          rw (nu, quiet) refl
    ]

any-same :
    {A : Type 0} (test other : A → Bool)
    → ((a : A) → test a ≡ other a)
    → (xs : List A) → any test xs ≡ any other xs
any-same test other h [] = refl
any-same test other h (a ∷ xs) = let rest = any-same test other h xs in let e = h a in ground arith

forgotten :
    (hash : String) (height : ℕ) (u : UpdatedMn)
    → any (reports_rise hash) (updated_changes height (λ key. none) u) ≡ updates hash u
forgotten hash height u =
    let reported = updated_changes-reports hash height (λ key. none) u in
    elim (Option-cases u.state.pose_penalty) [
      | inl without ↦ reported ∙ rw without (ground arith)
      | inr (penalty, given) ↦ reported ∙ rw given refl
    ]

-- Only updates report that a penalty is up.
pub classify_list_diff-updates :
    (diff : ListDiffResult) (previous : Penalties) (hash : String)
    → any (reports_rise hash) (classify_list_diff diff previous)
      ≡ any
          (reports_rise hash)
          (push_all (push_all (updated_changes diff.block_height previous)) diff.updated_mns)
unfolding classify_list_diff
classify_list_diff-updates diff previous hash =
    let t = reports_rise hash in
    let n = diff.block_height in
    let news = push_all (λ a. base n a.pro_tx_hash registered a.state ∷ []) diff.added_mns in
    let losses = push_all (λ gone. base n gone removed none ∷ []) diff.removed_mns in
    let changes = push_all (push_all (updated_changes n previous)) diff.updated_mns in
    let a : any t news ≡ false =
      any-push_all t (λ a. base n a.pro_tx_hash registered a.state ∷ []) diff.added_mns
      ∙ any-none (λ a. any t (base n a.pro_tx_hash registered a.state ∷ [])) diff.added_mns
          (λ a. rw (base-quiet hash a.pro_tx_hash n registered a.state refl) refl) in
    let b : any t losses ≡ false =
      any-push_all t (λ gone. base n gone removed none ∷ []) diff.removed_mns
      ∙ any-none (λ gone. any t (base n gone removed none ∷ [])) diff.removed_mns
          (λ gone. rw (base-quiet hash gone n removed none refl) refl) in
    let both : any t (news ++ losses) ≡ false = any-quiet_right t news losses b ∙ a in
    any-quiet_left t (news ++ losses) changes both

-- If the penalties that are remembered are those of the list before a difference, then its changes say of a
-- masternode that its penalty has gone up exactly if it is in both lists and its penalty is higher in the second.
pub classify_list_diff-rises :
    (before after previous : Penalties) (diff : ListDiffResult)
    → IsDiffOf before after diff
    → ((hash : String) → previous hash ≡ before hash)
    → (hash : String)
    → any (reports_rise hash) (classify_list_diff diff previous) ≡ rises (before hash) (after hash)
classify_list_diff-rises before after previous diff d same hash =
    classify_list_diff-updates diff previous hash
    ∙ updates_report before after previous hash diff.block_height same diff.updated_mns d.updated
    ∙ rises_reported before after diff d hash

-- Where no penalty is remembered, each update that gives one is reported as up.
pub classify_list_diff-forgotten :
    (diff : ListDiffResult) (hash : String)
    → any (reports_rise hash) (classify_list_diff diff (λ key. none))
      ≡ any (any (updates hash)) diff.updated_mns
classify_list_diff-forgotten diff hash =
    let t = reports_rise hash in
    let f = updated_changes diff.block_height (λ key. none) in
    classify_list_diff-updates diff (λ key. none) hash
    ∙ any-push_all t (push_all f) diff.updated_mns
    ∙ any-same (λ us. any t (push_all f us)) (any (updates hash))
        (λ us.
          any-push_all t f us
          ∙ any-same (λ u. any t (f u)) (updates hash) (forgotten hash diff.block_height) us)
        diff.updated_mns
