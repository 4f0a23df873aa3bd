-- ===== src/Actions/Claims.antt =====
-- `claimDue` of server/src/services/simulationAction.repository.ts: which action a worker gets, and how often.
use mathlib.Core.List.Memᴰ
use mathlib.Core.List.{Memᴰ}
use devnet_deftrack.Common.{
  ◌≡◌, inl, inr, refl, Bool, true, false, not, ◌&&◌, Option, none, some, List, [], ◌∷◌, arith,
  Bool-cases, subst, sym,
}
use devnet_deftrack.Actions.{Action, claim_action}
use devnet_deftrack.Actions.Queue.{ClaimInput, is_wanted, is_sorted_before, first_sorted, claim_due}

-- What is not before an action that is not before a third is not before the third.
not_before_trans :
    (a b c : Action)
    → is_sorted_before b a ≡ false
    → is_sorted_before c b ≡ false
    → is_sorted_before c a ≡ false
not_before_trans a b c p q = ground arith

not_before_total : (a b : Action) → is_sorted_before a b ≡ true → is_sorted_before b a ≡ false
not_before_total a b p = ground arith

not_before_self : (a : Action) → is_sorted_before a a ≡ false
not_before_self a = ground arith

-- A stored action that passes a test, and that none that passes it comes before.
pub record IsFirst (test : Action → Bool) (actions : List Action) (a : Action) : Type 0 where
  pub stored : Memᴰ a actions
  pub passes : test a ≡ true
  pub first : (b : Action) → Memᴰ b actions → test b ≡ true → is_sorted_before b a ≡ false

-- What `first_sorted` comes to.
abbrev pub Found : (Action → Bool) → List Action → Option Action → Type 0
Found test actions none = (b : Action) → Memᴰ b actions → test b ≡ false
Found test actions (some a) = IsFirst test actions a

pub first_sorted-Found :
    (test : Action → Bool) (actions : List Action) → Found test actions (first_sorted test actions)
unfolding first_sorted
first_sorted-Found test [] = λ b m. absurd (Memᴰ.not-nil m)
first_sorted-Found test (a ∷ actions) =
    go (first_sorted test actions) (first_sorted-Found test actions) refl
  where
    go :
        (r : Option Action)
        → Found test actions r
        → first_sorted test actions ≡ r
        → Found test (a ∷ actions) (first_sorted test (a ∷ actions))
    go none k e = elim (Bool-cases (test a)) [
      | inl hit ↦
          rw (e, hit, first_sorted)
            (record {
              stored = Memᴰ.head refl;
              passes = hit;
              first = λ b m t. elim (Memᴰ.cases_cons m) [
                | inl here ↦
                    subst (λ x. is_sorted_before x a ≡ false) (sym here) (not_before_self a)
                | inr there ↦ let miss = k b there in absurd (cc)
              ];
            })
      | inr miss ↦
          rw (e, miss, first_sorted)
            (λ b m. elim (Memᴰ.cases_cons m) [
              | inl here ↦ subst (λ x. test x ≡ false) (sym here) miss
              | inr there ↦ k b there
            ])
    ]
    go (some best) k e = elim (Bool-cases (test a && not (is_sorted_before best a))) [
      | inl better ↦
          rw (e, better, first_sorted)
            (record {
              stored = Memᴰ.head refl;
              passes = ground arith;
              first = λ b m t. elim (Memᴰ.cases_cons m) [
                | inl here ↦
                    subst (λ x. is_sorted_before x a ≡ false) (sym here) (not_before_self a)
                | inr there ↦ not_before_trans a best b (ground arith) (k.first b there t)
              ];
            })
      | inr worse ↦
          rw (e, worse, first_sorted)
            (record {
              stored = Memᴰ.tail k.stored;
              passes = k.passes;
              first = λ b m t. elim (Memᴰ.cases_cons m) [
                | inl here ↦
                    let hit : test a ≡ true = subst (λ x. test x ≡ true) here t in
                    subst (λ x. is_sorted_before x best ≡ false) (sym here)
                      (not_before_total best a (ground arith))
                | inr there ↦ k.first b there t
              ];
            })
    ]

-- What a claim answers with.
abbrev pub ClaimAnswer : ClaimInput → List Action → Option Action → Type 0
ClaimAnswer input actions none =
    (b : Action) → Memᴰ b actions → is_wanted input.now_ms input.run_key b ≡ false
ClaimAnswer input actions (some c) =
    (a : Action) × IsFirst (is_wanted input.now_ms input.run_key) actions a
    × (c ≡ claim_action input.claimed_by input.now_ms input.lease_ms a)

-- A claim answers with the claimable action that is due first and has the lowest sequence among those, now
-- under a lease of the worker with one attempt more, and with none only if no action is claimable.
pub claim_due-ClaimAnswer :
    (input : ClaimInput) (actions : List Action)
    → ClaimAnswer input actions (claim_due input actions).1
unfolding claim_due
claim_due-ClaimAnswer input actions =
    go (first_sorted (is_wanted input.now_ms input.run_key) actions)
      (first_sorted-Found (is_wanted input.now_ms input.run_key) actions) refl
  where
    go :
        (r : Option Action)
        → Found (is_wanted input.now_ms input.run_key) actions r
        → first_sorted (is_wanted input.now_ms input.run_key) actions ≡ r
        → ClaimAnswer input actions (claim_due input actions).1
    go none k e = rw (e, claim_due) k
    go (some a) k e = rw (e, claim_due) (a, k, refl)
