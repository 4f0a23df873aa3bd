-- ===== src/Live/Covered.antt =====
-- `labFaultsForPlan` of server/src/simulator/liveExecutorPlan.ts in its strict and in its lenient direction.
use devnet_deftrack.Common.{
  ◌+◌, ◌≡◌, inl, inr, refl, String, true, false, some, List, [], ◌∷◌, ◌++◌, map, ltb, ◌==◌, Result,
  ok, throw_if, bind-ok, ok-bind, Result-cases, Bool-cases, ap, sym, ◌∙◌, subst,
}
use mathlib.Core.List.{map-append}
use devnet_deftrack.Netem.{NetemKind, Preimage}
use devnet_deftrack.Netem.Args.{assert_fault_args, assert_dsl_fault_spec}
use devnet_deftrack.Netem.Runner.{has}
use devnet_deftrack.Netem.Commands.{max_ttl_ms}
use devnet_deftrack.Live.{
  ActionPayload, service_stop, service_start, netem_apply, partition_apply, dsl_fault_apply,
  dsl_fault_clear, fault_clear, LiveAction, service_control, netem_p2p, partition_p2p,
  dsl_test_hook, Target, LiveFaultError, unscheduled, require_lab_target, LabFault,
}
use devnet_deftrack.Live.Faults.{
  LiveInput, Found, push_fault, compose_netem_args, checked, peer_addresses, when_immediate,
  dsl_fault, netem_fault, service_fault, translate_action, translate_all, nothing_found,
  lab_faults_for_plan,
}
use devnet_deftrack.Live.Recovery.{recovery_of_fault}

abbrev pub LiveResult : Type 0
LiveResult = Result LiveFaultError Found

ok_same : (f g : Found) → ◌≡◌ {A = LiveResult} (ok f) (ok g) → f ≡ g
ok_same f g e = cc

-- The same plan as recovery reads it
abbrev pub recovering : LiveInput → LiveInput
recovering input = record {
  targets = input.targets;
  run_tag = input.run_tag;
  expires_at_ms = 1;
  now_ms = 0;
  defer_scheduled = true;
}

module _ (short : Preimage → String) where
  -- Two stages of a translation that recovery clears alike, the second of which skipped nothing.
  pub record Alike (found again : Found) : Type 0 where
    pub seen : found.seen ≡ again.seen
    pub stopped : found.stopped_targets ≡ again.stopped_targets
    pub cleared :
        map (recovery_of_fault short) found.faults ≡ map (recovery_of_fault short) again.faults
    pub unskipped : again.skipped ≡ 0

  push_fault-Alike :
      (f g : LabFault) (found again : Found)
      → recovery_of_fault short f ≡ recovery_of_fault short g
      → f.job_id ≡ g.job_id
      → Alike found again
      → Alike (push_fault f found) (push_fault g again)
  push_fault-Alike f g found again same id h = elim (Bool-cases (has found.seen f.job_id)) [
    | inl old ↦
        let also : has again.seen g.job_id ≡ true =
          subst (λ x. has x g.job_id ≡ true) h.seen (subst (λ x. has found.seen x ≡ true) id old) in
        rw (old, also) h
    | inr new ↦
        let also : has again.seen g.job_id ≡ false =
          subst (λ x. has x g.job_id ≡ false) h.seen
            (subst (λ x. has found.seen x ≡ false) id new) in
        rw (new, also)
          (record {
            seen = rw (id, h.seen) refl;
            stopped = h.stopped;
            cleared =
                map-append (recovery_of_fault short) found.faults (f ∷ [])
                ∙ ap (λ xs. xs ++ recovery_of_fault short f ∷ []) h.cleared
                ∙ ap (λ x. map (recovery_of_fault short) again.faults ++ x ∷ []) same
                ∙ sym (map-append (recovery_of_fault short) again.faults (g ∷ []));
            unskipped = h.unskipped;
          })
  ]

  -- The translation of an action from a stage, and that of recovery
  abbrev pub Follows : LiveInput → LiveAction → ActionPayload → Found → Found → Type 0
  Follows input action payload next again =
      (more : Found) × (translate_action short (recovering input) action payload again ≡ ok more)
      × Alike next more

  follow_same :
      (found next again : Found) (input : LiveInput) (action : LiveAction) (payload : ActionPayload)
      → ◌≡◌ {A = LiveResult} (ok found) (ok next)
      → translate_action short (recovering input) action payload again ≡ ok again
      → Alike found again
      → Follows input action payload next again
  follow_same found next again input action payload e t h =
      (again, t, subst (λ f. Alike f again) (ok_same found next e) h)

  follow_netem :
      (input : LiveInput) (action : LiveAction) (found next again : Found) (target : Target)
      (kind : NetemKind) (args : List String) (payload : ActionPayload)
      → ◌≡◌ {A = LiveResult}
          (ok (push_fault (netem_fault short input target kind args) found))
          (ok next)
      → translate_action short (recovering input) action payload again
        ≡ ok (push_fault (netem_fault short (recovering input) target kind args) again)
      → Alike found again
      → Follows input action payload next again
  follow_netem input action found next again target kind args payload e t h = (
    push_fault (netem_fault short (recovering input) target kind args) again,
    t,
    subst (λ f. Alike f (push_fault (netem_fault short (recovering input) target kind args) again))
        (ok_same _ next e)
        (push_fault-Alike (netem_fault short input target kind args)
          (netem_fault short (recovering input) target kind args) found again refl refl h),
  )

  -- An action that has to be immediate is left alone by both or translated by both.
  follow_immediate :
      (input : LiveInput) (action : LiveAction) (payload : ActionPayload) (found next again : Found)
      (rest more : LiveResult)
      → Alike found again
      → when_immediate input action found rest ≡ ok next
      → translate_action short (recovering input) action payload again
        ≡ when_immediate (recovering input) action again more
      → (rest ≡ ok next → (end : Found) × (more ≡ ok end) × Alike next end)
      → Follows input action payload next again
  follow_immediate input action payload found next again rest more h e t k =
      elim (Bool-cases (action.not_before_offset_ms == 0)) [
        | inl at_once ↦ let (end, m, alike) = k (rw at_once at e) in (end, t ∙ rw at_once m, alike)
        | inr later ↦ elim (Bool-cases input.defer_scheduled) [
          | inl defers ↦ (
            again,
            t ∙ rw later refl,
            subst (λ f. Alike f again) (ok_same found next (rw (later, defers) at e)) h,
          )
          | inr refuses ↦ let bad = rw (later, refuses) at e in absurd (cc)
        ]
      ]

  -- What the strict direction translates, recovery translates alike.
  translate_action-Follows :
      (input : LiveInput) (action : LiveAction) (payload : ActionPayload) (found next again : Found)
      → Alike found again
      → translate_action short input action payload found ≡ ok next
      → Follows input action payload next again
  unfolding translate_action
  translate_action-Follows input action fault_clear found next again h e =
      follow_same found next again input action fault_clear e refl h
  translate_action-Follows input action service_start found next again h e =
      follow_same found next again input action service_start e refl h
  translate_action-Follows input action (dsl_fault_clear kind) found next again h e =
      follow_same found next again input action (dsl_fault_clear kind) e refl h
  translate_action-Follows input action (netem_apply latency jitter loss correlation) found next
        again h e =
      let (target, e1, h1) =
        bind-ok (require_lab_target input.targets action.target_id (some netem_p2p)) _ next e in
      let (args, e2, h2) = bind-ok (compose_netem_args latency jitter loss correlation) _ next h1 in
      let (fine, e3, h3) = bind-ok (checked (assert_fault_args NetemKind.netem args)) _ next h2 in
      follow_netem input action found next again target NetemKind.netem args
        (netem_apply latency jitter loss correlation) h3
        (ok-bind _ _ target _ e1 (ok-bind _ _ args _ e2 (ok-bind _ _ fine _ e3 refl))) h
  translate_action-Follows input action (partition_apply ids) found next again h e =
      let (target, e1, h1) =
        bind-ok (require_lab_target input.targets action.target_id (some partition_p2p)) _ next e in
      let (args, e2, h2) = bind-ok (peer_addresses input.targets ids) _ next h1 in
      let (fine, e3, h3) =
        bind-ok (checked (assert_fault_args NetemKind.partition args)) _ next h2 in
      follow_netem input action found next again target NetemKind.partition args
        (partition_apply ids) h3
        (ok-bind _ _ target _ e1 (ok-bind _ _ args _ e2 (ok-bind _ _ fine _ e3 refl))) h
  translate_action-Follows input action (dsl_fault_apply kind epochs param) found next again h e =
      follow_immediate input action (dsl_fault_apply kind epochs param) found next again _ _ h e
        refl
        (λ e0.
          let (target, e1, h1) =
            bind-ok (require_lab_target input.targets action.target_id (some dsl_test_hook)) _ next
              e0 in
          let (fine, e2, h2) = bind-ok (checked (assert_dsl_fault_spec _)) _ next h1 in
          (
            push_fault (dsl_fault short (recovering input) target kind epochs param) again,
            ok-bind _ _ target _ e1 (ok-bind _ _ fine _ e2 refl),
            subst
                (λ f.
                  Alike f (
                    push_fault (dsl_fault short (recovering input) target kind epochs param) again))
                (ok_same _ next h2)
                (push_fault-Alike (dsl_fault short input target kind epochs param)
                  (dsl_fault short (recovering input) target kind epochs param) found again refl
                  refl h),
          ))
  translate_action-Follows input action service_stop found next again h e =
      follow_immediate input action service_stop found next again _ _ h e refl (λ e0.
        let (free, e1, h1) =
          bind-ok (throw_if (has found.stopped_targets action.target_id) unscheduled) _ next e0 in
        let (target, e2, h2) =
          bind-ok (require_lab_target input.targets action.target_id (some service_control)) _ next
            h1 in
        let more =
          push_fault (service_fault short (recovering input) target)
            (record again { stopped_targets = action.target_id ∷ again.stopped_targets }) in
        (
          more,
          ok-bind _ _ free _
              (subst (λ x. throw_if (has x action.target_id) unscheduled ≡ ok free) h.stopped e1)
              (ok-bind _ _ target _ e2 refl),
          subst (λ f. Alike f more) (ok_same _ next h2)
              (push_fault-Alike (service_fault short input target)
                (service_fault short (recovering input) target)
                (record found { stopped_targets = action.target_id ∷ found.stopped_targets })
                (record again { stopped_targets = action.target_id ∷ again.stopped_targets }) refl
                refl
                (record {
                  seen = h.seen;
                  stopped = ap (λ xs. action.target_id ∷ xs) h.stopped;
                  cleared = h.cleared;
                  unskipped = h.unskipped;
                })),
        ))

  translate_all-Alike :
      (input : LiveInput) (actions : List LiveAction) (found next again : Found)
      → Alike found again
      → translate_all short true input actions found ≡ ok next
      → (more : Found) × (translate_all short false (recovering input) actions again ≡ ok more)
        × Alike next more
  unfolding translate_all
  translate_all-Alike input [] found next again h e =
      (again, refl, subst (λ f. Alike f again) (ok_same found next e) h)
  translate_all-Alike input (action ∷ actions) found next again h e =
      elim (Result-cases (translate_action short input action action.payload found)) [
        | inl (thrown, bad) ↦ let no = rw (translate_all, bad) at e in absurd (cc)
        | inr (mid, good) ↦
            let (mid_again, same, alike) =
              translate_action-Follows input action action.payload found mid again h good in
            let (more, all, ends) =
              translate_all-Alike input actions mid next mid_again alike
                (rw (translate_all, good) at e) in
            (more, rw (translate_all, same) all, ends)
      ]

  -- A plan that can be applied is translated by recovery too, with the same jobs to clear and nothing skipped.
  pub lab_faults_for_plan-Alike :
      (input : LiveInput) (actions : List LiveAction) (found : Found)
      → lab_faults_for_plan short true input actions ≡ ok found
      → (again : Found) × (lab_faults_for_plan short false (recovering input) actions ≡ ok again)
        × Alike found again
  unfolding lab_faults_for_plan
  lab_faults_for_plan-Alike input actions found e =
      elim (Bool-cases (ltb (input.now_ms + max_ttl_ms) input.expires_at_ms)) [
        | inl long ↦ let no = rw (lab_faults_for_plan, long) at e in absurd (cc)
        | inr fits ↦
            translate_all-Alike input actions (nothing_found short) found (nothing_found short)
              (record { seen = refl; stopped = refl; cleared = refl; unskipped = refl })
              (rw (lab_faults_for_plan, fits) at e)
      ]
