-- ===== src/Live/Deferred.antt =====
-- What `scheduledLabActionsForPlan` of server/src/simulator/liveExecutorPlan.ts schedules in the strict direction
-- it schedules with the same undo in the lenient one, and what it schedules of a plan that stops services.
use mathlib.Core.List.{map-append}
use devnet_deftrack.Common.{
  ◌≡◌, inl, inr, refl, String, true, false, Option, none, some, List, [], ◌∷◌, ◌++◌, map, leb,
  Result, ok, bind-ok, ok-bind, Result-cases, Bool-cases, ap, sym, ◌∙◌, subst,
}
use devnet_deftrack.Netem.{FaultClass, Preimage}
use devnet_deftrack.Netem.Plans.{service_job_id, dsl_job_id}
use devnet_deftrack.Live.{
  ActionPayload, service_stop, service_start, netem_apply, partition_apply, dsl_fault_apply,
  dsl_fault_clear, fault_clear, LiveAction, service_control, dsl_test_hook, LiveFaultError,
  require_lab_target, ScheduledLabAction,
}
use devnet_deftrack.Live.Faults.{LiveInput}
use devnet_deftrack.Live.Scheduled.{
  Schedule, scheduled_clear, scheduled_stop, schedule_action, with_scheduled, schedule_all,
}
use devnet_deftrack.Live.Recovery.{recovery_of_scheduled}
use devnet_deftrack.Live.Covered.{recovering}

module _ (short : Preimage → String) where
  -- Two schedules whose actions recovery undoes alike, the second without anything skipped.
  pub record SameUndo (tag : String) (schedule again : Schedule) : Type 0 where
    pub undone :
        map (recovery_of_scheduled short tag) schedule.actions
        ≡ map (recovery_of_scheduled short tag) again.actions
    pub unskipped : again.skipped ≡ 0

  ok_schedule : (s t : Schedule) → ◌≡◌ {A = Result LiveFaultError Schedule} (ok s) (ok t) → s ≡ t
  ok_schedule s t e = cc

  ok_later :
      (s t : Option ScheduledLabAction)
      → ◌≡◌ {A = Result LiveFaultError (Option ScheduledLabAction)} (ok s) (ok t)
      → s ≡ t
  ok_later s t e = cc

  with_scheduled-SameUndo :
      (tag : String) (a b : ScheduledLabAction) (schedule again : Schedule)
      → recovery_of_scheduled short tag a ≡ recovery_of_scheduled short tag b
      → SameUndo tag schedule again
      → SameUndo tag (with_scheduled short (some a) schedule) (with_scheduled short (some b) again)
  with_scheduled-SameUndo tag a b schedule again same h = record {
    undone =
        map-append (recovery_of_scheduled short tag) schedule.actions (a ∷ [])
        ∙ ap (λ xs. xs ++ recovery_of_scheduled short tag a ∷ []) h.undone
        ∙ ap (λ x. map (recovery_of_scheduled short tag) again.actions ++ x ∷ []) same
        ∙ sym (map-append (recovery_of_scheduled short tag) again.actions (b ∷ []));
    unskipped = h.unskipped;
  }

  -- What the strict direction schedules of an action, the lenient one schedules with the same undo.
  schedule_action-SameUndo :
      (input : LiveInput) (action : LiveAction) (payload : ActionPayload)
      (later : Option ScheduledLabAction) (schedule again : Schedule)
      → SameUndo input.run_tag schedule again
      → schedule_action short input action payload ≡ ok later
      → (other : Option ScheduledLabAction) × (schedule_action short
            (recovering input)
            action
            payload
          ≡ ok other)
        × SameUndo input.run_tag
            (with_scheduled short later schedule)
            (with_scheduled short other again)
  unfolding schedule_action
  schedule_action-SameUndo input action fault_clear later schedule again h e = (
    none,
    refl,
    subst (λ x. SameUndo input.run_tag (with_scheduled short x schedule) again)
        (ok_later none later e) h,
  )
  schedule_action-SameUndo input action (netem_apply _ _ _ _) later schedule again h e = absurd (cc)
  schedule_action-SameUndo input action (partition_apply _) later schedule again h e = absurd (cc)
  schedule_action-SameUndo input action (dsl_fault_apply _ _ _) later schedule again h e =
      absurd (cc)
  schedule_action-SameUndo input action (dsl_fault_clear kind) later schedule again h e =
      let (target, e1, h1) =
        bind-ok (require_lab_target input.targets action.target_id (some dsl_test_hook)) _ later
          e in
      let one =
        scheduled_clear short input action target FaultClass.dsl
          (dsl_job_id short input.run_tag target.host_ref kind) in
      let two =
        scheduled_clear short (recovering input) action target FaultClass.dsl
          (dsl_job_id short input.run_tag target.host_ref kind) in
      (
        some two,
        ok-bind _ _ target _ e1 refl,
        subst
            (λ x.
              SameUndo input.run_tag (with_scheduled short x schedule)
                (with_scheduled short (some two) again))
            (ok_later (some one) later h1)
            (with_scheduled-SameUndo input.run_tag one two schedule again refl h),
      )
  schedule_action-SameUndo input action service_stop later schedule again h e =
      let (target, e1, h1) =
        bind-ok (require_lab_target input.targets action.target_id (some service_control)) _ later
          e in
      let one = scheduled_stop short input action target in
      let two = scheduled_stop short (recovering input) action target in
      (
        some two,
        ok-bind _ _ target _ e1 refl,
        subst
            (λ x.
              SameUndo input.run_tag (with_scheduled short x schedule)
                (with_scheduled short (some two) again))
            (ok_later (some one) later h1)
            (with_scheduled-SameUndo input.run_tag one two schedule again refl h),
      )
  schedule_action-SameUndo input action service_start later schedule again h e =
      let (target, e1, h1) =
        bind-ok (require_lab_target input.targets action.target_id (some service_control)) _ later
          e in
      let one =
        scheduled_clear short input action target FaultClass.service
          (service_job_id short input.run_tag target.host_ref) in
      let two =
        scheduled_clear short (recovering input) action target FaultClass.service
          (service_job_id short input.run_tag target.host_ref) in
      (
        some two,
        ok-bind _ _ target _ e1 refl,
        subst
            (λ x.
              SameUndo input.run_tag (with_scheduled short x schedule)
                (with_scheduled short (some two) again))
            (ok_later (some one) later h1)
            (with_scheduled-SameUndo input.run_tag one two schedule again refl h),
      )

  pub schedule_all-SameUndo :
      (input : LiveInput) (actions : List LiveAction) (schedule last again : Schedule)
      → SameUndo input.run_tag schedule again
      → schedule_all short true input actions schedule ≡ ok last
      → (more : Schedule) × (schedule_all short false (recovering input) actions again ≡ ok more)
        × SameUndo input.run_tag last more
  unfolding schedule_all
  schedule_all-SameUndo input [] schedule last again h e =
      (again, refl, subst (λ s. SameUndo input.run_tag s again) (ok_schedule schedule last e) h)
  schedule_all-SameUndo input (action ∷ actions) schedule last again h e =
      elim (Bool-cases (leb action.not_before_offset_ms 0)) [
        | inl now ↦
            let (more, all, ends) =
              schedule_all-SameUndo input actions schedule last again h
                (rw (schedule_all, now) at e) in
            (more, rw (schedule_all, now) all, ends)
        | inr deferred ↦ elim (Result-cases (schedule_action short input action action.payload)) [
          | inl (thrown, bad) ↦ let no = rw (schedule_all, deferred, bad) at e in absurd (cc)
          | inr (later, good) ↦
              let (other, same, alike) =
                schedule_action-SameUndo input action action.payload later schedule again h good in
              let (more, all, ends) =
                schedule_all-SameUndo input actions (with_scheduled short later schedule) last
                  (with_scheduled short other again) alike
                  (rw (schedule_all, deferred, good) at e) in
              (more, rw (schedule_all, deferred, same) all, ends)
        ]
      ]
