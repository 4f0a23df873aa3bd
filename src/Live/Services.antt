-- ===== src/Live/Services.antt =====
-- Plans that put on no faults but stops of services, in `labFaultsForPlan` and `scheduledLabActionsForPlan` of
-- server/src/simulator/liveExecutorPlan.ts.
use devnet_deftrack.Common.{
  ◌+◌, ◌≡◌, inl, inr, refl, String, Bool, true, false, not, ◌&&◌, Option, none, some, List, [], ◌∷◌,
  leb, ◌==◌, Result, ok, throw_if, bind-ok, Result-cases, Bool-cases, arith, subst, All, All-append,
}
use devnet_deftrack.Netem.{FaultClass, Preimage}
use devnet_deftrack.Netem.Plans.{service_job_id}
use devnet_deftrack.Netem.Runner.{has}
use devnet_deftrack.Live.{
  ActionPayload, service_stop, service_start, netem_apply, partition_apply, dsl_fault_apply,
  dsl_fault_clear, fault_clear, LiveAction, service_control, LiveFaultError, unscheduled,
  require_lab_target, LabFault, ScheduledLabAction,
}
use devnet_deftrack.Live.Faults.{
  LiveInput, Found, push_fault, service_fault, translate_action, translate_all,
}
use devnet_deftrack.Live.Scheduled.{
  Schedule, scheduled_clear, scheduled_stop, schedule_action, with_scheduled, schedule_all,
  puts_netem, puts_dsl, clears_dsl,
}
use devnet_deftrack.Live.Recovery.{scheduled_job_id}

-- An action that neither puts on another fault than a stop, nor clears a daemon's.
abbrev pub is_service_action : LiveAction → Bool
is_service_action action =
    not (puts_netem action) && not (puts_dsl action) && not (clears_dsl action)

module _ (short : Preimage → String) where
  abbrev pub IsServiceFault : String → LabFault → Type 0
  IsServiceFault tag fault = fault.job_id ≡ service_job_id short tag fault.container

  abbrev pub IsServiceLater : String → ScheduledLabAction → Type 0
  IsServiceLater tag later =
      scheduled_job_id short tag later ≡ service_job_id short tag later.container

  push_fault-All :
      (tag : String) (f : LabFault) (found : Found)
      → IsServiceFault tag f
      → All (IsServiceFault tag) found.faults
      → All (IsServiceFault tag) (push_fault f found).faults
  push_fault-All tag f found g h = elim (Bool-cases (has found.seen f.job_id)) [
    | inl old ↦ rw old h
    | inr new ↦ rw new (All-append (IsServiceFault tag) found.faults (f ∷ []) h (g, tt))
  ]

  ok_found : (s t : Found) → ◌≡◌ {A = Result LiveFaultError Found} (ok s) (ok t) → s ≡ t
  ok_found s t e = cc

  ok_schedule : (s t : Schedule) → ◌≡◌ {A = Result LiveFaultError Schedule} (ok s) (ok t) → s ≡ t
  ok_schedule s t e = cc

  some_later :
      (s t : ScheduledLabAction)
      → ◌≡◌ {A = Result LiveFaultError (Option ScheduledLabAction)} (ok (some s)) (ok (some t))
      → s ≡ t
  some_later s t e = cc

  translate_action-All :
      (input : LiveInput) (action : LiveAction) (payload : ActionPayload) (found next : Found)
      → is_service_action (record action { payload = payload }) ≡ true
      → All (IsServiceFault input.run_tag) found.faults
      → translate_action short input action payload found ≡ ok next
      → All (IsServiceFault input.run_tag) next.faults
  unfolding translate_action
  translate_action-All input action fault_clear found next s h e =
      subst (λ f. All (IsServiceFault input.run_tag) f.faults) (ok_found found next e) h
  translate_action-All input action service_start found next s h e =
      subst (λ f. All (IsServiceFault input.run_tag) f.faults) (ok_found found next e) h
  translate_action-All input action (dsl_fault_clear kind) found next s h e = absurd (ground arith)
  translate_action-All input action (dsl_fault_apply _ _ _) found next s h e = absurd (ground arith)
  translate_action-All input action (netem_apply _ _ _ _) found next s h e = absurd (ground arith)
  translate_action-All input action (partition_apply _) found next s h e = absurd (ground arith)
  translate_action-All input action service_stop found next s h e =
      elim (Bool-cases (action.not_before_offset_ms == 0)) [
        | inr later ↦ elim (Bool-cases input.defer_scheduled) [
          | inl defers ↦
              subst (λ f. All (IsServiceFault input.run_tag) f.faults)
                (ok_found found next (rw (translate_action, later, defers) at e)) h
          | inr refuses ↦ let bad = rw (translate_action, later, refuses) at e in absurd (cc)
        ]
        | inl at_once ↦
            let (free, e1, h1) =
              bind-ok (throw_if (has found.stopped_targets action.target_id) unscheduled) _ next
                (rw (translate_action, at_once) at e) in
            let (target, e2, h2) =
              bind-ok (require_lab_target input.targets action.target_id (some service_control)) _
                next h1 in
            subst (λ f. All (IsServiceFault input.run_tag) f.faults) (ok_found _ next h2)
              (push_fault-All input.run_tag (service_fault short input target)
                (record found { stopped_targets = action.target_id ∷ found.stopped_targets }) refl
                h)
      ]

  pub translate_all-All :
      (input : LiveInput) (actions : List LiveAction) (found next : Found)
      → All (λ a. is_service_action a ≡ true) actions
      → All (IsServiceFault input.run_tag) found.faults
      → translate_all short false input actions found ≡ ok next
      → All (IsServiceFault input.run_tag) next.faults
  unfolding translate_all
  translate_all-All input [] found next s h e =
      subst (λ f. All (IsServiceFault input.run_tag) f.faults) (ok_found found next e) h
  translate_all-All input (action ∷ actions) found next (s, ss) h e =
      elim (Result-cases (translate_action short input action action.payload found)) [
        | inl (thrown, bad) ↦
            translate_all-All input actions (record found { skipped = found.skipped + 1 }) next ss h
              (rw (translate_all, bad) at e)
        | inr (mid, good) ↦
            translate_all-All input actions mid next ss
              (translate_action-All input action action.payload found mid s h good)
              (rw (translate_all, good) at e)
      ]

  schedule_action-IsServiceLater :
      (input : LiveInput) (action : LiveAction) (payload : ActionPayload)
      (later : ScheduledLabAction)
      → is_service_action (record action { payload = payload }) ≡ true
      → schedule_action short input action payload ≡ ok (some later)
      → IsServiceLater input.run_tag later
  unfolding schedule_action
  schedule_action-IsServiceLater input action fault_clear later s e = absurd (cc)
  schedule_action-IsServiceLater input action (dsl_fault_clear kind) later s e =
      absurd (ground arith)
  schedule_action-IsServiceLater input action (dsl_fault_apply _ _ _) later s e =
      absurd (ground arith)
  schedule_action-IsServiceLater input action (netem_apply _ _ _ _) later s e =
      absurd (ground arith)
  schedule_action-IsServiceLater input action (partition_apply _) later s e = absurd (ground arith)
  schedule_action-IsServiceLater input action service_stop later s e =
      let (target, e1, h1) =
        bind-ok (require_lab_target input.targets action.target_id (some service_control)) _
          (some later) e in
      subst (IsServiceLater input.run_tag)
        (some_later (scheduled_stop short input action target) later h1) refl
  schedule_action-IsServiceLater input action service_start later s e =
      let (target, e1, h1) =
        bind-ok (require_lab_target input.targets action.target_id (some service_control)) _
          (some later) e in
      subst (IsServiceLater input.run_tag)
        (some_later
          (scheduled_clear short input action target FaultClass.service
            (service_job_id short input.run_tag target.host_ref))
          later h1)
        refl

  pub schedule_all-All :
      (input : LiveInput) (actions : List LiveAction) (schedule last : Schedule)
      → All (λ a. is_service_action a ≡ true) actions
      → All (IsServiceLater input.run_tag) schedule.actions
      → schedule_all short false input actions schedule ≡ ok last
      → All (IsServiceLater input.run_tag) last.actions
  unfolding schedule_all
  schedule_all-All input [] schedule last s h e =
      subst (λ x. All (IsServiceLater input.run_tag) x.actions) (ok_schedule schedule last e) h
  schedule_all-All input (action ∷ actions) schedule last (s, ss) h e =
      elim (Bool-cases (leb action.not_before_offset_ms 0)) [
        | inl now ↦ schedule_all-All input actions schedule last ss h (rw (schedule_all, now) at e)
        | inr deferred ↦ elim (Result-cases (schedule_action short input action action.payload)) [
          | inl (thrown, bad) ↦
              schedule_all-All input actions (record schedule { skipped = schedule.skipped + 1 })
                last ss h (rw (schedule_all, deferred, bad) at e)
          | inr (none, good) ↦
              schedule_all-All input actions schedule last ss h
                (rw (schedule_all, deferred, good) at e)
          | inr (some later, good) ↦
              schedule_all-All input actions (with_scheduled short (some later) schedule) last ss
                (All-append (IsServiceLater input.run_tag) schedule.actions (later ∷ []) h
                  (schedule_action-IsServiceLater input action action.payload later s good, tt))
                (rw (schedule_all, deferred, good) at e)
        ]
      ]
