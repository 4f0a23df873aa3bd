-- ===== src/Live/Cleared.antt =====
-- What `faultRecoveryTargetsForPlan` of server/src/simulator/liveExecutorPlan.ts clears of a plan that can be
-- applied: the faults put on at once, and the nodes that a dispatcher stops later.
use mathlib.Core.List.{Memᴰ}
use devnet_deftrack.Common.{
  ◌+◌, ◌≡◌, ◌⊎◌, inl, inr, refl, String, true, false, some, List, [], ◌∷◌, ◌++◌, map, ◌===◌, Result,
  ok, bind-ok, ok-bind, Bool-cases, arith, ap, sym, ◌∙◌, subst, All, All-implies, eq_iff,
}
use devnet_deftrack.Netem.{Preimage}
use devnet_deftrack.Netem.Plans.{service_job_id}
use devnet_deftrack.Netem.Runner.{has}
use devnet_deftrack.Netem.Commands.{clearing}
use devnet_deftrack.Live.{
  LiveAction, LiveFaultError, LabFault, LabRecoveryTarget, ScheduledLabAction,
}
use devnet_deftrack.Live.Faults.{LiveInput, Found, lab_faults_for_plan}
use devnet_deftrack.Live.Scheduled.{
  Schedule, schedule_all, insert_scheduled, sort_scheduled, goes_before,
  scheduled_lab_actions_for_plan,
}
use devnet_deftrack.Live.Recovery.{
  RecoveryPlan, recovery_of_fault, recovery_of_scheduled, add_deferred,
  fault_recovery_targets_for_plan,
}
use devnet_deftrack.Live.Covered.{recovering, Alike, lab_faults_for_plan-Alike}
use devnet_deftrack.Live.Deferred.{schedule_all-SameUndo}
use devnet_deftrack.Live.Services.{IsServiceFault, IsServiceLater}

module _ {κ} (Good : ScheduledLabAction → Type κ) where
  insert-All :
      (a : ScheduledLabAction) (actions : List ScheduledLabAction)
      → Good a
      → All Good actions
      → All Good (insert_scheduled a actions)
  unfolding insert_scheduled
  insert-All a [] g h = (g, tt)
  insert-All a (b ∷ rest) g (k, ks) = elim (Bool-cases (goes_before b a)) [
    | inl behind ↦ rw (insert_scheduled, behind) (k, insert-All a rest g ks)
    | inr front ↦ rw (insert_scheduled, front) (g, (k, ks))
  ]

  All-insert :
      (a : ScheduledLabAction) (actions : List ScheduledLabAction)
      → All Good (insert_scheduled a actions)
      → Good a × All Good actions
  unfolding insert_scheduled
  All-insert a [] h = h
  All-insert a (b ∷ rest) h = elim (Bool-cases (goes_before b a)) [
    | inl behind ↦
        let (k, ks) : Good b × All Good (insert_scheduled a rest) =
          rw (insert_scheduled, behind) at h in
        let (g, gs) = All-insert a rest ks in (g, (k, gs))
    | inr front ↦ rw (insert_scheduled, front) at h
  ]

  pub sort-All :
      (actions : List ScheduledLabAction) → All Good actions → All Good (sort_scheduled actions)
  unfolding sort_scheduled
  sort-All [] h = tt
  sort-All (a ∷ actions) (g, h) = insert-All a (sort_scheduled actions) g (sort-All actions h)

  pub All-sort :
      (actions : List ScheduledLabAction) → All Good (sort_scheduled actions) → All Good actions
  unfolding sort_scheduled
  All-sort [] h = tt
  All-sort (a ∷ actions) h =
      let (g, gs) = All-insert a (sort_scheduled actions) h in (g, All-sort actions gs)

module _ {κ} {A : Type 0} (f : A → LabRecoveryTarget) (Good : LabRecoveryTarget → Type κ) where
  All-map : (xs : List A) → All (λ a. Good (f a)) xs → All Good (map f xs)
  All-map [] h = tt
  All-map (x ∷ xs) (g, h) = (g, All-map xs h)

  map-All : (xs : List A) → All Good (map f xs) → All (λ a. Good (f a)) xs
  map-All [] h = tt
  map-All (x ∷ xs) (g, h) = (g, map-All xs h)

module _ (short : Preimage → String) where
  ok_schedule : (s t : Schedule) → ◌≡◌ {A = Result LiveFaultError Schedule} (ok s) (ok t) → s ≡ t
  ok_schedule s t e = cc

  -- Among the targets is one that starts the services of a container again.
  abbrev pub ClearsService : String → List LabRecoveryTarget → String → Type 0
  ClearsService tag targets container =
      (t : LabRecoveryTarget) × Memᴰ t targets
      × (t.container ≡ container)
      × (t.clear
          ≡ clearing (service_job_id short tag container)
              (some (service_job_id short tag container)))

  -- The container was seen before, or its services are started again.
  abbrev pub SeenOrCleared : String → List String → List LabRecoveryTarget → String → Type 0
  SeenOrCleared tag seen targets container =
      (has seen container ≡ true) ⊎ ClearsService tag targets container

  pub add_deferred-All :
      (tag : String) (seen : List String) (actions : List ScheduledLabAction)
      → All (IsServiceLater short tag) actions
      → All (λ a. SeenOrCleared tag seen (add_deferred short tag seen actions) a.container) actions
  unfolding add_deferred
  add_deferred-All tag seen [] h = tt
  add_deferred-All tag seen (later ∷ actions) (g, h) =
      elim (Bool-cases (has seen later.container)) [
        | inl old ↦
            let same : add_deferred short tag seen (later ∷ actions)
                ≡ add_deferred short tag seen actions =
              rw (add_deferred, old) refl in
            (
              inl old,
              subst (λ ts. All (λ a. SeenOrCleared tag seen ts a.container) actions) (sym same)
                  (add_deferred-All tag seen actions h),
            )
        | inr new ↦
            let rest = add_deferred-All tag (later.container ∷ seen) actions h in
            let head = recovery_of_scheduled short tag later in
            let tail = add_deferred short tag (later.container ∷ seen) actions in
            let own : ClearsService tag (head ∷ tail) later.container =
              (head, Memᴰ.head refl, refl, ap (λ id. clearing id (some id)) g) in
            let same : add_deferred short tag seen (later ∷ actions) ≡ (head ∷ tail) =
              rw (add_deferred, new) refl in
            subst (λ ts. All (λ a. SeenOrCleared tag seen ts a.container) (later ∷ actions))
              (sym same)
              (
                inr own,
                All-implies (λ a. SeenOrCleared tag (later.container ∷ seen) tail a.container)
                    (λ a. SeenOrCleared tag seen (head ∷ tail) a.container)
                    (λ a k. elim k [
                      | inr (t, m, c, j) ↦ inr (t, Memᴰ.tail m, c, j)
                      | inl before ↦ elim (Bool-cases (later.container === a.container)) [
                        | inl same ↦
                            let e = (eq_iff later.container a.container).0 same in
                            inr (subst (ClearsService tag (head ∷ tail)) e own)
                        | inr other ↦ inl (ground arith)
                      ]
                    ])
                    actions rest,
              )
      ]

  pub faults-clear :
      (tag : String) (faults : List LabFault) (container : String)
      → All (IsServiceFault short tag) faults
      → has (map (λ fault. fault.container) faults) container ≡ true
      → ClearsService tag (map (recovery_of_fault short) faults) container
  faults-clear tag [] container g h = absurd (ground arith)
  faults-clear tag (fault ∷ faults) container (g, gs) h =
      elim (Bool-cases (fault.container === container)) [
        | inl same ↦
            let e = (eq_iff fault.container container).0 same in
            (
              recovery_of_fault short fault,
              Memᴰ.head refl,
              e,
              ap (λ id. clearing id (some id)) (g ∙ ap (service_job_id short tag) e),
            )
        | inr other ↦
            let (t, m, c, j) = faults-clear tag faults container gs (ground arith) in
            (t, Memᴰ.tail m, c, j)
      ]

  -- What recovery makes of the two lenient translations.
  abbrev pub recovery_of : String → Found → Schedule → RecoveryPlan
  recovery_of tag again more = record {
    targets =
        map (recovery_of_fault short) again.faults
        ++ add_deferred short tag (map (λ fault. fault.container) again.faults)
            (sort_scheduled more.actions);
    skipped = again.skipped + more.skipped;
  }

  -- The two translations of recovery, and what they have in common with those of the apply.
  pub record Recovered (input : LiveInput) (actions : List LiveAction) (found : Found)
      (schedule : Schedule) : Type 1 where
    pub again : Found
    pub more : Schedule
    pub lenient : lab_faults_for_plan short false (recovering input) actions ≡ ok again
    pub later :
        schedule_all short false (recovering input) actions (record { actions = []; skipped = 0 })
        ≡ ok more
    pub alike : Alike short found again
    pub same_undo :
        (good : LabRecoveryTarget → Type 0)
        → All (λ a. good (recovery_of_scheduled short input.run_tag a)) more.actions
        → All (λ a. good (recovery_of_scheduled short input.run_tag a)) schedule.actions
    pub unskipped : more.skipped ≡ 0
    pub returned :
        fault_recovery_targets_for_plan short input.targets input.run_tag actions
        ≡ ok (recovery_of input.run_tag again more)

  pub recovered :
      (input : LiveInput) (actions : List LiveAction) (found : Found) (schedule : Schedule)
      → lab_faults_for_plan short true input actions ≡ ok found
      → scheduled_lab_actions_for_plan short true input actions ≡ ok schedule
      → Recovered input actions found schedule
  unfolding scheduled_lab_actions_for_plan fault_recovery_targets_for_plan
  recovered input actions found schedule e f =
      let (again, lenient, alike) = lab_faults_for_plan-Alike short input actions found e in
      let start : Schedule = record { actions = []; skipped = 0 } in
      let (last, strict, sorted) =
        bind-ok (schedule_all short true input actions start) _ schedule f in
      let (more, later, undo) =
        schedule_all-SameUndo short input actions start last start
          (record { undone = refl; unskipped = refl }) strict in
      record {
        again = again;
        more = more;
        lenient = lenient;
        later = later;
        alike = alike;
        same_undo = λ good h.
            subst (λ s. All (λ a. good (recovery_of_scheduled short input.run_tag a)) s.actions)
              (ok_schedule _ schedule sorted)
              (sort-All (λ a. good (recovery_of_scheduled short input.run_tag a)) last.actions
                (map-All (recovery_of_scheduled short input.run_tag) good last.actions (
                  subst (All good) (sym undo.undone)
                    (All-map (recovery_of_scheduled short input.run_tag) good more.actions h))));
        unskipped = undo.unskipped;
        returned =
            ok-bind _ _ again _ lenient (ok-bind _ _ _ _ (ok-bind _ _ more _ later refl) refl);
      }

  All-own :
      (faults : List LabFault) (more : List LabRecoveryTarget)
      → All
          (λ f. Memᴰ (recovery_of_fault short f) (map (recovery_of_fault short) faults ++ more))
          faults
  All-own [] more = tt
  All-own (f ∷ faults) more = (
    Memᴰ.head refl,
    All-implies _
        (λ g. Memᴰ (recovery_of_fault short g) (map (recovery_of_fault short) (f ∷ faults) ++ more))
        (λ g m. Memᴰ.tail m) faults (All-own faults more),
  )

  -- Of a plan whose immediate faults and schedule the apply direction accepts, recovery can always be told: it
  -- skips nothing, and it clears every job that the apply commands put on, in the container where it is on.
  pub recovery_covers_faults :
      (input : LiveInput) (actions : List LiveAction) (found : Found) (schedule : Schedule)
      → lab_faults_for_plan short true input actions ≡ ok found
      → scheduled_lab_actions_for_plan short true input actions ≡ ok schedule
      → (plan : RecoveryPlan) × (fault_recovery_targets_for_plan short input.targets input.run_tag
            actions
          ≡ ok plan)
        × (plan.skipped ≡ 0)
        × All (λ fault. Memᴰ (recovery_of_fault short fault) plan.targets) found.faults
  recovery_covers_faults input actions found schedule e f =
      let r = recovered input actions found schedule e f in
      let none_faults = r.alike.unskipped in
      let none_later = r.unskipped in
      (
        recovery_of input.run_tag r.again r.more,
        r.returned,
        omega arith,
        map-All (recovery_of_fault short)
            (λ t. Memᴰ t (recovery_of input.run_tag r.again r.more).targets) found.faults
            (subst (All (λ t. Memᴰ t (recovery_of input.run_tag r.again r.more).targets))
              (sym r.alike.cleared)
              (All-map (recovery_of_fault short)
                (λ t. Memᴰ t (recovery_of input.run_tag r.again r.more).targets) r.again.faults
                (All-own r.again.faults (
                  add_deferred short input.run_tag (map (λ fault. fault.container) r.again.faults)
                    (sort_scheduled r.more.actions))))),
      )
