-- ===== src/Live/Stops.antt =====
-- What recovery starts again of the stops of server/src/simulator/liveExecutorPlan.ts.
use mathlib.Core.List.Memᴰ
use devnet_deftrack.Common.{
  ◌+◌, ◌≡◌, inl, inr, refl, String, Bool, true, false, ◌||◌, List, [], ◌∷◌, map, any, ltb, Result,
  ok, throw_if, arith, sym, ◌∙◌, subst, All, All-implies,
}
use devnet_deftrack.Netem.{Preimage}
use devnet_deftrack.Live.{LiveAction, LiveFaultError, unsupported}
use devnet_deftrack.Live.Faults.{LiveInput, Found, lab_faults_for_plan, nothing_found}
use devnet_deftrack.Live.Scheduled.{
  Schedule, sort_scheduled, scheduled_lab_actions_for_plan, puts_netem, puts_service, puts_dsl,
  clears_dsl, assert_single_fault_class, one_if,
}
use devnet_deftrack.Live.Recovery.{
  RecoveryPlan, recovery_of_fault, add_deferred, fault_recovery_targets_for_plan,
}
use devnet_deftrack.Live.Covered.{recovering}
use devnet_deftrack.Live.Services.{
  is_service_action, IsServiceLater, translate_all-All, schedule_all-All,
}
use devnet_deftrack.Live.Cleared.{
  All-sort, sort-All, ClearsService, SeenOrCleared, add_deferred-All, faults-clear, recovery_of,
  recovered,
}

head_false : (a b : Bool) → (a || b) ≡ false → (a ≡ false) × (b ≡ false)
head_false a b h = ground arith

ok_plan : (s t : RecoveryPlan) → ◌≡◌ {A = Result LiveFaultError RecoveryPlan} (ok s) (ok t) → s ≡ t
ok_plan s t e = cc

service_actions-All :
    (actions : List LiveAction)
    → any puts_netem actions ≡ false
    → any puts_dsl actions ≡ false
    → any clears_dsl actions ≡ false
    → All (λ a. is_service_action a ≡ true) actions
service_actions-All [] n d c = tt
service_actions-All (action ∷ actions) n d c =
    let one = head_false (puts_netem action) (any puts_netem actions) n in
    let two = head_false (puts_dsl action) (any puts_dsl actions) d in
    let three = head_false (clears_dsl action) (any clears_dsl actions) c in
    (rw (one.0, two.0, three.0) refl, service_actions-All actions one.1 two.1 three.1)

alone :
    (n s d : Bool)
    → throw_if (ltb 1 (one_if n + one_if s + one_if d)) unsupported ≡ ok tt
    → s ≡ true
    → (n ≡ false) × (d ≡ false)
alone false s false h e = (refl, refl)
alone false true true h e = absurd (cc)
alone true true d h e = absurd (ground arith)
alone false false true h e = absurd (cc)
alone true false d h e = absurd (cc)

single_class :
    (actions : List LiveAction)
    → assert_single_fault_class actions ≡ ok tt
    → any puts_service actions ≡ true
    → (any puts_netem actions ≡ false) × (any puts_dsl actions ≡ false)
unfolding assert_single_fault_class
single_class actions h s =
    alone (any puts_netem actions) (any puts_service actions) (any puts_dsl actions) h s

module _ (short : Preimage → String) where
  -- Of a plan of one fault class that stops services, recovery starts again every container that its schedule may
  -- have stopped, if the apply direction accepts the plan and no action of it clears a fault of the daemon.
  pub recovery_restarts_services :
      (input : LiveInput) (actions : List LiveAction) (found : Found) (schedule : Schedule)
      (plan : RecoveryPlan)
      → assert_single_fault_class actions ≡ ok tt
      → any puts_service actions ≡ true
      → any clears_dsl actions ≡ false
      → lab_faults_for_plan short true input actions ≡ ok found
      → scheduled_lab_actions_for_plan short true input actions ≡ ok schedule
      → fault_recovery_targets_for_plan short input.targets input.run_tag actions ≡ ok plan
      → All
          (λ later. ClearsService short input.run_tag plan.targets later.container)
          schedule.actions
  unfolding lab_faults_for_plan
  recovery_restarts_services input actions found schedule plan single stops clears e f p =
      let r = recovered short input actions found schedule e f in
      let (netem, dsl) = single_class actions single stops in
      let services = service_actions-All actions netem dsl clears in
      let faults =
        translate_all-All short (recovering input) actions (nothing_found short) r.again services tt
          r.lenient in
      let later =
        schedule_all-All short (recovering input) actions (record { actions = []; skipped = 0 })
          r.more services tt r.later in
      let containers = map (λ fault. fault.container) r.again.faults in
      let deferred = add_deferred short input.run_tag containers (sort_scheduled r.more.actions) in
      let cleared =
        add_deferred-All short input.run_tag containers (sort_scheduled r.more.actions)
          (sort-All (IsServiceLater short input.run_tag) r.more.actions later) in
      subst
        (λ x. All (λ a. ClearsService short input.run_tag x.targets a.container) schedule.actions)
        (ok_plan _ plan (sym r.returned ∙ p))
        (r.same_undo
          (λ t.
            ClearsService short input.run_tag
              (recovery_of short input.run_tag r.again r.more).targets t.container)
          (All-implies (λ a. SeenOrCleared short input.run_tag containers deferred a.container)
            (λ a.
              ClearsService short input.run_tag
                (recovery_of short input.run_tag r.again r.more).targets a.container)
            (λ a k. elim k [
              | inl seen ↦
                  let (t, m, c, j) =
                    faults-clear short input.run_tag r.again.faults a.container faults seen in
                  (t, Memᴰ.append_left deferred m, c, j)
              | inr (t, m, c, j) ↦
                  (t, Memᴰ.append_right (map (recovery_of_fault short) r.again.faults) m, c, j)
            ])
            r.more.actions
            (All-sort (λ a. SeenOrCleared short input.run_tag containers deferred a.container)
              r.more.actions cleared)))
