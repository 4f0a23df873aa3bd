-- ===== src/Live/Accepted.antt =====
-- The commands of `labFaultsForPlan` of server/src/simulator/liveExecutorPlan.ts before `parseWrapperCommand` of
-- server/src/simulator/netemRunner.ts.
use text.Mathlib.TextLemmas.{cons-append}
use devnet_deftrack.Common.{
  ℕ, ◌+◌, ◌≤◌, ◌≡◌, inl, inr, refl, String, Bool, true, false, ◌||◌, Option, some, List, [], ◌∷◌,
  ltb, ◌==◌, ◌===◌, ◌<>◌, Result, ok, throw_if, bind-ok, Result-cases, Bool-cases, Option-cases,
  arith, ap, ◌∙◌, subst, All, All-append, All-implies, eq_iff,
}
use devnet_deftrack.Netem.{FaultClass, NetemKind, DslFaultKind, DslFaultSpec, Preimage}
use devnet_deftrack.Netem.Args.{assert_fault_args, assert_dsl_fault_spec}
use devnet_deftrack.Netem.Slots.{prefix_of}
use devnet_deftrack.Netem.Plans.{netem_job_id, service_job_id, dsl_job_id}
use devnet_deftrack.Netem.Runner.{has}
use devnet_deftrack.Netem.Commands.{parse_wrapper_command, max_ttl_ms}
use devnet_deftrack.Netem.Sendable.{
  IsNamed, IsLease, IsSendable, print_command, parse_wrapper_command_iff,
}
use devnet_deftrack.Live.{
  ActionPayload, service_stop, service_start, netem_apply, partition_apply, dsl_fault_apply,
  dsl_fault_clear, fault_clear, LiveAction, Capability, service_control, netem_p2p, partition_p2p,
  dsl_test_hook, Target, LiveFaultError, unscheduled, target_by_id, declares, require_lab_target,
  LabFault,
}
use devnet_deftrack.Live.Faults.{
  LiveInput, Found, push_fault, compose_netem_args, checked, peer_addresses, when_immediate,
  dsl_fault, netem_fault, service_fault, translate_action, translate_all, nothing_found,
  lab_faults_for_plan,
}

abbrev pub IsHosted : Target → Type 0
IsHosted target = IsNamed target.host_ref

some_same : (s t : Target) → some s ≡ some t → s ≡ t
some_same s t e = cc

ok_target : (s t : Target) → ◌≡◌ {A = Result LiveFaultError Target} (ok s) (ok t) → s ≡ t
ok_target s t e = cc

ok_found : (s t : Found) → ◌≡◌ {A = Result LiveFaultError Found} (ok s) (ok t) → s ≡ t
ok_found s t e = cc

target_by_id-All :
    (id : String) (targets : List Target) (target : Target)
    → All IsHosted targets
    → target_by_id id targets ≡ some target
    → IsHosted target
target_by_id-All id [] target h e = absurd (cc)
target_by_id-All id (t ∷ targets) target (g, h) e = elim (Option-cases (target_by_id id targets)) [
  | inr (later, found) ↦ target_by_id-All id targets target h (found ∙ (rw found at e))
  | inl missing ↦ elim (Bool-cases (t.target_id === id)) [
    | inl here ↦
        let same : some t ≡ some target = rw (missing, here) at e in
        subst IsHosted (some_same t target same) g
    | inr other ↦ let bad = rw (missing, other) at e in absurd (cc)
  ]
]

require_lab_target-IsHosted :
    (targets : List Target) (id : String) (capability : Option Capability) (target : Target)
    → All IsHosted targets
    → require_lab_target targets id capability ≡ ok target
    → IsHosted target
unfolding require_lab_target
require_lab_target-IsHosted targets id capability target h e =
    elim (Option-cases (target_by_id id targets)) [
      | inl missing ↦ let bad = rw (require_lab_target, missing) at e in absurd (cc)
      | inr (t, found) ↦ elim (Bool-cases (t.network === "regtest")) [
        | inr elsewhere ↦ let bad = rw (require_lab_target, found, elsewhere) at e in absurd (cc)
        | inl lab ↦ elim (Bool-cases (declares capability t)) [
          | inr lacks ↦ let bad = rw (require_lab_target, found, lab, lacks) at e in absurd (cc)
          | inl able ↦
              subst IsHosted (ok_target t target (rw (require_lab_target, found, lab, able) at e))
                (target_by_id-All id targets t h found)
        ]
      ]
    ]

abbrev starts : String → Bool
starts String.[] = false
starts (String.◌∷◌ c s) = true

unblank-IsNamed : (s : String) → starts s ≡ true → IsNamed s
unblank-IsNamed s h = elim (Bool-cases (s === "")) [
  | inr named ↦ named
  | inl blank ↦ let e = ap starts ((eq_iff s "").0 blank) in absurd (cc)
]

-- A job id is no empty text.
job_id-IsNamed : (c : FaultClass) (x : String) → IsNamed (prefix_of c <> x)
job_id-IsNamed FaultClass.netem x = unblank-IsNamed ("netem-" <> x) (rw cons-append refl)
job_id-IsNamed FaultClass.service x = unblank-IsNamed ("service-" <> x) (rw cons-append refl)
job_id-IsNamed FaultClass.dsl x = unblank-IsNamed ("dsl-" <> x) (rw cons-append refl)

dsl_epochs :
    (spec : DslFaultSpec) (done : Unit {0})
    → checked (assert_dsl_fault_spec spec) ≡ ok done
    → (1 ≤ spec.epochs) × (spec.epochs ≤ 3)
unfolding assert_dsl_fault_spec
dsl_epochs spec done e = elim (Bool-cases (ltb spec.epochs 1 || ltb 3 spec.epochs)) [
  | inl bad ↦ let no = rw (assert_dsl_fault_spec, bad) at e in absurd (cc)
  | inr fine ↦ (ground arith, ground arith)
]

module _ (short : Preimage → String) (received : ℕ) (input : LiveInput) where
  abbrev pub TakesFault : LabFault → Type 0
  TakesFault fault = IsSendable received fault.apply

  push_fault-All :
      (f : LabFault) (found : Found)
      → TakesFault f
      → All TakesFault found.faults
      → All TakesFault (push_fault f found).faults
  push_fault-All f found g h = elim (Bool-cases (has found.seen f.job_id)) [
    | inl old ↦ rw old h
    | inr new ↦ rw new (All-append TakesFault found.faults (f ∷ []) h (g, tt))
  ]

  module _ (hosted : All IsHosted input.targets) (tagged : IsNamed input.run_tag)
      (lease : IsLease received input.expires_at_ms) where
    netem_fault-TakesFault :
        (target : Target) (kind : NetemKind) (args : List String)
        → IsHosted target
        → TakesFault (netem_fault short input target kind args)
    unfolding netem_job_id
    netem_fault-TakesFault target kind args h =
        (h, tagged, lease, job_id-IsNamed FaultClass.netem _)

    service_fault-TakesFault :
        (target : Target) → IsHosted target → TakesFault (service_fault short input target)
    unfolding service_job_id
    service_fault-TakesFault target h = (h, tagged, lease, job_id-IsNamed FaultClass.service _)

    dsl_fault-TakesFault :
        (target : Target) (kind : DslFaultKind) (epochs param : ℕ)
        → IsHosted target
        → (1 ≤ epochs) × (epochs ≤ 3)
        → TakesFault (dsl_fault short input target kind epochs param)
    unfolding dsl_job_id
    dsl_fault-TakesFault target kind epochs param h (low, high) =
        (h, low, high, tagged, tagged, lease, job_id-IsNamed FaultClass.dsl _)

    when_immediate-All :
        (action : LiveAction) (found next : Found) (rest : Result LiveFaultError Found)
        → All TakesFault found.faults
        → when_immediate input action found rest ≡ ok next
        → (rest ≡ ok next → All TakesFault next.faults)
        → All TakesFault next.faults
    when_immediate-All action found next rest h e k =
        elim (Bool-cases (action.not_before_offset_ms == 0)) [
          | inl at_once ↦ k (rw at_once at e)
          | inr later ↦ elim (Bool-cases input.defer_scheduled) [
            | inl defers ↦
                subst (λ f. All TakesFault f.faults) (ok_found found next (rw (later, defers) at e))
                  h
            | inr refuses ↦ let bad = rw (later, refuses) at e in absurd (cc)
          ]
        ]

    translate_action-All :
        (action : LiveAction) (payload : ActionPayload) (found next : Found)
        → All TakesFault found.faults
        → translate_action short input action payload found ≡ ok next
        → All TakesFault next.faults
    unfolding translate_action
    translate_action-All action fault_clear found next h e =
        subst (λ f. All TakesFault f.faults) (ok_found found next e) h
    translate_action-All action service_start found next h e =
        subst (λ f. All TakesFault f.faults) (ok_found found next e) h
    translate_action-All action (dsl_fault_clear kind) found next h e =
        subst (λ f. All TakesFault f.faults) (ok_found found next e) h
    translate_action-All action (netem_apply latency jitter loss correlation) found next h e =
        let (target, e1, h1) =
          bind-ok (require_lab_target input.targets action.target_id (some netem_p2p)) _ next e in
        let (args, e2, h2) =
          bind-ok (compose_netem_args latency jitter loss correlation) _ next h1 in
        let (fine, e3, h3) = bind-ok (checked (assert_fault_args NetemKind.netem args)) _ next h2 in
        subst (λ f. All TakesFault f.faults) (ok_found _ next h3)
          (push_fault-All (netem_fault short input target NetemKind.netem args) found
            (netem_fault-TakesFault target NetemKind.netem args (
              require_lab_target-IsHosted input.targets action.target_id (some netem_p2p) target
                hosted e1))
            h)
    translate_action-All action (partition_apply ids) found next h e =
        let (target, e1, h1) =
          bind-ok (require_lab_target input.targets action.target_id (some partition_p2p)) _ next
            e in
        let (args, e2, h2) = bind-ok (peer_addresses input.targets ids) _ next h1 in
        let (fine, e3, h3) =
          bind-ok (checked (assert_fault_args NetemKind.partition args)) _ next h2 in
        subst (λ f. All TakesFault f.faults) (ok_found _ next h3)
          (push_fault-All (netem_fault short input target NetemKind.partition args) found
            (netem_fault-TakesFault target NetemKind.partition args (
              require_lab_target-IsHosted input.targets action.target_id (some partition_p2p) target
                hosted e1))
            h)
    translate_action-All action (dsl_fault_apply kind epochs param) found next h e =
        when_immediate-All action found next _ h e (λ e0.
          let (target, e1, h1) =
            bind-ok (require_lab_target input.targets action.target_id (some dsl_test_hook)) _ next
              e0 in
          let (fine, e2, h2) = bind-ok (checked (assert_dsl_fault_spec _)) _ next h1 in
          subst (λ f. All TakesFault f.faults) (ok_found _ next h2)
            (push_fault-All (dsl_fault short input target kind epochs param) found
              (dsl_fault-TakesFault target kind epochs param
                (require_lab_target-IsHosted input.targets action.target_id (some dsl_test_hook)
                  target hosted e1)
                (dsl_epochs _ fine e2))
              h))
    translate_action-All action service_stop found next h e =
        when_immediate-All action found next _ h e (λ e0.
          let (free, e1, h1) =
            bind-ok (throw_if (has found.stopped_targets action.target_id) unscheduled) _ next e0 in
          let (target, e2, h2) =
            bind-ok (require_lab_target input.targets action.target_id (some service_control)) _
              next h1 in
          subst (λ f. All TakesFault f.faults) (ok_found _ next h2)
            (push_fault-All (service_fault short input target)
              (record found { stopped_targets = action.target_id ∷ found.stopped_targets })
              (service_fault-TakesFault target (
                require_lab_target-IsHosted input.targets action.target_id (some service_control)
                  target hosted e2))
              h))

    translate_all-All :
        (actions : List LiveAction) (found next : Found)
        → All TakesFault found.faults
        → translate_all short true input actions found ≡ ok next
        → All TakesFault next.faults
    unfolding translate_all
    translate_all-All [] found next h e =
        subst (λ f. All TakesFault f.faults) (ok_found found next e) h
    translate_all-All (action ∷ actions) found next h e =
        elim (Result-cases (translate_action short input action action.payload found)) [
          | inl (thrown, bad) ↦ let no = rw (translate_all, bad) at e in absurd (cc)
          | inr (mid, good) ↦
              translate_all-All actions mid next
                (translate_action-All action action.payload found mid h good)
                (rw (translate_all, good) at e)
        ]

-- Every apply command of a plan is accepted by the wrapper as it was sent, if it is received while the lease runs
-- and has at most an hour to go, the run has a tag and every target a host.
pub commands_accepted :
    (short : Preimage → String) (received : ℕ) (input : LiveInput) (actions : List LiveAction)
    (found : Found)
    → All IsHosted input.targets
    → IsNamed input.run_tag
    → IsLease received input.expires_at_ms
    → lab_faults_for_plan short true input actions ≡ ok found
    → All
        (λ fault. parse_wrapper_command (print_command fault.apply) received ≡ ok fault.apply)
        found.faults
unfolding lab_faults_for_plan
commands_accepted short received input actions found hosted tagged lease e =
    elim (Bool-cases (ltb (input.now_ms + max_ttl_ms) input.expires_at_ms)) [
      | inl long ↦ let no = rw (lab_faults_for_plan, long) at e in absurd (cc)
      | inr fits ↦
          All-implies (TakesFault short received input) _
            (λ fault sendable. (parse_wrapper_command_iff received fault.apply).1 sendable)
            found.faults
            (translate_all-All short received input hosted tagged lease actions
              (nothing_found short) found tt (rw (lab_faults_for_plan, fits) at e))
    ]
