-- ===== src/Live/Faults.antt =====
-- `composeNetemArgs` and `labFaultsForPlan` of server/src/simulator/liveExecutorPlan.ts: the faults that a plan
-- puts on at once. A job id's digest is a parameter.
use devnet_deftrack.Common.{
  ℕ, ◌+◌, String, Bool, true, false, ◌&&◌, none, some, List, [], ◌∷◌, ◌++◌, ltb, ◌==◌, ◌<>◌,
  if◌then◌else◌, Result, ok, err, ◌>>=◌, ◌>>◌, throw_if,
}
use devnet_deftrack.Netem.{FaultClass, NetemKind, DslFaultKind, Preimage}
use devnet_deftrack.Netem.Args.{FaultError, assert_fault_args, assert_dsl_fault_spec}
use devnet_deftrack.Netem.Plans.{netem_job_id, service_job_id, dsl_job_id}
use devnet_deftrack.Netem.Runner.{has}
use devnet_deftrack.Netem.Commands.{applying, stopping_service, setting_dsl_fault, max_ttl_ms}
use devnet_deftrack.Live.{
  Amount, ActionPayload, service_stop, service_start, netem_apply, partition_apply, dsl_fault_apply,
  dsl_fault_clear, fault_clear, LiveAction, service_control, netem_p2p, partition_p2p,
  dsl_test_hook, Target, LiveFaultError, unsupported, unscheduled, nothing_composed, refused,
  require_lab_target, LabFault,
}

-- `${value}ms` and `formatPercent`
abbrev pub in_ms : Amount → String
in_ms amount = amount.digits <> "ms"

abbrev pub format_percent : Amount → String
format_percent amount = amount.digits <> "%"

abbrev pub when_positive : Amount → List String → List String
when_positive amount args = if amount.is_positive then args else []

-- `composeNetemArgs`
unfoldable pub compose_netem_args :
    (latency jitter loss correlation : Amount) → Result LiveFaultError (List String)
compose_netem_args latency jitter loss correlation =
    let args =
      when_positive latency ("delay" ∷ in_ms latency ∷ when_positive jitter (in_ms jitter ∷ []))
      ++ when_positive loss (
          "loss"
          ∷ format_percent loss
          ∷ when_positive correlation (format_percent correlation ∷ [])) in
    elim args [ [] ↦ err nothing_composed | arg ∷ rest ↦ ok (arg ∷ rest) ]

-- A check of the wrapper's arguments, which throws through the translation
abbrev pub checked : Result FaultError (Unit {0}) → Result LiveFaultError (Unit {0})
checked (ok done) = ok done
checked (err e) = err (refused e)

-- What a translation of a plan has found so far
pub record Found : Type 0 where
  pub faults : List LabFault
  pub seen : List String
  pub stopped_targets : List String
  pub skipped : ℕ

-- What `labFaultsForPlan` is told beside the plan and its direction
pub record LiveInput : Type 0 where
  pub targets : List Target
  pub run_tag : String
  pub expires_at_ms : ℕ
  pub now_ms : ℕ
  pub defer_scheduled : Bool

-- `if (seen.has(jobId)) continue; seen.add(jobId); faults.push(fault);`
abbrev pub push_fault : LabFault → Found → Found
push_fault fault found =
    if has found.seen fault.job_id
    then found
    else record found { faults = found.faults ++ fault ∷ []; seen = fault.job_id ∷ found.seen }

-- `payload.peerTargetIds.map(...)`
abbrev pub peer_addresses : List Target → List String → Result LiveFaultError (List String)
peer_addresses targets [] = ok []
peer_addresses targets (id ∷ ids) = do
  peer ← require_lab_target targets id none
  rest ← peer_addresses targets ids
  ok (elim peer.chain_host_ref [ none ↦ peer.host_ref | some address ↦ address ] ∷ rest)

-- The rest of a body for an action that has to be immediate: with an offset it is left to a dispatcher, or
-- refused where there is none.
abbrev pub when_immediate :
    LiveInput → LiveAction → Found → Result LiveFaultError Found → Result LiveFaultError Found
when_immediate input action found rest =
    if action.not_before_offset_ms == 0
    then rest
    else (if input.defer_scheduled then ok found else err unscheduled)

module _ (short : Preimage → String) where
  abbrev pub dsl_fault : LiveInput → Target → DslFaultKind → (epochs param : ℕ) → LabFault
  dsl_fault input target kind epochs param =
      let job_id = dsl_job_id short input.run_tag target.host_ref kind in
      record {
        target_id = target.target_id;
        container = target.host_ref;
        fault_class = FaultClass.dsl;
        job_id = job_id;
        apply =
            setting_dsl_fault target.host_ref kind epochs param input.run_tag input.run_tag
              input.expires_at_ms (some job_id);
      }

  abbrev pub netem_fault : LiveInput → Target → NetemKind → List String → LabFault
  netem_fault input target kind args =
      let job_id =
        netem_job_id short input.run_tag
          (record { container = target.host_ref; kind = kind; args = args }) in
      record {
        target_id = target.target_id;
        container = target.host_ref;
        fault_class = FaultClass.netem;
        job_id = job_id;
        apply = applying target.host_ref kind args input.run_tag input.expires_at_ms (some job_id);
      }

  abbrev pub service_fault : LiveInput → Target → LabFault
  service_fault input target =
      let job_id = service_job_id short input.run_tag target.host_ref in
      record {
        target_id = target.target_id;
        container = target.host_ref;
        fault_class = FaultClass.service;
        job_id = job_id;
        apply = stopping_service target.host_ref input.run_tag input.expires_at_ms (some job_id);
      }

  -- The body of the loop, without the handling of what it throws
  unfoldable pub translate_action :
      LiveInput → LiveAction → ActionPayload → Found → Result LiveFaultError Found
  unfolding compose_netem_args require_lab_target
  translate_action input action fault_clear found = ok found
  translate_action input action service_start found = ok found
  translate_action input action (dsl_fault_clear kind) found = ok found
  translate_action input action (dsl_fault_apply kind epochs param) found =
      when_immediate input action found (do
        target ← require_lab_target input.targets action.target_id (some dsl_test_hook)
        checked (
            assert_dsl_fault_spec (record {
              container = target.host_ref;
              fault_kind = kind;
              epochs = epochs;
              param = param;
              scenario_id = input.run_tag;
            }))
        ok (push_fault (dsl_fault input target kind epochs param) found))
  translate_action input action (netem_apply latency jitter loss correlation) found = do
    target ← require_lab_target input.targets action.target_id (some netem_p2p)
    args ← compose_netem_args latency jitter loss correlation
    checked (assert_fault_args NetemKind.netem args)
    ok (push_fault (netem_fault input target NetemKind.netem args) found)
  translate_action input action (partition_apply peer_ids) found = do
    target ← require_lab_target input.targets action.target_id (some partition_p2p)
    peers ← peer_addresses input.targets peer_ids
    checked (assert_fault_args NetemKind.partition peers)
    ok (push_fault (netem_fault input target NetemKind.partition peers) found)
  translate_action input action service_stop found = when_immediate input action found (do
    throw_if (has found.stopped_targets action.target_id) unscheduled
    target ← require_lab_target input.targets action.target_id (some service_control)
    ok (
        push_fault (service_fault input target)
          (record found { stopped_targets = action.target_id ∷ found.stopped_targets })))

  -- The loop over the actions; `refuse` throws in the strict direction and counts in the other.
  unfoldable pub translate_all :
      (strict : Bool) → LiveInput → List LiveAction → Found → Result LiveFaultError Found
  unfolding translate_action
  translate_all strict input [] found = ok found
  translate_all strict input (action ∷ actions) found =
      elim (translate_action input action action.payload found) [
        | ok next ↦ translate_all strict input actions next
        | err e ↦ elim strict [
          | true ↦ err e
          | false ↦
              translate_all strict input actions (record found { skipped = found.skipped + 1 })
        ]
      ]

  abbrev pub nothing_found : Found
  nothing_found = record { faults = []; seen = []; stopped_targets = []; skipped = 0 }

  -- `labFaultsForPlan`
  unfoldable pub lab_faults_for_plan :
      (strict : Bool) → LiveInput → List LiveAction → Result LiveFaultError Found
  unfolding translate_all
  lab_faults_for_plan strict input actions =
      if strict && ltb (input.now_ms + max_ttl_ms) input.expires_at_ms
      then err unsupported
      else translate_all strict input actions nothing_found
