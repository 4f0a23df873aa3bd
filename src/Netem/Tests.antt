-- ===== src/Netem/Tests.antt =====
-- The fault wrapper on a host of two containers, and its laws at concrete runs.
mod Channel
use mathlib.Core.List.{Memᴰ, Perm}
use devnet_deftrack.Common.{
  ◌≡◌, ◌⊎◌, inl, inr, refl, String, Bool, true, false, none, some, List, [], ◌∷◌, eq_iff, eq_refl,
  Bool-cases, if◌then◌else◌, ◌===◌, sym, ap, any, All, all, ◌++◌, map, filter, ◌≤◌, ◌+◌,
}
use devnet_deftrack.Netem.{
  NetemSpec, NetemKind, FaultClass, FaultJob, FaultAction, apply, clear, stop, start, dsl_set,
  dsl_clear, Preimage, container_of, undo_for, Plan,
}
use devnet_deftrack.Netem.Args.{
  is_duration, is_percent, is_ipv4, tc_apply_args, assert_netem_args, assert_partition_peers,
  tc_partition_args, peer_filters, tc_vector, tc_base,
}
use devnet_deftrack.Netem.Slots.{IsFaithful}
use devnet_deftrack.Netem.Plans.{
  plan_apply, plan_sweep, plan_boot_recovery, sort_jobs, netem_job_id, service_job_id, is_expired,
  has_id, tc_vectors, plan_service_stop, service_job, netem_job,
}
use devnet_deftrack.Netem.Runner.{
  LabHost, World, impairs, stops, Script, lands, fails_late, run_operation, run_loaded,
  stop_service_locked, apply_locked, tick_locked, boot_cleanup_locked, stopping, run_undos,
  recover_all, run_actions,
}
use devnet_deftrack.Netem.Superset.{is_covered, afflicted, IsSafe}
use devnet_deftrack.Netem.Repeats.{plan_sweep-IsRanked, IsRanked}
use devnet_deftrack.Netem.Vectors.{IsTcWord, tc_apply_args_words, tc_partition_args_bounded}
use devnet_deftrack.Netem.Life.{reached-IsSafe, Reaches, here, died, record_covers_lab}
use devnet_deftrack.Netem.Restores.{boot_restores, tick_restores}

runner : Unit {0}
unfolding run_operation run_loaded stop_service_locked apply_locked tick_locked boot_cleanup_locked
    run_undos recover_all run_actions plan_service_stop plan_apply plan_sweep plan_boot_recovery
    sort_jobs undo_for service_job_id
runner = tt

-- A lab as two tables.
record Tables : Type 0 where
  impaired : String → Bool
  stopped : String → Bool

abbrev put : String → Bool → (String → Bool) → String → Bool
put c value table d = if d === c then value else table d

abbrev perform_on : FaultAction → Tables → Tables
perform_on (apply c _) l = record l { impaired = put c true l.impaired }
perform_on (clear c _) l = record l { impaired = put c false l.impaired }
perform_on (stop c) l = record l { stopped = put c true l.stopped }
perform_on (start c) l = record l { stopped = put c false l.stopped }
perform_on (dsl_set _) l = l
perform_on (dsl_clear _ _) l = l

put_on :
    (c : String) (table : String → Bool) (d : String)
    → put c true table d ≡ true
    → (table d ≡ true) ⊎ (some c ≡ some d)
put_on c table d h = elim (Bool-cases (d === c)) [
  | inl same ↦ inr (ap some (sym ((eq_iff d c).0 same)))
  | inr other ↦ inl (rw other at h)
]

put_off :
    {P : Type 0} (c : String) (table : String → Bool) (d : String)
    → put c false table d ≡ true
    → (table d ≡ true) ⊎ P
put_off c table d h = elim (Bool-cases (d === c)) [
  | inl same ↦ absurd (cc (rw same at h))
  | inr other ↦ inl (rw other at h)
]

put_self : (c : String) (value : Bool) (table : String → Bool) → put c value table c ≡ value
put_self c value table = rw (eq_refl c) refl

lab_impaired_by :
    (a : FaultAction) (l : Tables) (c : String)
    → (perform_on a l).impaired c ≡ true
    → (l.impaired c ≡ true) ⊎ (impairs a ≡ some c)
lab_impaired_by (apply c args) l d h = put_on c l.impaired d h
lab_impaired_by (clear c args) l d h = put_off c l.impaired d h
lab_impaired_by (stop c) l d h = inl h
lab_impaired_by (start c) l d h = inl h
lab_impaired_by (dsl_set spec) l d h = inl h
lab_impaired_by (dsl_clear c id) l d h = inl h

lab_stopped_by :
    (a : FaultAction) (l : Tables) (c : String)
    → (perform_on a l).stopped c ≡ true
    → (l.stopped c ≡ true) ⊎ (stops a ≡ some c)
lab_stopped_by (apply c args) l d h = inl h
lab_stopped_by (clear c args) l d h = inl h
lab_stopped_by (stop c) l d h = put_on c l.stopped d h
lab_stopped_by (start c) l d h = put_off c l.stopped d h
lab_stopped_by (dsl_set spec) l d h = inl h
lab_stopped_by (dsl_clear c id) l d h = inl h

abbrev lab : LabHost
lab = record {
  Lab = Tables;
  perform = perform_on;
  impaired = λ l c. l.impaired c;
  stopped = λ l c. l.stopped c;
  impaired_by = lab_impaired_by;
  stopped_by = lab_stopped_by;
  clear_undoes = λ c args l. put_self c false l.impaired;
  start_undoes = λ c l. put_self c false l.stopped;
}

-- A digest of the container alone.
abbrev digest : Preimage → String
digest = container_of

digest-IsFaithful : IsFaithful digest
digest-IsFaithful = record { container = λ p q h. h }

abbrev quiet : World lab
quiet = record { jobs = []; lab = record { impaired = λ c. false; stopped = λ c. false } }

quiet-IsSafe : IsSafe lab digest quiet
quiet-IsSafe = record { covers = quiet-Covers; minted = tt }
  where
    quiet-Covers :
        (c : String) (cls : FaultClass)
        → afflicted lab digest cls quiet.lab c ≡ true
        → is_covered [] c cls ≡ true
    quiet-Covers c FaultClass.netem on = on
    quiet-Covers c FaultClass.service on = on
    quiet-Covers c FaultClass.dsl on = on

abbrev smooth : Script
smooth = record {
  loads = true;
  outcome = λ k. lands;
  first_save = true;
  second_save = true;
  fault_id = none;
}

abbrev broken : Script
broken = record smooth { outcome = λ k. fails_late }

abbrev down_job : FaultJob
down_job = service_job digest "node-1" "t" 10 100

-- The world after a stop of a container, or after one whose reply got lost.
abbrev down : World lab
down = record {
  jobs = down_job ∷ [];
  lab = record quiet.lab { stopped = put "node-1" true (λ c. false) };
}

down_reached : Reaches lab digest quiet down
unfolding runner
down_reached = died here 10 broken (stopping "node-1" "t" 100) tt (Memᴰ.tail (Memᴰ.head refl))

down-IsSafe : IsSafe lab digest down
down-IsSafe = reached-IsSafe lab digest digest-IsFaithful quiet-IsSafe down_reached

record_covers_lab_example : is_covered down.jobs "node-1" FaultClass.service ≡ true
record_covers_lab_example =
    record_covers_lab lab digest digest-IsFaithful quiet-IsSafe down_reached "node-1"
      FaultClass.service refl

boot_restores_example :
    let after = (boot_cleanup_locked lab smooth down).world in
    (after.jobs ≡ [])
    × ((c : String) (cls : FaultClass) → afflicted lab digest cls after.lab c ≡ false)
boot_restores_example = boot_restores lab digest smooth down down-IsSafe refl (λ k. refl) refl

tick_restores_example :
    let after = (tick_locked lab 100 smooth down).world in
    (afflicted lab digest FaultClass.service after.lab "node-1" ≡ false)
    × (any (has_id down_job.job_id) after.jobs ≡ false)
unfolding runner
tick_restores_example =
    tick_restores lab digest digest-IsFaithful 100 smooth down down_job down-IsSafe.minted
      (λ k. refl) refl (Memᴰ.head refl) refl

vectors_code : Unit {0}
unfolding tc_apply_args tc_partition_args tc_vectors assert_netem_args assert_partition_peers
    peer_filters tc_vector is_duration is_percent is_ipv4 plan_apply netem_job_id
vectors_code = tt

abbrev slow : NetemSpec
slow = record { container = "node-2"; kind = NetemKind.jitter; args = "100ms" ∷ "20ms" ∷ [] }

abbrev slow_plan : Plan
slow_plan = record {
  jobs = down_job ∷ netem_job digest slow "t" 10 100 ∷ [];
  actions = apply "node-2" (tc_base ++ "delay" ∷ "100ms" ∷ "20ms" ∷ []) ∷ [];
}

tc_apply_args_words_example :
    (words : List String) × (tc_base ++ "delay" ∷ "100ms" ∷ "20ms" ∷ [] ≡ tc_base ++ words)
    × All IsTcWord words
unfolding vectors_code
tc_apply_args_words_example =
    tc_apply_args_words slow (tc_base ++ "delay" ∷ "100ms" ∷ "20ms" ∷ []) refl

abbrev cut_off : NetemSpec
cut_off = record {
  container = "node-1";
  kind = NetemKind.partition;
  args = "10.0.0.2" ∷ "10.0.0.3" ∷ [];
}
