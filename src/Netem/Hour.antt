-- ===== src/Netem/Hour.antt =====
-- The lease ceiling over the lives of the wrapper: `parseWrapperCommand`, `dispatchWrapperCommand` and the
-- watchdog of server/src/simulator/netemRunner.ts.
use mathlib.Core.List.{Memᴰ}
use devnet_deftrack.Common.{
  ℕ, ◌+◌, ◌≤◌, ◌≡◌, inl, inr, refl, String, Bool, true, false, List, [], ◌∷◌, filter, All-filter,
  eq_refl, ok, arith, All, All-member, All-implies, Bool-cases, sym, subst, any,
}
use devnet_deftrack.Netem.{FaultJob, FaultClass, Preimage}
use devnet_deftrack.Netem.Json.{Json}
use devnet_deftrack.Netem.Slots.{IsFaithful}
use devnet_deftrack.Netem.Plans.{is_expired, has_id, sort_jobs, plan_sweep}
use devnet_deftrack.Netem.Runner.{LabHost, World, Script, Operation, run_operation, tick_locked}
use devnet_deftrack.Netem.Superset.{is_covered, afflicted, IsSafe}
use devnet_deftrack.Netem.Undo.{run_undos-same_jobs}
use devnet_deftrack.Netem.Recovery.{tick_locked-RunsSafe}
use devnet_deftrack.Netem.Restores.{AllLand, tick_restores}
use devnet_deftrack.Netem.Life.{IsReadable, Reaches, here, ran, died, reached-IsSafe}
use devnet_deftrack.Netem.Commands.{
  WrapperCommand, max_ttl_ms, parse_wrapper_command, operation_of, applying, stopping_service,
  setting_dsl_fault,
}
use devnet_deftrack.Netem.Sendable.{IsSendable, parse_wrapper_command-IsSendable}
use devnet_deftrack.Netem.Ceiling.{EndsBy}
use devnet_deftrack.Netem.Leases.{AsksBy, run_operation-RunsEndBy}

All-own : {A : Type 0} (xs : List A) → All (λ x. Memᴰ x xs) xs
All-own [] = tt
All-own (x ∷ xs) = (
  Memᴰ.head refl,
  All-implies (λ y. Memᴰ y xs) (λ y. Memᴰ y (x ∷ xs)) (λ y m. Memᴰ.tail m) xs (All-own xs),
)

module _ (host : LabHost) (short : Preimage → String) where
  IsSendable-AsksBy :
      (now limit : ℕ) (c : WrapperCommand)
      → now + max_ttl_ms ≤ limit
      → IsSendable now c
      → AsksBy host limit short (operation_of host short c)
  IsSendable-AsksBy now limit (applying container kind args tag lease id) e (n, t, l, g) =
      let least = l.short_enough in omega arith
  IsSendable-AsksBy now limit (stopping_service container tag lease id) e (n, t, l, g) =
      let least = l.short_enough in omega arith
  IsSendable-AsksBy now limit (setting_dsl_fault container kind epochs param scenario tag lease id)
        e (n, a, b, s, t, l, g) =
      let least = l.short_enough in omega arith
  IsSendable-AsksBy now limit (WrapperCommand.clearing job id) e h = tt

  -- An operation that the wrapper may run up to an instant: of a command that it accepted no later, of the
  -- watchdog, or of the start.
  pub data Allowed (until : ℕ) : Operation host short → Type 0 where
    by_command :
        (raw : Json) (received : ℕ) (c : WrapperCommand)
        → parse_wrapper_command raw received ≡ ok c
        → received ≤ until
        → Allowed until (operation_of host short c)
    by_watchdog : Allowed until Operation.ticking
    by_start : Allowed until Operation.booting

  -- What the lives of the wrapper lead to from a world up to an instant, with whole operations and with
  -- operations cut off at any world that they pass through.
  pub data Lives (until : ℕ) (w : World host) : World host → Type 0 where
    start : Lives until w w
    finished :
        {u : World host}
        → Lives until w u
        → (now : ℕ) (script : Script) (op : Operation host short) → Allowed until op
        → IsReadable host short script op
        → Lives until w (run_operation host short now script op u).world
    cut_off :
        {u v : World host}
        → Lives until w u
        → (now : ℕ) (script : Script) (op : Operation host short) → Allowed until op
        → IsReadable host short script op
        → Memᴰ v (run_operation host short now script op u).visited
        → Lives until w v

  Allowed-AsksBy :
      (until : ℕ) (op : Operation host short)
      → Allowed until op
      → AsksBy host (until + max_ttl_ms) short op
  Allowed-AsksBy until _ (by_command raw received c accepted early) =
      IsSendable-AsksBy received (until + max_ttl_ms) c (omega arith)
        (parse_wrapper_command-IsSendable raw received c accepted)
  Allowed-AsksBy until _ by_watchdog = tt
  Allowed-AsksBy until _ by_start = tt

  Lives-Reaches : (until : ℕ) {w v : World host} → Lives until w v → Reaches host short w v
  Lives-Reaches until start = here
  Lives-Reaches until (finished l now script op a r) = ran (Lives-Reaches until l) now script op r
  Lives-Reaches until (cut_off l now script op a r m) =
      died (Lives-Reaches until l) now script op r m

  -- Whatever commands the wrapper accepts up to an instant, whatever fails and wherever the process dies, no
  -- lease in its record ends later than an hour after the instant, if none did before.
  pub lease_ceiling :
      (until : ℕ) {w v : World host}
      → EndsBy (until + max_ttl_ms) w.jobs
      → Lives until w v
      → EndsBy (until + max_ttl_ms) v.jobs
  lease_ceiling until h start = h
  lease_ceiling until h (finished {u} l now script op a r) =
      (run_operation-RunsEndBy host (until + max_ttl_ms) short now script op u
        (Allowed-AsksBy until op a) (lease_ceiling until h l)).1
  lease_ceiling until h (cut_off {u} {v} l now script op a r m) =
      All-member (λ x. EndsBy (until + max_ttl_ms) x.jobs)
        (run_operation host short now script op u).visited
        (run_operation-RunsEndBy host (until + max_ttl_ms) short now script op u
          (Allowed-AsksBy until op a) (lease_ceiling until h l)).0
        m

  tick_locked-All {κ} :
      (Good : FaultJob → Type κ) (now : ℕ) (script : Script) (w : World host)
      → All Good w.jobs
      → All Good (tick_locked host now script w).world.jobs
  unfolding tick_locked plan_sweep
  tick_locked-All Good now script w h =
      go (sort_jobs (filter (is_expired now) w.jobs)) refl script.first_save refl
    where
      go :
          (jobs : List FaultJob)
          → sort_jobs (filter (is_expired now) w.jobs) ≡ jobs
          → (saves : Bool) → script.first_save ≡ saves
          → All Good (tick_locked host now script w).world.jobs
      go [] e saves s = rw (tick_locked, e) h
      go (job ∷ jobs) e true s =
          let same = run_undos-same_jobs host short (job ∷ jobs) script.outcome w in
          rw (tick_locked, e, s) (All-filter Good _ _ (subst (All Good) (sym same) h))
      go (job ∷ jobs) e false s =
          let same = run_undos-same_jobs host short (job ∷ jobs) script.outcome w in
          rw (tick_locked, e, s) (subst (All Good) (sym same) h)

  -- An hour after the last accepted command, a tick whose undos land and whose record can be read and saved leaves
  -- no fault on anywhere and an empty record: if the wrapper started from a record that covered the lab, had made
  -- its job ids, and had no lease beyond that hour, no boot failed to read its record, and the digest in job ids
  -- does not confuse containers.
  pub all_clear :
      (until : ℕ) {w v : World host}
      → IsFaithful short
      → IsSafe host short w
      → EndsBy (until + max_ttl_ms) w.jobs
      → Lives until w v
      → (now : ℕ) (script : Script) → until + max_ttl_ms ≤ now
      → AllLand script.outcome
      → script.first_save ≡ true
      → let after = (tick_locked host now script v).world in
        (after.jobs ≡ [])
        × ((c : String) (cls : FaultClass) → afflicted host short cls after.lab c ≡ false)
  unfolding run_operation
  all_clear until {w} {v} faithful safe ends lives now script late land saves = (empty, off)
    where
      after : World host
      after = (tick_locked host now script v).world

      safe_before : IsSafe host short v
      safe_before = reached-IsSafe host short faithful safe (Lives-Reaches until lives)

      safe_after : IsSafe host short (tick_locked host now script v).world
      safe_after = (tick_locked-RunsSafe host short faithful now script v safe_before).1

      stale : (j : FaultJob) → Memᴰ j v.jobs → is_expired now j ≡ true
      stale j m =
          let end =
            All-member (λ x. x.expires_at_ms ≤ until + max_ttl_ms) v.jobs
              (lease_ceiling until ends lives) m in
          ground arith

      gone :
          (j : FaultJob)
          → Memᴰ j v.jobs
          → any (has_id j.job_id) (tick_locked host now script v).world.jobs ≡ false
      gone j m =
          (tick_restores host short faithful now script v j safe_before.minted land saves m
            (stale j m)).1

      empty : (tick_locked host now script v).world.jobs ≡ []
      empty =
          go (tick_locked host now script v).world.jobs refl
            (tick_locked-All (λ j. Memᴰ j v.jobs) now script v (All-own v.jobs))
        where
          go :
              (jobs : List FaultJob)
              → (tick_locked host now script v).world.jobs ≡ jobs
              → All (λ j. Memᴰ j v.jobs) jobs
              → (tick_locked host now script v).world.jobs ≡ []
          go [] e h = e
          go (j ∷ jobs) e (m, ms) =
              let no : any (has_id j.job_id) (j ∷ jobs) ≡ false = rw e at (gone j m) in
              let own = eq_refl j.job_id in absurd (ground arith)

      off :
          (c : String) (cls : FaultClass)
          → afflicted host short cls (tick_locked host now script v).world.lab c ≡ false
      off c cls =
          elim (Bool-cases (afflicted host short cls (tick_locked host now script v).world.lab c)) [
            | inr clear ↦ clear
            | inl on ↦
                let bad : is_covered [] c cls ≡ true =
                  subst (λ jobs. is_covered jobs c cls ≡ true) empty (safe_after.covers c cls on) in
                absurd (ground arith)
          ]
