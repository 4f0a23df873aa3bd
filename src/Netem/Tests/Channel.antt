-- ===== src/Netem/Tests/Channel.antt =====
-- The state file and the commands of the fault wrapper, and the lease ceiling, at concrete values.
use mathlib.Core.List.{Memᴰ}
use devnet_deftrack.Common.{◌≡◌, refl, false, some, [], ◌∷◌, map, ok, arith, String}
use devnet_deftrack.Netem.{FaultClass}
use devnet_deftrack.Netem.Runner.{stopping, tick_locked}
use devnet_deftrack.Netem.Superset.{afflicted}
use devnet_deftrack.Netem.Json.{
  Json, text, number, natural, infinite, array, object, item, no_items, field, empty_object,
}
use devnet_deftrack.Netem.State.{parse_wrapper_state, print_state}
use devnet_deftrack.Netem.RoundTrips.{stored, parse_wrapper_state-print_state}
use devnet_deftrack.Netem.Commands.{WrapperCommand, stopping_service, parse_wrapper_command}
use devnet_deftrack.Netem.Sendable.{IsSendable, print_command, parse_wrapper_command_iff}
use devnet_deftrack.Netem.Hour.{Lives, start, by_command, all_clear}
use devnet_deftrack.Netem.Tests.{
  lab, digest, digest-IsFaithful, quiet, quiet-IsSafe, smooth, broken, down, slow_plan, runner,
}

parse_wrapper_state-print_state_example :
    parse_wrapper_state (print_state slow_plan.jobs) ≡ ok (map stored slow_plan.jobs)
parse_wrapper_state-print_state_example = parse_wrapper_state-print_state slow_plan.jobs

-- A file of which one entry has no container, one an instant that is too large, and one is from an old version.
old_file :
    parse_wrapper_state (
      object (
        field "jobs"
          (array (
            item (object (field "jobId" (text "a") empty_object)) (
              item
                (object (
                  field "jobId" (text "b") (
                    field "container"
                      (text "c")
                      (field "expiresAtMs" (number infinite) empty_object))))
                (item
                  (object (
                    field "jobId" (text "d") (
                      field "container"
                        (text "c")
                        (field "expiresAtMs" (number (natural 7)) empty_object))))
                  no_items))))
          empty_object))
    ≡ ok (
        record {
          job_id = "d";
          run_tag = "";
          container = "c";
          fault_class = FaultClass.netem;
          kind = text "netem";
          args = [];
          applied_at_ms = natural 0;
          expires_at_ms = natural 7;
        }
        ∷ [])
unfolding parse_wrapper_state
old_file = refl

abbrev stop_command : WrapperCommand
stop_command = stopping_service "node-1" "t" 100 (some "c-1")

stop_command-IsSendable : IsSendable 10 stop_command
stop_command-IsSendable =
    (refl, refl, record { running = omega arith; short_enough = omega arith; safe = refl }, refl)

parse_wrapper_command_iff_example :
    ((raw : Json) → parse_wrapper_command raw 10 ≡ ok stop_command → IsSendable 10 stop_command)
    × (IsSendable 10 stop_command
        → parse_wrapper_command (print_command stop_command) 10 ≡ ok stop_command)
parse_wrapper_command_iff_example = parse_wrapper_command_iff 10 stop_command

stop_accepted : parse_wrapper_command (print_command stop_command) 10 ≡ ok stop_command
stop_accepted = (parse_wrapper_command_iff 10 stop_command).1 stop_command-IsSendable

down_lives : Lives lab digest 10 quiet down
unfolding runner
down_lives =
    Lives.cut_off start 10 broken (stopping "node-1" "t" 100)
      (by_command (print_command stop_command) 10 stop_command stop_accepted (omega arith)) tt
      (Memᴰ.tail (Memᴰ.head refl))

all_clear_example :
    let after = (tick_locked lab 3_600_010 smooth down).world in
    (after.jobs ≡ [])
    × ((c : String) (cls : FaultClass) → afflicted lab digest cls after.lab c ≡ false)
all_clear_example =
    all_clear lab digest 10 digest-IsFaithful quiet-IsSafe tt down_lives 3_600_010 smooth
      (omega arith) (λ k. refl) refl
