-- ===== src/Netem/Commands.antt =====
-- `parseWrapperCommand`, `assertLeaseInstant` and `dispatchWrapperCommand` of
-- server/src/simulator/netemRunner.ts: what the wrapper accepts as a command, and which operation it runs.
use devnet_deftrack.Common.{
  ℕ, ◌+◌, String, not, ◌&&◌, Option, none, some, List, ◌===◌, leb, ltb, if◌then◌else◌, Result, ok,
  err, ◌>>=◌, ◌>>◌, throw_if, is_safe_integer,
}
use devnet_deftrack.Netem.{
  NetemKind, DslFaultKind, response_drop, report_drop, response_delay, report_delay,
  commitment_skip, Preimage,
}
use devnet_deftrack.Netem.Json.{
  natural, negative, Json, number, text, array, get, is_object, as_text, are_texts, texts_of,
}
use devnet_deftrack.Netem.Runner.{LabHost, World, Ran, Script, Operation, run_operation}

-- `WrapperCommand`
pub data WrapperCommand : Type 0 where
  applying :
      (container : String) (kind : NetemKind) (args : List String) (run_tag : String)
      (expires_at_ms : ℕ) (command_id : Option String)
      → WrapperCommand
  stopping_service :
      (container run_tag : String) (expires_at_ms : ℕ) (command_id : Option String) → WrapperCommand
  setting_dsl_fault :
      (container : String) (fault_kind : DslFaultKind) (epochs param : ℕ)
      (scenario_id run_tag : String) (expires_at_ms : ℕ) (command_id : Option String)
      → WrapperCommand
  clearing : (job_id : String) (command_id : Option String) → WrapperCommand

-- The errors that are thrown, by their messages
pub data CommandError : Type 0 where
  needs_object needs_job_id needs_container needs_run_tag needs_instant : CommandError
  beyond_ceiling already_spent needs_fault_kind needs_epochs needs_param : CommandError
  needs_scenario_id needs_kind needs_args unknown_op : CommandError

-- `MAX_TTL_MS`
abbrev pub max_ttl_ms : ℕ
max_ttl_ms = 3_600_000

-- `assertLeaseInstant`, with the instant
unfoldable pub assert_lease_instant : Option Json → (now_ms : ℕ) → Result CommandError ℕ
assert_lease_instant (some (number (natural n))) now_ms = do
  throw_if (not (is_safe_integer n)) needs_instant
  throw_if (ltb (now_ms + max_ttl_ms) n) beyond_ceiling
  throw_if (leb n now_ms) already_spent
  ok n
assert_lease_instant (some (number (negative n))) now_ms =
    if is_safe_integer (n + 1) then err already_spent else err needs_instant
assert_lease_instant _ now_ms = err needs_instant

-- A field that must be a string that is not empty, and the error without it
abbrev pub need_text : Option Json → CommandError → Result CommandError String
need_text (some (text s)) e = if s === "" then err e else ok s
need_text _ e = err e

-- `commandId`
abbrev pub command_id_of : Option Json → Option String
command_id_of (some (text s)) = if s === "" then none else some s
command_id_of _ = none

-- A name among those of the `NETEM_KINDS`
abbrev pub netem_kind_of : String → Option NetemKind
netem_kind_of s =
    if s === "latency"
    then some NetemKind.latency
    else (if s === "loss"
        then some NetemKind.loss
        else (if s === "jitter"
            then some NetemKind.jitter
            else (if s === "netem"
                then some NetemKind.netem
                else (if s === "partition" then some NetemKind.partition else none))))

-- A name among the `DSL_FAULT_KIND_NAMES`
abbrev pub dsl_fault_kind_of : String → Option DslFaultKind
dsl_fault_kind_of s =
    if s === "response-drop"
    then some response_drop
    else (if s === "report-drop"
        then some report_drop
        else (if s === "response-delay"
            then some response_delay
            else (if s === "report-delay"
                then some report_delay
                else (if s === "commitment-skip" then some commitment_skip else none))))

abbrev pub need_netem_kind : Option Json → Result CommandError NetemKind
need_netem_kind (some (text s)) = elim (netem_kind_of s) [
  | none ↦ err needs_kind
  | some kind ↦ ok kind
]
need_netem_kind _ = err needs_kind

abbrev pub need_fault_kind : Option Json → Result CommandError DslFaultKind
need_fault_kind (some (text s)) = elim (dsl_fault_kind_of s) [
  | none ↦ err needs_fault_kind
  | some kind ↦ ok kind
]
need_fault_kind _ = err needs_fault_kind

-- An integer from a least to a greatest one, where there is one
abbrev pub need_epochs : Option Json → Result CommandError ℕ
need_epochs (some (number (natural n))) = if leb 1 n && leb n 3 then ok n else err needs_epochs
need_epochs _ = err needs_epochs

abbrev pub need_param : Option Json → Result CommandError ℕ
need_param (some (number (natural n))) = ok n
need_param _ = err needs_param

abbrev pub need_args : Option Json → Result CommandError (List String)
need_args (some (array items)) = if are_texts items then ok (texts_of items) else err needs_args
need_args _ = err needs_args

-- The branch for `clear`
abbrev pub parse_clear : Json → (command_id : Option String) → Result CommandError WrapperCommand
parse_clear raw command_id = do
  job_id ← need_text (get "jobId" raw) needs_job_id
  ok (clearing job_id command_id)

-- The branch for `service-stop`
abbrev pub parse_service_stop :
    Json → (now_ms : ℕ) → (command_id : Option String) → Result CommandError WrapperCommand
parse_service_stop raw now_ms command_id = do
  container ← need_text (get "container" raw) needs_container
  run_tag ← need_text (get "runTag" raw) needs_run_tag
  expires_at_ms ← assert_lease_instant (get "expiresAtMs" raw) now_ms
  ok (stopping_service container run_tag expires_at_ms command_id)

-- The branch for `dsl-set`
abbrev pub parse_dsl_set :
    Json → (now_ms : ℕ) → (command_id : Option String) → Result CommandError WrapperCommand
parse_dsl_set raw now_ms command_id = do
  container ← need_text (get "container" raw) needs_container
  fault_kind ← need_fault_kind (get "faultKind" raw)
  epochs ← need_epochs (get "epochs" raw)
  param ← need_param (get "param" raw)
  scenario_id ← need_text (get "scenarioId" raw) needs_scenario_id
  run_tag ← need_text (get "runTag" raw) needs_run_tag
  expires_at_ms ← assert_lease_instant (get "expiresAtMs" raw) now_ms
  ok (
      setting_dsl_fault container fault_kind epochs param scenario_id run_tag expires_at_ms
        command_id)

-- The branch for `apply`
abbrev pub parse_apply :
    Json → (now_ms : ℕ) → (command_id : Option String) → Result CommandError WrapperCommand
parse_apply raw now_ms command_id = do
  container ← need_text (get "container" raw) needs_container
  kind ← need_netem_kind (get "kind" raw)
  args ← need_args (get "args" raw)
  run_tag ← need_text (get "runTag" raw) needs_run_tag
  expires_at_ms ← assert_lease_instant (get "expiresAtMs" raw) now_ms
  ok (applying container kind args run_tag expires_at_ms command_id)

-- The choice by `op`
abbrev pub parse_op :
    (op : Option String)
    → Json
    → (now_ms : ℕ) → (command_id : Option String) → Result CommandError WrapperCommand
parse_op none raw now_ms command_id = err unknown_op
parse_op (some op) raw now_ms command_id =
    if op === "clear"
    then parse_clear raw command_id
    else (if op === "service-stop"
        then parse_service_stop raw now_ms command_id
        else (if op === "dsl-set"
            then parse_dsl_set raw now_ms command_id
            else (if op === "apply" then parse_apply raw now_ms command_id else err unknown_op)))

-- `parseWrapperCommand`
unfoldable pub parse_wrapper_command : Json → (now_ms : ℕ) → Result CommandError WrapperCommand
unfolding assert_lease_instant
parse_wrapper_command raw now_ms =
    if is_object raw
    then parse_op (as_text (get "op" raw)) raw now_ms (command_id_of (get "commandId" raw))
    else err needs_object

module _ (host : LabHost) (short : Preimage → String) where
  -- The call of the runner that a command makes
  abbrev pub operation_of : WrapperCommand → Operation host short
  operation_of (applying container kind args run_tag expires_at_ms id) =
      Operation.applying (record { container = container; kind = kind; args = args }) run_tag
        expires_at_ms
  operation_of (stopping_service container run_tag expires_at_ms id) =
      Operation.stopping container run_tag expires_at_ms
  operation_of
        (setting_dsl_fault container fault_kind epochs param scenario_id run_tag expires_at_ms id) =
      Operation.setting_dsl
        (record {
          container = container;
          fault_kind = fault_kind;
          epochs = epochs;
          param = param;
          scenario_id = scenario_id;
        })
        run_tag expires_at_ms
  operation_of (clearing job_id id) = Operation.clearing job_id

  -- `dispatchWrapperCommand`
  unfoldable pub dispatch_wrapper_command :
      (now_ms : ℕ) → Script → WrapperCommand → World host → Ran host
  unfolding run_operation
  dispatch_wrapper_command now_ms script command w =
      run_operation host short now_ms script (operation_of command) w
