-- ===== src/Netem/State.antt =====
-- `parseWrapperState` of server/src/simulator/netemLease.ts, which reads the stored record, and what
-- `JSON.stringify` stores of it.
use devnet_deftrack.Common.{
  String, Option, none, some, List, [], ◌∷◌, ◌===◌, if◌then◌else◌, Result, ok, err,
}
use devnet_deftrack.Netem.{
  FaultClass, NetemKind, JobKind, netem_kind, service_stop, dsl_kind, FaultJob,
}
use devnet_deftrack.Netem.Json.{
  Number, natural, Json, null, number, text, array, object, Items, no_items, item, Fields,
  empty_object, field, get, is_object, as_text, as_finite, as_items, texts_of, text_items,
}

-- A job as it is read: its kind is whatever stands there, its times are any finite numbers.
pub record StoredJob : Type 0 where
  pub job_id : String
  pub run_tag : String
  pub container : String
  pub fault_class : FaultClass
  pub kind : Json
  pub args : List String
  pub applied_at_ms : Number
  pub expires_at_ms : Number

pub data WrapperStateError : Type 0 where
  not_an_object no_jobs_array : WrapperStateError

-- The class that is read, by its name
abbrev pub class_of : Option String → FaultClass
class_of (some name) =
    if name === "service"
    then FaultClass.service
    else (if name === "dsl" then FaultClass.dsl else FaultClass.netem)
class_of none = FaultClass.netem

-- `job.kind ?? 'netem'`
abbrev pub kind_or_netem : Option Json → Json
kind_or_netem none = text "netem"
kind_or_netem (some null) = text "netem"
kind_or_netem (some kind) = kind

abbrev pub or_else {ℓ} : {A : Type ℓ} → Option A → A → A
or_else (some a) b = a
or_else none b = b

abbrev pub args_of : Option Items → List String
args_of (some items) = texts_of items
args_of none = []

-- The body of the loop: `none` where it goes on to the next entry
unfoldable pub read_job : Json → Option StoredJob
read_job entry = elim (as_text (get "jobId" entry)) [
  | none ↦ none
  | some job_id ↦ elim (as_text (get "container" entry)) [
    | none ↦ none
    | some container ↦ elim (as_finite (get "expiresAtMs" entry)) [
      | none ↦ none
      | some expires_at_ms ↦ some (record {
        job_id = job_id;
        run_tag = or_else (as_text (get "runTag" entry)) "";
        container = container;
        fault_class = class_of (as_text (get "faultClass" entry));
        kind = kind_or_netem (get "kind" entry);
        args = args_of (as_items (get "args" entry));
        applied_at_ms = or_else (as_finite (get "appliedAtMs" entry)) (natural 0);
        expires_at_ms = expires_at_ms;
      })
    ]
  ]
]

-- The loop over the entries
unfoldable pub read_jobs : Items → List StoredJob
unfolding read_job
read_jobs no_items = []
read_jobs (item entry items) = elim (read_job entry) [
  | none ↦ read_jobs items
  | some job ↦ job ∷ read_jobs items
]

-- `parseWrapperState`
unfoldable pub parse_wrapper_state : Json → Result WrapperStateError (List StoredJob)
unfolding read_jobs
parse_wrapper_state raw =
    if is_object raw
    then elim (as_items (get "jobs" raw)) [
      | none ↦ err no_jobs_array
      | some jobs ↦ ok (read_jobs jobs)
    ]
    else err not_an_object

abbrev pub class_name : FaultClass → String
class_name FaultClass.netem = "netem"
class_name FaultClass.service = "service"
class_name FaultClass.dsl = "dsl"

abbrev pub netem_name : NetemKind → String
netem_name NetemKind.latency = "latency"
netem_name NetemKind.loss = "loss"
netem_name NetemKind.jitter = "jitter"
netem_name NetemKind.netem = "netem"
netem_name NetemKind.partition = "partition"

abbrev pub job_kind_name : JobKind → String
job_kind_name (netem_kind kind) = netem_name kind
job_kind_name service_stop = "service-stop"
job_kind_name dsl_kind = "dsl"

-- A field that is left out where it is undefined
abbrev pub class_field : Option FaultClass → Fields → Fields
class_field none fields = fields
class_field (some c) fields = field "faultClass" (text (class_name c)) fields

abbrev pub print_job : FaultJob → Json
print_job job = object (
    field "jobId" (text job.job_id) (
      field "runTag" (text job.run_tag) (
        field "container" (text job.container) (
          class_field job.fault_class (
            field "kind" (text (job_kind_name job.kind)) (
              field "args" (array (text_items job.args)) (
                field "appliedAtMs" (number (natural job.applied_at_ms))
                  (field "expiresAtMs" (number (natural job.expires_at_ms)) empty_object))))))))

abbrev pub print_jobs : List FaultJob → Items
print_jobs [] = no_items
print_jobs (job ∷ jobs) = item (print_job job) (print_jobs jobs)

-- The state file
abbrev pub print_state : List FaultJob → Json
print_state jobs = object (field "jobs" (array (print_jobs jobs)) empty_object)
