-- ===== src/Netem/Sendable.antt =====
-- Which commands `parseWrapperCommand` of server/src/simulator/netemRunner.ts lets through.
use devnet_deftrack.Common.{
  ℕ, ◌+◌, ◌≤◌, ◌<◌, ◌≡◌, inl, inr, refl, String, true, false, ◌&&◌, Option, none, some, List, [],
  ◌∷◌, ◌===◌, leb, Result, ok, bind-ok, arith, Bool-cases, is_safe_integer, subst,
}
use devnet_deftrack.Netem.{
  NetemKind, DslFaultKind, response_drop, report_drop, response_delay, report_delay,
  commitment_skip,
}
use devnet_deftrack.Netem.Json.{
  natural, negative, fraction, infinite, Json, null, number, text, array, object, boolean,
  empty_object, field, get, as_text, are_texts, text_items, is_object,
}
use devnet_deftrack.Netem.State.{netem_name}
use devnet_deftrack.Netem.Plans.{kind_name}
use devnet_deftrack.Netem.RoundTrips.{texts_of-text_items}
use devnet_deftrack.Netem.Commands.{
  WrapperCommand, applying, stopping_service, setting_dsl_fault, clearing, CommandError, max_ttl_ms,
  assert_lease_instant, need_text, command_id_of, netem_kind_of, dsl_fault_kind_of, need_netem_kind,
  need_fault_kind, need_epochs, need_param, need_args, parse_clear, parse_service_stop,
  parse_dsl_set, parse_apply, parse_op, parse_wrapper_command,
}

abbrev pub IsNamed : String → Type 0
IsNamed s = (s === "") ≡ false

abbrev pub IsHandle : Option String → Type 0
IsHandle none = Unit
IsHandle (some s) = IsNamed s

-- A lease that has not run out and lasts an hour at most.
pub record IsLease (now_ms lease : ℕ) : Type 0 where
  pub running : now_ms < lease
  pub short_enough : lease ≤ now_ms + max_ttl_ms
  pub safe : is_safe_integer lease ≡ true

-- What a command that the wrapper acts on is like.
abbrev pub IsSendable : ℕ → WrapperCommand → Type 0
IsSendable now (applying container kind args run_tag lease id) =
    IsNamed container × IsNamed run_tag × IsLease now lease × IsHandle id
IsSendable now (stopping_service container run_tag lease id) =
    IsNamed container × IsNamed run_tag × IsLease now lease × IsHandle id
IsSendable now (setting_dsl_fault container kind epochs param scenario_id run_tag lease id) =
    IsNamed container
    × (1 ≤ epochs)
    × (epochs ≤ 3)
    × IsNamed scenario_id
    × IsNamed run_tag
    × IsLease now lease
    × IsHandle id
IsSendable now (clearing job_id id) = IsNamed job_id × IsHandle id

need_text-IsNamed :
    (o : Option Json) (e : CommandError) (s : String) → need_text o e ≡ ok s → IsNamed s
need_text-IsNamed none e s h = absurd (cc)
need_text-IsNamed (some null) e s h = absurd (cc)
need_text-IsNamed (some (boolean _)) e s h = absurd (cc)
need_text-IsNamed (some (number _)) e s h = absurd (cc)
need_text-IsNamed (some (array _)) e s h = absurd (cc)
need_text-IsNamed (some (object _)) e s h = absurd (cc)
need_text-IsNamed (some (text t)) e s h = ground arith

command_id_of-IsHandle : (o : Option Json) → IsHandle (command_id_of o)
command_id_of-IsHandle none = tt
command_id_of-IsHandle (some null) = tt
command_id_of-IsHandle (some (boolean _)) = tt
command_id_of-IsHandle (some (number _)) = tt
command_id_of-IsHandle (some (array _)) = tt
command_id_of-IsHandle (some (object _)) = tt
command_id_of-IsHandle (some (text t)) = elim (Bool-cases (t === "")) [
  | inl blank ↦ rw blank tt
  | inr named ↦ rw named named
]

assert_lease_instant-IsLease :
    (o : Option Json) (now lease : ℕ) → assert_lease_instant o now ≡ ok lease → IsLease now lease
unfolding assert_lease_instant
assert_lease_instant-IsLease none now lease h = absurd (cc)
assert_lease_instant-IsLease (some null) now lease h = absurd (cc)
assert_lease_instant-IsLease (some (boolean _)) now lease h = absurd (cc)
assert_lease_instant-IsLease (some (text _)) now lease h = absurd (cc)
assert_lease_instant-IsLease (some (array _)) now lease h = absurd (cc)
assert_lease_instant-IsLease (some (object _)) now lease h = absurd (cc)
assert_lease_instant-IsLease (some (number infinite)) now lease h = absurd (cc)
assert_lease_instant-IsLease (some (number (fraction _))) now lease h = absurd (cc)
assert_lease_instant-IsLease (some (number (negative n))) now lease h = absurd (ground arith)
assert_lease_instant-IsLease (some (number (natural n))) now lease h = ground arith

need_epochs-bounds : (o : Option Json) (n : ℕ) → need_epochs o ≡ ok n → (1 ≤ n) × (n ≤ 3)
need_epochs-bounds none n h = absurd (cc)
need_epochs-bounds (some null) n h = absurd (cc)
need_epochs-bounds (some (boolean _)) n h = absurd (cc)
need_epochs-bounds (some (text _)) n h = absurd (cc)
need_epochs-bounds (some (array _)) n h = absurd (cc)
need_epochs-bounds (some (object _)) n h = absurd (cc)
need_epochs-bounds (some (number infinite)) n h = absurd (cc)
need_epochs-bounds (some (number (fraction _))) n h = absurd (cc)
need_epochs-bounds (some (number (negative _))) n h = absurd (cc)
need_epochs-bounds (some (number (natural m))) n h = ground arith

ok_same :
    (b c : WrapperCommand) → ◌≡◌ {A = Result CommandError WrapperCommand} (ok b) (ok c) → b ≡ c
ok_same b c e = cc

parse_clear-IsSendable :
    (raw : Json) (now : ℕ) (id : Option String) (c : WrapperCommand)
    → IsHandle id
    → parse_clear raw id ≡ ok c
    → IsSendable now c
parse_clear-IsSendable raw now id c g h =
    let (job_id, named, rest) =
      bind-ok (need_text (get "jobId" raw) CommandError.needs_job_id) _ c h in
    let n = need_text-IsNamed (get "jobId" raw) _ job_id named in
    subst (IsSendable now) (ok_same _ c rest) (n, g)

parse_service_stop-IsSendable :
    (raw : Json) (now : ℕ) (id : Option String) (c : WrapperCommand)
    → IsHandle id
    → parse_service_stop raw now id ≡ ok c
    → IsSendable now c
parse_service_stop-IsSendable raw now id c g h =
    let (container, e1, h1) =
      bind-ok (need_text (get "container" raw) CommandError.needs_container) _ c h in
    let (tag, e2, h2) = bind-ok (need_text (get "runTag" raw) CommandError.needs_run_tag) _ c h1 in
    let (lease, e3, h3) = bind-ok (assert_lease_instant (get "expiresAtMs" raw) now) _ c h2 in
    subst (IsSendable now) (ok_same _ c h3) (
      need_text-IsNamed (get "container" raw) _ container e1,
      need_text-IsNamed (get "runTag" raw) _ tag e2,
      assert_lease_instant-IsLease (get "expiresAtMs" raw) now lease e3,
      g,
    )

parse_dsl_set-IsSendable :
    (raw : Json) (now : ℕ) (id : Option String) (c : WrapperCommand)
    → IsHandle id
    → parse_dsl_set raw now id ≡ ok c
    → IsSendable now c
parse_dsl_set-IsSendable raw now id c g h =
    let (container, e1, h1) =
      bind-ok (need_text (get "container" raw) CommandError.needs_container) _ c h in
    let (kind, e2, h2) = bind-ok (need_fault_kind (get "faultKind" raw)) _ c h1 in
    let (epochs, e3, h3) = bind-ok (need_epochs (get "epochs" raw)) _ c h2 in
    let (param, e4, h4) = bind-ok (need_param (get "param" raw)) _ c h3 in
    let (scenario, e5, h5) =
      bind-ok (need_text (get "scenarioId" raw) CommandError.needs_scenario_id) _ c h4 in
    let (tag, e6, h6) = bind-ok (need_text (get "runTag" raw) CommandError.needs_run_tag) _ c h5 in
    let (lease, e7, h7) = bind-ok (assert_lease_instant (get "expiresAtMs" raw) now) _ c h6 in
    let bounds = need_epochs-bounds (get "epochs" raw) epochs e3 in
    subst (IsSendable now) (ok_same _ c h7) (
      need_text-IsNamed (get "container" raw) _ container e1,
      bounds.0,
      bounds.1,
      need_text-IsNamed (get "scenarioId" raw) _ scenario e5,
      need_text-IsNamed (get "runTag" raw) _ tag e6,
      assert_lease_instant-IsLease (get "expiresAtMs" raw) now lease e7,
      g,
    )

parse_apply-IsSendable :
    (raw : Json) (now : ℕ) (id : Option String) (c : WrapperCommand)
    → IsHandle id
    → parse_apply raw now id ≡ ok c
    → IsSendable now c
parse_apply-IsSendable raw now id c g h =
    let (container, e1, h1) =
      bind-ok (need_text (get "container" raw) CommandError.needs_container) _ c h in
    let (kind, e2, h2) = bind-ok (need_netem_kind (get "kind" raw)) _ c h1 in
    let (args, e3, h3) = bind-ok (need_args (get "args" raw)) _ c h2 in
    let (tag, e4, h4) = bind-ok (need_text (get "runTag" raw) CommandError.needs_run_tag) _ c h3 in
    let (lease, e5, h5) = bind-ok (assert_lease_instant (get "expiresAtMs" raw) now) _ c h4 in
    subst (IsSendable now) (ok_same _ c h5) (
      need_text-IsNamed (get "container" raw) _ container e1,
      need_text-IsNamed (get "runTag" raw) _ tag e4,
      assert_lease_instant-IsLease (get "expiresAtMs" raw) now lease e5,
      g,
    )

parse_op-IsSendable :
    (op : Option String) (raw : Json) (now : ℕ) (id : Option String) (c : WrapperCommand)
    → IsHandle id
    → parse_op op raw now id ≡ ok c
    → IsSendable now c
parse_op-IsSendable none raw now id c g h = absurd (cc)
parse_op-IsSendable (some op) raw now id c g h = elim (Bool-cases (op === "clear")) [
  | inl e ↦ parse_clear-IsSendable raw now id c g (rw e at h)
  | inr e1 ↦ elim (Bool-cases (op === "service-stop")) [
    | inl e ↦ parse_service_stop-IsSendable raw now id c g (rw (e1, e) at h)
    | inr e2 ↦ elim (Bool-cases (op === "dsl-set")) [
      | inl e ↦ parse_dsl_set-IsSendable raw now id c g (rw (e1, e2, e) at h)
      | inr e3 ↦ elim (Bool-cases (op === "apply")) [
        | inl e ↦ parse_apply-IsSendable raw now id c g (rw (e1, e2, e3, e) at h)
        | inr e4 ↦ let bad = rw (e1, e2, e3, e4) at h in absurd (cc)
      ]
    ]
  ]
]

pub parse_wrapper_command-IsSendable :
    (raw : Json) (now : ℕ) (c : WrapperCommand)
    → parse_wrapper_command raw now ≡ ok c
    → IsSendable now c
unfolding parse_wrapper_command
parse_wrapper_command-IsSendable raw now c h = elim (Bool-cases (is_object raw)) [
  | inr miss ↦ let bad = rw miss at h in absurd (cc)
  | inl fits ↦
      parse_op-IsSendable (as_text (get "op" raw)) raw now (command_id_of (get "commandId" raw)) c
        (command_id_of-IsHandle (get "commandId" raw)) (rw fits at h)
]

abbrev pub handle_json : Option String → Json
handle_json none = null
handle_json (some s) = text s

-- A command as it is sent
abbrev pub print_command : WrapperCommand → Json
print_command (applying container kind args run_tag lease id) = object (
    field "op" (text "apply") (
      field "container" (text container) (
        field "kind" (text (netem_name kind)) (
          field "args" (array (text_items args)) (
            field "runTag" (text run_tag) (
              field "expiresAtMs" (number (natural lease))
                (field "commandId" (handle_json id) empty_object)))))))
print_command (stopping_service container run_tag lease id) = object (
    field "op" (text "service-stop") (
      field "container" (text container) (
        field "runTag" (text run_tag) (
          field "expiresAtMs" (number (natural lease))
            (field "commandId" (handle_json id) empty_object)))))
print_command (setting_dsl_fault container kind epochs param scenario_id run_tag lease id) =
    object (
      field "op" (text "dsl-set") (
        field "container" (text container) (
          field "faultKind" (text (kind_name kind)) (
            field "epochs" (number (natural epochs)) (
              field "param" (number (natural param)) (
                field "scenarioId" (text scenario_id) (
                  field "runTag" (text run_tag) (
                    field "expiresAtMs" (number (natural lease))
                      (field "commandId" (handle_json id) empty_object)))))))))
print_command (clearing job_id id) = object (
    field "op" (text "clear")
      (field "jobId" (text job_id) (field "commandId" (handle_json id) empty_object)))

command_id_of-handle_json :
    (id : Option String) → IsHandle id → command_id_of (some (handle_json id)) ≡ id
command_id_of-handle_json none h = refl
command_id_of-handle_json (some s) h = rw h refl

are_texts-text_items : (strings : List String) → are_texts (text_items strings) ≡ true
are_texts-text_items [] = refl
are_texts-text_items (s ∷ strings) = are_texts-text_items strings

assert_lease_instant-IsLease_ok :
    (now lease : ℕ)
    → IsLease now lease
    → assert_lease_instant (some (number (natural lease))) now ≡ ok lease
unfolding assert_lease_instant
assert_lease_instant-IsLease_ok now lease h = ground (arith, h.running, h.short_enough, h.safe)

netem_kind_of-netem_name : (kind : NetemKind) → netem_kind_of (netem_name kind) ≡ some kind
netem_kind_of-netem_name NetemKind.latency = refl
netem_kind_of-netem_name NetemKind.loss = refl
netem_kind_of-netem_name NetemKind.jitter = refl
netem_kind_of-netem_name NetemKind.netem = refl
netem_kind_of-netem_name NetemKind.partition = refl

dsl_fault_kind_of-kind_name : (kind : DslFaultKind) → dsl_fault_kind_of (kind_name kind) ≡ some kind
dsl_fault_kind_of-kind_name response_drop = refl
dsl_fault_kind_of-kind_name report_drop = refl
dsl_fault_kind_of-kind_name response_delay = refl
dsl_fault_kind_of-kind_name report_delay = refl
dsl_fault_kind_of-kind_name commitment_skip = refl

parse_wrapper_command-print_command :
    (now : ℕ) (c : WrapperCommand)
    → IsSendable now c
    → parse_wrapper_command (print_command c) now ≡ ok c
unfolding parse_wrapper_command
parse_wrapper_command-print_command now (clearing job_id id) (n, g) =
    rw (n, command_id_of-handle_json id g) refl
parse_wrapper_command-print_command now (stopping_service container tag lease id) (n, t, l, g) =
    rw (n, t, assert_lease_instant-IsLease_ok now lease l, command_id_of-handle_json id g) refl
parse_wrapper_command-print_command now
      (setting_dsl_fault container kind epochs param scenario tag lease id) (n, a, b, s, t, l, g) =
    let within : (leb 1 epochs && leb epochs 3) ≡ true = ground arith in
    rw
      (
        n,
        need_fault_kind,
        dsl_fault_kind_of-kind_name kind,
        within,
        s,
        t,
        assert_lease_instant-IsLease_ok now lease l,
        command_id_of-handle_json id g,
      )
      refl
parse_wrapper_command-print_command now (applying container kind args tag lease id) (n, t, l, g) =
    rw
      (
        n,
        need_netem_kind,
        netem_kind_of-netem_name kind,
        are_texts-text_items args,
        texts_of-text_items args,
        t,
        assert_lease_instant-IsLease_ok now lease l,
        command_id_of-handle_json id g,
      )
      refl

-- The commands that the wrapper accepts at an instant are exactly those that name what they are about, whose
-- lease has not run out and lasts at most an hour, and whose fault of the daemon, if they set one, covers one to
-- three epochs: whatever it accepts is such a command, and such a command is accepted as it was sent.
pub parse_wrapper_command_iff :
    (now : ℕ) (c : WrapperCommand)
    → ((raw : Json) → parse_wrapper_command raw now ≡ ok c → IsSendable now c)
      × (IsSendable now c → parse_wrapper_command (print_command c) now ≡ ok c)
parse_wrapper_command_iff now c = (
  λ raw accepted. parse_wrapper_command-IsSendable raw now c accepted,
  λ sendable. parse_wrapper_command-print_command now c sendable,
)
