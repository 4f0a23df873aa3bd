-- ===== src/Netem/Args.antt =====
-- server/src/simulator/netemLease.ts: the checks of fault arguments, and the `tc` argument vectors.
use Prim.Native.Char.{code}
use devnet_deftrack.Common.{
  ℕ, zero, suc, ◌+◌, String, Bool, true, false, not, ◌&&◌, ◌||◌, Option, none, some, List, [], ◌∷◌,
  ◌++◌, leb, ltb, ◌==◌, ◌===◌, ◌<>◌, if◌then◌else◌, Result, ok, err, ◌>>=◌, ◌>>◌, throw_if,
  is_blank, decimal, length, all,
}
use devnet_deftrack.Netem.{
  NetemKind, NetemSpec, DslFaultKind, DslFaultSpec, latency, loss, jitter, netem, partition,
  response_delay, report_delay,
}

-- Why a plan or a check throws; the messages are left out.
pub data FaultError : Type 0 where
  spent_lease bad_arguments bad_partition bad_dsl_fault : FaultError

codes : String → List ℕ
codes String.[] = []
codes (String.◌∷◌ c s) = code c ∷ codes s

abbrev is_digit : ℕ → Bool
is_digit c = leb b'0' c && leb c b'9'

-- `\d*` from the front: what is left behind the digits.
skip_digits : List ℕ → List ℕ
skip_digits [] = []
skip_digits (c ∷ cs) = if is_digit c then skip_digits cs else c ∷ cs

-- `\d+` from the front, or `none` without a digit.
digits_from : List ℕ → Option (List ℕ)
unfolding skip_digits
digits_from [] = none
digits_from (c ∷ cs) = if is_digit c then some (skip_digits cs) else none

abbrev same_codes : List ℕ → List ℕ → Bool
same_codes [] [] = true
same_codes (a ∷ more) (b ∷ bs) = a == b && same_codes more bs
same_codes _ _ = false

-- `DURATION`: `^\d+(us|ms|s)$`
unfoldable pub is_duration : String → Bool
unfolding digits_from codes
is_duration s = elim (digits_from (codes s)) [
  | none ↦ false
  | some rest ↦
      same_codes rest (codes "us") || same_codes rest (codes "ms") || same_codes rest (codes "s")
]

abbrev is_fraction : List ℕ → Bool
is_fraction (c ∷ cs) =
    c == b'.' && elim (digits_from cs) [ none ↦ false | some rest ↦ same_codes rest (b'%' ∷ []) ]
is_fraction [] = false

-- `PERCENT`: `^\d+(\.\d+)?%$`
unfoldable pub is_percent : String → Bool
unfolding digits_from codes
is_percent s = elim (digits_from (codes s)) [
  | none ↦ false
  | some rest ↦ same_codes rest (b'%' ∷ []) || is_fraction rest
]

-- `25[0-5]|2[0-4]\d|1\d\d|[1-9]?\d`
is_octet : List ℕ → Bool
is_octet (a ∷ []) = is_digit a
is_octet (a ∷ b ∷ []) = leb b'1' a && leb a b'9' && is_digit b
is_octet (a ∷ b ∷ c ∷ []) =
    (a == b'1' && is_digit b && is_digit c)
    || (a == b'2' && leb b'0' b && leb b b'4' && is_digit c)
    || (a == b'2' && b == b'5' && leb b'0' c && leb c b'5')
is_octet _ = false

-- The parts between the dots; `part` holds the characters since the last one.
split_dots : List ℕ → List ℕ → List (List ℕ)
split_dots part [] = part ∷ []
split_dots part (c ∷ cs) =
    let closed = part ∷ split_dots [] cs in
    let longer = split_dots (part ++ c ∷ []) cs in if c == b'.' then closed else longer

-- `IPV4`
unfoldable pub is_ipv4 : String → Bool
unfolding is_octet split_dots codes
is_ipv4 s = let parts = split_dots [] (codes s) in length parts == 4 && all is_octet parts

-- `args[i] !== undefined && test(args[i])`: skip one optional argument.
abbrev pub skip_optional : (String → Bool) → List String → List String
skip_optional test [] = []
skip_optional test (a ∷ more) = if test a then more else a ∷ more

-- One optional clause `word <value> [<value>]`: what is left, and whether the clause was there.
unfoldable pub read_clause :
    String → (String → Bool) → List String → Result FaultError (List String × Bool)
read_clause word test [] = ok ([], false)
read_clause word test (a ∷ []) = if a === word then err bad_arguments else ok (a ∷ [], false)
read_clause word test (a ∷ b ∷ rest) =
    if a === word
    then if test b then ok (skip_optional test rest, true) else err bad_arguments
    else ok (a ∷ b ∷ rest, false)

-- The last test: at least one clause, and nothing behind the clauses.
unfoldable pub finish_clauses : Bool → Bool → List String → Result FaultError (Unit {0})
finish_clauses delayed lossy [] = throw_if (not (delayed || lossy)) bad_arguments
finish_clauses delayed lossy (a ∷ more) = err bad_arguments

-- `assertComposedNetemArgs`
unfoldable pub assert_composed_netem_args : List String → Result FaultError (Unit {0})
unfolding read_clause finish_clauses is_duration is_percent
assert_composed_netem_args args = read_clause "delay" is_duration args >>= λ (after_delay, delayed).
    read_clause "loss" is_percent after_delay >>= λ (rest, lossy). finish_clauses delayed lossy rest

-- `assertNetemArgs`; the last branch is that of loss and of any other kind
unfoldable pub assert_netem_args : NetemKind → List String → Result FaultError (Unit {0})
unfolding is_duration is_percent assert_composed_netem_args
assert_netem_args latency (a ∷ []) = throw_if (not (is_duration a)) bad_arguments
assert_netem_args latency _ = err bad_arguments
assert_netem_args jitter (a ∷ b ∷ []) =
    throw_if (not (is_duration a) || not (is_duration b)) bad_arguments
assert_netem_args jitter _ = err bad_arguments
assert_netem_args netem args = assert_composed_netem_args args
assert_netem_args loss (a ∷ []) = throw_if (not (is_percent a)) bad_arguments
assert_netem_args loss _ = err bad_arguments
assert_netem_args partition (a ∷ []) = throw_if (not (is_percent a)) bad_arguments
assert_netem_args partition _ = err bad_arguments

abbrev member : String → List String → Bool
member a [] = false
member a (b ∷ bs) = a === b || member a bs

-- `new Set(peers).size !== peers.length`
abbrev has_duplicate : List String → Bool
has_duplicate [] = false
has_duplicate (a ∷ more) = member a more || has_duplicate more

-- `assertPartitionPeers`
unfoldable pub assert_partition_peers : List String → Result FaultError (Unit {0})
unfolding is_ipv4
assert_partition_peers peers = do
  throw_if (length peers == 0) bad_partition
  throw_if (ltb 32 (length peers)) bad_partition
  throw_if (has_duplicate peers) bad_partition
  throw_if (not (all is_ipv4 peers)) bad_partition

-- `assertFaultArgs`
unfoldable pub assert_fault_args : NetemKind → List String → Result FaultError (Unit {0})
unfolding assert_partition_peers assert_netem_args
assert_fault_args partition args = assert_partition_peers args
assert_fault_args kind args = assert_netem_args kind args

abbrev pub tc_base : List String
tc_base = "qdisc" ∷ "replace" ∷ "dev" ∷ "eth0" ∷ "root" ∷ "netem" ∷ []

unfoldable pub tc_vector : NetemKind → List String → List String
tc_vector netem args = tc_base ++ args
tc_vector loss args = tc_base ++ "loss" ∷ args
tc_vector _ args = tc_base ++ "delay" ∷ args

-- `tcApplyArgs`
unfoldable pub tc_apply_args : NetemSpec → Result FaultError (List String)
unfolding assert_netem_args tc_vector
tc_apply_args spec = do assert_netem_args spec.kind spec.args; ok (tc_vector spec.kind spec.args)

-- The filters of a partition, one a peer, with priorities from `index + 1` on.
unfoldable pub peer_filters : ℕ → List String → List (List String)
peer_filters index [] = []
peer_filters index (peer ∷ peers) =
    ("filter"
      ∷ "add"
      ∷ "dev"
      ∷ "eth0"
      ∷ "protocol"
      ∷ "ip"
      ∷ "parent"
      ∷ "1:"
      ∷ "prio"
      ∷ decimal (index + 1)
      ∷ "u32"
      ∷ "match"
      ∷ "ip"
      ∷ "dst"
      ∷ (peer <> "/32")
      ∷ "flowid"
      ∷ "1:4"
      ∷ [])
    ∷ peer_filters (index + 1) peers

zeros : ℕ → List String
zeros zero = []
zeros (suc n) = "0" ∷ zeros n

-- `tcPartitionArgs`
unfoldable pub tc_partition_args : NetemSpec → Result FaultError (List (List String))
unfolding assert_partition_peers peer_filters zeros
tc_partition_args spec = do
  assert_partition_peers spec.args
  ok (
      ("qdisc"
        ∷ "replace"
        ∷ "dev"
        ∷ "eth0"
        ∷ "root"
        ∷ "handle"
        ∷ "1:"
        ∷ "prio"
        ∷ "bands"
        ∷ "4"
        ∷ "priomap"
        ∷ zeros 16)
      ∷ ("qdisc" ∷ "replace" ∷ "dev" ∷ "eth0" ∷ "parent" ∷ "1:4" ∷ "handle" ∷ "40:" ∷ "netem"
          ∷ "loss" ∷ "100%" ∷ [])
      ∷ peer_filters 0 spec.args)

abbrev is_delay : DslFaultKind → Bool
is_delay response_delay = true
is_delay report_delay = true
is_delay _ = false

-- `assertDslFaultSpec`; a kind that is not among the known ones is no value of the model
unfoldable pub assert_dsl_fault_spec : DslFaultSpec → Result FaultError (Unit {0})
assert_dsl_fault_spec spec = do
  throw_if (ltb spec.epochs 1 || ltb 3 spec.epochs) bad_dsl_fault
  throw_if (ltb 1_000 spec.param) bad_dsl_fault
  throw_if (is_delay spec.fault_kind && spec.param == 0) bad_dsl_fault
  throw_if (not (is_delay spec.fault_kind) && not (spec.param == 0)) bad_dsl_fault
  throw_if (is_blank spec.scenario_id) bad_dsl_fault
