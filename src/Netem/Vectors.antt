-- ===== src/Netem/Vectors.antt =====
-- server/src/simulator/netemLease.ts: what reaches `tc` as an argument vector.
use devnet_deftrack.Common.{
  ℕ, ◌+◌, ◌≡◌, ◌≤◌, inl, inr, refl, String, Bool, true, not, List, [], ◌∷◌, ◌++◌, arith, All,
  Bool-cases, eq_iff, ◌===◌, ok, Result-cases, throw_if, subst, sym, ◌∙◌, length, all,
}
use devnet_deftrack.Netem.{NetemSpec, NetemKind, latency, loss, jitter, netem, partition}
use devnet_deftrack.Netem.Args.{
  bad_arguments, is_duration, is_percent, is_ipv4, tc_apply_args, tc_base, tc_partition_args,
  assert_netem_args, assert_composed_netem_args, assert_partition_peers, tc_vector, read_clause,
  skip_optional, finish_clauses, peer_filters,
}

-- A word that stands behind `netem` in an argument vector: a keyword, a duration or a percentage.
pub data IsTcWord (word : String) : Type 0 where
  is_delay_word : word ≡ "delay" → IsTcWord word
  is_loss_word : word ≡ "loss" → IsTcWord word
  duration : is_duration word ≡ true → IsTcWord word
  percent : is_percent word ≡ true → IsTcWord word

skip_optional-words :
    (test : String → Bool) (args : List String)
    → ((w : String) → test w ≡ true → IsTcWord w)
    → All IsTcWord (skip_optional test args)
    → All IsTcWord args
skip_optional-words test [] k h = h
skip_optional-words test (a ∷ more) k h = elim (Bool-cases (test a)) [
  | inl passes ↦ (k a passes, rw passes at h)
  | inr other ↦ rw other at h
]

-- A clause that was read consists of words, if what is left does.
read_clause-words :
    (word : String) (test : String → Bool) (args : List String) (rest : List String) (there : Bool)
    → IsTcWord word
    → ((w : String) → test w ≡ true → IsTcWord w)
    → read_clause word test args ≡ ok (rest, there)
    → All IsTcWord rest
    → All IsTcWord args
unfolding read_clause
read_clause-words word test [] rest there kw k e h = tt
read_clause-words word test (a ∷ []) rest there kw k e h = elim (Bool-cases (a === word)) [
  | inl same ↦ absurd (cc (rw same at e))
  | inr other ↦ let q : rest ≡ a ∷ [] = ground arith in subst (All IsTcWord) q h
]
read_clause-words word test (a ∷ b ∷ more) rest there kw k e h = elim (Bool-cases (a === word)) [
  | inr other ↦ let q : rest ≡ a ∷ b ∷ more = ground arith in subst (All IsTcWord) q h
  | inl same ↦ elim (Bool-cases (test b)) [
    | inr bad ↦ absurd (ground arith)
    | inl good ↦
        let q : rest ≡ skip_optional test more = ground arith in
        (
          subst IsTcWord (sym ((eq_iff a word).0 same)) kw,
          (k b good, skip_optional-words test more k (subst (All IsTcWord) q h)),
        )
  ]
]

left_none :
    (rest : List String) (delayed lossy : Bool)
    → finish_clauses delayed lossy rest ≡ ok tt
    → All IsTcWord rest
unfolding finish_clauses
left_none [] delayed lossy h = tt
left_none (a ∷ more) delayed lossy h = cc

composed-words : (args : List String) → assert_composed_netem_args args ≡ ok tt → All IsTcWord args
unfolding assert_composed_netem_args finish_clauses
composed-words args e = elim (Result-cases (read_clause "delay" is_duration args)) [
  | inl (bad, q) ↦ absurd (ground arith)
  | inr ((after, delayed), q) ↦ elim (Result-cases (read_clause "loss" is_percent after)) [
    | inl (bad, r) ↦ absurd (ground arith)
    | inr ((rest, lossy), r) ↦
        let words =
          read_clause-words "loss" is_percent after rest lossy (is_loss_word refl)
            (λ w h. percent h) r (left_none rest delayed lossy (ground arith)) in
        read_clause-words "delay" is_duration args after delayed (is_delay_word refl)
          (λ w h. duration h) q words
  ]
]

one_percent :
    (a : String) → throw_if (not (is_percent a)) bad_arguments ≡ ok tt → All IsTcWord (a ∷ [])
one_percent a e = let p : is_percent a ≡ true = ground arith in (percent p, tt)

-- The arguments of a fault that is no partition are words, if the check lets them pass.
netem-words :
    (kind : NetemKind) (args : List String)
    → assert_netem_args kind args ≡ ok tt
    → All IsTcWord args
unfolding assert_netem_args
netem-words latency (a ∷ []) e = let p : is_duration a ≡ true = ground arith in (duration p, tt)
netem-words latency [] e = cc
netem-words latency (a ∷ b ∷ more) e = cc
netem-words jitter (a ∷ b ∷ []) e =
    let p : is_duration a ≡ true = ground arith in
    let q : is_duration b ≡ true = ground arith in (duration p, (duration q, tt))
netem-words jitter [] e = cc
netem-words jitter (a ∷ []) e = cc
netem-words jitter (a ∷ b ∷ c ∷ more) e = cc
netem-words netem args e = composed-words args e
netem-words loss (a ∷ []) e = one_percent a e
netem-words loss [] e = cc
netem-words loss (a ∷ b ∷ more) e = cc
netem-words partition (a ∷ []) e = one_percent a e
netem-words partition [] e = cc
netem-words partition (a ∷ b ∷ more) e = cc

vector-words :
    (kind : NetemKind) (args : List String)
    → All IsTcWord args
    → (words : List String) × (tc_vector kind args ≡ tc_base ++ words) × All IsTcWord words
unfolding tc_vector
vector-words netem args h = (args, refl, h)
vector-words loss args h = ("loss" ∷ args, refl, (is_loss_word refl, h))
vector-words latency args h = ("delay" ∷ args, refl, (is_delay_word refl, h))
vector-words jitter args h = ("delay" ∷ args, refl, (is_delay_word refl, h))
vector-words partition args h = ("delay" ∷ args, refl, (is_delay_word refl, h))

-- The argument vector that `tcApplyArgs` makes of a fault, whatever its arguments were, is the fixed words
-- that replace the root discipline of the interface, followed only by keywords, durations and
-- percentages. The vectors of a partition, which `tcPartitionArgs` makes, are not among them.
pub tc_apply_args_words :
    (spec : NetemSpec) (vector : List String)
    → tc_apply_args spec ≡ ok vector
    → (words : List String) × (vector ≡ tc_base ++ words) × All IsTcWord words
unfolding tc_apply_args
tc_apply_args_words spec vector e = elim (Result-cases (assert_netem_args spec.kind spec.args)) [
  | inl (bad, q) ↦ absurd (ground arith)
  | inr (fine, q) ↦
      let same : vector ≡ tc_vector spec.kind spec.args = ground arith in
      let (words, form, all_words) =
        vector-words spec.kind spec.args (netem-words spec.kind spec.args q) in
      (words, same ∙ form, all_words)
]

peer_filters_count :
    (index : ℕ) (peers : List String) → length (peer_filters index peers) ≡ length peers
unfolding peer_filters
peer_filters_count index [] = refl
peer_filters_count index (peer ∷ peers) = ground (arith, peer_filters_count (index + 1) peers)

-- A partition that passes the checks becomes two disciplines and one filter for every peer, which
-- are at least one and at most thirty-two IPv4 addresses.
pub tc_partition_args_bounded :
    (spec : NetemSpec) (vectors : List (List String))
    → tc_partition_args spec ≡ ok vectors
    → (length vectors ≡ 2 + length spec.args)
      × (1 ≤ length spec.args)
      × (length spec.args ≤ 32)
      × (all is_ipv4 spec.args ≡ true)
unfolding tc_partition_args assert_partition_peers
tc_partition_args_bounded spec vectors e = let n = peer_filters_count 0 spec.args in ground arith
