-- ===== src/Dkg/Missed.antt =====
-- server/src/domain/dkgWindows.ts: the range of windows that an outage of a length covers, and the number that
-- it covers from a start.
use native.Mathlib.Nat.{
  mod-lt, div-add-mod', mul-le-mul_right, suc-mul, add-mul, le-div_iff_mul-le, div-mul-le_self,
}
use devnet_deftrack.Common.{
  ℕ, zero, suc, ◌+◌, ◌-◌, ◌*◌, ◌/◌, ◌%◌, ◌≤◌, ◌<◌, ◌≡◌, ◌⊎◌, inl, inr, refl, true, leb, ◌==◌, arith,
  Bool-cases, leb→le, le→leb, sym, subst,
}
use devnet_deftrack.Dkg.Windows.{
  LlmqProfile, dkg_windows_covered, is_missed, count_missed, dkg_windows_from_anchor,
}

module _ (start end : ℕ) (profile : LlmqProfile) (q : ℕ) where
  count_at_most :
      (cycles cycle : ℕ)
      → let n = count_missed cycles cycle start end profile q in
        (n ≡ 0)
        ⊎ ((q
                + cycle * profile.dkg_interval
                + 2 * profile.dkg_phase_blocks
                + n * profile.dkg_interval
              ≤ end + 2 * profile.dkg_interval)
            × (start + profile.dkg_phase_blocks + n * profile.dkg_interval
                ≤ end + profile.dkg_interval))
  unfolding count_missed
  count_at_most zero cycle = inl refl
  count_at_most (suc cycles) cycle =
      let rest = count_at_most cycles (cycle + 1) in
      let more = count_missed cycles (cycle + 1) start end profile q in
      let next : (cycle + 1) * profile.dkg_interval
          ≡ cycle * profile.dkg_interval + profile.dkg_interval =
        omega arith in
      let one_more : (1 + more) * profile.dkg_interval
          ≡ profile.dkg_interval + more * profile.dkg_interval =
        omega arith in
      elim (Bool-cases (is_missed cycle start end profile q)) [
        | inr spared ↦
            rw (spared, count_missed)
              (elim rest [
                | inl none_left ↦ inl (omega (arith, none_left))
                | inr (a, b) ↦ inr (omega (arith, a, next), omega (arith, b))
              ])
        | inl hit ↦
            let early : start + profile.dkg_interval
                ≤ q + cycle * profile.dkg_interval + profile.dkg_phase_blocks =
              ground arith in
            let late : q + cycle * profile.dkg_interval + 2 * profile.dkg_phase_blocks
                ≤ end + profile.dkg_interval =
              ground arith in
            rw (hit, count_missed)
              (inr (elim rest [
                | inl none_left ↦
                    let alone : (1 + more) * profile.dkg_interval ≡ profile.dkg_interval =
                      rw none_left (omega arith) in
                    (omega (arith, alone), omega (arith, alone))
                | inr (a, b) ↦ (omega (arith, a, next), omega (arith, a, next))
              ]))
      ]

  count_at_least :
      (cycles cycle from n : ℕ)
      → cycle ≤ from
      → from + n ≤ cycle + cycles
      → ((i : ℕ) → from ≤ i → i < from + n → is_missed i start end profile q ≡ true)
      → n ≤ count_missed cycles cycle start end profile q
  unfolding count_missed
  count_at_least zero cycle from n a b k = omega arith
  count_at_least (suc cycles) cycle from zero a b k = omega arith
  count_at_least (suc cycles) cycle from (suc n) a b k = elim (Bool-cases (leb from cycle)) [
    | inl here ↦
        let same : cycle ≡ from = ground arith in
        let hit = k from (omega arith) (omega arith) in
        let rest =
          count_at_least cycles (cycle + 1) (from + 1) n (omega arith) (omega arith)
            (λ i c d. k i (omega arith) (omega arith)) in
        rw (subst (λ x. is_missed x start end profile q ≡ true) (sym same) hit)
          (omega (arith, rest))
    | inr later ↦
        let before : cycle < from = ground arith in
        let rest = count_at_least cycles (cycle + 1) from (suc n) (omega arith) (omega arith) k in
        omega (arith, rest)
  ]

-- The numbers of windows times the interval, against the length of the outage.
missed_blocks :
    (start duration : ℕ) (profile : LlmqProfile) (q : ℕ)
    → let missed = dkg_windows_from_anchor start duration profile q in
      (missed ≡ 0)
      ⊎ (missed * profile.dkg_interval + profile.dkg_phase_blocks ≤ duration + profile.dkg_interval)
unfolding dkg_windows_from_anchor
missed_blocks start duration profile q =
    elim (count_at_most start (start + duration) profile q
      ((start + duration - q) / profile.dkg_interval + 2 + 1 - (start - q) / profile.dkg_interval)
      ((start - q) / profile.dkg_interval)) [
        | inl none_missed ↦ inl none_missed
        | inr (a, b) ↦ inr (omega (arith, b))
      ]

-- The windows of `count` cycles in a row lie within an outage, if the first one starts at most `slack`
-- blocks into it and the last one ends in it.
run_of_windows :
    (start end : ℕ) (profile : LlmqProfile) (q first count i : ℕ)
    → start + profile.dkg_interval ≤ q + first * profile.dkg_interval + profile.dkg_phase_blocks
    → q + first * profile.dkg_interval + count * profile.dkg_interval + 2 * profile.dkg_phase_blocks
      ≤ end + 2 * profile.dkg_interval
    → first ≤ i
    → i < first + count
    → is_missed i start end profile q ≡ true
run_of_windows start end profile q first count i a b lo hi =
    let low = mul-le-mul_right profile.dkg_interval lo in
    let high = mul-le-mul_right profile.dkg_interval hi in
    let step = suc-mul i profile.dkg_interval in
    let sum = add-mul first count profile.dkg_interval in
    let c =
      le→leb (start + profile.dkg_interval)
        (q + i * profile.dkg_interval + profile.dkg_phase_blocks) (omega arith) in
    let d =
      le→leb (q + i * profile.dkg_interval + 2 * profile.dkg_phase_blocks)
        (end + profile.dkg_interval) (omega arith) in
    ground arith

below_one : (n d : ℕ) → n * d < d → n ≤ 0
below_one zero d h = omega arith
below_one (suc n) d h = absurd (omega (arith, suc-mul n d))

missed_at_least :
    (start duration : ℕ) (profile : LlmqProfile) (q : ℕ)
    → q ≤ start
    → 0 < profile.dkg_phase_blocks
    → profile.dkg_phase_blocks < profile.dkg_interval
    → (duration + 1 - profile.dkg_phase_blocks) / profile.dkg_interval
      ≤ dkg_windows_from_anchor start duration profile q
unfolding dkg_windows_from_anchor
missed_at_least start duration profile q le some_phase short = elim (Bool-cases (leb 1 least)) [
  | inr no_windows ↦ let zero_windows : least ≤ 0 = ground arith in omega arith
  | inl some_windows ↦
      let positive = leb→le 1 least some_windows in
      let fits = div-mul-le_self (duration + 1 - profile.dkg_phase_blocks) profile.dkg_interval in
      let long = mul-le-mul_right profile.dkg_interval positive in
      let split = div-add-mod' (start - q) profile.dkg_interval in
      let rest : (start - q) % profile.dkg_interval < profile.dkg_interval =
        mod-lt (start - q) (omega arith) in
      let sum = add-mul ((start - q) / profile.dkg_interval) least profile.dkg_interval in
      let reach : (start - q) / profile.dkg_interval + least
          ≤ (start + duration - q) / profile.dkg_interval =
        (le-div_iff_mul-le (omega arith)).1 (omega arith) in
      elim (Bool-cases (leb ((start - q) % profile.dkg_interval) profile.dkg_phase_blocks)) [
        | inl soon ↦
            let near = leb→le ((start - q) % profile.dkg_interval) profile.dkg_phase_blocks soon in
            from_cycle ((start - q) / profile.dkg_interval + 1) (omega arith) (omega arith)
              (omega arith) (omega arith)
        | inr late ↦
            let far : profile.dkg_phase_blocks < (start - q) % profile.dkg_interval =
              ground arith in
            from_cycle ((start - q) / profile.dkg_interval + 2) (omega arith) (omega arith)
              (omega arith) (omega arith)
      ]
]
  where
    least : ℕ
    least = (duration + 1 - profile.dkg_phase_blocks) / profile.dkg_interval

    from_cycle :
        (first : ℕ)
        → (start - q) / profile.dkg_interval ≤ first
        → first + (duration + 1 - profile.dkg_phase_blocks) / profile.dkg_interval
          ≤ (start - q) / profile.dkg_interval
            + ((start + duration - q) / profile.dkg_interval
                + 2
                + 1
                - (start - q) / profile.dkg_interval)
        → start + profile.dkg_interval ≤ q + first * profile.dkg_interval + profile.dkg_phase_blocks
        → q
            + first * profile.dkg_interval
            + (duration + 1 - profile.dkg_phase_blocks)
              / profile.dkg_interval
              * profile.dkg_interval
            + 2 * profile.dkg_phase_blocks
          ≤ start + duration + 2 * profile.dkg_interval
        → (duration + 1 - profile.dkg_phase_blocks) / profile.dkg_interval
          ≤ dkg_windows_from_anchor start duration profile q
    from_cycle first a b c d =
        count_at_least start (start + duration) profile q
          ((start + duration - q) / profile.dkg_interval
            + 2
            + 1
            - (start - q) / profile.dkg_interval)
          ((start - q) / profile.dkg_interval) first
          ((duration + 1 - profile.dkg_phase_blocks) / profile.dkg_interval) a b
          (λ i lo hi.
            run_of_windows start (start + duration) profile q first
              ((duration + 1 - profile.dkg_phase_blocks) / profile.dkg_interval) i c d lo hi)

-- An outage of a length misses, from any start at or above the quorum index, at least the guaranteed
-- and at most the possible number of contribution windows, for a profile whose phases are not empty
-- and shorter than its interval.
pub dkg_windows_bounds :
    (start duration : ℕ) (profile : LlmqProfile) (q : ℕ)
    → q ≤ start
    → 0 < profile.dkg_phase_blocks
    → profile.dkg_phase_blocks < profile.dkg_interval
    → let missed = dkg_windows_from_anchor start duration profile q in
      let range = dkg_windows_covered duration profile in
      (range.guaranteed ≤ missed) × (missed ≤ range.possible)
unfolding dkg_windows_covered dkg_windows_from_anchor
dkg_windows_bounds start duration profile q le some_phase short =
    elim (Bool-cases (duration == 0)) [
      | inl empty ↦
          rw (empty, dkg_windows_covered)
            (omega arith, none_in_nothing (ground arith) (missed_blocks start duration profile q))
      | inr lasting ↦
          rw (lasting, dkg_windows_covered)
            (
              missed_at_least start duration profile q le some_phase short,
              (le-div_iff_mul-le (omega arith)).1 (few (missed_blocks start duration profile q)),
            )
    ]
  where
    none_in_nothing :
        duration ≡ 0
        → (dkg_windows_from_anchor start duration profile q ≡ 0)
          ⊎ (dkg_windows_from_anchor start duration profile q * profile.dkg_interval
                + profile.dkg_phase_blocks
              ≤ duration + profile.dkg_interval)
        → dkg_windows_from_anchor start duration profile q ≤ 0
    none_in_nothing e (inl none_missed) = omega (arith, none_missed)
    none_in_nothing e (inr a) =
        below_one (dkg_windows_from_anchor start duration profile q) profile.dkg_interval
          (omega arith)

    few :
        (dkg_windows_from_anchor start duration profile q ≡ 0)
          ⊎ (dkg_windows_from_anchor start duration profile q * profile.dkg_interval
                + profile.dkg_phase_blocks
              ≤ duration + profile.dkg_interval)
        → dkg_windows_from_anchor start duration profile q * profile.dkg_interval
          ≤ duration + 1 + profile.dkg_interval - 1
    few (inl none_missed) = rw none_missed (omega arith)
    few (inr a) = omega arith
