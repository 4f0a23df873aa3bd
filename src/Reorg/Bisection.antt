-- ===== src/Reorg/Bisection.antt =====
-- `findForkPoint` of server/src/domain/reorg.ts: its probes and its outcome.
use mathlib.Core.Option.{some_inj}
use native.Mathlib.Nat.{suc_inj}
use devnet_deftrack.Common.{
  ℕ, zero, suc, ◌+◌, ◌*◌, ◌^◌, ◌≤◌, ◌<◌, ◌≡◌, ◌⊎◌, inl, inr, refl, true, false, some, ltb, ltb→lt,
  leb, leb→le, arith, Bool-cases, subst,
}
use devnet_deftrack.Reorg.Search.{
  ForkPointProbe, agrees, undecidable, ForkPointSearch, found, no_common_history, unknown, middle,
  conclude, search, find_fork_point,
}

abbrev pub probes_of : ForkPointSearch → ℕ
probes_of (found height probes) = probes
probes_of (no_common_history probes) = probes
probes_of (unknown height reason probes) = probes

conclude_probes : (low probes : ℕ) → probes_of (conclude low probes) ≡ probes
conclude_probes zero probes = refl
conclude_probes (suc low) probes = refl

middle_bounds : (low high : ℕ) → low < high → (low ≤ middle low high) × (middle low high < high)
middle_bounds low high h = omega arith

pow_suc : (n : ℕ) → 2 ^ suc n ≡ 2 * 2 ^ n
pow_suc n = omega arith

-- Each probe at least halves what is left.
search_ends :
    (n fuel low high probes : ℕ) (probe : ℕ → ℕ → ForkPointProbe)
    → high < low + 2 ^ n
    → n ≤ fuel
    → (r : ForkPointSearch) × (search fuel low high probes probe ≡ some r)
      × (probes_of r ≤ probes + n)
unfolding search
search_ends zero fuel low high probes probe h k =
    let done : ltb low high ≡ false = ground arith in
    (conclude low probes, stop fuel done, omega (arith, conclude_probes low probes))
  where
    stop :
        (fuel : ℕ)
        → ltb low high ≡ false
        → search fuel low high probes probe ≡ some (conclude low probes)
    stop zero e = rw (e, search) refl
    stop (suc fuel) e = rw (e, search) refl
search_ends (suc n) zero low high probes probe h k = absurd (omega arith)
search_ends (suc n) (suc fuel) low high probes probe h k = elim (Bool-cases (ltb low high)) [
  | inr done ↦
      (conclude low probes, rw (done, search) refl, omega (arith, conclude_probes low probes))
  | inl open_range ↦
      go (probe probes (middle low high)) refl open_range
        (λ low' high' half. search_ends n fuel low' high' (probes + 1) probe half (omega arith))
]
  where
    go :
        (answer : ForkPointProbe)
        → probe probes (middle low high) ≡ answer
        → ltb low high ≡ true
        → ((low' high' : ℕ)
            → high' < low' + 2 ^ n
            → (r : ForkPointSearch) × (search fuel low' high' (probes + 1) probe ≡ some r)
              × (probes_of r ≤ probes + 1 + n))
        → (r : ForkPointSearch) × (search (suc fuel) low high probes probe ≡ some r)
          × (probes_of r ≤ probes + suc n)
    go (undecidable reason) e lt rest =
        (unknown (middle low high) reason (probes + 1), rw (lt, search) (rw e refl), omega arith)
    go (agrees true) e lt rest =
        let below = ltb→lt low high lt in
        let twice = pow_suc n in
        let (r, done, bound) = rest (suc (middle low high)) high (omega arith) in
        (r, rw (lt, search) (rw e done), omega arith)
    go (agrees false) e lt rest =
        let below = ltb→lt low high lt in
        let twice = pow_suc n in
        let (r, done, bound) = rest low (middle low high) (omega arith) in
        (r, rw (lt, search) (rw e done), omega arith)

lt_pow : (n : ℕ) → n < 2 ^ n
lt_pow zero = omega arith
lt_pow (suc n) = omega (arith, lt_pow n, pow_suc n)

-- The search ends, after at most `n` probes if fewer than `2 ^ n` heights are indexed.
pub find_fork_point_probes :
    (n top : ℕ) (probe : ℕ → ℕ → ForkPointProbe)
    → top < 2 ^ n
    → (r : ForkPointSearch) × (find_fork_point top probe ≡ some r) × (probes_of r ≤ n)
unfolding find_fork_point
find_fork_point_probes n top probe h = elim (Bool-cases (leb n top)) [
  | inl few ↦
      let (r, done, bound) = search_ends n top 0 top 0 probe (omega arith) (leb→le n top few) in
      (r, done, omega arith)
  | inr many ↦
      let (r, done, bound) =
        search_ends top top 0 top 0 probe (omega (arith, lt_pow top)) (omega arith) in
      let le : top ≤ n = ground arith in (r, done, omega arith)
]

-- What a conclusion of the search about the heights below `top` rests on: the heights on both sides
-- of the fork point were compared, or `top` itself is known to disagree.
abbrev pub RestsOn : (top : ℕ) → (ℕ → ℕ → ForkPointProbe) → ForkPointSearch → Type 0
RestsOn top probe (found h _) =
    (h < top)
    × ((t : ℕ) × (probe t h ≡ agrees true))
    × ((suc h ≡ top) ⊎ ((t : ℕ) × (probe t (suc h) ≡ agrees false)))
RestsOn top probe (no_common_history _) = (0 ≡ top) ⊎ ((t : ℕ) × (probe t 0 ≡ agrees false))
RestsOn top probe (unknown h reason _) = (h < top) × ((t : ℕ) × (probe t h ≡ undecidable reason))

-- The two sides of the search: what agrees below `low`, and what disagrees at `high`.
record Sides (top : ℕ) (probe : ℕ → ℕ → ForkPointProbe) (low high : ℕ) : Type 0 where
  ordered : low ≤ high
  bounded : high ≤ top
  below : (h : ℕ) → low ≡ suc h → (t : ℕ) × (probe t h ≡ agrees true)
  above : (high ≡ top) ⊎ ((t : ℕ) × (probe t high ≡ agrees false))

Sides-meet :
    {top low high : ℕ} {probe : ℕ → ℕ → ForkPointProbe}
    → Sides top probe low high
    → ltb low high ≡ false
    → high ≡ low
Sides-meet s done = let le = s.ordered in ground arith

conclude-RestsOn :
    (top : ℕ) (probe : ℕ → ℕ → ForkPointProbe) (low probes : ℕ)
    → Sides top probe low low
    → RestsOn top probe (conclude low probes)
conclude-RestsOn top probe zero probes s = s.above
conclude-RestsOn top probe (suc h) probes s = (s.bounded, s.below h refl, s.above)

search-RestsOn :
    (top : ℕ) (probe : ℕ → ℕ → ForkPointProbe) (fuel low high probes : ℕ) (r : ForkPointSearch)
    → Sides top probe low high
    → search fuel low high probes probe ≡ some r
    → RestsOn top probe r
unfolding search
search-RestsOn top probe zero low high probes r s e = elim (Bool-cases (ltb low high)) [
  | inl open_range ↦ absurd (cc (rw (open_range, search) at e))
  | inr done ↦
      let same : conclude low probes ≡ r = ground arith in
      let meet : high ≡ low = Sides-meet s done in
      subst (RestsOn top probe) same
        (conclude-RestsOn top probe low probes (subst (λ x. Sides top probe low x) meet s))
]
search-RestsOn top probe (suc fuel) low high probes r s e = elim (Bool-cases (ltb low high)) [
  | inr done ↦
      let same : conclude low probes ≡ r = some_inj.0 (rw (done, search) at e) in
      let meet : high ≡ low = Sides-meet s done in
      subst (RestsOn top probe) same
        (conclude-RestsOn top probe low probes (subst (λ x. Sides top probe low x) meet s))
  | inl open_range ↦
      go (probe probes (middle low high)) refl open_range
        (λ low' high' s' e'. search-RestsOn top probe fuel low' high' (probes + 1) r s' e')
]
  where
    go :
        (answer : ForkPointProbe)
        → probe probes (middle low high) ≡ answer
        → ltb low high ≡ true
        → ((low' high' : ℕ)
            → Sides top probe low' high'
            → search fuel low' high' (probes + 1) probe ≡ some r
            → RestsOn top probe r)
        → RestsOn top probe r
    go (undecidable reason) q lt rest =
        let same : unknown (middle low high) reason (probes + 1) ≡ r =
          some_inj.0 (rw (lt, q, search) at e) in
        let b = middle_bounds low high (ltb→lt low high lt) in
        subst (RestsOn top probe) same (omega (arith, b.1, s.bounded), (probes, q))
    go (agrees true) q lt rest =
        let b = middle_bounds low high (ltb→lt low high lt) in
        rest (suc (middle low high)) high
          (record {
            ordered = omega arith;
            bounded = s.bounded;
            below = λ h k. (probes, subst (λ x. probe probes x ≡ agrees true) (suc_inj k) q);
            above = s.above;
          })
          (rw (lt, q, search) at e)
    go (agrees false) q lt rest =
        let b = middle_bounds low high (ltb→lt low high lt) in
        rest low (middle low high)
          (record {
            ordered = b.0;
            bounded = omega (arith, b.1, s.bounded);
            below = s.below;
            above = inr (probes, q);
          })
          (rw (lt, q, search) at e)

-- Whatever the search concludes rests on comparisons: the height that it finds agreed and the one
-- above it did not, or is the indexed one; without a common history genesis did not agree.
pub find_fork_point-RestsOn :
    (top : ℕ) (probe : ℕ → ℕ → ForkPointProbe) (r : ForkPointSearch)
    → find_fork_point top probe ≡ some r
    → RestsOn top probe r
unfolding find_fork_point
find_fork_point-RestsOn top probe r e = search-RestsOn top probe top 0 top 0 r start e
  where
    start : Sides top probe 0 top
    start = record {
      ordered = omega arith;
      bounded = omega arith;
      below = λ h k. absurd (omega arith);
      above = inl refl;
    }

-- If every height below the indexed one can be compared and exactly the first `common` heights agree,
-- the search finds the highest of them, and no common history if there are none.
pub find_fork_point_single :
    (top common : ℕ) (probe : ℕ → ℕ → ForkPointProbe)
    → common ≤ top
    → ((t h : ℕ) → h < top → probe t h ≡ agrees (ltb h common))
    → (probes : ℕ) × (find_fork_point top probe ≡ some (conclude common probes))
find_fork_point_single top common probe le single =
    let (r, done, bound) = find_fork_point_probes top top probe (lt_pow top) in
    go r done (find_fork_point-RestsOn top probe r done)
  where
    first_false : (t h : ℕ) → h ≤ top → (h ≡ top) ⊎ (probe t h ≡ agrees false) → common ≤ h
    first_false t h k q = elim (Bool-cases (ltb h top)) [
      | inr last ↦ ground arith
      | inl inside ↦
          let a = single t h (ltb→lt h top inside) in
          elim q [ inl same ↦ ground arith | inr off ↦ ground arith ]
    ]

    go :
        (r : ForkPointSearch)
        → find_fork_point top probe ≡ some r
        → RestsOn top probe r
        → (probes : ℕ) × (find_fork_point top probe ≡ some (conclude common probes))
    go (found h p) done (lt, (t, on), side) =
        let a = single t h lt in
        let inside : h < common = ground arith in
        let beyond : common ≤ suc h = elim side [
          | inl last ↦ omega arith
          | inr (u, off) ↦ first_false u (suc h) lt (inr off)
        ] in
        let same : suc h ≡ common = omega arith in
        (p, subst (λ k. find_fork_point top probe ≡ some (conclude k p)) same done)
    go (no_common_history p) done side =
        let none_agree : common ≤ 0 = elim side [
          | inl last ↦ omega arith
          | inr (u, off) ↦ first_false u 0 (omega arith) (inr off)
        ] in
        let same : 0 ≡ common = omega arith in
        (p, subst (λ k. find_fork_point top probe ≡ some (conclude k p)) same done)
    go (unknown h reason p) done (lt, (t, off)) = let a = single t h lt in absurd (cc)
