-- ===== src/Dsl/Boundaries.antt =====
-- The schedule of server/src/domain/dslSchedule.ts against the consensus rules that it mirrors.
use native.Mathlib.Nat.{mod-lt, div-add-mod'}
use devnet_deftrack.Common.{
  ℕ, ◌+◌, ◌-◌, ◌*◌, ◌/◌, ◌%◌, ◌≤◌, ◌<◌, ◌≡◌, ◌↔◌, inl, inr, refl, sym, ap, ◌∙◌, true, false, leb,
  ◌==◌, arith, Bool-cases, le→leb, leb→le,
}
use devnet_deftrack.Dsl.{
  is_boundary, closed_epoch_at, boundary_of, ceil_div, first_committable_boundary, is_committable,
}

ceil_div-bounds : (m i : ℕ) → 0 < i → (m ≤ ceil_div m i * i) × (ceil_div m i * i < m + i)
ceil_div-bounds m i h =
    let split = div-add-mod' m i in
    let rest : m % i < i = mod-lt m h in
    let longer : (m / i + 1) * i ≡ m / i * i + i = omega arith in ground arith

-- The multiples of a number are a whole number of it apart.
multiple_le : (a b i : ℕ) → a * i < b * i + i → a * i ≤ b * i
multiple_le a b i h = elim (Bool-cases (leb a b)) [
  | inl le ↦
      let p = leb→le a b le in
      let split : b ≡ a + (b - a) = omega arith in
      let more : b * i ≡ a * i + (b - a) * i = ap (λ x. x * i) split ∙ omega arith in
      omega (arith, more)
  | inr gt ↦
      let p : b < a = ground arith in
      let split : a ≡ b + 1 + (a - b - 1) = omega arith in
      let more : a * i ≡ b * i + i + (a - b - 1) * i = ap (λ x. x * i) split ∙ omega arith in
      absurd (omega (arith, more, h))
]

boundary_parts :
    (height interval : ℕ)
    → is_boundary height interval ≡ true
    → (0 < interval) × (height % interval ≡ 0) × (0 < height)
unfolding is_boundary
boundary_parts height interval h = ground arith

-- The first boundary comes at most one interval after a whole observed epoch, and is a boundary.
first_committable_boundary-fits :
    (activation height interval : ℕ)
    → 0 < interval
    → height % interval ≡ 0
    → activation + interval ≤ height
    → first_committable_boundary activation interval ≤ height
unfolding first_committable_boundary
first_committable_boundary-fits activation height interval h whole late =
    let bound = ceil_div-bounds (activation + interval) interval h in
    let split = div-add-mod' height interval in
    let on_time : height ≡ height / interval * interval = omega (arith, split, whole) in
    let m =
      multiple_le (ceil_div (activation + interval) interval) (height / interval) interval
        (omega (arith, bound.1, on_time, late)) in
    omega (arith, m, on_time)

first_committable_boundary-late :
    (activation interval : ℕ)
    → 0 < interval
    → activation + interval ≤ first_committable_boundary activation interval
unfolding first_committable_boundary
first_committable_boundary-late activation interval h =
    (ceil_div-bounds (activation + interval) interval h).0

-- A commitment may be mined at a height exactly if the layer is scheduled, the height is a boundary of epochs, and
-- a whole epoch lies between the activation and it, which is the rule of the node.
pub is_committable_iff :
    (height activation interval : ℕ)
    → (is_committable height activation interval ≡ true)
      ↔ ((0 < activation) × (is_boundary height interval ≡ true) × (activation + interval ≤ height))
unfolding is_committable
is_committable_iff height activation interval = (
  (λ h.
      let both : (leb activation 0 ≡ false)
          × (is_boundary height interval ≡ true)
          × (leb (first_committable_boundary activation interval) height ≡ true) =
        ground arith in
      let late =
        first_committable_boundary-late activation interval
          (boundary_parts height interval both.1).0 in
      let reached = leb→le (first_committable_boundary activation interval) height both.2 in
      (ground arith, both.1, omega (arith, late, reached))),
  (λ h.
      let (positive, boundary, late) = h in
      let parts = boundary_parts height interval boundary in
      let fits = first_committable_boundary-fits activation height interval parts.0 parts.1 late in
      let reached = le→leb (first_committable_boundary activation interval) height fits in
      let on : leb activation 0 ≡ false = ground arith in rw (on, boundary, reached) refl),
)

-- The epoch that a boundary closes is the one whose boundary it is, both ways.
pub boundary_of-closed_epoch_at :
    (height interval : ℕ)
    → is_boundary height interval ≡ true
    → boundary_of (closed_epoch_at height interval) interval ≡ height
unfolding boundary_of closed_epoch_at
boundary_of-closed_epoch_at height interval h =
    let parts = boundary_parts height interval h in
    let split = div-add-mod' height interval in
    let on_time : height ≡ height / interval * interval = omega (arith, split, parts.1) in
    elim (Bool-cases (height / interval == 0)) [
      | inl first ↦
          let q : height / interval ≡ 0 = ground arith in
          let start : height / interval * interval ≡ 0 = ap (λ x. x * interval) q ∙ omega arith in
          absurd (omega (arith, start, on_time, parts.2))
      | inr later ↦
          let q : height / interval - 1 + 1 ≡ height / interval = ground arith in
          ap (λ x. x * interval) q ∙ sym on_time
    ]
