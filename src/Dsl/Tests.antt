-- ===== src/Dsl/Tests.antt =====
-- Runs of the Sentinel Layer's schedule, as in dslSchedule.test.ts, and of the canonical order.
use mathlib.Core.List.{Permᴰ}
use devnet_deftrack.Common.{
  ℕ, ◌+◌, ◌≤◌, ◌≡◌, ◌↔◌, refl, true, false, some, List, [], ◌∷◌, ◌++◌, zero, suc, ◌<◌,
}
use devnet_deftrack.Dsl.{is_boundary, first_committable_boundary, is_committable}
use devnet_deftrack.Dsl.Order.{Hash, canonical_dsl_order, resolve_missed_members}
use devnet_deftrack.Dsl.Boundaries.{is_committable_iff}
use devnet_deftrack.Dsl.Naming.{IsProTxHash, resolve_missed_members-Perm}

first_boundary : first_committable_boundary 2000 24 ≡ 2040
unfolding first_committable_boundary
first_boundary = refl

too_early : is_committable 2016 2000 24 ≡ false
unfolding is_committable
too_early = refl

-- A hash of a first and a last byte, with zeros between them.
abbrev zeros : ℕ → List ℕ
zeros zero = []
zeros (suc n) = b'0' ∷ zeros n

abbrev hash_of : (first last : ℕ) → Hash
hash_of first last = b'0' ∷ first ∷ (zeros 60 ++ b'0' ∷ last ∷ [])

abbrev listed : List Hash
listed = hash_of b'1' b'9' ∷ hash_of b'2' b'3' ∷ hash_of b'3' b'5' ∷ []

abbrev relisted : List Hash
relisted = hash_of b'2' b'3' ∷ hash_of b'1' b'9' ∷ hash_of b'3' b'5' ∷ []

listed_valid :
    IsProTxHash (hash_of b'1' b'9')
    × (IsProTxHash (hash_of b'2' b'3') × (IsProTxHash (hash_of b'3' b'5') × Unit {0}))
listed_valid = (
  record { long = refl; lower = refl },
  (record { long = refl; lower = refl }, (record { long = refl; lower = refl }, tt)),
)

-- The last byte decides, not the first.
by_last_byte :
    resolve_missed_members (canonical_dsl_order listed) (0 ∷ []) 3 ≡ some (hash_of b'2' b'3' ∷ [])
unfolding resolve_missed_members canonical_dsl_order
by_last_byte = refl

resolve_missed_members-Perm_example :
    resolve_missed_members (canonical_dsl_order listed) (0 ∷ 2 ∷ []) 3
    ≡ resolve_missed_members (canonical_dsl_order relisted) (0 ∷ 2 ∷ []) 3
resolve_missed_members-Perm_example =
    resolve_missed_members-Perm (0 ∷ 2 ∷ []) 3 listed_valid (Permᴰ.swap refl refl)

is_committable_iff_example :
    (is_committable 2040 2000 24 ≡ true)
    ↔ ((0 < 2000) × (is_boundary 2040 24 ≡ true) × (2000 + 24 ≤ 2040))
is_committable_iff_example = is_committable_iff 2040 2000 24
