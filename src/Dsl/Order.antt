-- ===== src/Dsl/Order.antt =====
-- server/src/domain/dslCanonicalOrder.ts: whom the indices of a commitment name. A text is the list of its code
-- units; `toLowerCase` is written out for ASCII.
use mathlib.Core.List.{reverse}
use devnet_deftrack.Common.{
  ℕ, ◌+◌, Bool, true, false, not, ◌&&◌, Option, none, some, List, [], ◌∷◌, ◌++◌, map, sort_by,
  length, get_elem?, any, leb, ltb, ◌==◌, if◌then◌else◌,
}

-- A printed hash
abbrev pub Hash : Type 0
Hash = List ℕ

-- The loop of `internalByteOrder` over the text read from its end: two units at a time, in their order
unfoldable pub swap_pairs : List ℕ → List ℕ
swap_pairs (low ∷ high ∷ rest) = high ∷ low ∷ swap_pairs rest
swap_pairs _ = []

-- `internalByteOrder`
unfoldable pub internal_byte_order : (hex : Hash) → List ℕ
unfolding swap_pairs
internal_byte_order hex = swap_pairs (reverse hex)

-- `toLowerCase`
abbrev pub lower_unit : ℕ → ℕ
lower_unit c = if leb 65 c && leb c 90 then c + 32 else c

abbrev pub to_lower_case : Hash → Hash
to_lower_case hash = map lower_unit hash

-- `a < b` on texts
unfoldable pub text_before : List ℕ → List ℕ → Bool
text_before _ [] = false
text_before [] (b ∷ bs) = true
text_before (a ∷ more) (b ∷ bs) = if a == b then text_before more bs else ltb a b

pub record Entry : Type 0 where
  pub hash : Hash
  pub key : List ℕ

unfoldable pub entry_of : Hash → Entry
unfolding internal_byte_order
entry_of hash = record { hash = hash; key = internal_byte_order (to_lower_case hash) }

unfoldable pub entry_before : Entry → Entry → Bool
unfolding text_before
entry_before a b = text_before a.key b.key

-- `canonicalDslOrder`
unfoldable pub canonical_dsl_order : (pro_tx_hashes : List Hash) → List Hash
unfolding sort_by entry_before entry_of
canonical_dsl_order pro_tx_hashes =
    map (λ e. e.hash) (sort_by entry_before (map entry_of pro_tx_hashes))

-- `missedIndices.map((index) => order[index]!)`; the default is not reached after the test
unfoldable pub members_at : (order : List Hash) → (missed_indices : List ℕ) → List Hash
members_at order [] = []
members_at order (index ∷ indices) =
    elim (get_elem? order index) [ none ↦ [] | some hash ↦ hash ∷ [] ] ++ members_at order indices

-- `resolveMissedMembers`, with indices that are natural numbers
unfoldable pub resolve_missed_members :
    (order : List Hash) → (missed_indices : List ℕ) → (list_size : ℕ) → Option (List Hash)
unfolding members_at
resolve_missed_members order missed_indices list_size =
    if not (length order == list_size)
    then none
    else if any (λ index. leb (length order) index) missed_indices
    then none
    else some (members_at order missed_indices)
