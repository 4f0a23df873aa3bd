-- ===== src/Dsl/Texts.antt =====
-- The order of texts and the byte order of a hash in server/src/domain/dslCanonicalOrder.ts.
use mathlib.Core.List.{reverse, reverse-reverse, reverse-cons}
use devnet_deftrack.Common.{
  ℕ, ◌%◌, ◌≡◌, ◌⊎◌, inl, inr, refl, sym, ap, ◌∙◌, true, false, List, [], ◌∷◌, length, length-append,
  ◌==◌, arith, Bool-cases, IsWeakOrder,
}
use devnet_deftrack.Dsl.Order.{Hash, swap_pairs, internal_byte_order, text_before, entry_before}

text_before-asym : (a b : List ℕ) → text_before a b ≡ true → text_before b a ≡ false
unfolding text_before
text_before-asym a [] h = ground arith
text_before-asym [] (y ∷ b) h = refl
text_before-asym (x ∷ a) (y ∷ b) h = elim (Bool-cases (x == y)) [
  | inl same ↦
      let back : y == x ≡ true = ground arith in
      let less : text_before a b ≡ true = ground arith in
      let rest = text_before-asym a b less in rw (back) rest
  | inr other ↦ ground arith
]

text_before-cotrans :
    (a b c : List ℕ) → text_before a c ≡ true → (text_before a b ≡ true) ⊎ (text_before b c ≡ true)
unfolding text_before
text_before-cotrans a b [] h = absurd (ground arith)
text_before-cotrans a [] (z ∷ c) h = inr refl
text_before-cotrans [] (y ∷ b) (z ∷ c) h = inl refl
text_before-cotrans (x ∷ a) (y ∷ b) (z ∷ c) h = grind (arith, text_before-cotrans a b c)

-- Texts of which neither stands before the other are equal.
pub text_before-total : (a b : List ℕ) → text_before a b ≡ false → text_before b a ≡ false → a ≡ b
unfolding text_before
text_before-total [] [] h k = refl
text_before-total [] (y ∷ b) h k = absurd (ground arith)
text_before-total (x ∷ a) [] h k = absurd (ground arith)
text_before-total (x ∷ a) (y ∷ b) h k = elim (Bool-cases (x == y)) [
  | inl same ↦
      let back : y == x ≡ true = ground arith in
      let eq : x ≡ y = ground arith in
      let front : text_before a b ≡ false = ground arith in
      let behind : text_before b a ≡ false = ground arith in
      let rest = text_before-total a b front behind in (λ i. eq i ∷ rest i)
  | inr other ↦ absurd (ground arith)
]

pub entry_before-IsWeakOrder : IsWeakOrder entry_before
unfolding entry_before
entry_before-IsWeakOrder = record {
  asym = λ a b. text_before-asym a.key b.key;
  cotrans = λ a b c. text_before-cotrans a.key b.key c.key;
}

swap_pairs_twice : (xs : List ℕ) → length xs % 2 ≡ 0 → swap_pairs (swap_pairs xs) ≡ xs
unfolding swap_pairs
swap_pairs_twice [] h = refl
swap_pairs_twice (x ∷ []) h = absurd (omega (arith, h))
swap_pairs_twice (x ∷ y ∷ xs) h =
    let rest = swap_pairs_twice xs (omega (arith, h)) in ap (λ ys. x ∷ y ∷ ys) rest

length-reverse : (xs : List ℕ) → length (reverse xs) ≡ length xs
length-reverse [] = refl
length-reverse (x ∷ xs) =
    ap length (reverse-cons x xs)
    ∙ length-append (reverse xs) (x ∷ [])
    ∙ omega (arith, length-reverse xs)

-- Hashes of whole bytes with the same key are the same.
pub internal_byte_order-injective :
    (a b : Hash)
    → length a % 2 ≡ 0
    → length b % 2 ≡ 0
    → internal_byte_order a ≡ internal_byte_order b
    → a ≡ b
unfolding internal_byte_order
internal_byte_order-injective a b h k same =
    let even : (c : Hash) → length c % 2 ≡ 0 → length (reverse c) % 2 ≡ 0 =
      λ c e. ap (λ n. n % 2) (length-reverse c) ∙ e in
    let back : reverse a ≡ reverse b =
      sym (swap_pairs_twice (reverse a) (even a h))
      ∙ ap swap_pairs same
      ∙ swap_pairs_twice (reverse b) (even b k) in
    sym (reverse-reverse a) ∙ ap reverse back ∙ reverse-reverse b
