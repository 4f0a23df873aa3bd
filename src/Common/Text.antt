-- ===== src/Common/Text.antt =====
-- Texts as the program uses them: blank texts, decimal numbers, and checked integers.
use Prim.Native.Nat.{ℕ, zero, suc, ◌/◌, ◌%◌}
use Prim.Native.Char.{code}
use Prim.Native.String
use Prim.Native.String.{String}
use mathlib.Core.Path.{◌≡◌, refl}
use mathlib.Core.Bool.{Bool, true, ◌&&◌, ◌||◌}
use text.Mathlib.Text.{◌==◌ as text_eq}
use devnet_deftrack.Common.Tests.{ltb, leb, ◌==◌, if◌then◌else◌}

infix 50 ◌===◌
-- `a === b` on strings
abbrev pub ◌===◌ : String → String → Bool
a === b = text_eq a b

infixl 65 ◌<>◌
-- The concatenation of a template literal.
abbrev pub ◌<>◌ : String → String → String
a <> b = String.◌++◌ a b

-- The code points that `trim` removes: white space and line terminators of ECMAScript.
is_space : ℕ → Bool
is_space c =
    (leb 9 c && leb c 13)
    || c == 32
    || c == 0xa0
    || c == 0x1680
    || (leb 0x2000 c && leb c 0x200a)
    || c == 0x2028
    || c == 0x2029
    || c == 0x202f
    || c == 0x205f
    || c == 0x3000
    || c == 0xfeff

-- `s.trim().length === 0`
unfoldable pub is_blank : String → Bool
unfolding is_space
is_blank String.[] = true
is_blank (String.◌∷◌ c s) = is_space (code c) && is_blank s

-- `Number.isSafeInteger` on an integer that is not negative.
abbrev pub is_safe_integer : ℕ → Bool
is_safe_integer n = leb n 9007199254740991

digit : ℕ → String
digit zero = "0"
digit (suc zero) = "1"
digit (suc (suc zero)) = "2"
digit (suc (suc (suc zero))) = "3"
digit (suc (suc (suc (suc zero)))) = "4"
digit (suc (suc (suc (suc (suc zero))))) = "5"
digit (suc (suc (suc (suc (suc (suc zero)))))) = "6"
digit (suc (suc (suc (suc (suc (suc (suc zero))))))) = "7"
digit (suc (suc (suc (suc (suc (suc (suc (suc zero)))))))) = "8"
digit (suc (suc (suc (suc (suc (suc (suc (suc (suc n))))))))) = "9"

-- The decimal digits of `n`, most significant first; `n + 1` rounds are enough.
decimal_from : ℕ → ℕ → String → String
decimal_from zero n done = done
decimal_from (suc fuel) n done =
    let rest = decimal_from fuel (n / 10) (digit (n % 10) <> done) in
    if ltb n 10 then digit n <> done else rest

-- `${n}`
unfoldable pub decimal : ℕ → String
unfolding decimal_from digit
decimal n = decimal_from (suc n) n ""

decimal_1024 : decimal 1024 ≡ "1024"
unfolding decimal
decimal_1024 = refl

blank_test : is_blank " \t" ≡ true
unfolding is_blank
blank_test = refl
