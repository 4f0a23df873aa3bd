-- ===== src/Netem/Json.antt =====
-- What `JSON.parse` gives, as the wrapper of server/src/simulator/netemLease.ts and netemRunner.ts reads it from
-- its state file and from commands, and the tests that it makes on such values.
use devnet_deftrack.Common.{
  ℕ, String, Bool, true, false, Option, none, some, List, [], ◌∷◌, ◌===◌, if◌then◌else◌,
}

-- A number: a natural one, an integer below zero by its distance from -1, a fraction by its text, or one that
-- is too large to be finite.
pub data Number : Type 0 where
  natural : ℕ → Number
  negative : ℕ → Number
  fraction : String → Number
  infinite : Number

mutual
  pub data Json : Type 0 where
    null : Json
    boolean : Bool → Json
    number : Number → Json
    text : String → Json
    array : Items → Json
    object : Fields → Json

  pub data Items : Type 0 where
    no_items : Items
    item : Json → Items → Items

  pub data Fields : Type 0 where
    empty_object : Fields
    field : (name : String) → Json → Fields → Fields

-- `value.name` on an object, `none` for undefined
abbrev pub lookup : String → Fields → Option Json
lookup name empty_object = none
lookup name (field other value fields) = if other === name then some value else lookup name fields

-- `value.name` on a value that is `typeof 'object'` and not null; an array has no such names.
abbrev pub get : String → Json → Option Json
get name (object fields) = lookup name fields
get name _ = none

-- `raw !== null && typeof raw === 'object'`
abbrev pub is_object : Json → Bool
is_object (object fields) = true
is_object (array items) = true
is_object _ = false

-- `typeof value === 'string'`, with the string
abbrev pub as_text : Option Json → Option String
as_text (some (text s)) = some s
as_text _ = none

-- `Number.isFinite(value)`, with the number
abbrev pub as_finite : Option Json → Option Number
as_finite (some (number infinite)) = none
as_finite (some (number n)) = some n
as_finite _ = none

-- `Array.isArray(value)`, with the array
abbrev pub as_items : Option Json → Option Items
as_items (some (array items)) = some items
as_items _ = none

-- `items.filter((a) => typeof a === 'string')`
abbrev pub texts_of : Items → List String
texts_of no_items = []
texts_of (item (text s) items) = s ∷ texts_of items
texts_of (item _ items) = texts_of items

-- `items.every((a) => typeof a === 'string')`
abbrev pub are_texts : Items → Bool
are_texts no_items = true
are_texts (item (text s) items) = are_texts items
are_texts (item _ items) = false

-- The array that a list of strings is stored as
abbrev pub text_items : List String → Items
text_items [] = no_items
text_items (s ∷ strings) = item (text s) (text_items strings)
