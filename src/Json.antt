-- ===== src/Json.antt =====
-- JSON values and the serialization that the audit log hashes: `stableStringify` of
-- packages/core/src/audit.ts, with what `JSON.stringify` writes for a string.
pub mod Laws
use slvrn.Prelude.{
  ℕ, ◌+◌, ◌/◌, ◌%◌, ◌≡◌, Bool, true, false, not, ◌&&◌, ◌||◌, List, [], ◌∷◌, ◌++◌, map,
  if◌then◌else◌, ltb, leb, ◌==◌,
}
use slvrn.Prelude.Text.{Text, codes, text_in}
use slvrn.Prelude.Join.{join}
use slvrn.Prelude.Sorting.{sort}
use slvrn.Prelude.Number.{Number, int, other, number_text}

-- An object is its own enumerable entries, in the order in which they were set.
mutual
  pub data Json : Type 0 where
    null undefined : Json
    number : Number → Json
    bool : Bool → Json
    string : Text → Json
    array : Items → Json
    object : Fields → Json

  pub data Items : Type 0 where
    no_items : Items
    item : Json → Items → Items

  pub data Fields : Type 0 where
    no_fields : Fields
    field : Text → Json → Fields → Fields

-- `Number.isFinite`.
unfoldable pub is_finite : Number → Bool
is_finite (int _) = true
is_finite (other t) = not (text_in t (codes "NaN" ∷ codes "Infinity" ∷ codes "-Infinity" ∷ []))

abbrev pub hex_digit : ℕ → ℕ
hex_digit n = if ltb n 10 then b'0' + n else 87 + n

-- `\uXXXX`.
unfoldable pub unicode_escape : ℕ → Text
unicode_escape c =
    b'\\'
    ∷ b'u'
    ∷ hex_digit (c / 4096 % 16)
    ∷ hex_digit (c / 256 % 16)
    ∷ hex_digit (c / 16 % 16)
    ∷ hex_digit (c % 16)
    ∷ []

abbrev pub is_high : ℕ → Bool
is_high c = leb 0xd800 c && leb c 0xdbff

abbrev pub is_low : ℕ → Bool
is_low c = leb 0xdc00 c && leb c 0xdfff

abbrev pub starts_low : Text → Bool
starts_low [] = false
starts_low (c ∷ _) = is_low c

-- A surrogate outside a pair; `after_high` tells whether the unit before is a high surrogate.
abbrev pub is_lone : Bool → ℕ → Text → Bool
is_lone after_high c rest = is_high c && not (starts_low rest) || is_low c && not after_high

-- One code unit inside a JSON string.
unfoldable pub escape : Bool → ℕ → Text → Text
unfolding unicode_escape
escape after_high c rest =
    if c == b'"'
    then b'\\' ∷ b'"' ∷ []
    else if c == b'\\'
    then b'\\' ∷ b'\\' ∷ []
    else if c == 8
    then b'\\' ∷ b'b' ∷ []
    else if c == 9
    then b'\\' ∷ b't' ∷ []
    else if c == 10
    then b'\\' ∷ b'n' ∷ []
    else if c == 12
    then b'\\' ∷ b'f' ∷ []
    else if c == 13
    then b'\\' ∷ b'r' ∷ []
    else if ltb c 32 || is_lone after_high c rest
    then unicode_escape c
    else c ∷ []

unfoldable pub escape_all : Bool → Text → Text
unfolding escape
escape_all after_high [] = []
escape_all after_high (c ∷ rest) = escape after_high c rest ++ escape_all (is_high c) rest

-- `JSON.stringify` of a string.
abbrev pub json_string : Text → Text
json_string s = b'"' ∷ (escape_all false s ++ b'"' ∷ [])

-- An entry of an object: its key, and its value as text.
abbrev pub Entry : Type 0
Entry = Text × Text

abbrev pub entry_key : Entry → Text
entry_key (k, _) = k

abbrev pub entry_text : Entry → Text
entry_text (k, v) = json_string k ++ b':' ∷ v

abbrev pub wrap : ℕ → Text → ℕ → Text
wrap open' body close = open' ∷ (body ++ close ∷ [])

unfoldable mutual
  unfolding is_finite number_text escape_all join sort

  pub stable_stringify : Json → Text
  stable_stringify null = codes "null"
  stable_stringify undefined = codes "null"
  stable_stringify (number n) = if is_finite n then number_text n else codes "null"
  stable_stringify (bool b) = if b then codes "true" else codes "false"
  stable_stringify (string s) = json_string s
  stable_stringify (array xs) = wrap b'[' (join b',' (stringify_items xs)) b']'
  stable_stringify (object fields) =
      wrap b'{' (join b',' (map entry_text (sort entry_key (stringify_fields fields)))) b'}'

  pub stringify_items : Items → List Text
  stringify_items no_items = []
  stringify_items (item x xs) = stable_stringify x ∷ stringify_items xs

  -- The entries whose value is not `undefined`.
  pub stringify_fields : Fields → List Entry
  stringify_fields no_fields = []
  stringify_fields (field k undefined fields) = stringify_fields fields
  stringify_fields (field k v fields) = (k, stable_stringify v) ∷ stringify_fields fields
