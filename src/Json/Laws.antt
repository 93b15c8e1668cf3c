-- ===== src/Json/Laws.antt =====
-- What `stableStringify` can print (packages/core/src/audit.ts): never the separator of the audit
-- log's canonical form.
use mathlib.Core.List.Permᴰ
use slvrn.Prelude.{
  ℕ, ◌/◌, ◌%◌, ◌≢◌, Bool, false, Bool-cases, inl, inr, List, [], ◌∷◌, map, All, arith,
}
use slvrn.Prelude.Text.{Text}
use slvrn.Prelude.Join.{IsFree, join-IsFree, IsFree-append}
use slvrn.Prelude.Sorting.{sort, sort-perm, All-perm}
use slvrn.Prelude.Number.{number_text}
use slvrn.Manifest.{fs}
use slvrn.Json.{
  Json, Items, Fields, null, undefined, number, bool, string, array, object, no_items, item,
  no_fields, field, is_finite, hex_digit, unicode_escape, is_high, escape, escape_all, json_string,
  Entry, entry_key, entry_text, stable_stringify, stringify_items, stringify_fields, wrap,
}

-- Every number of the value prints without the separator.
unfoldable mutual
  pub HasCleanNumbers : Json → Type 0
  HasCleanNumbers (number n) = IsFree fs (number_text n)
  HasCleanNumbers (array xs) = HasCleanItems xs
  HasCleanNumbers (object fields) = HasCleanFields fields
  HasCleanNumbers _ = Unit

  pub HasCleanItems : Items → Type 0
  HasCleanItems no_items = Unit
  HasCleanItems (item x xs) = HasCleanNumbers x × HasCleanItems xs

  pub HasCleanFields : Fields → Type 0
  HasCleanFields no_fields = Unit
  HasCleanFields (field k v fields) = HasCleanNumbers v × HasCleanFields fields

hex_digit-bound : (n : ℕ) → hex_digit n ≢ fs
hex_digit-bound n = ground arith

unicode_escape-IsFree : (c : ℕ) → IsFree fs (unicode_escape c)
unfolding unicode_escape
unicode_escape-IsFree c = (
  omega arith,
  (
    omega arith,
    (
      hex_digit-bound (c / 4096 % 16),
      (
        hex_digit-bound (c / 256 % 16),
        (hex_digit-bound (c / 16 % 16), (hex_digit-bound (c % 16), tt)),
      ),
    ),
  ),
)

escape-IsFree : (after_high : Bool) (c : ℕ) (rest : Text) → IsFree fs (escape after_high c rest)
unfolding escape
escape-IsFree after_high c rest = ground (arith, unicode_escape-IsFree c)

escape_all-IsFree : (after_high : Bool) (s : Text) → IsFree fs (escape_all after_high s)
unfolding escape_all
escape_all-IsFree after_high [] = tt
escape_all-IsFree after_high (c ∷ s) =
    IsFree-append fs _ _ (escape-IsFree after_high c s) (escape_all-IsFree (is_high c) s)

wrap-IsFree :
    (a : ℕ) (body : Text) (b : ℕ) → a ≢ fs → IsFree fs body → b ≢ fs → IsFree fs (wrap a body b)
wrap-IsFree a body b p h q = (p, IsFree-append fs body (b ∷ []) h (q, tt))

json_string-IsFree : (s : Text) → IsFree fs (json_string s)
json_string-IsFree s =
    wrap-IsFree b'"' (escape_all false s) b'"' (omega arith) (escape_all-IsFree false s)
      (omega arith)

entry_text-IsFree : (k v : Text) → IsFree fs v → IsFree fs (entry_text (k, v))
entry_text-IsFree k v h =
    IsFree-append fs (json_string k) (b':' ∷ v) (json_string-IsFree k) (omega arith, h)

-- The entry prints without the separator.
abbrev IsFreeEntry : Entry → Type 0
IsFreeEntry e = IsFree fs (entry_text e)

entries-IsFree : (es : List Entry) → All IsFreeEntry es → All (IsFree fs) (map entry_text es)
entries-IsFree [] h = tt
entries-IsFree (e ∷ es) (p, h) = (p, entries-IsFree es h)

sorted-IsFree :
    (es : List Entry) → All IsFreeEntry es → All (IsFree fs) (map entry_text (sort entry_key es))
sorted-IsFree es h = entries-IsFree _ (All-perm IsFreeEntry (Permᴰ.symm (sort-perm entry_key es)) h)

mutual
  unfolding HasCleanNumbers stable_stringify stringify_items stringify_fields

  value_free : (v : Json) → HasCleanNumbers v → IsFree fs (stable_stringify v)
  value_free null h = ground arith
  value_free undefined h = ground arith
  value_free (number n) h = elim (Bool-cases (is_finite n)) [
    | inl yes' ↦ rw yes' h
    | inr no' ↦ rw no' (ground arith)
  ]
  value_free (bool b) h = ground arith
  value_free (string s) h = json_string-IsFree s
  value_free (array xs) h =
      wrap-IsFree b'[' _ b']' (omega arith) (join-IsFree b',' fs _ (omega arith) (items_free xs h))
        (omega arith)
  value_free (object fields) h =
      wrap-IsFree b'{' _ b'}' (omega arith)
        (join-IsFree b',' fs _ (omega arith)
          (sorted-IsFree (stringify_fields fields) (fields_free fields h)))
        (omega arith)

  items_free : (xs : Items) → HasCleanItems xs → All (IsFree fs) (stringify_items xs)
  items_free no_items h = tt
  items_free (item x xs) (p, h) = (value_free x p, items_free xs h)

  fields_free :
      (fields : Fields) → HasCleanFields fields → All IsFreeEntry (stringify_fields fields)
  fields_free no_fields h = tt
  fields_free (field k undefined fields) (p, h) = fields_free fields h
  fields_free (field k v fields) (p, h) =
      (entry_text-IsFree k (stable_stringify v) (value_free v p), fields_free fields h)

-- A serialized value never holds the unit separator, whatever its strings and keys are, if its numbers
-- print without it.
pub stable_stringify-IsFree : (v : Json) → HasCleanNumbers v → IsFree fs (stable_stringify v)
stable_stringify-IsFree v h = value_free v h
