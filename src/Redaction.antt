-- ===== src/Redaction.antt =====
-- Redaction of what is logged: `redactForAudit` and `SECRET_KEY_PATTERN` of
-- packages/core/src/audit.ts. An object has no entry `__proto__`.
pub mod Laws
use slvrn.Prelude.{
  ℕ, suc, ◌+◌, Bool, true, false, ◌&&◌, ◌||◌, List, [], ◌∷◌, Option, none, some, if◌then◌else◌, leb,
  ltb, ◌==◌, map,
}
use slvrn.Prelude.Text.{Text, codes}
use slvrn.Json.{
  Json, Items, Fields, null, undefined, number, bool, string, array, object, no_items, item,
  no_fields, field,
}

-- The pattern's `i` flag: letters are compared in lower case.
abbrev pub lower : ℕ → ℕ
lower c = if leb b'A' c && leb c b'Z' then c + 32 else c

-- The rest of the text after the word.
unfoldable pub strip_word : Text → Text → Option Text
strip_word [] s = some s
strip_word (w ∷ ws) [] = none
strip_word (w ∷ ws) (c ∷ s) = let rest = strip_word ws s in if w == lower c then rest else none

-- `[_-]?`, before a word that starts with neither.
abbrev pub skip_dash : Text → Text
skip_dash [] = []
skip_dash (c ∷ s) = if c == b'_' || c == b'-' then s else c ∷ s

-- The words of one alternative, joined by `[_-]?`, at the start of the text.
unfoldable pub starts_with : List Text → Text → Bool
unfolding strip_word
starts_with [] s = true
starts_with (w ∷ ws) s = elim (strip_word w s) [
  | none ↦ false
  | some rest ↦ starts_with ws (skip_dash rest)
]

abbrev pub secret_words : List (List Text)
secret_words =
    (codes "password" ∷ [])
    ∷ (codes "passphrase" ∷ [])
    ∷ (codes "secret" ∷ [])
    ∷ (codes "credential" ∷ [])
    ∷ (codes "token" ∷ [])
    ∷ (codes "authorization" ∷ [])
    ∷ (codes "api" ∷ codes "key" ∷ [])
    ∷ (codes "consumer" ∷ codes "key" ∷ [])
    ∷ (codes "consumer" ∷ codes "secret" ∷ [])
    ∷ (codes "private" ∷ codes "key" ∷ [])
    ∷ (codes "initiator" ∷ codes "password" ∷ [])
    ∷ (codes "security" ∷ codes "credential" ∷ [])
    ∷ (codes "access" ∷ codes "key" ∷ [])
    ∷ (codes "pin" ∷ [])
    ∷ (codes "cookie" ∷ [])
    ∷ (codes "session" ∷ codes "id" ∷ [])
    ∷ (codes "recovery" ∷ codes "code" ∷ [])
    ∷ []

unfoldable pub starts_with_any : List (List Text) → Text → Bool
unfolding starts_with
starts_with_any [] s = false
starts_with_any (a ∷ as') s = starts_with a s || starts_with_any as' s

-- `SECRET_KEY_PATTERN.test(key)`: a match at any position.
unfoldable pub is_secret_key : Text → Bool
unfolding starts_with_any
is_secret_key [] = false
is_secret_key (c ∷ s) = starts_with_any secret_words (c ∷ s) || is_secret_key s

abbrev pub redacted : Text
redacted = codes "[REDACTED]"

abbrev pub truncated : Text
truncated = codes "[TRUNCATED]"

unfoldable mutual
  unfolding is_secret_key

  pub redact_for_audit : Json → ℕ → Json
  redact_for_audit (array xs) depth =
      let inner = redact_items xs (suc depth) in
      if ltb 12 depth then string truncated else array inner
  redact_for_audit (object fields) depth =
      let inner = redact_fields fields (suc depth) in
      if ltb 12 depth then string truncated else object inner
  redact_for_audit value depth = if ltb 12 depth then string truncated else value

  pub redact_items : Items → ℕ → Items
  redact_items no_items depth = no_items
  redact_items (item x xs) depth = item (redact_for_audit x depth) (redact_items xs depth)

  pub redact_fields : Fields → ℕ → Fields
  redact_fields no_fields depth = no_fields
  redact_fields (field key v fields) depth =
      let inner = redact_for_audit v depth in
      field key (if is_secret_key key then string redacted else inner) (redact_fields fields depth)
