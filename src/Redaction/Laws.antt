-- ===== src/Redaction/Laws.antt =====
-- What is left after redaction (packages/core/src/audit.ts).
use slvrn.Prelude.{ℕ, suc, ◌≡◌, refl, Bool, true, false, ltb, if◌then◌else◌}
use slvrn.Prelude.Text.{Text}
use slvrn.Json.{
  Json, Items, Fields, null, undefined, number, bool, string, array, object, no_items, item,
  no_fields, field,
}
use slvrn.Redaction.{is_secret_key, redacted, redact_for_audit, redact_items, redact_fields}

-- Under a key that looks secret there is only the placeholder, at any depth.
unfoldable mutual
  pub HasNoSecret : Json → Type 0
  HasNoSecret (array xs) = HasNoSecretItems xs
  HasNoSecret (object fields) = HasNoSecretFields fields
  HasNoSecret _ = Unit

  pub HasNoSecretItems : Items → Type 0
  HasNoSecretItems no_items = Unit
  HasNoSecretItems (item x xs) = HasNoSecret x × HasNoSecretItems xs

  pub HasNoSecretFields : Fields → Type 0
  HasNoSecretFields no_fields = Unit
  HasNoSecretFields (field k v fields) =
      (is_secret_key k ≡ true → v ≡ string redacted) × HasNoSecret v × HasNoSecretFields fields

redacted_field :
    (b : Bool) (v : Json)
    → HasNoSecret v
    → (b ≡ true → (if b then string redacted else v) ≡ string redacted)
      × HasNoSecret (if b then string redacted else v)
unfolding HasNoSecret
redacted_field true v h = (λ _. refl, tt)
redacted_field false v h = (λ e. cc, h)

cut_off : (b : Bool) (t : Text) (v : Json) → HasNoSecret v → HasNoSecret (if b then string t else v)
unfolding HasNoSecret
cut_off true t v h = tt
cut_off false t v h = h

mutual
  unfolding HasNoSecret redact_for_audit redact_items redact_fields

  value_cleared : (v : Json) (depth : ℕ) → HasNoSecret (redact_for_audit v depth)
  value_cleared null depth = cut_off (ltb 12 depth) _ null tt
  value_cleared undefined depth = cut_off (ltb 12 depth) _ undefined tt
  value_cleared (number n) depth = cut_off (ltb 12 depth) _ (number n) tt
  value_cleared (bool b) depth = cut_off (ltb 12 depth) _ (bool b) tt
  value_cleared (string s) depth = cut_off (ltb 12 depth) _ (string s) tt
  value_cleared (array xs) depth =
      cut_off (ltb 12 depth) _ (array (redact_items xs (suc depth))) (items_cleared xs (suc depth))
  value_cleared (object fields) depth =
      cut_off (ltb 12 depth) _ (object (redact_fields fields (suc depth)))
        (fields_cleared fields (suc depth))

  items_cleared : (xs : Items) (depth : ℕ) → HasNoSecretItems (redact_items xs depth)
  items_cleared no_items depth = tt
  items_cleared (item x xs) depth = (value_cleared x depth, items_cleared xs depth)

  fields_cleared : (fields : Fields) (depth : ℕ) → HasNoSecretFields (redact_fields fields depth)
  fields_cleared no_fields depth = tt
  fields_cleared (field k v fields) depth =
      let (hidden, clean) =
        redacted_field (is_secret_key k) (redact_for_audit v depth) (value_cleared v depth) in
      (hidden, clean, fields_cleared fields depth)

-- A redacted value holds, at any depth, no value under a secret key but the placeholder.
pub redact_for_audit-HasNoSecret : (v : Json) (depth : ℕ) → HasNoSecret (redact_for_audit v depth)
redact_for_audit-HasNoSecret v depth = value_cleared v depth
