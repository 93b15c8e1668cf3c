-- ===== src/Manifest/Build.antt =====
-- `buildManifest` (packages/core/src/manifest.ts): exactly when there is a manifest, and what is in it.
use slvrn.Prelude.{◌≡◌, refl, sym, ◌↔◌, length}
use slvrn.Prelude.Text.{Text}
use slvrn.Prelude.Number.{pos}
use slvrn.Errors.{ok, >>=-eq-ok, ok_inj}
use slvrn.Money.Totals.{sum, sum_cents_iff}
use slvrn.Manifest.{ManifestInput, Manifest, manifest_version, build_manifest}
use slvrn.Manifest.Canonical.{amounts, IsPayable, form, canonicalize_manifest_iff, All-amounts}

module _ (hash : Text → Text) where
  -- The manifest of a payable batch.
  abbrev pub manifest_of : ManifestInput → Manifest
  manifest_of input = record {
    version = manifest_version;
    organization_id = input.organization_id;
    batch_id = input.batch_id;
    batch_reference = input.batch_reference;
    batch_version = input.batch_version;
    approval_id = input.approval_id;
    approved_batch_version = input.approved_batch_version;
    recipient_count = length input.instructions;
    total_amount_cents = pos (sum (amounts input.instructions));
    manifest_hash = hash (form input);
    canonical_form = form input;
  }

  build_sound :
      (input : ManifestInput) (m : Manifest)
      → build_manifest hash input ≡ ok m
      → IsPayable input × (m ≡ manifest_of input)
  unfolding build_manifest
  build_sound input m h =
      let (t, canonical, h1) = >>=-eq-ok _ _ h in
      let (total, summed, h2) = >>=-eq-ok _ _ h1 in
      let (good, e) = (canonicalize_manifest_iff input t).0 canonical in
      let paid = All-amounts input.instructions good.paid in
      let (exact, _) = (sum_cents_iff (amounts input.instructions) total paid).0 summed in
      (good, rw (← e, ← exact) (sym (ok_inj h2)))

  build_complete :
      (input : ManifestInput) → IsPayable input → build_manifest hash input ≡ ok (manifest_of input)
  unfolding build_manifest
  build_complete input good = rw (
    (canonicalize_manifest_iff input (form input)).1 (good, refl),
    (sum_cents_iff (amounts input.instructions) (pos (sum (amounts input.instructions)))
          (All-amounts input.instructions good.paid)).1
        (refl, good.total),
  )

-- A manifest is built exactly for a payable batch. It repeats the batch's fields, counts the
-- instructions, totals them exactly, and carries the canonical form with its hash.
pub build_manifest_iff :
    (hash : Text → Text) (input : ManifestInput) (m : Manifest)
    → (build_manifest hash input ≡ ok m) ↔ (IsPayable input × (m ≡ manifest_of hash input))
build_manifest_iff hash input m =
    (build_sound hash input m, λ (good, e). rw e (build_complete hash input good))
