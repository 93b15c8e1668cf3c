-- ===== src/Manifest/Tamper.antt =====
-- Tamper-evidence of the manifest (packages/core/src/manifest.ts): the canonical form, and with it
-- the hash, determines every field that is signed.
use mathlib.Core.List.Permᴰ
use mathlib.Core.List.{Permᴰ}
use mathlib.Core.Path.{ap₂}
use slvrn.Prelude.{
  ℕ, ◌≡◌, refl, sym, ap, ◌∙◌, ◌≢◌, true, List, [], ◌∷◌, ◌++◌, All, length, map, arith, subst,
}
use slvrn.Prelude.Text.{Text}
use slvrn.Prelude.Decimal.{decimal_inj}
use slvrn.Prelude.Join.{join, IsFree, join_inj, join-IsFree}
use slvrn.Prelude.Number.{pos, number_text}
use slvrn.Errors.{ok}
use slvrn.Money.Totals.{sum}
use slvrn.Manifest.{
  ManifestInstruction, ManifestInput, Manifest, sorted_instructions, id_of, line, header_fields,
  build_manifest, fs, rs, is_nil,
}
use slvrn.Prelude.Sorting.{sort-perm, All-perm}
use slvrn.Manifest.Build.{build_manifest_iff}
use slvrn.Manifest.Canonical.{amounts, HasAmount, IsPayable, form, is_nil-perm, nil_test}
use slvrn.Manifest.Clean.{
  IsCleanInstruction, IsCleanInput, cons_inj, decimal-IsClean, version-IsClean, amount-IsClean,
  amount_inj,
}

-- An instruction that can be signed.
abbrev Signable : ManifestInstruction → Type 0
Signable i = IsCleanInstruction i × HasAmount i

line_inj : (i j : ManifestInstruction) → Signable i → Signable j → line i ≡ line j → i ≡ j
line_inj i j ((a, b, c), p) ((a', b', c'), p') e =
    let same =
      join_inj fs _ _ _ _ (a.0, (b.0, (c.0, ((amount-IsClean i.amount_cents p).0, tt))))
        (a'.0, (b'.0, (c'.0, ((amount-IsClean j.amount_cents p').0, tt)))) e in
    let (p0, t0) = cons_inj same in
    let (p1, t1) = cons_inj t0 in
    let (p2, t2) = cons_inj t1 in
    let p3 = amount_inj i.amount_cents j.amount_cents p p' (cons_inj t2).0 in
    λ k. record { instruction_id = p0 k; recipient_id = p1 k; msisdn = p2 k; amount_cents = p3 k }

line-IsFree : (i : ManifestInstruction) → Signable i → IsFree rs (line i)
line-IsFree i ((a, b, c), p) =
    join-IsFree fs rs _ (omega arith) (a.1, (b.1, (c.1, ((amount-IsClean i.amount_cents p).1, tt))))

lines_inj :
    (xs ys : List ManifestInstruction)
    → All Signable xs
    → All Signable ys
    → map line xs ≡ map line ys
    → xs ≡ ys
lines_inj [] [] h k e = refl
lines_inj [] (y ∷ ys) h k e = cc
lines_inj (x ∷ xs) [] h k e = cc
lines_inj (x ∷ xs) (y ∷ ys) (p, h) (q, k) e =
    ap₂ ◌∷◌ (line_inj x y p q (cons_inj e).0) (lines_inj xs ys h k (cons_inj e).1)

lines-IsFree : (xs : List ManifestInstruction) → All Signable xs → All (IsFree rs) (map line xs)
lines-IsFree [] h = tt
lines-IsFree (x ∷ xs) (p, h) = (line-IsFree x p, lines-IsFree xs h)

header-IsClean :
    (input : ManifestInput) (count total : ℕ)
    → IsCleanInput input
    → All (IsFree fs) (header_fields input count (pos total))
      × All (IsFree rs) (header_fields input count (pos total))
unfolding number_text
header-IsClean input count total c =
    let v = decimal-IsClean input.batch_version in
    let w = decimal-IsClean input.approved_batch_version in
    let n = decimal-IsClean count in
    let t = decimal-IsClean total in
    (
      (
        version-IsClean.0,
        (
          c.organization.0,
          (c.batch.0, (c.reference.0, (v.0, (c.approval.0, (w.0, (n.0, (t.0, tt))))))),
        ),
      ),
      (
        version-IsClean.1,
        (
          c.organization.1,
          (c.batch.1, (c.reference.1, (v.1, (c.approval.1, (w.1, (n.1, (t.1, tt))))))),
        ),
      ),
    )

join-cons :
    (sep : ℕ) (x : Text) (xs : List Text) → xs ≢ [] → join sep (x ∷ xs) ≡ x ++ (sep ∷ join sep xs)
unfolding join
join-cons sep x [] h = absurd (h refl)
join-cons sep x (y ∷ ys) h = refl

Signable-all :
    (xs : List ManifestInstruction) → All IsCleanInstruction xs → All HasAmount xs → All Signable xs
Signable-all [] h k = tt
Signable-all (x ∷ xs) (p, h) (q, k) = ((p, q), Signable-all xs h k)

-- The two batches pay the same people the same amounts under the same approval.
pub record SamePayment (a b : ManifestInput) : Type 0 where
  pub organization : a.organization_id ≡ b.organization_id
  pub batch : a.batch_id ≡ b.batch_id
  pub reference : a.batch_reference ≡ b.batch_reference
  pub version : a.batch_version ≡ b.batch_version
  pub approval : a.approval_id ≡ b.approval_id
  pub instructions : Permᴰ a.instructions b.instructions

is_nil_of_lines : (xs : List ManifestInstruction) → map line xs ≡ [] → is_nil xs ≡ true
is_nil_of_lines [] e = refl
is_nil_of_lines (x ∷ xs) e = cc

lines-ne-nil : (l : List ManifestInstruction) → l ≢ [] → map line (sorted_instructions l) ≢ []
lines-ne-nil l ne e =
    cc (
      is_nil-perm (sort-perm id_of l),
      is_nil_of_lines (sorted_instructions l) e,
      (nil_test l).1 ne,
    )

form_inj :
    (a b : ManifestInput)
    → IsCleanInput a
    → IsCleanInput b
    → IsPayable a
    → IsPayable b
    → form a ≡ form b
    → SamePayment a b
form_inj a b ca cb pa pb e =
    let sa =
      Signable-all (sorted_instructions a.instructions)
        (All-perm _ (Permᴰ.symm (sort-perm id_of a.instructions)) ca.instructions)
        (All-perm _ (Permᴰ.symm (sort-perm id_of a.instructions)) pa.paid) in
    let sb =
      Signable-all (sorted_instructions b.instructions)
        (All-perm _ (Permᴰ.symm (sort-perm id_of b.instructions)) cb.instructions)
        (All-perm _ (Permᴰ.symm (sort-perm id_of b.instructions)) pb.paid) in
    let ha =
      header-IsClean a (length (sorted_instructions a.instructions)) (sum (amounts a.instructions))
        ca in
    let hb =
      header-IsClean b (length (sorted_instructions b.instructions)) (sum (amounts b.instructions))
        cb in
    let records =
      join_inj rs _ _ _ _ (join-IsFree fs rs _ (omega arith) ha.1, lines-IsFree _ sa)
        (join-IsFree fs rs _ (omega arith) hb.1, lines-IsFree _ sb)
        (join-cons rs _ _ (lines-ne-nil a.instructions pa.nonempty)
          ∙ e
          ∙ sym (join-cons rs _ _ (lines-ne-nil b.instructions pb.nonempty))) in
    let fields = join_inj fs _ _ _ _ ha.0 hb.0 (cons_inj records).0 in
    let sorted =
      lines_inj (sorted_instructions a.instructions) (sorted_instructions b.instructions) sa sb
        (cons_inj records).1 in
    let f1 = (cons_inj fields).1 in
    let f2 = (cons_inj f1).1 in
    let f3 = (cons_inj f2).1 in
    let f4 = (cons_inj f3).1 in
    let f5 = (cons_inj f4).1 in
    record {
      organization = (cons_inj f1).0;
      batch = (cons_inj f2).0;
      reference = (cons_inj f3).0;
      version = decimal_inj a.batch_version b.batch_version (cons_inj f4).0;
      approval = (cons_inj f5).0;
      instructions =
          Permᴰ.trans (Permᴰ.symm (sort-perm id_of a.instructions))
            (subst (λ x. Permᴰ x b.instructions) (sym sorted) (sort-perm id_of b.instructions));
    }

-- With a digest that has no collisions, two manifests with one hash pay the same: any change to an
-- amount, a recipient, the approval or the version of the batch changes the hash. The fields of both
-- batches must be free of the two separators.
pub manifest_hash_binds :
    (hash : Text → Text)
    → ((s t : Text) → hash s ≡ hash t → s ≡ t)
    → (a b : ManifestInput) (m n : Manifest) → IsCleanInput a
    → IsCleanInput b
    → build_manifest hash a ≡ ok m
    → build_manifest hash b ≡ ok n
    → m.manifest_hash ≡ n.manifest_hash
    → SamePayment a b
manifest_hash_binds hash no_collision a b m n ca cb ha hb e =
    let (pa, fa) = (build_manifest_iff hash a m).0 ha in
    let (pb, fb) = (build_manifest_iff hash b n).0 hb in
    let hash_of = λ (x : Manifest). x.manifest_hash in
    form_inj a b ca cb pa pb
      (no_collision (form a) (form b) (sym (ap hash_of fa) ∙ e ∙ ap hash_of fb))
