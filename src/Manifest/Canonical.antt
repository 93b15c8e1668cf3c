-- ===== src/Manifest/Canonical.antt =====
-- The canonical form of a manifest (packages/core/src/manifest.ts): exactly when there is one, and
-- that it does not depend on the order of the instructions.
use mathlib.Core.List.Permᴰ
use mathlib.Core.List.{Permᴰ}
use slvrn.Prelude.{
  ℕ, zero, suc, ◌+◌, ◌≤◌, ◌≡◌, refl, sym, ap, ◌∙◌, ◌≢◌, ◌↔◌, Bool, false, not, ◌||◌, List, [], ◌∷◌,
  ◌++◌, All, length, map, arith, subst, ◌==◌,
}
use slvrn.Prelude.Text.{Text, text_eq, text_eq_iff}
use slvrn.Prelude.Join.{join}
use slvrn.Prelude.Number.{
  ℤ, pos, negsuc, Number, int, other, is_safe_integer, is_positive, max_safe,
}
use slvrn.Errors.{ok, throw_if-eq-ok, >>=-eq-ok, >>-eq-ok, ok_inj}
use slvrn.Money.{sum_cents}
use slvrn.Money.Totals.{IsAmount, sum, cents, sum_cents_iff}
use slvrn.Manifest.{
  ManifestInstruction, ManifestInput, sorted_instructions, id_of, seen_before, check_instructions,
  line, header_fields, is_nil, canonicalize_manifest, fs, rs,
}
use slvrn.Prelude.Sorting.{sort-perm, sort_of_perm, DistinctKeys, DistinctKeys-perm, All-perm}

abbrev pub amounts : List ManifestInstruction → List Number
amounts = map (λ (i : ManifestInstruction). i.amount_cents)

abbrev pub HasAmount : ManifestInstruction → Type 0
HasAmount i = IsAmount i.amount_cents

-- The instruction's id is none of those seen.
abbrev IsNew : List Text → ManifestInstruction → Type 0
IsNew seen i = seen_before i.instruction_id seen ≡ false

payable_passes :
    (v : Number) → ((not (is_safe_integer v) || not (is_positive v)) ≡ false) ↔ IsAmount v
payable_passes (int (pos zero)) = ground arith
payable_passes (int (pos (suc n))) = ground arith
payable_passes (int (negsuc n)) = ground arith
payable_passes (other x) = ground arith

new_iff : (a b : Text) (s : Bool) → ((text_eq a b || s) ≡ false) ↔ ((s ≡ false) × (b ≢ a))
new_iff a b s = ground (arith, text_eq_iff a b)

IsNew-cons :
    (seen : List Text) (i : ManifestInstruction) (l : List ManifestInstruction)
    → All (IsNew (i.instruction_id ∷ seen)) l ↔ (
        All (IsNew seen) l
        × All (λ (j : ManifestInstruction). i.instruction_id ≢ j.instruction_id) l)
unfolding seen_before
IsNew-cons seen i [] = (λ h. (tt, tt), λ h. tt)
IsNew-cons seen i (j ∷ l) =
    let (to, from) = IsNew-cons seen i l in
    let (split, merge) =
      new_iff j.instruction_id i.instruction_id (seen_before j.instruction_id seen) in
    (
      λ (p, h). (((split p).0, (to h).0), ((split p).1, (to h).1)),
      λ ((p, h), (q, k)). (merge (p, q), from (h, k)),
    )

check_sound :
    (seen : List Text) (l : List ManifestInstruction)
    → check_instructions seen l ≡ ok tt
    → All (IsNew seen) l × All HasAmount l × DistinctKeys id_of l
unfolding check_instructions
check_sound seen [] h = (tt, tt, tt)
check_sound seen (i ∷ is) h =
    let (fresh, h1) = throw_if-eq-ok _ _ _ h in
    let (amount, h2) = throw_if-eq-ok _ _ _ h1 in
    let (new, paid, distinct) = check_sound (i.instruction_id ∷ seen) is h2 in
    let (older, ne) = (IsNew-cons seen i is).0 new in
    ((fresh, older), ((payable_passes i.amount_cents).0 amount, paid), (ne, distinct))

check_complete :
    (seen : List Text) (l : List ManifestInstruction)
    → All (IsNew seen) l
    → All HasAmount l
    → DistinctKeys id_of l
    → check_instructions seen l ≡ ok tt
unfolding check_instructions
check_complete seen [] new paid distinct = refl
check_complete seen (i ∷ is) (n, new) (p, paid) (ne, distinct) =
    rw (n, (payable_passes i.amount_cents).1 p)
      (check_complete (i.instruction_id ∷ seen) is ((IsNew-cons seen i is).1 (new, ne)) paid
        distinct)

All-trivial : (l : List ManifestInstruction) → All (IsNew []) l
unfolding seen_before
All-trivial [] = tt
All-trivial (i ∷ is) = (refl, All-trivial is)

pub All-amounts : (l : List ManifestInstruction) → All HasAmount l → All IsAmount (amounts l)
All-amounts [] h = tt
All-amounts (i ∷ is) (p, h) = (p, All-amounts is h)

sum-perm : {xs ys : List ManifestInstruction} → Permᴰ xs ys → sum (amounts xs) ≡ sum (amounts ys)
sum-perm Permᴰ.nil = refl
sum-perm (Permᴰ.cons e d) = λ i. cents (e i).amount_cents + sum-perm d i
sum-perm (Permᴰ.swap e f) =
    let cents_of = λ (i : ManifestInstruction). cents i.amount_cents in
    omega (arith, ap cents_of e, ap cents_of f)
sum-perm (Permᴰ.trans d e) = sum-perm d ∙ sum-perm e

-- What a batch must be to have a manifest.
pub record IsPayable (input : ManifestInput) : Type 0 where
  pub nonempty : input.instructions ≢ []
  pub approved : input.approved_batch_version ≡ input.batch_version
  pub distinct : DistinctKeys id_of input.instructions
  pub paid : All HasAmount input.instructions
  pub total : sum (amounts input.instructions) ≤ max_safe

abbrev pub form : ManifestInput → Text
form input =
    join fs (
      header_fields input (length (sorted_instructions input.instructions))
        (pos (sum (amounts input.instructions))))
    ++ (rs ∷ join rs (map line (sorted_instructions input.instructions)))

test_eq : (a b : ℕ) → not (a == b) ≡ false → a ≡ b
test_eq a b h = ground arith

eq_test : (a b : ℕ) → a ≡ b → not (a == b) ≡ false
eq_test a b h = ground arith

pub is_nil-perm {ℓ} : {A : Type ℓ} {xs ys : List A} → Permᴰ xs ys → is_nil xs ≡ is_nil ys
is_nil-perm Permᴰ.nil = refl
is_nil-perm (Permᴰ.cons e d) = refl
is_nil-perm (Permᴰ.swap e f) = refl
is_nil-perm (Permᴰ.trans d e) = is_nil-perm d ∙ is_nil-perm e

pub nil_test {ℓ} : {A : Type ℓ} (l : List A) → (is_nil l ≡ false) ↔ (l ≢ [])
nil_test [] = (λ h. cc, λ h. absurd (h refl))
nil_test (x ∷ xs) = (λ h. cc, λ h. refl)

total_iff :
    (l : List ManifestInstruction) (total : ℤ)
    → All HasAmount l
    → (sum_cents (amounts (sorted_instructions l)) ≡ ok total)
      ↔ ((total ≡ pos (sum (amounts l))) × (sum (amounts l) ≤ max_safe))
total_iff l total paid =
    subst
      (λ n.
        (sum_cents (amounts (sorted_instructions l)) ≡ ok total)
        ↔ ((total ≡ pos n) × (n ≤ max_safe)))
      (sum-perm (sort-perm id_of l))
      (sum_cents_iff (amounts (sorted_instructions l)) total (
        All-amounts (sorted_instructions l)
          (All-perm HasAmount (Permᴰ.symm (sort-perm id_of l)) paid)))

canonicalize_sound :
    (input : ManifestInput) (t : Text)
    → canonicalize_manifest input ≡ ok t
    → IsPayable input × (t ≡ form input)
unfolding canonicalize_manifest
canonicalize_sound input t h =
    let (nonempty, h1) = throw_if-eq-ok _ _ _ h in
    let (approved, h2) = throw_if-eq-ok _ _ _ h1 in
    let (checked, h3) = >>-eq-ok _ _ h2 in
    let (total, summed, h4) = >>=-eq-ok _ _ h3 in
    let (_, paid, distinct) = check_sound [] (sorted_instructions input.instructions) checked in
    let p = sort-perm id_of input.instructions in
    let paid' = All-perm HasAmount p paid in
    let (exact, safe) = (total_iff input.instructions total paid').0 summed in
    (
      record {
        nonempty = (nil_test input.instructions).0 nonempty;
        approved = test_eq input.approved_batch_version input.batch_version approved;
        distinct = DistinctKeys-perm id_of p distinct;
        paid = paid';
        total = safe;
      },
      rw (← exact) (sym (ok_inj h4)),
    )

canonicalize_complete :
    (input : ManifestInput) → IsPayable input → canonicalize_manifest input ≡ ok (form input)
unfolding canonicalize_manifest
canonicalize_complete input good =
    let p = Permᴰ.symm (sort-perm id_of input.instructions) in
    rw (
      (nil_test input.instructions).1 good.nonempty,
      eq_test input.approved_batch_version input.batch_version good.approved,
      check_complete [] (sorted_instructions input.instructions)
          (All-trivial (sorted_instructions input.instructions)) (All-perm HasAmount p good.paid)
          (DistinctKeys-perm id_of p good.distinct),
      (total_iff input.instructions (pos (sum (amounts input.instructions))) good.paid).1
          (refl, good.total),
    )

-- There is a canonical form exactly for a payable batch, with the exact total in its header.
pub canonicalize_manifest_iff :
    (input : ManifestInput) (t : Text)
    → (canonicalize_manifest input ≡ ok t) ↔ (IsPayable input × (t ≡ form input))
canonicalize_manifest_iff input t =
    (canonicalize_sound input t, λ (good, e). rw e (canonicalize_complete input good))

-- The same instructions in another order give the same canonical form.
pub canonicalize_of_perm :
    (input : ManifestInput) (others : List ManifestInstruction)
    → DistinctKeys id_of input.instructions
    → Permᴰ input.instructions others
    → canonicalize_manifest (record input { instructions = others }) ≡ canonicalize_manifest input
unfolding canonicalize_manifest
canonicalize_of_perm input others distinct p = rw (← sort_of_perm id_of p distinct, is_nil-perm p)
