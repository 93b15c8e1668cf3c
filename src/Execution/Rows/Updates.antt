-- ===== src/Execution/Rows/Updates.antt =====
-- An update of the transactions table that follows the machine, row by row.
use slvrn.Prelude.{
  ◌≡◌, refl, sym, ap, ◌∙◌, inl, inr, Bool, true, false, List, [], ◌∷◌, Memᴰ, Option, none, some,
  All, Bool-cases, arith, if◌then◌else◌,
}
use slvrn.Prelude.Text.{Text, text_eq_iff}
use slvrn.Txn.{allowed}
use slvrn.Execution.Store.{Transaction}
use slvrn.Execution.Ledger.{rewrites, is_forbidden, update_transactions}
use slvrn.Errors.Returns.{Returns, Returns->>=, Returns-both, Returns-map}
use slvrn.Execution.Rows.{Backed, Evolves, Evolves-refl, Grows, Grows-Sent, Keyed, Live, Moves}

rewrites-eq-false : (a b : Option Text) (r : Text) → rewrites a b ≡ false → a ≡ some r → b ≡ some r
rewrites-eq-false none b r h e = cc
rewrites-eq-false (some t) none r h e = cc
rewrites-eq-false (some t) (some u) r h e = ground (arith, text_eq_iff t u)

Moves-Evolves :
    (f : Transaction → Transaction) (t : Transaction)
    → Moves f t
    → is_forbidden t (f t) ≡ false
    → Evolves t (f t)
unfolding is_forbidden
Moves-Evolves f t m allowed = record {
  id = m.id;
  instruction_id = m.instruction_id;
  batch_id = m.batch_id;
  originator = m.originator;
  status = m.status;
  receipt =
      λ r e. rewrites-eq-false t.mpesa_receipt_number (f t).mpesa_receipt_number r (ground arith) e;
}

-- What an update makes of a row.
abbrev rewritten : (Transaction → Bool) → (Transaction → Transaction) → Transaction → Transaction
rewritten p f t = if p t then f t else t

module _ (p : Transaction → Bool) (f : Transaction → Transaction) where
  abbrev Stems : List Transaction → List Transaction → Type 0
  Stems ts us =
      (u : Transaction) → Memᴰ u us → (t : Transaction) × Memᴰ t ts × (u ≡ rewritten p f t)

  Stems-cons :
      (t v : Transaction) (ts us : List Transaction)
      → v ≡ rewritten p f t
      → Stems ts us
      → Stems (t ∷ ts) (v ∷ us)
  Stems-cons t v ts us e stems u (Memᴰ.head same) = (t, Memᴰ.head refl, same ∙ e)
  Stems-cons t v ts us e stems u (Memᴰ.tail m) =
      let (x, mx, ex) = stems u m in (x, Memᴰ.tail mx, ex)

  -- The rows after an update are the rewritten ones of before.
  from_rows : (ts : List Transaction) → Returns (update_transactions p f ts) (Stems ts)
  unfolding update_transactions
  from_rows [] = λ u m. elim m [ ]
  from_rows (t ∷ ts) =
      Returns->>= (update_transactions p f ts) _ (Stems ts) (Stems (t ∷ ts)) (from_rows ts)
        (λ us stems. elim (Bool-cases (p t)) [
          | inl hit ↦ elim (Bool-cases (is_forbidden t (f t))) [
            | inl bad ↦ rw (hit, bad) tt
            | inr fine ↦ rw (hit, fine) (Stems-cons t (f t) ts us (rw hit refl) stems)
          ]
          | inr miss ↦ rw miss (Stems-cons t t ts us (rw miss refl) stems)
        ])

  update-Grows :
      (ts : List Transaction)
      → ((t : Transaction) → Memᴰ t ts → p t ≡ true → is_forbidden t (f t) ≡ false → Moves f t)
      → Returns (update_transactions p f ts) (λ us. Grows ts us)
  unfolding update_transactions
  update-Grows [] h = tt
  update-Grows (t ∷ ts) h =
      Returns->>= (update_transactions p f ts) _ (λ us. Grows ts us) (λ us. Grows (t ∷ ts) us)
        (update-Grows ts (λ u m. h u (Memᴰ.tail m)))
        (λ us g. elim (Bool-cases (p t)) [
          | inl hit ↦ elim (Bool-cases (is_forbidden t (f t))) [
            | inl bad ↦ rw (hit, bad) tt
            | inr fine ↦ rw (hit, fine) (Moves-Evolves f t (h t (Memᴰ.head refl) hit fine) fine, g)
          ]
          | inr miss ↦ rw miss (Evolves-refl t, g)
        ])

  stems-Keyed :
      (ts us : List Transaction)
      → ((t : Transaction) → (f t).id ≡ t.id)
      → Keyed ts
      → Stems ts us
      → Keyed us
  stems-Keyed ts us kept keyed stems a b ma mb e =
      let (x, mx, ex) = stems a ma in
      let (y, my, ey) = stems b mb in
      let same_id =
        λ (t : Transaction). let k : (rewritten p f t).id ≡ t.id = ground (arith, kept t) in k in
      let same : x ≡ y =
        keyed x y mx my
          (sym (same_id x) ∙ ap (λ t. t.id) (sym ex) ∙ e ∙ ap (λ t. t.id) ey ∙ same_id y) in
      ex ∙ ap (rewritten p f) same ∙ sym ey

  update-Backed :
      (ts : List Transaction)
      → All Backed ts
      → ((t : Transaction) → Memᴰ t ts → p t ≡ true → is_forbidden t (f t) ≡ false → Moves f t)
      → Returns (update_transactions p f ts) (All Backed)
  unfolding update_transactions
  update-Backed [] b h = tt
  update-Backed (t ∷ ts) (b, bs) h =
      Returns->>= (update_transactions p f ts) _ (All Backed) (All Backed)
        (update-Backed ts bs (λ u m. h u (Memᴰ.tail m)))
        (λ us rest. elim (Bool-cases (p t)) [
          | inl hit ↦ elim (Bool-cases (is_forbidden t (f t))) [
            | inl bad ↦ rw (hit, bad) tt
            | inr fine ↦ rw (hit, fine) ((h t (Memᴰ.head refl) hit fine).backed, rest)
          ]
          | inr miss ↦ rw miss (b, rest)
        ])

  -- An update that follows the machine.
  pub update_rows :
      (ts : List Transaction)
      → Live ts
      → ((t : Transaction) → (f t).id ≡ t.id)
      → ((t : Transaction) → Memᴰ t ts → p t ≡ true → is_forbidden t (f t) ≡ false → Moves f t)
      → Returns (update_transactions p f ts) (λ us. Grows ts us × Live us)
  update_rows ts live kept moves =
      Returns-map (update_transactions p f ts) (λ us. Grows ts us × (Stems ts us × All Backed us)) _
        (Returns-both (update_transactions p f ts) _ _ (update-Grows ts moves) (
          Returns-both (update_transactions p f ts) _ _ (from_rows ts)
            (update-Backed ts live.backed moves)))
        (λ us (grows, (stems, backed)). (
          grows,
          record {
            keyed = stems-Keyed ts us kept live.keyed stems;
            sent = Grows-Sent ts us grows live.sent;
            backed = backed;
          },
        ))
