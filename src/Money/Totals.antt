-- ===== src/Money/Totals.antt =====
-- `sumCents` against the plain sum (packages/core/src/money.ts).
use native.Mathlib.Nat.{add_assoc, zero-add}
use slvrn.Prelude.{
  ℕ, zero, suc, ◌+◌, ◌≤◌, ◌≡◌, true, false, not, List, [], ◌∷◌, leb, arith, All, ap, sym, ◌∙◌, ◌↔◌,
}
use slvrn.Prelude.Number.{ℤ, pos, negsuc, ◌+ℤ◌, Number, int, other, in_safe_range, max_safe}
use slvrn.Errors.{ok, ok_inj, throw_if-eq-ok}
use slvrn.Money.{sum_from, sum_cents}

-- A positive integer amount that is safe.
abbrev pub IsAmount : Number → Type 0
IsAmount (int (pos (suc n))) = suc n ≤ max_safe
IsAmount _ = ⊥

abbrev pub cents : Number → ℕ
cents (int (pos n)) = n
cents _ = 0

abbrev pub sum : List Number → ℕ
sum [] = 0
sum (v ∷ vs) = cents v + sum vs

passes_of_le : (a b : ℕ) → a ≤ b → leb a b ≡ true
passes_of_le a b h = ground arith

le_of_test : (a b : ℕ) → not (leb a b) ≡ false → a ≤ b
le_of_test a b h = ground arith

pos-add : (a b : ℕ) → pos a +ℤ pos b ≡ pos (a + b)
unfolding ◌+ℤ◌
pos-add a b = ground arith

sum_from_amounts :
    (t : ℕ) (vs : List Number)
    → All IsAmount vs
    → t + sum vs ≤ max_safe
    → sum_from (pos t) vs ≡ ok (pos (t + sum vs))
unfolding sum_from
sum_from_amounts t [] h le = ground arith
sum_from_amounts t (int (pos (suc n)) ∷ vs) (safe, h) le =
    rw
      (
        pos-add t (suc n),
        passes_of_le (suc n) max_safe safe,
        passes_of_le (t + suc n) max_safe (omega arith),
      )
      (sum_from_amounts (t + suc n) vs h (omega arith)
        ∙ ap (λ x. ok (pos x)) (add_assoc t (suc n) (sum vs)))
sum_from_amounts t (int (pos zero) ∷ vs) h le = elim h.0 [ ]
sum_from_amounts t (int (negsuc n) ∷ vs) h le = elim h.0 [ ]
sum_from_amounts t (other x ∷ vs) h le = elim h.0 [ ]

sum_from_step :
    (t v : ℤ) (vs : List Number) (r : ℤ)
    → sum_from t (int v ∷ vs) ≡ ok r
    → (not (in_safe_range (t +ℤ v)) ≡ false) × (sum_from (t +ℤ v) vs ≡ ok r)
unfolding sum_from
sum_from_step t v vs r s = let (_, rest) = throw_if-eq-ok _ _ _ s in throw_if-eq-ok _ _ _ rest

sum_from_bound :
    (t : ℕ) (vs : List Number) (r : ℤ)
    → t ≤ max_safe
    → All IsAmount vs
    → sum_from (pos t) vs ≡ ok r
    → t + sum vs ≤ max_safe
unfolding sum_from
sum_from_bound t [] r le h e = omega arith
sum_from_bound t (int (pos (suc n)) ∷ vs) r le (safe, h) s =
    let (fits, rest) = rw (pos-add t (suc n)) at (sum_from_step (pos t) (pos (suc n)) vs r s) in
    omega (arith, sum_from_bound (t + suc n) vs r (le_of_test (t + suc n) max_safe fits) h rest)
sum_from_bound t (int (pos zero) ∷ vs) r le h s = elim h.0 [ ]
sum_from_bound t (int (negsuc n) ∷ vs) r le h s = elim h.0 [ ]
sum_from_bound t (other x ∷ vs) r le h s = elim h.0 [ ]

-- Positive amounts are totalled exactly if their sum is a safe integer, and refused otherwise.
pub sum_cents_iff :
    (vs : List Number) (r : ℤ)
    → All IsAmount vs
    → (sum_cents vs ≡ ok r) ↔ ((r ≡ pos (sum vs)) × (sum vs ≤ max_safe))
unfolding sum_cents
sum_cents_iff vs r h = (
  λ e.
      let le = sum_from_bound 0 vs r (omega arith) h e in
      (
        sym (ok_inj (sym (sum_from_amounts 0 vs h le) ∙ e)) ∙ ap pos (zero-add (sum vs)),
        omega arith,
      ),
  λ (e, le). sum_from_amounts 0 vs h (omega arith) ∙ ap ok (ap pos (zero-add (sum vs)) ∙ sym e),
)
