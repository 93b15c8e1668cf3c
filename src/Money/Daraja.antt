-- ===== src/Money/Daraja.antt =====
-- What Daraja is asked to pay (packages/core/src/money.ts).
use slvrn.Prelude.{◌||◌}
use slvrn.Prelude.{ℕ, ◌*◌, ◌/◌, ◌%◌, ◌≤◌, ◌≡◌, sym, ap, ◌∙◌, ◌↔◌, not, arith, leb, ◌==◌}
use slvrn.Prelude.Text.{Text}
use slvrn.Prelude.Decimal.{decimal}
use slvrn.Prelude.Number.{pos, negsuc, Number, int, other, max_safe}
use slvrn.Errors.{ok, throw_if-eq-ok, ok_inj}
use slvrn.Money.{cents_to_daraja_amount}

shillings_pass :
    (s : ℕ)
    → 1 ≤ s
    → s * 100 ≤ max_safe
    → cents_to_daraja_amount (int (pos (s * 100))) ≡ ok (decimal (s * 100 / 100))
unfolding cents_to_daraja_amount
shillings_pass s some' le = ground arith

accepted :
    (n : ℕ) (text : Text)
    → cents_to_daraja_amount (int (pos n)) ≡ ok text
    → (n ≤ max_safe) × (1 ≤ n) × (n % 100 ≡ 0) × (decimal (n / 100) ≡ text)
unfolding cents_to_daraja_amount
accepted n text h =
    let (safe, rest) = throw_if-eq-ok (not (leb n max_safe) || not (leb 1 n)) _ _ h in
    let (whole, done) = throw_if-eq-ok (not ((n % 100) == 0)) _ _ rest in
    (ground arith, ground arith, ground arith, ok_inj done)

-- Daraja gets an amount exactly if it is a positive safe number of whole shillings, and then gets
-- the shillings: no cent is rounded away.
pub cents_to_daraja_amount_iff :
    (cents : Number) (text : Text)
    → (cents_to_daraja_amount cents ≡ ok text) ↔ (
        (shillings : ℕ) × (cents ≡ int (pos (shillings * 100)))
        × (1 ≤ shillings)
        × (shillings * 100 ≤ max_safe)
        × (text ≡ decimal shillings))
unfolding cents_to_daraja_amount
cents_to_daraja_amount_iff (int (pos n)) text = (
  λ h.
      let (le, some', whole, same) = accepted n text h in
      (n / 100, ap (λ x. int (pos x)) (omega arith), omega arith, omega arith, sym same),
  λ (s, e, some', le, t).
      ap cents_to_daraja_amount e
      ∙ shillings_pass s some' le
      ∙ ap ok (ap decimal (omega arith) ∙ sym t),
)
cents_to_daraja_amount_iff (int (negsuc n)) text = (λ h. cc, λ (s, e, _, _, _). cc)
cents_to_daraja_amount_iff (other t) text = (λ h. cc, λ (s, e, _, _, _). cc)
