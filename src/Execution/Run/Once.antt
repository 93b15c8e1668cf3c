-- ===== src/Execution/Run/Once.antt =====
-- No instruction is sent to the provider twice (apps/api/src/queues/payment-executor.ts).
use slvrn.Prelude.{
  ℕ, ◌+◌, ◌≤◌, ◌≡◌, refl, sym, ◌⊎◌, inl, inr, List, [], ◌∷◌, ◌++◌, Option, Bool-cases, subst,
  length, keep_if, arith,
}
use slvrn.Prelude.Text.{Text, text_eq, text_eq_iff}
use slvrn.Prelude.Number.{ℤ}
use slvrn.Errors.{Result, ok, err}
use slvrn.Errors.Returns.{Returns}
use slvrn.Daraja.{Value}
use slvrn.Execution.Store.{Store}
use slvrn.Execution.Rows.{Live}
use slvrn.Execution.Claims.{IsHeld, IsClosed}
use slvrn.Execution.Submit.{Prepared, skip, reconcile, ready}
use slvrn.Execution.Sound.Submission.{Prepares, prepare_submission-Prepares}
use slvrn.Execution.Run.{Event, prepared, sent_by, store_after, apply, sends, submissions}
use slvrn.Execution.Run.Ledger.{apply-Follows}

-- How often an instruction is among those that were sent.
abbrev pub times : Text → List Text → ℕ
times id ids = length (keep_if (text_eq id) ids)

times-append : (id : Text) (xs ys : List Text) → times id (xs ++ ys) ≡ times id xs + times id ys
times-append id [] ys = omega arith
times-append id (x ∷ xs) ys = elim (Bool-cases (text_eq id x)) [
  | inl hit ↦ rw hit (omega (arith, times-append id xs ys))
  | inr miss ↦ rw miss (times-append id xs ys)
]

-- A preparation sends nothing of a closed instruction, and closes what it sends.
prepared_once :
    (id : Text) (s : Store) (r : Result (Store × Prepared))
    → Returns r (Prepares s)
    → IsHeld id s.claims
    → (times id (sent_by r) ≡ 0)
      ⊎ ((times id (sent_by r) ≡ 1)
          × (¬ (IsClosed id s.claims))
          × IsClosed id (store_after s r).claims)
prepared_once id s (err e) h held = inl refl
prepared_once id s (ok (s', skip)) h held = inl refl
prepared_once id s (ok (s', reconcile)) h held = inl refl
prepared_once id s (ok (s', ready context)) (f, (free, closes)) held =
    elim (Bool-cases (text_eq id context.instruction.id)) [
      | inl own ↦
          let e = (text_eq_iff id context.instruction.id).0 own in
          inr (
            rw own refl,
            subst (λ x. ¬ (IsClosed x s.claims)) (sym e) free,
            subst (λ x. IsClosed x s'.claims) (sym e)
                (closes (subst (λ x. IsHeld x s.claims) e held)),
          )
      | inr other ↦ inl (rw other refl)
    ]

module _ (hash : Text → Text) (to_cents : Option Value → Option ℤ) (id : Text) where
  sends_once :
      (e : Event) (s : Store)
      → Live s.transactions
      → IsHeld id s.claims
      → (times id (sends hash to_cents e s) ≡ 0)
        ⊎ ((times id (sends hash to_cents e s) ≡ 1)
            × (¬ (IsClosed id s.claims))
            × IsClosed id (apply hash to_cents e s).claims)
  unfolding sends apply
  sends_once (prepared message config fresh token) s live held =
      prepared_once id s _ (prepare_submission-Prepares message config fresh token s live hash) held
  sends_once _ s live held = inl refl

  closed_sends_nothing :
      (es : List Event) (s : Store)
      → Live s.transactions
      → IsClosed id s.claims
      → times id (submissions hash to_cents es s) ≡ 0
  unfolding submissions
  closed_sends_nothing [] s live closed = refl
  closed_sends_nothing (e ∷ es) s live (c, found, sent) =
      let follows = apply-Follows hash to_cents e s live in
      let later =
        closed_sends_nothing es (apply hash to_cents e s) follows.live
          ((follows.claims id).1 (c, found, sent)) in
      elim (sends_once e s live (c, found)) [
        | inl none_now ↦ omega (
          arith,
          times-append id (sends hash to_cents e s)
              (submissions hash to_cents es (apply hash to_cents e s)),
          none_now,
          later,
        )
        | inr (once, free, closed) ↦ absurd (free (c, found, sent))
      ]

  -- An instruction that has a claim at first is sent at most once, by whatever sequence of deliveries,
  -- redeliveries, late answers, callbacks and queries, if the ledger is live at first: ids are unique,
  -- no row is PENDING, and each SUCCESS has its receipt and each FAILED its code.
  pub sent_at_most_once :
      (es : List Event) (s : Store)
      → Live s.transactions
      → IsHeld id s.claims
      → times id (submissions hash to_cents es s) ≤ 1
  unfolding submissions
  sent_at_most_once [] s live held = omega arith
  sent_at_most_once (e ∷ es) s live held =
      let follows = apply-Follows hash to_cents e s live in
      let next = apply hash to_cents e s in
      let total = times-append id (sends hash to_cents e s) (submissions hash to_cents es next) in
      elim (sends_once e s live held) [
        | inl none_now ↦ omega (
          arith,
          total,
          none_now,
          sent_at_most_once es next follows.live ((follows.claims id).0 held),
        )
        | inr (once, free, closed) ↦
            omega (arith, total, once, closed_sends_nothing es next follows.live closed)
      ]
