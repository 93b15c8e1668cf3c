-- ===== src/Batch/Runs/Officers.antt =====
-- Which officers a released batch has passed (packages/core/src/batch-state.ts, rbac.ts).
use native.Mathlib.Decide.{dec_le}
use slvrn.Prelude.{
  ℕ, zero, suc, ◌≤◌, ◌≡◌, refl, ◌⊎◌, inl, inr, true, false, List, [], ◌∷◌, some, All, All-Mem,
  subst, arith,
}
use slvrn.Errors.{ok, >>=-eq-ok}
use slvrn.Rbac.{
  AuthorityLevel, Actor, active, l1, l2, l3, Permission, has_permission, batch_submit_to_l2,
  batch_approve_to_l3, payment_release,
}
use slvrn.Rbac.Laws.{duties_separate}
use slvrn.Batch.{
  BatchState, draft, validated, submitted_to_l2, l2_review, l3_ready, authorization_pending, held,
  cancelled, BatchCommand, submit_to_l2, approve_to_l3, authorize, BatchEdge, batch_edges,
  has_left_the_building,
}
use slvrn.Batch.Runs.{by, Order, Issuer, account, worker, run, Holds, order_sound, state_of}

-- `xs` is left of `os` when other orders are struck out.
pub data InOrder : List Order → List Order → Type 0 where
  end : {os : List Order} → InOrder [] os
  next : {x : Order} {xs os : List Order} → InOrder xs os → InOrder (x ∷ xs) (x ∷ os)
  skip : {o : Order} {xs os : List Order} → InOrder xs os → InOrder xs (o ∷ os)

InOrder-tail : {x : Order} {xs os : List Order} → InOrder (x ∷ xs) os → InOrder xs os
InOrder-tail (next h) = skip h
InOrder-tail (skip h) = skip (InOrder-tail h)

abbrev pub IsOfficer : Actor → AuthorityLevel → Type 0
IsOfficer a level = (a.status ≡ active) × (a.level ≡ level)

-- How many of the three duties (submission, approval, authorization) lie behind a state.
abbrev stage : BatchState → ℕ
stage draft = 0
stage validated = 0
stage cancelled = 0
stage submitted_to_l2 = 1
stage l2_review = 1
stage held = 1
stage l3_ready = 2
stage authorization_pending = 2
stage _ = 3

-- The duties that are still ahead.
abbrev pub Ahead : ℕ → List Order → Type 0
Ahead zero os =
    (a : Actor) × (b : Actor) × (c : Actor) × IsOfficer a l1
    × IsOfficer b l2
    × IsOfficer c l3
    × InOrder (by a submit_to_l2 ∷ by b approve_to_l3 ∷ by c authorize ∷ []) os
Ahead (suc zero) os =
    (b : Actor) × (c : Actor) × IsOfficer b l2
    × IsOfficer c l3
    × InOrder (by b approve_to_l3 ∷ by c authorize ∷ []) os
Ahead (suc (suc zero)) os = (c : Actor) × IsOfficer c l3 × InOrder (by c authorize ∷ []) os
Ahead (suc (suc (suc _))) os = Unit

Ahead-skip : (k : ℕ) (o : Order) (os : List Order) → Ahead k os → Ahead k (o ∷ os)
Ahead-skip zero o os (a, b, c, x, y, z, h) = (a, b, c, x, y, z, skip h)
Ahead-skip (suc zero) o os (b, c, y, z, h) = (b, c, y, z, skip h)
Ahead-skip (suc (suc zero)) o os (c, z, h) = (c, z, skip h)
Ahead-skip (suc (suc (suc k))) o os h = tt

Ahead-suc : (k : ℕ) (os : List Order) → Ahead k os → Ahead (suc k) os
Ahead-suc zero os (a, b, c, x, y, z, h) = (b, c, y, z, InOrder-tail h)
Ahead-suc (suc zero) os (b, c, y, z, h) = (c, z, InOrder-tail h)
Ahead-suc (suc (suc k)) os h = tt

Ahead-le : (j k : ℕ) (os : List Order) → j ≤ k → Ahead j os → Ahead k os
Ahead-le j zero os h a = subst (λ i. Ahead i os) {y = 0} (omega arith) a
Ahead-le j (suc k) os h a = elim (dec_le j k) [
  | yes le ↦ Ahead-suc k os (Ahead-le j k os le a)
  | no nle ↦ subst (λ i. Ahead i os) {y = suc k} (omega arith) a
]

-- The edge does the duty `k` by `command`, which asks for `permission`.
abbrev Does : BatchEdge → ℕ → BatchCommand → Permission → Type 0
Does edge k command permission =
    (stage edge.source ≡ k)
    × (stage edge.to ≡ suc k)
    × (edge.command ≡ command)
    × (edge.permission ≡ some permission)
    × (edge.system_only ≡ false)

-- Only three edges raise the stage, and each does the duty that is next.
abbrev Moves : BatchEdge → Type 0
Moves edge =
    (stage edge.to ≤ stage edge.source)
    ⊎ (Does edge 0 submit_to_l2 batch_submit_to_l2
        ⊎ (Does edge 1 approve_to_l3 batch_approve_to_l3 ⊎ Does edge 2 authorize payment_release))

each_edge_advances : All Moves batch_edges
unfolding batch_edges
each_edge_advances = ground arith

-- The issuer of a human order, with the permission of its edge.
holder :
    (edge : BatchEdge) (o : Order) (command : BatchCommand) (p : Permission)
    → edge.system_only ≡ false
    → edge.permission ≡ some p
    → edge.command ≡ command
    → edge.command ≡ o.command
    → Holds edge o.issuer
    → (a : Actor) × (o ≡ by a command) × (has_permission a p ≡ true)
holder edge o command p human e c d h = go o.issuer refl h
  where
    go :
        (i : Issuer)
        → o.issuer ≡ i
        → Holds edge i
        → (a : Actor) × (o ≡ by a command) × (has_permission a p ≡ true)
    go worker same h = cc
    go (account a) same (_, h) = (a, ground arith, h p e)

Ahead-step :
    (edge : BatchEdge) (o : Order) (os : List Order)
    → Moves edge
    → edge.command ≡ o.command
    → Holds edge o.issuer
    → Ahead (stage edge.to) os
    → Ahead (stage edge.source) (o ∷ os)
Ahead-step edge o os (inl le) c h a =
    Ahead-skip (stage edge.source) o os (Ahead-le (stage edge.to) (stage edge.source) os le a)
Ahead-step edge o os (inr (inl (src, to, cmd, p, human))) c h ahead =
    let (a, same, has) = holder edge o submit_to_l2 batch_submit_to_l2 human p cmd c h in
    let (b, d, y, z, rest) = rw to at ahead in
    rw (src, same) (a, b, d, (duties_separate a).0 has, y, z, next rest)
Ahead-step edge o os (inr (inr (inl (src, to, cmd, p, human)))) c h ahead =
    let (a, same, has) = holder edge o approve_to_l3 batch_approve_to_l3 human p cmd c h in
    let (d, z, rest) = rw to at ahead in
    rw (src, same) (a, d, (duties_separate a).1 has, z, next rest)
Ahead-step edge o os (inr (inr (inr (src, to, cmd, p, human)))) c h ahead =
    let (a, same, has) = holder edge o authorize payment_release human p cmd c h in
    rw (src, same) (a, (duties_separate a).2 has, next end)

stage_of_left : (s : BatchState) → has_left_the_building s ≡ true → stage s ≡ 3
unfolding has_left_the_building
stage_of_left draft h = cc
stage_of_left _ h = ground arith

run-Ahead :
    (s t : BatchState) (os : List Order)
    → run s os ≡ ok t
    → has_left_the_building t ≡ true
    → Ahead (stage s) os
run-Ahead s t [] h l = rw (stage_of_left s (rw (← state_of h) at l)) tt
run-Ahead s t (o ∷ os) h l =
    let (edge, e, rest) = >>=-eq-ok _ _ h in
    let (m, source, command, holds) = order_sound s o edge e in
    subst (λ x. Ahead (stage x) (o ∷ os)) source
      (Ahead-step edge o os (All-Mem Moves batch_edges each_edge_advances m) command holds
        (run-Ahead edge.to t os rest l))

-- A batch whose money may have moved was submitted by an active L1 officer, then approved by an
-- active L2 officer, then authorized by an active L3 officer, in this order.
pub release_needs_three_officers :
    (t : BatchState) (os : List Order)
    → run draft os ≡ ok t
    → has_left_the_building t ≡ true
    → (a : Actor) × (b : Actor) × (c : Actor) × IsOfficer a l1
      × IsOfficer b l2
      × IsOfficer c l3
      × InOrder (by a submit_to_l2 ∷ by b approve_to_l3 ∷ by c authorize ∷ []) os
release_needs_three_officers t os h l = run-Ahead draft t os h l
