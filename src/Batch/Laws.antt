-- ===== src/Batch/Laws.antt =====
-- One transition of a batch: exactly when `assertTransition` accepts it, and with which edge
-- (packages/core/src/batch-state.ts).
use mathlib.Core.List.{Memᴰ}
use slvrn.Prelude.{
  ◌≡◌, refl, ◌↔◌, ◌⊎◌, inl, inr, Bool, true, false, List, [], ◌∷◌, map, subst, Bool-cases, contains,
  get, Option, none, some, All, All-Mem, Option-cases, is_yes, keep_if, arith, if◌then◌else◌,
}
use slvrn.Errors.{
  ok, throw, authorization_error, batch_transition_actor_required,
  batch_transition_permission_denied,
}
use slvrn.Rbac.{Permission}
use slvrn.Batch.{
  BatchState, BatchState-discrete, BatchCommand, BatchCommand-discrete, BatchEdge, EdgeKey, key,
  EdgeKey-discrete, batch_edges, edge_index, TransitionActor, TransitionOptions, lacks, check_edge,
  assert_transition, can_transition, allowed_commands, is_terminal, is_some, draft,
}

abbrev keyed : BatchEdge → EdgeKey × BatchEdge
keyed edge = (key edge.source edge.command, edge)

edge_index_lem : edge_index ≡ map keyed batch_edges
unfolding edge_index
edge_index_lem = refl

get-keyed :
    (from : BatchState) (command : BatchCommand) (edges : List BatchEdge) (edge : BatchEdge)
    → get EdgeKey-discrete (key from command) (map keyed edges) ≡ some edge
    → Memᴰ edge edges × (edge.source ≡ from) × (edge.command ≡ command)
get-keyed from command [] edge h = cc
get-keyed from command (x ∷ xs) edge h =
    elim (EdgeKey-discrete (key from command) (key x.source x.command))
        as (λ d.
          (if◌then◌else◌ (is_yes d) (some x)
              (get EdgeKey-discrete (key from command) (map keyed xs))
            ≡ some edge)
          → Memᴰ edge (x ∷ xs) × (edge.source ≡ from) × (edge.command ≡ command)) [
            | yes e ↦ λ g. (Memᴰ.head (cc), cc, cc)
            | no n ↦ λ g. let (m, s, c) = get-keyed from command xs edge g in (Memᴰ.tail m, s, c)
          ]
      h

-- No two edges share a state and a command, so the index finds each edge under its own key.
find_edge_table :
    All
      (λ (edge : BatchEdge).
        get EdgeKey-discrete (key edge.source edge.command) edge_index ≡ some edge)
      batch_edges
unfolding edge_index
find_edge_table = (
  refl,
  (
    refl,
    (
      refl,
      (
        refl,
        (
          refl,
          (
            refl,
            (
              refl,
              (
                refl,
                (
                  refl,
                  (
                    refl,
                    (
                      refl,
                      (
                        refl,
                        (
                          refl,
                          (
                            refl,
                            (
                              refl,
                              (
                                refl,
                                (
                                  refl,
                                  (
                                    refl,
                                    (
                                      refl,
                                      (
                                        refl,
                                        (
                                          refl,
                                          (
                                            refl,
                                            (
                                              refl,
                                              (
                                                refl,
                                                (
                                                  refl,
                                                  (
                                                    refl,
                                                    (
                                                      refl,
                                                      (
                                                        refl,
                                                        (refl, (refl, (refl, (refl, (refl, tt))))),
                                                      ),
                                                    ),
                                                  ),
                                                ),
                                              ),
                                            ),
                                          ),
                                        ),
                                      ),
                                    ),
                                  ),
                                ),
                              ),
                            ),
                          ),
                        ),
                      ),
                    ),
                  ),
                ),
              ),
            ),
          ),
        ),
      ),
    ),
  ),
)

find_edge :
    (edge : BatchEdge)
    → Memᴰ edge batch_edges
    → get EdgeKey-discrete (key edge.source edge.command) edge_index ≡ some edge
find_edge edge m =
    All-Mem (λ (x : BatchEdge). get EdgeKey-discrete (key x.source x.command) edge_index ≡ some x)
      batch_edges find_edge_table m

-- What a transition needs beside the edge: a system edge the system flag; a human edge an actor
-- who holds the edge's permission.
abbrev pub Permitted : BatchEdge → TransitionOptions → Type 0
Permitted edge options =
    ((edge.system_only ≡ true) × (options.system ≡ true))
    ⊎ ((edge.system_only ≡ false)
        × ((actor : TransitionActor) × (options.actor ≡ some actor)
            × (lacks edge.permission actor.permissions ≡ false)))

module _ (x y : BatchEdge) where
  grant_sound :
      (lacking : Bool)
      → (if lacking then throw (authorization_error batch_transition_permission_denied) else ok x)
        ≡ ok y
      → (x ≡ y) × (lacking ≡ false)
  grant_sound true h = cc
  grant_sound false h = (cc, refl)

  human_sound :
      (permission : Option Permission) (actor : Option TransitionActor)
      → (elim actor [
        | none ↦ throw (authorization_error batch_transition_actor_required)
        | some a ↦
            if lacks permission a.permissions
            then throw (authorization_error batch_transition_permission_denied)
            else ok x
      ])
        ≡ ok y
      → (x ≡ y)
        × ((a : TransitionActor) × (actor ≡ some a) × (lacks permission a.permissions ≡ false))
  human_sound permission none h = cc
  human_sound permission (some a) h =
      let (same, granted) = grant_sound (lacks permission a.permissions) h in
      (same, (a, refl, granted))

check_edge_sound :
    (edge edge' : BatchEdge) (options : TransitionOptions)
    → check_edge edge options ≡ ok edge'
    → (edge ≡ edge') × Permitted edge options
unfolding check_edge
check_edge_sound edge edge' options h = elim (Bool-cases edge.system_only) [
  | inl so ↦ elim (Bool-cases options.system) [
    | inl sys ↦ (cc (rw (so, sys) at h), inl (so, sys))
    | inr sys ↦ cc (rw (so, sys) at h)
  ]
  | inr so ↦
      let (same, permitted) = human_sound edge edge' edge.permission options.actor (rw so at h) in
      (same, inr (so, permitted))
]

check_edge_complete :
    (edge : BatchEdge) (options : TransitionOptions)
    → Permitted edge options
    → check_edge edge options ≡ ok edge
unfolding check_edge
check_edge_complete edge options (inl (so, sys)) = simp (so, sys)
check_edge_complete edge options (inr (so, (a, e, granted))) = simp (so, e, granted)

pub assert_transition_sound :
    (from : BatchState) (command : BatchCommand) (options : TransitionOptions) (edge : BatchEdge)
    → assert_transition from command options ≡ ok edge
    → Memᴰ edge batch_edges
      × (edge.source ≡ from)
      × (edge.command ≡ command)
      × Permitted edge options
unfolding assert_transition
assert_transition_sound from command options edge h =
    elim (Option-cases (get EdgeKey-discrete (key from command) edge_index)) [
      | inl missing ↦ cc
      | inr (found, e) ↦
          let (same, permitted) =
            check_edge_sound found edge options (rw (e, assert_transition) at h) in
          let (m, s, c) = get-keyed from command batch_edges found (rw edge_index_lem at e) in
          subst
            (λ x.
              Memᴰ x batch_edges × (x.source ≡ from) × (x.command ≡ command) × Permitted x options)
            same (m, s, c, permitted)
    ]

pub assert_transition_complete :
    (options : TransitionOptions) (edge : BatchEdge)
    → Memᴰ edge batch_edges
    → Permitted edge options
    → assert_transition edge.source edge.command options ≡ ok edge
unfolding assert_transition
assert_transition_complete options edge m p =
    rw (find_edge edge m, assert_transition) (check_edge_complete edge options p)

-- A transition is accepted exactly along an edge of the table that leaves the state by the command,
-- and only if the options permit the edge.
pub assert_transition_iff :
    (from : BatchState) (command : BatchCommand) (options : TransitionOptions) (edge : BatchEdge)
    → (assert_transition from command options ≡ ok edge) ↔ (
        Memᴰ edge batch_edges
        × (edge.source ≡ from)
        × (edge.command ≡ command)
        × Permitted edge options)
assert_transition_iff from command options edge = (
  assert_transition_sound from command options edge,
  λ (m, s, c, p). rw (← s, ← c) (assert_transition_complete options edge m p),
)

can_transition-keyed :
    (from : BatchState) (command : BatchCommand) (edges : List BatchEdge)
    → is_some (get EdgeKey-discrete (key from command) (map keyed edges))
      ≡ contains BatchCommand-discrete command (
          map
            (λ (edge : BatchEdge). edge.command)
            (keep_if (λ edge. is_yes (BatchState-discrete from edge.source)) edges))
can_transition-keyed from command [] = refl
can_transition-keyed from command (x ∷ xs) = ground (arith, can_transition-keyed from command xs)

-- A command can be issued in a state exactly if it is among the state's allowed commands.
pub can_transition_iff :
    (from : BatchState) (command : BatchCommand)
    → can_transition from command ≡ contains BatchCommand-discrete command (allowed_commands from)
unfolding can_transition allowed_commands
can_transition_iff from command = rw edge_index_lem (can_transition-keyed from command batch_edges)

-- Exactly the terminal states are left by no command.
pub is_terminal_iff :
    (state : BatchState) → (is_terminal state ≡ true) ↔ (allowed_commands state ≡ [])
unfolding is_terminal allowed_commands batch_edges BatchState-discrete
is_terminal_iff draft = ground arith
is_terminal_iff _ = ground arith
