-- ===== src/Support/Graph.antt =====
-- The statuses that a record passes through (support.go, `CanTransition`).
use bsystem_integration_core.Base.{
  ℕ, ◌≤◌, ◌≡◌, sym, ◌⊎◌, ◌↔◌, ◌≢◌, inl, inr, arith, false, none, List, [], ◌∷◌, subst,
}
use bsystem_integration_core.Base.Text.{str_eq, str_eq-cases}
use Prim.Native.String.{String}
use bsystem_integration_core.Support.{transitions, can_transition}

-- The known statuses.
pub data Status : Type 0 where
  new acknowledged in_progress resolved closed : Status

abbrev pub name : Status → String
name new = "new"
name acknowledged = "acknowledged"
name in_progress = "in_progress"
name resolved = "resolved"
name closed = "closed"

-- How far along a status is. Resolved and in progress, between which a record goes back and forth,
-- are equally far.
abbrev pub level : Status → ℕ
level new = 0
level acknowledged = 1
level in_progress = 2
level resolved = 2
level closed = 3

-- Among the known statuses a move is allowed exactly if it does not lead back: the graph is the
-- order by how far a record is, in which only in progress and resolved are equally far. So closed
-- is terminal, a record that was worked on is never new again, and a resolved one may reopen.
pub can_transition_iff :
    (x y : Status) → (can_transition (name x) (name y) ≡ none) ↔ (level x ≤ level y)
unfolding can_transition transitions
can_transition_iff new new = ground arith
can_transition_iff new acknowledged = ground arith
can_transition_iff acknowledged new = ground arith
can_transition_iff in_progress new = ground arith
can_transition_iff resolved new = ground arith
can_transition_iff closed new = ground arith
can_transition_iff acknowledged acknowledged = ground arith
can_transition_iff _ _ = ground arith

known-cases :
    (s : String)
    → ((x : Status) × (s ≡ name x))
      ⊎ ((str_eq "new" s ≡ false)
          × (str_eq "acknowledged" s ≡ false)
          × (str_eq "in_progress" s ≡ false)
          × (str_eq "resolved" s ≡ false)
          × (str_eq "closed" s ≡ false))
known-cases s = elim (str_eq-cases "new" s) [
  | inl (_, e) ↦ inl (new, sym e)
  | inr (a, _) ↦ elim (str_eq-cases "acknowledged" s) [
    | inl (_, e) ↦ inl (acknowledged, sym e)
    | inr (b, _) ↦ elim (str_eq-cases "in_progress" s) [
      | inl (_, e) ↦ inl (in_progress, sym e)
      | inr (c, _) ↦ elim (str_eq-cases "resolved" s) [
        | inl (_, e) ↦ inl (resolved, sym e)
        | inr (d, _) ↦ elim (str_eq-cases "closed" s) [
          | inl (_, e) ↦ inl (closed, sym e)
          | inr (f, _) ↦ inr (a, b, c, d, f)
        ]
      ]
    ]
  ]
]

-- A history of statuses, each of which may follow the one before.
abbrev pub IsHistory : String → List String → Type 0
IsHistory s [] = Unit {0}
IsHistory s (t ∷ ts) = (can_transition s t ≡ none) × IsHistory t ts

abbrev pub last : String → List String → String
last s [] = s
last s (t ∷ ts) = last t ts

not_to_unknown :
    (x : Status) (t : String)
    → (str_eq "new" t ≡ false)
      × (str_eq "acknowledged" t ≡ false)
      × (str_eq "in_progress" t ≡ false)
      × (str_eq "resolved" t ≡ false)
      × (str_eq "closed" t ≡ false)
    → can_transition (name x) t ≢ none
unfolding can_transition transitions
not_to_unknown new t u = ground arith
not_to_unknown _ t u = ground arith

from_known :
    (x : Status) (s t : String)
    → s ≡ name x
    → can_transition s t ≡ none
    → (y : Status) × (t ≡ name y) × (level x ≤ level y)
from_known x s t e c = elim (known-cases t) [
  | inl (y, e') ↦ (
    y,
    e',
    (can_transition_iff x y).0 (
        subst (λ u. can_transition (name x) u ≡ none) e'
          (subst (λ u. can_transition u t ≡ none) e c)),
  )
  | inr unknown ↦ absurd (not_to_unknown x t unknown (subst (λ u. can_transition u t ≡ none) e c))
]

-- A record never goes back: after any history of allowed moves from a known status, the status is a
-- known one that is at least as far along.
pub history_advances :
    (x : Status) (s : String) (ts : List String)
    → s ≡ name x
    → IsHistory s ts
    → (y : Status) × (last s ts ≡ name y) × (level x ≤ level y)
history_advances x s [] e h = (x, e, omega arith)
history_advances x s (t ∷ ts) e (c, h) =
    let (y, e', up) = from_known x s t e c in
    let (z, e'', up') = history_advances y t ts e' h in (z, e'', omega arith)
