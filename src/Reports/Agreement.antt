-- ===== src/Reports/Agreement.antt =====
-- Severities are raised and never lowered, and the two packages agree.
use bsystem_integration_core.Base.{ℕ, ◌≡◌, refl, ◌⊎◌, ◌≢◌, arith, Option, none, some, subst}
use Prim.Native.Nat.{max}
use bsystem_integration_core.Base.Text.{pick, trim_space}
use Prim.Native.Char.{Char}
use Prim.Native.String.{String}
use bsystem_integration_core.Reports.{severity_order, tidy}
use bsystem_integration_core.Reports.Operations
use bsystem_integration_core.Reports.Operations.{events}
use bsystem_integration_core.Reports.Notifications
use bsystem_integration_core.Reports.Notifications.{
  Mapping, mappings, Event, Notification, from_event,
}

-- The rank of a severity, where one outside the scale ranks lowest.
abbrev pub rank : Option ℕ → ℕ
rank none = 0
rank (some n) = n

-- The severity that is stored is the higher of the platform's and the reporter's: it is one of the
-- two, its rank is the greater of theirs, and a severity outside the scale raises nothing.
escalate_to-max :
    (lower : Char → Char) (floor reported : String) (base : ℕ)
    → severity_order floor ≡ some base
    → let stored = Operations.escalate_to lower floor reported in
      (severity_order stored ≡ some (max base (rank (severity_order (tidy lower reported)))))
      × ((stored ≡ floor) ⊎ (stored ≡ tidy lower reported))
unfolding Operations.escalate_to
escalate_to-max lower floor reported base known = ground arith

-- A statement about a text holds if it holds of the mapped events and of what is not mapped.
by_mapping :
    (P : String → Type 0) (name : String)
    → P "backup.failed"
    → P "server.offline"
    → P "build.failed"
    → P "test.failed"
    → P "selftest.failed"
    → P "server.error"
    → P "incident.created"
    → P "release.created"
    → (mappings name ≡ none → P name)
    → P name
unfolding mappings
by_mapping P name p1 p2 p3 p4 p5 p6 p7 p8 rest = pick P "backup.failed" name p1 λ a.
    pick P "server.offline" name p2 λ b. pick P "build.failed" name p3 λ c.
      pick P "test.failed" name p4 λ d. pick P "selftest.failed" name p5 λ f.
        pick P "server.error" name p6 λ g.
          pick P "incident.created" name p7
            λ h. pick P "release.created" name p8 λ i. rest (rw (a, b, c, d, f, g, h, i))

abbrev IsRanked : String → Type 0
IsRanked name = (m : Mapping) → mappings name ≡ some m → severity_order m.severity ≢ none

ranked :
    (x m : Mapping)
    → some x ≡ some m
    → severity_order x.severity ≢ none
    → severity_order m.severity ≢ none
ranked x m p h = let e : x ≡ m = cc in subst (λ y. severity_order y.severity ≢ none) e h

-- Every mapping has a severity on the scale.
mapped_ranked :
    (name : String) (m : Mapping) → mappings name ≡ some m → severity_order m.severity ≢ none
unfolding mappings severity_order
mapped_ranked name =
    by_mapping IsRanked name (λ m p. ranked _ m p (λ q. cc)) (λ m p. ranked _ m p (λ q. cc))
      (λ m p. ranked _ m p (λ q. cc)) (λ m p. ranked _ m p (λ q. cc))
      (λ m p. ranked _ m p (λ q. cc)) (λ m p. ranked _ m p (λ q. cc))
      (λ m p. ranked _ m p (λ q. cc)) (λ m p. ranked _ m p (λ q. cc)) (λ none_there m p. cc)

from_event_unmapped :
    (lower : Char → Char) (e : Event)
    → mappings (trim_space e.event) ≡ none
    → from_event lower e ≡ none
unfolding from_event
from_event_unmapped lower e unmapped = ground (arith, unmapped)

from_event_mapped :
    (lower : Char → Char) (e : Event) (m : Mapping)
    → mappings (trim_space e.event) ≡ some m
    → (n : Notification) × (from_event lower e ≡ some n)
      × (n.audience_permission ≡ m.permission)
      × (n.recipient_id ≡ "")
      × (severity_order n.severity
          ≡ some (
              max
                (rank (severity_order m.severity))
                (rank (severity_order (tidy lower e.severity)))))
unfolding from_event Notifications.escalate_to
from_event_mapped lower e m mapped = (
  Notifications.notify lower e m,
  ground (arith, mapped),
  refl,
  refl,
  ground (arith, mapped_ranked (trim_space e.event) m mapped),
)

-- What is raised for an event, by its mapping if it has one.
abbrev pub IsRaised : (Char → Char) → Event → Option Mapping → Option Notification → Type 0
IsRaised lower e none raised = raised ≡ none
IsRaised lower e (some m) raised =
    (n : Notification) × (raised ≡ some n)
    × (n.audience_permission ≡ m.permission)
    × (n.recipient_id ≡ "")
    × (severity_order n.severity
        ≡ some (
            max (rank (severity_order m.severity)) (rank (severity_order (tidy lower e.severity)))))

-- A notification is raised for a mapped event and for no other. It is addressed to the permission of
-- the mapping and to nobody by name, and its severity is on the scale and is the higher of the mapping's
-- and the publisher's: a publisher can raise it and not lower it.
pub from_event-IsRaised :
    (lower : Char → Char) (e : Event)
    → IsRaised lower e (mappings (trim_space e.event)) (from_event lower e)
from_event-IsRaised lower e = by_map (mappings (trim_space e.event)) refl
  where
    by_map :
        (o : Option Mapping)
        → mappings (trim_space e.event) ≡ o
        → IsRaised lower e o (from_event lower e)
    by_map none unmapped = from_event_unmapped lower e unmapped
    by_map (some m) mapped = from_event_mapped lower e m mapped

abbrev IsAgreed : String → Type 0
IsAgreed name =
    (e : Operations.Event) (m : Mapping)
    → events name ≡ some e
    → mappings name ≡ some m
    → e.severity ≡ m.severity

-- Every event of both vocabularies has one severity: what the operations feed stores a report under
-- is what its notification starts from.
severities_agree :
    (name : String) (e : Operations.Event) (m : Mapping)
    → events name ≡ some e
    → mappings name ≡ some m
    → e.severity ≡ m.severity
unfolding events mappings
severities_agree name =
    by_mapping IsAgreed name (λ e m p q. cc) (λ e m p q. cc) (λ e m p q. cc) (λ e m p q. cc)
      (λ e m p q. cc) (λ e m p q. cc) (λ e m p q. cc) (λ e m p q. cc) (λ none_there e m p q. cc)
