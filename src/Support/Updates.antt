-- ===== src/Support/Updates.antt =====
-- Updating a support record: the handler `updateSupportRecord` (cmd/server/support.go), which reads
-- the record and checks the request against it, and `UpdateSupportRecord`
-- (internal/platformdb/support.go), which then writes in a transaction of its own.
--
-- The relations of a record, its audit entry and its event are not modelled. The write is to a
-- record that is there; the clock of the database is the argument `now`.
use bsystem_integration_core.Base.{
  ◌≤◌, ◌≡◌, refl, ◌⊎◌, ◌≢◌, arith, Bool, true, false, ◌||◌, not, Option, none, some, if◌then◌else◌,
  subst, sym, ◌<◌,
}
use bsystem_integration_core.Base.Text.{str_eq, str_eq_iff, is_empty, trim_space, to_lower}
use bsystem_integration_core.Base.Clock.{Time}
use Prim.Native.Char.{Char}
use Prim.Native.String.{String}
use bsystem_integration_core.Support.{ok, err, normalize_severity, normalize_status, can_transition}
use bsystem_integration_core.Support.Graph.{
  Status, new, acknowledged, in_progress, resolved, closed, name, level, can_transition_iff,
}

pub record Record : Type 0 where
  pub title : String
  pub summary : String
  pub severity : String
  pub status : String
  pub updated_at : Time
  pub acknowledged_at : Option Time
  pub resolved_at : Option Time

-- `supportUpdateRequest`: what the caller did not mention is `none`.
pub record UpdateRequest : Type 0 where
  pub title : Option String
  pub summary : Option String
  pub severity : Option String
  pub status : Option String

pub record SupportUpdate : Type 0 where
  pub title : Option String
  pub summary : Option String
  pub severity : Option String
  pub status : Option String
  pub acknowledge : Bool
  pub resolve : Bool

-- Why a request is answered with an error.
pub data Refusal : Type 0 where
  title_cleared invalid_severity invalid_status invalid_transition : Refusal

pub data Planned : Type 0 where
  update : SupportUpdate → Planned
  refuse : Refusal → Planned

abbrev is_cleared : Option String → Bool
is_cleared none = false
is_cleared (some title) = is_empty (trim_space title)

abbrev trimmed : Option String → Option String
trimmed none = none
trimmed (some text) = some (trim_space text)

-- The status that a request asks for, checked against the record's own; `none` is no change.
abbrev plan_status : (Char → Char) → String → SupportUpdate → Option String → Planned
plan_status lower existing u none = update u
plan_status lower existing u (some value) = elim (normalize_status lower value) [
  | err e ↦ refuse invalid_status
  | ok status ↦ elim (can_transition existing status) [
    | some e ↦ refuse invalid_transition
    | none ↦ update (record u {
      status = some status;
      acknowledge = not (str_eq status "new");
      resolve = str_eq status "resolved" || str_eq status "closed";
    })
  ]
]

abbrev plan_severity : (Char → Char) → Option String → Option (Option String)
plan_severity lower none = some none
plan_severity lower (some value) = elim (normalize_severity lower value) [
  | err e ↦ none
  | ok severity ↦ some (some severity)
]

-- The handler up to the write, of a record that it has read.
unfoldable pub plan_update : (Char → Char) → Record → UpdateRequest → Planned
plan_update lower existing r =
    if is_cleared r.title then refuse title_cleared else elim (plan_severity lower r.severity) [
      | none ↦ refuse invalid_severity
      | some severity ↦
          plan_status lower existing.status
            (record {
              title = trimmed r.title;
              summary = trimmed r.summary;
              severity = severity;
              status = none;
              acknowledge = false;
              resolve = false;
            })
            r.status
    ]

-- COALESCE($n, column)
abbrev coalesce {ℓ} : {A : Type ℓ} → Option A → A → A
coalesce none old = old
coalesce (some a) old = a

-- CASE WHEN $n AND column IS NULL THEN now() ELSE column END
abbrev stamp : Bool → Option Time → Time → Option Time
stamp true none now = some now
stamp true (some t) now = some t
stamp false old now = old

-- `UpdateSupportRecord`
pub update_support_record : Record → SupportUpdate → Time → Record
update_support_record r u now = record {
  title = coalesce u.title r.title;
  summary = coalesce u.summary r.summary;
  severity = coalesce u.severity r.severity;
  status = coalesce u.status r.status;
  updated_at = now;
  acknowledged_at = stamp u.acknowledge r.acknowledged_at now;
  resolved_at = stamp u.resolve r.resolved_at now;
}

-- The SLA moments agree with the status.
pub record IsStamped (r : Record) : Type 0 where
  pub acknowledged_set : str_eq r.status "new" ≡ false → r.acknowledged_at ≢ none
  pub resolved_set :
      (str_eq r.status "resolved" || str_eq r.status "closed") ≡ true → r.resolved_at ≢ none

-- Whatever record a request was checked against, and whatever was written in between, its write
-- keeps the moments in step with the status: a record that is no longer new was acknowledged at some
-- time, and one that is resolved or closed was resolved at some time. A moment once set never moves.
pub update_stamps :
    (lower : Char → Char) (read r : Record) (request : UpdateRequest) (u : SupportUpdate)
    (now : Time)
    → plan_update lower read request ≡ update u
    → IsStamped r
    → IsStamped (update_support_record r u now)
      × ((r.acknowledged_at ≡ none)
          ⊎ ((update_support_record r u now).acknowledged_at ≡ r.acknowledged_at))
      × ((r.resolved_at ≡ none) ⊎ ((update_support_record r u now).resolved_at ≡ r.resolved_at))
unfolding plan_update update_support_record
update_stamps lower read r request u now p v = ground arith

can_transition_self : (s : String) → can_transition s s ≡ none
unfolding can_transition
can_transition_self s = rw ((str_eq_iff s s).1 refl)

-- With no write in between, an update moves the status along the graph, or leaves it.
update_moves :
    (lower : Char → Char) (r : Record) (request : UpdateRequest) (u : SupportUpdate) (now : Time)
    → plan_update lower r request ≡ update u
    → can_transition r.status (update_support_record r u now).status ≡ none
unfolding plan_update update_support_record
update_moves lower r request u now p = ground (arith, can_transition_self r.status, p)

-- A request for a status alone.
abbrev pub status_request : Status → UpdateRequest
status_request x = record { title = none; summary = none; severity = none; status = some (name x) }

abbrev pub status_update : Status → SupportUpdate
status_update x = record {
  title = none;
  summary = none;
  severity = none;
  status = some (name x);
  acknowledge = not (str_eq (name x) "new");
  resolve = str_eq (name x) "resolved" || str_eq (name x) "closed";
}

normalize-name : (lower : Char → Char) (x : Status) → normalize_status lower (name x) ≡ ok (name x)
unfolding normalize_status to_lower trim_space
normalize-name lower new = refl
normalize-name lower acknowledged = refl
normalize-name lower in_progress = refl
normalize-name lower resolved = refl
normalize-name lower closed = refl

plan_status_request :
    (lower : Char → Char) (r : Record) (x y : Status)
    → r.status ≡ name x
    → level x ≤ level y
    → plan_update lower r (status_request y) ≡ update (status_update y)
unfolding plan_update
plan_status_request lower r x y e h =
    let ok_move : can_transition r.status (name y) ≡ none =
      subst (λ s. can_transition s (name y) ≡ none) (sym e) ((can_transition_iff x y).1 h) in
    ground (arith, normalize-name lower y, ok_move)

-- Two requests at once may undo a closing. The record is read in a status x that is not closed; both
-- requests, one to close and one for any status y that may follow x, are found in order against
-- that reading; the closing is written first, the other after it. Then the closed record has the
-- status y, a move that the graph refuses.
pub closing_is_overwritten :
    (lower : Char → Char) (r : Record) (x y : Status) (now later : Time)
    → r.status ≡ name x
    → level x ≤ level y
    → level y < 3
    → (plan_update lower r (status_request closed) ≡ update (status_update closed))
      × (plan_update lower r (status_request y) ≡ update (status_update y))
      × (let first = update_support_record r (status_update closed) now in
          let second = update_support_record first (status_update y) later in
          (first.status ≡ "closed")
          × (second.status ≡ name y)
          × (can_transition first.status second.status ≢ none))
unfolding update_support_record
closing_is_overwritten lower r x y now later e h k = (
  plan_status_request lower r x closed e (omega arith),
  plan_status_request lower r x y e h,
  (refl, refl, λ c. absurd (omega (arith, (can_transition_iff closed y).0 c))),
)
