-- ===== src/Reports/History.antt =====
-- What a server's history of reports says about its status (internal/operations/operations.go,
-- internal/platformdb/operations.go).
use bsystem_integration_core.Base.{
  ◌≡◌, refl, arith, Option, some, List, [], ◌∷◌, keep, not, if◌then◌else◌, ap, ◌∙◌, sym,
}
use bsystem_integration_core.Base.Text.{is_empty}
use bsystem_integration_core.Base.Clock.{Time}
use Prim.Native.String.{String}
use bsystem_integration_core.Reports.Operations.{Server, Report, apply_report, apply_reports}

-- The last status that the reports state, over the one before them.
abbrev pub last_stated : String → List Report → String
last_stated status [] = status
last_stated status (r ∷ rs) = last_stated (if is_empty r.implied then status else r.implied) rs

abbrev pub last_time : Option Time → List Report → Option Time
last_time t [] = t
last_time t (r ∷ rs) = last_time (some r.occurred_at) rs

apply_report-status :
    (s : Server) (r : Report)
    → (apply_report s r).status ≡ (if is_empty r.implied then s.status else r.implied)
unfolding apply_report
apply_report-status s r = ground arith

stated : (s : Server) (rs : List Report) → (apply_reports s rs).status ≡ last_stated s.status rs
unfolding apply_reports
stated s [] = refl
stated s (r ∷ rs) =
    stated (apply_report s r) rs ∙ ap (λ x. last_stated x rs) (apply_report-status s r)

timed :
    (s : Server) (rs : List Report)
    → (apply_reports s rs).last_event_at ≡ last_time s.last_event_at rs
unfolding apply_reports apply_report
timed s [] = refl
timed s (r ∷ rs) = ground (arith, timed (apply_report s r) rs)

abbrev pub speaking : List Report → List Report
speaking = keep (λ r. not (is_empty r.implied))

last_stated-speaking :
    (status : String) (rs : List Report) → last_stated status (speaking rs) ≡ last_stated status rs
last_stated-speaking status [] = refl
last_stated-speaking status (r ∷ rs) =
    ground (arith, last_stated-speaking status rs, last_stated-speaking r.implied rs)

-- After any reports a server's status is the last one that a report stated, and its last event is
-- the last report of any kind; so reports that say nothing of the server itself, as those of backups
-- and self-tests, may be left out without changing its status.
pub status_is_last_stated :
    (s : Server) (rs : List Report)
    → ((apply_reports s rs).status ≡ last_stated s.status rs)
      × ((apply_reports s rs).last_event_at ≡ last_time s.last_event_at rs)
      × ((apply_reports s rs).status ≡ (apply_reports s (speaking rs)).status)
status_is_last_stated s rs = (
  stated s rs,
  timed s rs,
  stated s rs ∙ sym (last_stated-speaking s.status rs) ∙ sym (stated s (speaking rs)),
)
