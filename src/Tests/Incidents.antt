-- ===== src/Tests/Incidents.antt =====
-- Incidents in a database with one of them.
use sentriqora.Base.{
  ℕ, ◌≡◌, ◌≤◌, ◌<◌, ◌↔◌, ◌⊎◌, refl, true, false, none, some, [], ◌∷◌, Text, units, Result, ok, err,
  find_first, arith, update_where, count_where, trim,
}
use sentriqora.Incidents.Alerts.{Alarms, Answer, raised, from_alert, create_incident}
use sentriqora.Incidents.Alerts.Once.{from_alert_once}
use sentriqora.Incidents.Alerts.Outcomes.{IsOutcome, from_alert_cases}
use sentriqora.Severity.{critical, high}
use sentriqora.Outbox.Jobs.{resolution}
use sentriqora.Incidents.Policy.{
  PolicyError, should_create_automatically, investigating, resolved, p2, Analysis,
  assert_transition, has_meaningful_text, SlaTarget, sla_target, invalid_sla,
}
use sentriqora.Incidents.Policy.Laws.{Edge, Requires, assert_transition_iff, sla_target_ordered}
use sentriqora.Incidents.Store.{
  Incident, Db, is_incident, add_timeline, add_audit, create_notification, passes_checks,
}
use sentriqora.Incidents.Repository.{success, TransitionInput, transition, set_status}
use sentriqora.Incidents.Mutations.{left_out, clear, update_analysis, set_analysis}
use sentriqora.Incidents.Sla.{due_at, done_at, evaluate_sla, is_new_breach}
use sentriqora.Incidents.Invariant.{IsSound}
use sentriqora.Incidents.UseCases.{
  Principal, AppError, modified, parse_analysis, TransitionCandidate, plan_transition, unwrap,
  transition_incident, update_incident_analysis,
}
use sentriqora.Incidents.Histories.{start, moved, evaluated, Steps-IsSound}
use sentriqora.Incidents.Concurrency.{evaluate_sla_once}
use sentriqora.Incidents.Writes.{Write, transitioning, analysing, IsRefused, write_once}

abbrev cause : Text
cause = units "A leaked key."

abbrev explained : Analysis
explained = record { lessons_learned = none; root_cause = some cause }

assert_transition_iff_example :
    (assert_transition investigating resolved explained ≡ ok tt)
    ↔ Edge investigating resolved × Requires resolved explained
assert_transition_iff_example = assert_transition_iff investigating resolved explained

sla_target_ordered_example :
    ((t : SlaTarget)
      → sla_target 1000 30 240 ≡ ok t
      → (1000 < t.response_due_at) × (t.response_due_at < t.resolution_due_at))
    × ((sla_target 1000 30 240 ≡ err invalid_sla) ↔ (30 < 1) ⊎ (240 ≤ 30))
sla_target_ordered_example = sla_target_ordered 1000 30 240

abbrev incident : Incident
incident = record {
  id = 4;
  organization_id = 1;
  primary_asset_id = none;
  assigned_membership_id = none;
  sla_policy_id = none;
  key = units "INC-1";
  title = units "Leak";
  description = units "A key was found in public.";
  severity = high;
  priority = p2;
  status = investigating;
  risk_score = 70_000;
  first_detected_at = 1000;
  response_due_at = 2000;
  resolution_due_at = 3000;
  first_responded_at = some 1500;
  contained_at = none;
  resolved_at = none;
  closed_at = none;
  response_breached_at = none;
  resolution_breached_at = none;
  root_cause = some cause;
  lessons_learned = none;
  version = 1;
  updated_at = 1500;
}

abbrev db : Db ℕ
db = record {
  incidents = incident ∷ [];
  memberships = [];
  timeline = [];
  notifications = [];
  outbox = [];
  audits = [];
  next_id = 10;
}

abbrev uuid_text : ℕ → Text
uuid_text n = n ∷ []

abbrev analyst : Principal
analyst = record { organization_id = 1; user_id = 8; mfa_verified = true }

abbrev to_resolved : ℕ → TransitionCandidate
to_resolved version = record {
  lessons_learned = none;
  reason = units "Key revoked";
  root_cause = none;
  status = resolved;
  version = version;
}

-- What a request answers, and the state that it leaves, if it succeeds.
abbrev answer : Result AppError (Incident × Db ℕ) → Incident × Db ℕ
answer (ok (i, d)) = (i, d)
answer (err _) = (incident, db)

abbrev resolve_at : ℕ → Db ℕ → Db ℕ → Result AppError (Incident × Db ℕ)
resolve_at version seen now =
    transition_incident uuid_text 2500 analyst 1 4 (to_resolved version) seen now

db-IsSound : IsSound db.incidents
db-IsSound = record {
  row = λ _. incident;
  keyed = (refl, tt);
  formed = (record { analysis = tt; stamped = ((1500, refl), refl, refl) }, tt);
}

found : find_first (is_incident 1 4) db.incidents ≡ some incident
unfolding find_first
found = refl

resolves : resolve_at 1 db db ≡ ok (answer (resolve_at 1 db db))
unfolding transition_incident plan_transition unwrap transition find_first update_where count_where
    add_timeline add_audit create_notification trim assert_transition has_meaningful_text
    passes_checks set_status
resolves = refl

-- With a write in between that clears the root cause, a client that names the version which that
-- write gives the row resolves an incident that has no root cause, and the database lets it pass.
abbrev cleared : Db ℕ
cleared =
    (answer (
      update_incident_analysis uuid_text 2400 analyst 1 4
        (record { lessons_learned = left_out; root_cause = clear; version = 1 }) db)).1

abbrev unseen : Result AppError (Incident × Db ℕ)
unseen = resolve_at 2 db cleared

unseen_version_resolves :
    ((answer unseen).0.status ≡ resolved) × ((answer unseen).0.root_cause ≡ none)
unfolding transition_incident plan_transition unwrap transition find_first update_where count_where
    add_timeline add_audit create_notification trim assert_transition has_meaningful_text
    passes_checks set_status set_analysis update_incident_analysis update_analysis parse_analysis
unseen_version_resolves = (refl, refl)

-- If it names the version that was read, it meets a conflict.
seen_version_conflicts : resolve_at 1 db cleared ≡ err modified
unfolding transition_incident plan_transition unwrap transition find_first update_where count_where
    add_timeline add_audit create_notification trim assert_transition has_meaningful_text
    passes_checks set_status set_analysis update_incident_analysis update_analysis parse_analysis
seen_version_conflicts = refl

Steps-IsSound_example : IsSound (answer (resolve_at 1 db db)).1.incidents
Steps-IsSound_example =
    Steps-IsSound uuid_text
      (moved 2500 analyst 1 4 (to_resolved 1) start found (omega arith) start resolves) db-IsSound

abbrev input : TransitionInput
input = record {
  current_status = investigating;
  incident_id = 4;
  organization_id = 1;
  reason = units "Key revoked";
  status = resolved;
  user_id = 8;
  version = 1;
  lessons_learned = none;
  root_cause = none;
}

abbrev moved_db : Db ℕ
moved_db = (answer (unwrap (transition uuid_text 2500 input db))).1

abbrev moved_incident : Incident
moved_incident = (answer (unwrap (transition uuid_text 2500 input db))).0

transitions : transition uuid_text 2500 input db ≡ ok (success moved_incident, moved_db)
unfolding transition unwrap find_first update_where count_where add_timeline add_audit
    create_notification passes_checks set_status
transitions = refl

moved_db-IsSound : IsSound moved_db.incidents
unfolding transition unwrap find_first update_where count_where add_timeline add_audit
    create_notification passes_checks set_status trim
moved_db-IsSound = record {
  row = λ _. moved_incident;
  keyed = (refl, tt);
  formed = (
    record {
      analysis = record { text = cause; given = refl; long = omega arith };
      stamped = ((1500, refl), (2500, refl), refl);
    },
    tt,
  );
}

-- An analysis that was written on the row before the move.
abbrev second : Write
second = analysing (record {
  incident_id = 4;
  organization_id = 1;
  user_id = 9;
  version = 1;
  lessons_learned = left_out;
  root_cause = clear;
})

abbrev later_db : Db ℕ
later_db = (evaluate_sla uuid_text 2550 1 4 resolution moved_db).1

write_once_example : IsRefused uuid_text 2600 second later_db
write_once_example =
    write_once uuid_text 2500 (transitioning input) moved_incident db moved_db later_db transitions
      moved_db-IsSound (evaluated 2550 1 4 resolution start) 2600 second refl refl

abbrev late_db : Db ℕ
late_db = (evaluate_sla uuid_text 4000 1 4 resolution db).1

evaluates : evaluate_sla uuid_text 4000 1 4 resolution db ≡ (true, late_db)
unfolding evaluate_sla is_new_breach find_first update_where count_where
evaluates = refl

evaluate_sla_once_example :
    (true ≡ false → late_db ≡ db)
    × (true ≡ true
        → ((i : Incident) × (find_first (is_incident 1 4) db.incidents ≡ some i)
            × (due_at resolution i ≤ 4000)
            × (done_at resolution i ≡ none))
          × ((later : ℕ) → evaluate_sla uuid_text later 1 4 resolution late_db ≡ (false, late_db)))
evaluate_sla_once_example =
    evaluate_sla_once uuid_text 1 4 resolution 4000 db late_db true evaluates

abbrev alarms : Alarms ℕ
alarms = record {
  db = db;
  alerts =
      record {
        id = 21;
        organization_id = 1;
        asset_id = none;
        title = units "Leak";
        description = [];
        severity = critical;
        risk_score = 95_000;
        first_seen_at = 5000;
        status = raised;
        acknowledged_at = none;
        version = 1;
        updated_at = 5000;
      }
      ∷ [];
  links = [];
  alert_events = [];
  incident_events = [];
  policies = [];
}

-- What a job that returns leaves.
abbrev alarmed : Result PolicyError (Answer × Alarms ℕ) → Alarms ℕ
alarmed (ok (a, s)) = s
alarmed (err _) = alarms

abbrev answered : Answer
answered = record { created = true; incident_id = some 10 }

abbrev alarms_after : Alarms ℕ
alarms_after = alarmed (from_alert uuid_text 6000 1 21 alarms)

creates : from_alert uuid_text 6000 1 21 alarms ≡ ok (answered, alarms_after)
unfolding from_alert create_incident find_first should_create_automatically sla_target
creates = refl

from_alert_once_example :
    from_alert uuid_text 7000 1 21 alarms_after
    ≡ ok (record { created = false; incident_id = some 10 }, alarms_after)
from_alert_once_example =
    from_alert_once uuid_text 1 21 6000 alarms answered alarms_after 10 creates refl 7000

from_alert_cases_example :
    IsOutcome uuid_text 6000 1 21 alarms (from_alert uuid_text 6000 1 21 alarms)
from_alert_cases_example = from_alert_cases uuid_text 6000 1 21 alarms
