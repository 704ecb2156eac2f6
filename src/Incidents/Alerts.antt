-- ===== src/Incidents/Alerts.antt =====
-- `fromAlert` of apps/worker/src/incident.processor.ts: an incident that is created for an alert. The
-- handler is one transaction under an advisory lock on the alert, and an error undoes it.
pub mod Once
pub mod Outcomes
use sentriqora.Base.{
  ℕ, suc, ◌+◌, ◌-◌, Bool, true, false, Option, none, some, List, [], ◌∷◌, ◌++◌, map, Text, units,
  within, Result, ok, err, ◌>>=◌, ◌==◌, ◌&&◌, take, any, find_first, update_where, if◌then◌else◌,
}
use sentriqora.Severity.{Severity, info, low, medium, high, critical, same_severity}
use sentriqora.Incidents.Policy.{
  opened, PolicyError, SlaTarget, sla_target, priority_for, should_create_automatically,
}
use sentriqora.Incidents.Store.{
  Incident, Db, created, alert_linked, internal, TimelineEntry, TimelineType, add_timeline,
  add_audit, create_notification, schedule_sla,
}

-- `AlertStatus`: OPEN is `raised`
pub data AlertStatus : Type 0 where
  raised acknowledged suppressed closed : AlertStatus

-- A row of `alerts`, as far as the handler reads and writes it.
pub record Alert : Type 0 where
  pub id : ℕ
  pub organization_id : ℕ
  pub asset_id : Option ℕ
  pub title : Text
  pub description : Text
  pub severity : Severity
  pub risk_score : ℕ
  pub first_seen_at : ℕ
  pub status : AlertStatus
  pub acknowledged_at : Option ℕ
  pub version : ℕ
  pub updated_at : ℕ

-- A row of `incident_alerts`.
pub record Link : Type 0 where
  pub organization_id : ℕ
  pub incident_id : ℕ
  pub alert_id : ℕ

-- A row of `alert_events`, and one of `incident_events`.
pub record AlertEvent : Type 0 where
  pub organization_id : ℕ
  pub alert_id : ℕ
  pub normalized_event_id : ℕ

pub record IncidentEvent : Type 0 where
  pub organization_id : ℕ
  pub incident_id : ℕ
  pub normalized_event_id : ℕ

pub record SlaPolicy : Type 0 where
  pub id : ℕ
  pub organization_id : ℕ
  pub severity : Severity
  pub response_minutes : ℕ
  pub resolution_minutes : ℕ
  pub enabled : Bool

pub record Alarms (N : Type 0) : Type 0 where
  pub db : Db N
  pub alerts : List Alert
  pub links : List Link
  pub alert_events : List AlertEvent
  pub incident_events : List IncidentEvent
  pub policies : List SlaPolicy

pub record Answer : Type 0 where
  pub created : Bool
  pub incident_id : Option ℕ

-- WHERE organization_id = … AND alert_id = …, and the same for the other tables
abbrev pub is_link : ℕ → ℕ → Link → Bool
is_link organization alert l = l.organization_id == organization && l.alert_id == alert

abbrev pub is_alert : ℕ → ℕ → Alert → Bool
is_alert organization id a = a.organization_id == organization && a.id == id

abbrev pub is_policy : ℕ → Severity → SlaPolicy → Bool
is_policy organization severity p =
    p.organization_id == organization && same_severity p.severity severity && p.enabled

abbrev is_raised : AlertStatus → Bool
is_raised raised = true
is_raised _ = false

-- `SLA_DEFAULTS`
abbrev sla_defaults : Severity → ℕ × ℕ
sla_defaults critical = (5, 60)
sla_defaults high = (15, 240)
sla_defaults info = (240, 2_880)
sla_defaults low = (120, 1_440)
sla_defaults medium = (30, 720)

abbrev pub sla_minutes : Option SlaPolicy → Severity → ℕ × ℕ
sla_minutes none severity = sla_defaults severity
sla_minutes (some p) severity = (p.response_minutes, p.resolution_minutes)

abbrev policy_id : Option SlaPolicy → Option ℕ
policy_id none = none
policy_id (some p) = some p.id

-- `replaceAll('-', '')` and `toUpperCase()`, on the text of a UUID
without_dashes : Text → Text
without_dashes [] = []
without_dashes (c ∷ t) = let rest = without_dashes t in if c == 45 then rest else c ∷ rest

abbrev upper : ℕ → ℕ
upper c = if within 97 122 c then c - 32 else c

incident_key : Text → Text
unfolding without_dashes
incident_key uuid = units "INC-" ++ map upper (take 12 (without_dashes uuid))

-- The row that is inserted, with the defaults of its table.
unfoldable pub new_incident : ℕ → ℕ → ℕ → Text → Option SlaPolicy → Alert → SlaTarget → Incident
new_incident now organization id key policy alert sla = record {
  id = id;
  organization_id = organization;
  primary_asset_id = alert.asset_id;
  assigned_membership_id = none;
  sla_policy_id = policy_id policy;
  key = key;
  title = alert.title;
  description = alert.description;
  severity = alert.severity;
  priority = priority_for alert.severity;
  status = opened;
  risk_score = alert.risk_score;
  first_detected_at = alert.first_seen_at;
  response_due_at = sla.response_due_at;
  resolution_due_at = sla.resolution_due_at;
  first_responded_at = none;
  contained_at = none;
  resolved_at = none;
  closed_at = none;
  response_breached_at = none;
  resolution_breached_at = none;
  root_cause = none;
  lessons_learned = none;
  version = 1;
  updated_at = now;
}

-- INSERT INTO incident_events SELECT …
linked_events : ℕ → ℕ → ℕ → List AlertEvent → List IncidentEvent
linked_events organization incident alert [] = []
linked_events organization incident alert (e ∷ events) =
    let rest = linked_events organization incident alert events in
    if e.organization_id == organization && e.alert_id == alert
    then record {
      organization_id = organization;
      incident_id = incident;
      normalized_event_id = e.normalized_event_id;
    }
      ∷ rest
    else rest

-- `COALESCE(acknowledged_at, now())`
abbrev or_now : Option ℕ → ℕ → Option ℕ
or_now none now = some now
or_now (some t) now = some t

acknowledge : ℕ → Alert → Alert
acknowledge now a = record a {
  status = acknowledged;
  acknowledged_at = or_now a.acknowledged_at now;
  version = a.version + 1;
  updated_at = now;
}

abbrev timeline_entry : ℕ → ℕ → TimelineType → Text → Text → TimelineEntry
timeline_entry organization incident type title detail = record {
  organization_id = organization;
  incident_id = incident;
  actor_user_id = none;
  type = type;
  title = title;
  detail = detail;
  from_status = none;
  to_status = none;
  idempotency_key = none;
}

module _ {N : Type 0} (uuid_text : ℕ → Text) where
  -- The statements from the insertion of the incident on.
  unfoldable pub record_incident : ℕ → ℕ → Alert → Incident → Alarms N → Alarms N
  unfolding linked_events acknowledge
  record_incident now organization alert incident s = record s {
    db =
        add_audit
          (record {
            organization_id = organization;
            actor_user_id = none;
            action = "incident.auto_created";
            target_id = incident.id;
          })
          (create_notification uuid_text now organization (units "Critical incident created")
            (record {
              type = "INCIDENT_CREATED";
              incident_id = incident.id;
              recipient_membership_id = none;
              channel = internal;
              body = incident.key ++ (units ": " ++ alert.title);
            })
            (schedule_sla uuid_text now organization incident.id incident.response_due_at
              incident.resolution_due_at
              (add_timeline
                (timeline_entry organization incident.id alert_linked (units "Alert linked") (
                  take 2000
                    (units "Alert " ++ (uuid_text alert.id ++ units " linked to the incident."))))
                (add_timeline
                  (timeline_entry organization incident.id created
                    (units "Incident created automatically")
                    (units "High-risk alert policy matched."))
                  (record s.db {
                    incidents = s.db.incidents ++ incident ∷ [];
                    next_id = suc s.db.next_id;
                  })))));
    links =
        s.links
        ++ record { organization_id = organization; incident_id = incident.id; alert_id = alert.id }
          ∷ [];
    incident_events =
        s.incident_events ++ linked_events organization incident.id alert.id s.alert_events;
    alerts =
        update_where (λ a. is_alert organization alert.id a && is_raised a.status) (acknowledge now)
          s.alerts;
  }

  -- From the reading of the SLA policy on.
  unfoldable pub create_incident : ℕ → ℕ → Alert → Alarms N → Result PolicyError (Answer × Alarms N)
  unfolding incident_key
  create_incident now organization alert s = do
    let policy = find_first (is_policy organization alert.severity) s.policies
    let minutes = sla_minutes policy alert.severity
    sla ← sla_target alert.first_seen_at minutes.0 minutes.1
    let id = s.db.next_id
    ok (
      record { created = true; incident_id = some id },
      record_incident now organization alert
          (new_incident now organization id (incident_key (uuid_text id)) policy alert sla) s,
    )

  -- `fromAlert`
  unfoldable pub from_alert : ℕ → ℕ → ℕ → Alarms N → Result PolicyError (Answer × Alarms N)
  from_alert now organization id s = elim (find_first (is_link organization id) s.links) [
    | some link ↦ ok (record { created = false; incident_id = some link.incident_id }, s)
    | none ↦ elim (find_first (is_alert organization id) s.alerts) [
      | none ↦ ok (record { created = false; incident_id = none }, s)
      | some alert ↦
          (if should_create_automatically alert.severity alert.risk_score
            then create_incident now organization alert s
            else ok (record { created = false; incident_id = none }, s))
    ]
  ]
