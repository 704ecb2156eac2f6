-- ===== src/Incidents/Store.antt =====
-- The tables that the incident operations use (prisma/schema.prisma), and the private helpers of
-- apps/api/src/incidents/infrastructure/prisma-incident.repository.ts that write to them.
-- A UUID is a number, and new ones come from a counter: they are distinct from all before. SHA-256
-- is taken to be free of collisions: an idempotency key is the tuple that is hashed.
pub mod Frames
use mathlib.Core.List.{reverse}
use sentriqora.Base.{
  ℕ, suc, ◌+◌, Bool, true, false, Option, none, some, List, [], ◌∷◌, ◌++◌, String, Text, units,
  Result, ok, err, ◌==◌, text_eq, str_eq, find_first, ◌&&◌, ◌||◌, not, if◌then◌else◌, any, leb,
  length, within,
}
use sentriqora.Severity.{Severity}
use sentriqora.Outbox.Jobs.{SlaKind, response, resolution}
use sentriqora.Outbox.Store.{OutboxEvent}
use sentriqora.Outbox.Producers.{sla_due, notification_requested}
use sentriqora.Incidents.Policy.{Status, Priority, resolved, closed}

pub record Incident : Type 0 where
  pub id : ℕ
  pub organization_id : ℕ
  pub primary_asset_id : Option ℕ
  pub assigned_membership_id : Option ℕ
  pub sla_policy_id : Option ℕ
  pub key : Text
  pub title : Text
  pub description : Text
  pub severity : Severity
  pub priority : Priority
  pub status : Status
  pub risk_score : ℕ
  pub first_detected_at : ℕ
  pub response_due_at : ℕ
  pub resolution_due_at : ℕ
  pub first_responded_at : Option ℕ
  pub contained_at : Option ℕ
  pub resolved_at : Option ℕ
  pub closed_at : Option ℕ
  pub response_breached_at : Option ℕ
  pub resolution_breached_at : Option ℕ
  pub root_cause : Option Text
  pub lessons_learned : Option Text
  pub version : ℕ
  pub updated_at : ℕ

pub data MembershipStatus : Type 0 where
  active inactive : MembershipStatus

-- A membership with the address of its user, which the worker joins to it.
pub record Membership : Type 0 where
  pub id : ℕ
  pub organization_id : ℕ
  pub status : MembershipStatus
  pub email : Text

pub data TimelineType : Type 0 where
  created alert_linked assigned status_changed analysis_updated sla_breached notification_sent :
      TimelineType

-- The text whose hash is the idempotency key of a timeline entry.
pub data TimelineKey : Type 0 where
  sla_key : ℕ → SlaKind → TimelineKey
  notification_key : ℕ → TimelineKey

pub record TimelineEntry : Type 0 where
  pub organization_id : ℕ
  pub incident_id : ℕ
  pub actor_user_id : Option ℕ
  pub type : TimelineType
  pub title : Text
  pub detail : Text
  pub from_status : Option Status
  pub to_status : Option Status
  pub idempotency_key : Option TimelineKey

pub data Channel : Type 0 where
  internal email : Channel

-- The tuple whose hash is the idempotency key of a notification.
pub record NotificationKey : Type 0 where
  pub type : String
  pub incident_id : ℕ
  pub recipient_membership_id : Option ℕ
  pub channel : Channel
  pub body : Text

pub data NotificationStatus : Type 0 where
  pending sent failed : NotificationStatus

pub record Notification : Type 0 where
  pub id : ℕ
  pub organization_id : ℕ
  pub incident_id : Option ℕ
  pub recipient_membership_id : Option ℕ
  pub channel : Channel
  pub type : String
  pub title : Text
  pub body : Text
  pub idempotency_key : NotificationKey
  pub status : NotificationStatus
  pub attempt_count : ℕ
  pub sent_at : Option ℕ
  pub last_error_code : Option Text

-- A row of `event_records`, the audit log.
pub record Audit : Type 0 where
  pub organization_id : ℕ
  pub actor_user_id : Option ℕ
  pub action : String
  pub target_id : ℕ

pub record Db (N : Type 0) : Type 0 where
  pub incidents : List Incident
  pub memberships : List Membership
  pub timeline : List TimelineEntry
  pub notifications : List Notification
  pub outbox : List (OutboxEvent N)
  pub audits : List Audit
  pub next_id : ℕ

abbrev pub is_channel : Channel → Channel → Bool
is_channel internal internal = true
is_channel email email = true
is_channel _ _ = false

abbrev pub same_id : Option ℕ → Option ℕ → Bool
same_id none none = true
same_id (some a) (some b) = a == b
same_id _ _ = false

abbrev pub is_key : NotificationKey → NotificationKey → Bool
is_key a b =
    str_eq a.type b.type
    && a.incident_id == b.incident_id
    && same_id a.recipient_membership_id b.recipient_membership_id
    && is_channel a.channel b.channel
    && text_eq a.body b.body

abbrev pub is_kind : SlaKind → SlaKind → Bool
is_kind response response = true
is_kind resolution resolution = true
is_kind _ _ = false

abbrev pub is_timeline_key : TimelineKey → TimelineKey → Bool
is_timeline_key (sla_key i k) (sla_key j l) = i == j && is_kind k l
is_timeline_key (notification_key n) (notification_key m) = n == m
is_timeline_key _ _ = false

abbrev pub carries : Option TimelineKey → TimelineKey → Bool
carries none key = false
carries (some other) key = is_timeline_key other key

abbrev pub has_timeline_key : ℕ → ℕ → TimelineKey → TimelineEntry → Bool
has_timeline_key organization incident key e =
    e.organization_id == organization && e.incident_id == incident && carries e.idempotency_key key

-- WHERE id = … AND organization_id = …
abbrev pub is_incident : ℕ → ℕ → Incident → Bool
is_incident organization id i = i.id == id && i.organization_id == organization

-- The CHECK constraints on the analysis. A NULL makes a CHECK pass. SQL's `length` counts code
-- points: code units but the second ones of surrogate pairs.
sql_length : Text → ℕ
sql_length [] = 0
sql_length (c ∷ t) = let rest = sql_length t in if within 0xdc00 0xdfff c then rest else suc rest

abbrev pub is_solved : Status → Bool
is_solved resolved = true
is_solved closed = true
is_solved _ = false

abbrev pub is_closed : Status → Bool
is_closed closed = true
is_closed _ = false

drop_spaces : Text → Text
drop_spaces [] = []
drop_spaces (c ∷ t) = let rest = drop_spaces t in if c == 32 then rest else c ∷ t

-- SQL's `trim` removes spaces alone.
sql_trim : Text → Text
unfolding drop_spaces
sql_trim t = reverse (drop_spaces (reverse (drop_spaces t)))

null_or_long : Option Text → Bool
unfolding sql_length sql_trim
null_or_long none = true
null_or_long (some t) = leb 10 (sql_length (sql_trim t))

unfoldable pub passes_checks : Incident → Bool
unfolding null_or_long
passes_checks i =
    (not (is_solved i.status) || null_or_long i.root_cause)
    && (not (is_closed i.status) || null_or_long i.lessons_learned)

abbrev pub has_key : ℕ → NotificationKey → Notification → Bool
has_key organization key n = n.organization_id == organization && is_key n.idempotency_key key

abbrev new_notification : ℕ → ℕ → Text → NotificationKey → Notification
new_notification id organization title key = record {
  id = id;
  organization_id = organization;
  incident_id = some key.incident_id;
  recipient_membership_id = key.recipient_membership_id;
  channel = key.channel;
  type = key.type;
  title = title;
  body = key.body;
  idempotency_key = key;
  status = pending;
  attempt_count = 0;
  sent_at = none;
  last_error_code = none;
}

module _ {N : Type 0} where
  -- `timeline`
  unfoldable pub add_timeline : TimelineEntry → Db N → Db N
  add_timeline entry db = record db { timeline = db.timeline ++ entry ∷ [] }

  -- INSERT … ON CONFLICT (organization_id, incident_id, idempotency_key) DO NOTHING
  unfoldable pub add_timeline_once : TimelineKey → TimelineEntry → Db N → Db N
  add_timeline_once key entry db =
      if any (has_timeline_key entry.organization_id entry.incident_id key) db.timeline
      then db
      else record db { timeline = db.timeline ++ record entry { idempotency_key = some key } ∷ [] }

  -- `audit`
  unfoldable pub add_audit : Audit → Db N → Db N
  add_audit entry db = record db { audits = db.audits ++ entry ∷ [] }

module _ {N : Type 0} (uuid_text : ℕ → Text) where
  unfoldable pub request_notification : ℕ → ℕ → ℕ → Db N → Db N
  request_notification now organization notified db = record db {
    outbox =
        db.outbox ++ notification_requested uuid_text db.next_id now notified organization ∷ [];
    next_id = suc db.next_id;
  }

  -- `createNotification`: an upsert that changes no row that is there, and a request to deliver
  unfoldable pub create_notification : ℕ → ℕ → Text → NotificationKey → Db N → Db N
  unfolding request_notification
  create_notification now organization title key db =
      elim (find_first (has_key organization key) db.notifications) [
        | some n ↦ request_notification now organization n.id db
        | none ↦ request_notification now organization db.next_id (record db {
          notifications =
              db.notifications ++ new_notification db.next_id organization title key ∷ [];
          next_id = suc db.next_id;
        })
      ]

  -- `scheduleSla`
  unfoldable pub schedule_sla :
      (now organization incident response_due resolution_due : ℕ) → Db N → Db N
  schedule_sla now organization incident response_due resolution_due db = record db {
    outbox =
        db.outbox
        ++ sla_due uuid_text db.next_id now response_due incident response organization
          ∷ sla_due uuid_text (suc db.next_id) now resolution_due incident resolution organization
          ∷ [];
    next_id = suc (suc db.next_id);
  }
