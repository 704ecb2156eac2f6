-- ===== src/Outbox/Jobs.antt =====
-- The job schemas and `OutboxDispatcher.route` of apps/worker/src/outbox-dispatcher.ts.
-- A UUID is the 128-bit number that it stands for.
use sentriqora.Base.{
  ℕ, String, Bool, Option, none, some, Text, units, text_eq, length, leb, str_eq, ◌&&◌,
  if◌then◌else◌,
}
use sentriqora.Base.Json.{Json, Fields, num, str, obj, get}
use sentriqora.Base.Options.{◌>>=◌}
use sentriqora.Severity.{Severity, severity_of_text}

-- What the schemas take from the validation library: the text of a UUID, `int().positive()`, and
-- `z.coerce.number().min(0).max(100)`.
pub record Zod (N : Type 0) : Type 0 where
  pub uuid : Text → Option ℕ
  pub positive_int : N → Option ℕ
  pub percent : Json N → Option N

pub data SlaKind : Type 0 where
  response resolution : SlaKind

pub data Job (N : Type 0) : Type 0 where
  ingestion : (connector : ℕ) (correlation : Text) (organization raw_event : ℕ) → Job N
  detection : (organization raw_event : ℕ) → Job N
  alert_incident : (alert organization : ℕ) (risk : N) → Severity → Job N
  sla_incident : (incident : ℕ) → SlaKind → (organization : ℕ) → Job N
  notification : (notification organization : ℕ) → Job N
  knowledge_index : (document organization version version_id : ℕ) → Job N

pub data Queue : Type 0 where
  ingestion_queue detection_queue incident_queue notification_queue knowledge_queue : Queue

-- the queues that are optional in the constructor of `OutboxDispatcher`
pub record Queues : Type 0 where
  pub detection : Bool
  pub incident : Bool
  pub notification : Bool
  pub knowledge : Bool

-- A template such as `ingestion-${rawEventId}`: its text, the UUID in it, and the kind behind it.
pub data JobId : Type 0 where
  plain : String → ℕ → JobId
  kinded : String → ℕ → SlaKind → JobId

pub record Route (N : Type 0) : Type 0 where
  pub job_id : JobId
  pub name : String
  pub payload : Job N
  pub queue : Queue

or_ingestion : Bool → Queue → Queue
or_ingestion present queue = if present then queue else ingestion_queue

module _ {N : Type 0} where
  -- The route of a parsed job: its identifier, its name and its queue.
  unfoldable pub route_job : Queues → Job N → Route N
  unfolding or_ingestion
  route_job queues (ingestion c x o r) = record {
    job_id = plain "ingestion-" r;
    name = "normalize-raw-event";
    payload = ingestion c x o r;
    queue = ingestion_queue;
  }
  route_job queues (detection o r) = record {
    job_id = plain "detection-" r;
    name = "detect-normalized-batch";
    payload = detection o r;
    queue = or_ingestion queues.detection detection_queue;
  }
  route_job queues (notification n o) = record {
    job_id = plain "notification-" n;
    name = "deliver-notification";
    payload = notification n o;
    queue = or_ingestion queues.notification notification_queue;
  }
  route_job queues (knowledge_index d o v i) = record {
    job_id = plain "knowledge-" i;
    name = "index-knowledge-document";
    payload = knowledge_index d o v i;
    queue = or_ingestion queues.knowledge knowledge_queue;
  }
  route_job queues (alert_incident a o r s) = record {
    job_id = plain "incident-alert-" a;
    name = "create-incident-from-alert";
    payload = alert_incident a o r s;
    queue = or_ingestion queues.incident incident_queue;
  }
  route_job queues (sla_incident i k o) = record {
    job_id = kinded "incident-sla-" i k;
    name = "evaluate-incident-sla";
    payload = sla_incident i k o;
    queue = or_ingestion queues.incident incident_queue;
  }

module _ {N : Type 0} (zod : Zod N) where
  text_of : Option (Json N) → Option Text
  text_of (some (str t)) = some t
  text_of _ = none

  uuid_of : Option (Json N) → Option ℕ
  unfolding text_of
  uuid_of v = do t ← text_of v; zod.uuid t

  number_of : Option (Json N) → Option N
  number_of (some (num n)) = some n
  number_of _ = none

  correlation_of : Option (Json N) → Option Text
  unfolding text_of
  correlation_of v = do
    t ← text_of v
    if leb 8 (length t) && leb (length t) 128 then some t else none

  kind_of : Option (Json N) → Option SlaKind
  unfolding text_of text_eq
  kind_of v = do
    t ← text_of v
    (if text_eq t (units "RESPONSE")
        then some response
        else if text_eq t (units "RESOLUTION")
        then some resolution
        else none)

  severity_of : Option (Json N) → Option Severity
  unfolding text_of severity_of_text
  severity_of v = do t ← text_of v; severity_of_text t

  object_of : Json N → Option (Fields N)
  object_of (obj fields) = some fields
  object_of _ = none

  ingestion_job : Json N → Option (Job N)
  unfolding object_of uuid_of correlation_of get
  ingestion_job payload = do
    o ← object_of payload
    connector ← uuid_of (get (units "connectorId") o)
    correlation ← correlation_of (get (units "correlationId") o)
    organization ← uuid_of (get (units "organizationId") o)
    raw_event ← uuid_of (get (units "rawEventId") o)
    some (ingestion connector correlation organization raw_event)

  detection_job : Json N → Option (Job N)
  unfolding object_of uuid_of get
  detection_job payload = do
    o ← object_of payload
    organization ← uuid_of (get (units "organizationId") o)
    raw_event ← uuid_of (get (units "rawEventId") o)
    some (detection organization raw_event)

  alert_incident_job : Json N → Option (Job N)
  unfolding object_of uuid_of severity_of get
  alert_incident_job payload = do
    o ← object_of payload
    alert ← uuid_of (get (units "alertId") o)
    organization ← uuid_of (get (units "organizationId") o)
    given_risk ← get (units "riskScore") o
    risk ← zod.percent given_risk
    severity ← severity_of (get (units "severity") o)
    some (alert_incident alert organization risk severity)

  sla_incident_job : Json N → Option (Job N)
  unfolding object_of uuid_of kind_of get
  sla_incident_job payload = do
    o ← object_of payload
    incident ← uuid_of (get (units "incidentId") o)
    kind ← kind_of (get (units "kind") o)
    organization ← uuid_of (get (units "organizationId") o)
    some (sla_incident incident kind organization)

  -- `z.union`: the first schema that accepts
  incident_job : Json N → Option (Job N)
  unfolding alert_incident_job sla_incident_job
  incident_job payload = elim (alert_incident_job payload) [
    | some job ↦ some job
    | none ↦ sla_incident_job payload
  ]

  notification_job : Json N → Option (Job N)
  unfolding object_of uuid_of get
  notification_job payload = do
    o ← object_of payload
    notified ← uuid_of (get (units "notificationId") o)
    organization ← uuid_of (get (units "organizationId") o)
    some (notification notified organization)

  knowledge_index_job : Json N → Option (Job N)
  unfolding object_of uuid_of number_of get
  knowledge_index_job payload = do
    o ← object_of payload
    document ← uuid_of (get (units "documentId") o)
    organization ← uuid_of (get (units "organizationId") o)
    given_version ← number_of (get (units "version") o)
    version ← zod.positive_int given_version
    version_id ← uuid_of (get (units "versionId") o)
    some (knowledge_index document organization version version_id)

  -- The schema that `route` parses a payload by. `none` is the `ZodError` that `parse` throws.
  unfoldable pub parse_job : String → Json N → Option (Job N)
  unfolding ingestion_job detection_job notification_job knowledge_index_job incident_job
  parse_job event_type payload =
      if str_eq event_type "raw_event.received.v1"
      then ingestion_job payload
      else if str_eq event_type "normalized_event.batch_created.v1"
      then detection_job payload
      else if str_eq event_type "notification.requested.v1"
      then notification_job payload
      else if str_eq event_type "knowledge.document_ready.v1"
      then knowledge_index_job payload
      else incident_job payload

  unfoldable pub route : Queues → String → Json N → Option (Route N)
  unfolding parse_job route_job
  route queues event_type payload = do
    job ← parse_job event_type payload
    some (route_job queues job)
