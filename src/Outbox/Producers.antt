-- ===== src/Outbox/Producers.antt =====
-- The rows that the rest of the program inserts into `outbox_events`, as the worker and the API
-- build them, and the jobs that the dispatcher reads in them.
use sentriqora.Base.{ℕ, ◌≡◌, ◌≤◌, String, Text, units, none, some, length, leb, le→leb, true}
use sentriqora.Base.Json.{Json, Fields, num, str, obj, field, end, get}
use sentriqora.Severity.{Severity, info, low, medium, high, critical, severity_of_text}
use sentriqora.Outbox.Jobs.{
  Zod, Queues, Job, SlaKind, response, resolution, ingestion, detection, alert_incident,
  sla_incident, notification, knowledge_index, route, route_job,
}
use sentriqora.Outbox.Store.{OutboxEvent, pending}

abbrev pub kind_name : SlaKind → String
kind_name response = "RESPONSE"
kind_name resolution = "RESOLUTION"

abbrev pub severity_name : Severity → String
severity_name info = "INFO"
severity_name low = "LOW"
severity_name medium = "MEDIUM"
severity_name high = "HIGH"
severity_name critical = "CRITICAL"

-- The columns that the inserts leave out have their defaults.
unfoldable pub new_event :
    {N : Type 0} → (id occurred_at available_at : ℕ) → String → Json N → OutboxEvent N
new_event id occurred_at available_at event_type payload = record {
  id = id;
  event_type = event_type;
  payload = payload;
  status = pending;
  occurred_at = occurred_at;
  available_at = available_at;
  published_at = none;
  retry_count = 0;
  last_error_code = none;
}

module _ {N : Type 0} (uuid_text : ℕ → Text) where
  abbrev uuid : String → ℕ → Fields N → Fields N
  uuid name value rest = field (units name) (str (uuid_text value)) rest

  unfoldable pub raw_event_received :
      (id now connector : ℕ) (correlation : Text) (organization raw_event : ℕ) → OutboxEvent N
  unfolding new_event
  raw_event_received id now connector correlation organization raw_event =
      new_event id now now "raw_event.received.v1" (
        obj (
          uuid "connectorId" connector (
            field (units "correlationId") (str correlation)
              (uuid "organizationId" organization (uuid "rawEventId" raw_event end)))))

  unfoldable pub batch_created : (id now organization raw_event : ℕ) (records : N) → OutboxEvent N
  unfolding new_event
  batch_created id now organization raw_event records =
      new_event id now now "normalized_event.batch_created.v1" (
        obj (
          uuid "organizationId" organization
            (uuid "rawEventId" raw_event (field (units "normalizedRecords") (num records) end))))

  unfoldable pub alert_created : (id now organization alert : ℕ) → Severity → N → OutboxEvent N
  unfolding new_event
  alert_created id now organization alert severity risk = new_event id now now "alert.created.v1" (
      obj (
        uuid "organizationId" organization (
          uuid "alertId" alert (
            field (units "severity") (str (units (severity_name severity)))
              (field (units "riskScore") (num risk) end)))))

  unfoldable pub sla_due : (id now due incident : ℕ) → SlaKind → (organization : ℕ) → OutboxEvent N
  unfolding new_event
  sla_due id now due incident kind organization = new_event id now due "incident.sla_due.v1" (
      obj (
        uuid "incidentId" incident (
          field (units "kind") (str (units (kind_name kind)))
            (uuid "organizationId" organization end))))

  unfoldable pub notification_requested : (id now notification organization : ℕ) → OutboxEvent N
  unfolding new_event
  notification_requested id now notified organization =
      new_event id now now "notification.requested.v1"
        (obj (uuid "notificationId" notified (uuid "organizationId" organization end)))

  unfoldable pub document_ready :
      (id now document organization : ℕ) (version : N) (version_id : ℕ) → OutboxEvent N
  unfolding new_event
  document_ready id now document organization version version_id =
      new_event id now now "knowledge.document_ready.v1" (
        obj (
          uuid "documentId" document (
            uuid "organizationId" organization
              (field (units "version") (num version) (uuid "versionId" version_id end)))))

  module _ (zod : Zod N) (queues : Queues) (reads : (n : ℕ) → zod.uuid (uuid_text n) ≡ some n) where
    abbrev Routed : OutboxEvent N → Job N → Type 0
    Routed e job = route zod queues e.event_type e.payload ≡ some (route_job queues job)

    Routed-notification :
        (id now notified organization : ℕ)
        → Routed
            (notification_requested id now notified organization)
            (notification notified organization)
    unfolding route notification_requested get
    Routed-notification id now notified organization = simp reads

    Routed-raw_event :
        (id now connector : ℕ) (correlation : Text) (organization raw_event : ℕ)
        → leb 8 (length correlation) ≡ true
        → leb (length correlation) 128 ≡ true
        → Routed
            (raw_event_received id now connector correlation organization raw_event)
            (ingestion connector correlation organization raw_event)
    unfolding route raw_event_received get
    Routed-raw_event id now connector correlation organization raw_event long short =
        simp (reads, long, short)

    Routed-batch :
        (id now organization raw_event : ℕ) (records : N)
        → Routed
            (batch_created id now organization raw_event records)
            (detection organization raw_event)
    unfolding route batch_created get
    Routed-batch id now organization raw_event records = simp reads

    Routed-sla :
        (id now due incident : ℕ) (kind : SlaKind) (organization : ℕ)
        → Routed
            (sla_due id now due incident kind organization)
            (sla_incident incident kind organization)
    unfolding route sla_due get
    Routed-sla id now due incident response organization = simp reads
    Routed-sla id now due incident resolution organization = simp reads

    Routed-alert :
        (id now organization alert : ℕ) (severity : Severity) (risk : N)
        → zod.percent (num risk) ≡ some risk
        → Routed
            (alert_created id now organization alert severity risk)
            (alert_incident alert organization risk severity)
    unfolding route alert_created get severity_of_text
    Routed-alert id now organization alert info risk reads_risk = simp (reads, reads_risk)
    Routed-alert id now organization alert low risk reads_risk = simp (reads, reads_risk)
    Routed-alert id now organization alert medium risk reads_risk = simp (reads, reads_risk)
    Routed-alert id now organization alert high risk reads_risk = simp (reads, reads_risk)
    Routed-alert id now organization alert critical risk reads_risk = simp (reads, reads_risk)

    Routed-document :
        (id now document organization : ℕ) (version : N) (read version_id : ℕ)
        → zod.positive_int version ≡ some read
        → Routed
            (document_ready id now document organization version version_id)
            (knowledge_index document organization read version_id)
    unfolding route document_ready get
    Routed-document id now document organization version read version_id reads_version =
        simp (reads, reads_version)

    -- The row that is inserted to have a job done. `records` is the count that a batch carries.
    abbrev pub produced : (id now due : ℕ) (records version : N) → Job N → OutboxEvent N
    produced id now due records version (ingestion c x o r) = raw_event_received id now c x o r
    produced id now due records version (detection o r) = batch_created id now o r records
    produced id now due records version (alert_incident a o r s) = alert_created id now o a s r
    produced id now due records version (sla_incident i k o) = sla_due id now due i k o
    produced id now due records version (notification n o) = notification_requested id now n o
    produced id now due records version (knowledge_index d o v i) =
        document_ready id now d o version i

    -- Which jobs the program writes: the numbers in them are read back as they are.
    abbrev pub IsProducible : N → Job N → Type 0
    IsProducible version (ingestion c x o r) = (8 ≤ length x) × (length x ≤ 128)
    IsProducible version (alert_incident a o r s) = zod.percent (num r) ≡ some r
    IsProducible version (knowledge_index d o v i) = zod.positive_int version ≡ some v
    IsProducible version _ = Unit

    -- What each of the six producers writes to the outbox the dispatcher reads as the job that was
    -- meant, and routes it, if UUIDs and the job's numbers are read as they were written, and a
    -- correlation identifier has 8 to 128 characters.
    pub producers_route :
        (id now due : ℕ) (records version : N) (job : Job N)
        → IsProducible version job
        → route zod queues
            (produced id now due records version job).event_type
            (produced id now due records version job).payload
          ≡ some (route_job queues job)
    producers_route id now due records version (ingestion c x o r) (long, short) =
        Routed-raw_event id now c x o r (le→leb 8 _ long) (le→leb _ 128 short)
    producers_route id now due records version (detection o r) h = Routed-batch id now o r records
    producers_route id now due records version (alert_incident a o r s) h =
        Routed-alert id now o a s r h
    producers_route id now due records version (sla_incident i k o) h = Routed-sla id now due i k o
    producers_route id now due records version (notification n o) h = Routed-notification id now n o
    producers_route id now due records version (knowledge_index d o v i) h =
        Routed-document id now d o version v i h
