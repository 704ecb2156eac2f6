-- ===== src/Ingestion/Processor.antt =====
-- `EventIngestionProcessor.process` of apps/worker/src/event-ingestion.processor.ts. The body runs in
-- one transaction, an error undoes it, and the mark of the error is a transaction of its own. What
-- decrypts, parses and normalizes is the parameter `Normalizer`.
use sentriqora.Base.{
  ℕ, suc, ◌+◌, Bool, true, false, Option, none, some, List, [], ◌∷◌, ◌++◌, Text, units, Result, ok,
  err, ◌>>=◌, ensure, transaction, ◌==◌, ◌&&◌, not, any, length, find_first, update_where,
  if◌then◌else◌, text_eq,
}
use sentriqora.Outbox.Store.{OutboxEvent}
use sentriqora.Outbox.Producers.{batch_created}
use sentriqora.Incidents.Store.{Audit}

-- `RawEventStatus`
pub data Status : Type 0 where
  received queued processing normalized rejected failed : Status

-- A row of `raw_events`. `payload` stands for the three columns of the ciphertext and the format.
pub record RawEvent (C : Type 0) : Type 0 where
  pub id : ℕ
  pub organization_id : ℕ
  pub connector_id : ℕ
  pub payload : C
  pub received_at : ℕ
  pub retention_until : ℕ
  pub record_count : ℕ
  pub retry_count : ℕ
  pub status : Status
  pub rejection_code : Option Text
  pub processed_at : Option ℕ

pub record Connector (K : Type 0) : Type 0 where
  pub id : ℕ
  pub organization_id : ℕ
  pub type : K

pub record Asset : Type 0 where
  pub id : ℕ
  pub organization_id : ℕ
  pub key : Text
  pub is_active : Bool

-- `NormalizedEventValue`: the key of its asset, and the rest.
pub record Value (V : Type 0) : Type 0 where
  pub asset_key : Option Text
  pub content : V

-- A row of `normalized_events`.
pub record NormalizedEvent (V : Type 0) : Type 0 where
  pub organization_id : ℕ
  pub raw_event_id : ℕ
  pub connector_id : ℕ
  pub asset_id : Option ℕ
  pub record_index : ℕ
  pub content : V
  pub received_at : ℕ
  pub retention_until : ℕ

pub record Store (C K V N : Type 0) : Type 0 where
  pub raw_events : List (RawEvent C)
  pub connectors : List (Connector K)
  pub assets : List Asset
  pub events : List (NormalizedEvent V)
  pub audits : List Audit
  pub outbox : List (OutboxEvent N)
  pub next_id : ℕ

-- An error that `isRejectedEvent` recognizes, with its code, or another one.
pub data Failure : Type 0 where
  rejection : Text → Failure
  other : Text → Failure

-- Decryption and parsing of a payload, and adaptation and normalization of the record at an index.
pub record Normalizer (C K V D : Type 0) : Type 0 where
  pub candidates : C → Result Failure (List D)
  pub normalize : K → ℕ → ℕ → D → Result Failure (Value V)

-- The errors of the database, where it has any: up to the SELECT of `findRawEvent`, in the first UPDATE,
-- from `findAssets` to the insertion of the events, after that, and in the COMMIT, which is then taken
-- to have rolled back; and in the transactions of `markRejected` and `markFailed`.
pub record Answers : Type 0 where
  pub start_error : Option Text
  pub update_error : Option Text
  pub commit_error : Option Text
  pub insert_error : Option Text
  pub completion_error : Option Text
  pub reject_error : Option Text
  pub fail_error : Option Text

pub record Job : Type 0 where
  pub connector_id : ℕ
  pub organization_id : ℕ
  pub raw_event_id : ℕ

pub record Outcome : Type 0 where
  pub normalized_records : ℕ
  pub status : Status

abbrev pub is_final : Status → Bool
is_final normalized = true
is_final rejected = true
is_final _ = false

abbrev pub is_normalized : Status → Bool
is_normalized normalized = true
is_normalized _ = false

unfoldable pub throw_if : Option Text → Result Failure (Unit {0})
throw_if none = ok tt
throw_if (some e) = err (other e)

module _ {C : Type 0} where
  -- WHERE id = … AND organization_id = …
  abbrev pub is_raw : Job → RawEvent C → Bool
  is_raw job r = r.id == job.raw_event_id && r.organization_id == job.organization_id

  unfoldable pub set_processing : RawEvent C → RawEvent C
  set_processing r = record r { status = processing; retry_count = r.retry_count + 1 }

  unfoldable pub set_normalized : ℕ → RawEvent C → RawEvent C
  set_normalized now r = record r {
    status = normalized;
    processed_at = some now;
    rejection_code = none;
  }

  unfoldable pub set_rejected : ℕ → Text → RawEvent C → RawEvent C
  set_rejected now code r = record r {
    status = rejected;
    processed_at = some now;
    rejection_code = some code;
  }

  unfoldable pub set_failed : RawEvent C → RawEvent C
  set_failed r = record r { status = failed }

abbrev pub is_connector : {K : Type 0} → ℕ → ℕ → Connector K → Bool
is_connector organization id c = c.id == id && c.organization_id == organization

-- `findAssets`
abbrev is_asset : ℕ → Text → Asset → Bool
is_asset organization key a = a.organization_id == organization && text_eq a.key key && a.is_active

asset_id : Option Asset → Option ℕ
asset_id none = none
asset_id (some a) = some a.id

unfoldable pub or_absent {ℓ} : {A : Type ℓ} → Option A → Result Failure A
or_absent none = err (other (units "RawEventNotFound"))
or_absent (some a) = ok a

abbrev pub is_row : {V : Type 0} → ℕ → ℕ → NormalizedEvent V → Bool
is_row raw index e = e.raw_event_id == raw && e.record_index == index

-- INSERT … ON CONFLICT (raw_event_id, record_index) DO NOTHING
unfoldable pub insert_event :
    {V : Type 0} → NormalizedEvent V → List (NormalizedEvent V) → List (NormalizedEvent V)
insert_event e events =
    if any (is_row e.raw_event_id e.record_index) events then events else events ++ e ∷ []

module _ {C K V N : Type 0} where
  unfoldable pub find_asset : ℕ → Option Text → Store C K V N → Option ℕ
  unfolding asset_id
  find_asset organization none s = none
  find_asset organization (some key) s = asset_id (find_first (is_asset organization key) s.assets)

  -- `findRawEvent`, which joins the connector
  unfoldable pub find_raw_event : Job → Store C K V N → Result Failure (RawEvent C × K)
  unfolding or_absent
  find_raw_event job s = do
    raw ← or_absent (find_first (is_raw job) s.raw_events)
    connector ←
        or_absent (find_first (is_connector raw.organization_id raw.connector_id) s.connectors)
    _ ← ensure (raw.connector_id == job.connector_id) (other (units "RawEventNotFound"))
    ok (raw, connector.type)

  abbrev pub event_of : Job → RawEvent C → Store C K V N → ℕ → Value V → NormalizedEvent V
  event_of job raw s index value = record {
    organization_id = job.organization_id;
    raw_event_id = job.raw_event_id;
    connector_id = job.connector_id;
    asset_id = find_asset job.organization_id value.asset_key s;
    record_index = index;
    content = value.content;
    received_at = raw.received_at;
    retention_until = raw.retention_until;
  }

  unfoldable pub insert_from : Job → RawEvent C → ℕ → List (Value V) → Store C K V N → Store C K V N
  unfolding insert_event find_asset
  insert_from job raw index [] s = s
  insert_from job raw index (value ∷ values) s =
      insert_from job raw (suc index) values
        (record s { events = insert_event (event_of job raw s index value) s.events })

  -- `insertNormalizedEvents`: a VALUES list with nothing in it is an error of syntax
  unfoldable pub insert_normalized_events :
      Job → RawEvent C → List (Value V) → Store C K V N → Result Failure (Store C K V N)
  unfolding insert_from
  insert_normalized_events job raw [] s = err (other (units "error"))
  insert_normalized_events job raw (value ∷ values) s =
      ok (insert_from job raw 0 (value ∷ values) s)

module _ {C K V D : Type 0} (normalizer : Normalizer C K V D) where
  -- `candidates.map(…)`
  unfoldable pub normalize_from : K → ℕ → ℕ → List D → Result Failure (List (Value V))
  normalize_from type at index [] = ok []
  normalize_from type at index (d ∷ ds) = do
    value ← normalizer.normalize type index at d
    values ← normalize_from type at (suc index) ds
    ok (value ∷ values)

  -- What the payload says: as many records as were counted when it was received.
  unfoldable pub read_values : RawEvent C → K → Result Failure (List (Value V))
  unfolding normalize_from
  read_values raw type = do
    candidates ← normalizer.candidates raw.payload
    _ ← ensure (length candidates == raw.record_count) (rejection (units "payload_limits_exceeded"))
    normalize_from type raw.received_at 0 candidates

module _ {C K V N D : Type 0} (normalizer : Normalizer C K V D) (uuid_text : ℕ → Text)
    (number : ℕ → N) where
  -- `recordCompletion`
  unfoldable pub record_completion : ℕ → Job → ℕ → Store C K V N → Store C K V N
  record_completion now job count s = record s {
    audits =
        s.audits
        ++ record {
          organization_id = job.organization_id;
          actor_user_id = none;
          action = "raw_event.normalized";
          target_id = job.raw_event_id;
        }
          ∷ [];
    outbox =
        s.outbox
        ++ batch_created uuid_text s.next_id now job.organization_id job.raw_event_id (number count)
          ∷ [];
    next_id = suc s.next_id;
  }

  -- From the first update on.
  unfoldable pub normalize_raw :
      Answers → ℕ → Job → RawEvent C → K → Store C K V N → Result Failure (Outcome × Store C K V N)
  normalize_raw answers now job raw type s = do
    let started = record s { raw_events = update_where (is_raw job) set_processing s.raw_events }
    _ ← throw_if answers.update_error
    values ← read_values normalizer raw type
    _ ← throw_if answers.insert_error
    inserted ← insert_normalized_events job raw values started
    _ ← throw_if answers.completion_error
    ok (
      record { normalized_records = length values; status = normalized },
      record_completion now job (length values) (record inserted {
        raw_events = update_where (is_raw job) (set_normalized now) inserted.raw_events;
      }),
    )

  unfoldable pub known_outcome : RawEvent C → Outcome
  known_outcome raw = record {
    normalized_records = if is_normalized raw.status then raw.record_count else 0;
    status = raw.status;
  }

  -- The body of the transaction.
  unfoldable pub process_body :
      Answers → ℕ → Job → Store C K V N → Result Failure (Outcome × Store C K V N)
  process_body answers now job s = do
    _ ← throw_if answers.start_error
    (raw, type) ← find_raw_event job s
    done ←
        (if is_final raw.status
          then ok (known_outcome raw, s)
          else normalize_raw answers now job raw type s)
    _ ← throw_if answers.commit_error
    ok done

  -- `markRejected`: WHERE … AND status <> 'NORMALIZED'
  unfoldable pub mark_rejected : ℕ → Job → Text → Store C K V N → Store C K V N
  mark_rejected now job code s = record s {
    raw_events =
        update_where (λ r. is_raw job r && not (is_normalized r.status)) (set_rejected now code)
          s.raw_events;
  }

  -- `markFailed`: WHERE … AND status NOT IN ('NORMALIZED', 'REJECTED'); its own errors are logged
  unfoldable pub mark_failed : Answers → Job → Store C K V N → Store C K V N
  mark_failed answers job s = elim answers.fail_error [
    | some _ ↦ s
    | none ↦ record s {
      raw_events =
          update_where (λ r. is_raw job r && not (is_final r.status)) set_failed s.raw_events;
    }
  ]

  unfoldable pub settle :
      Answers
      → ℕ
      → Job
      → Result Failure Outcome × Store C K V N
      → Result Failure Outcome × Store C K V N
  settle answers now job (ok outcome, s) = (ok outcome, s)
  settle answers now job (err (rejection code), s) = elim answers.reject_error [
    | some e ↦ (err (other e), s)
    | none ↦
        (ok (record { normalized_records = 0; status = rejected }), mark_rejected now job code s)
  ]
  settle answers now job (err (other e), s) = (err (other e), mark_failed answers job s)

  -- `process`
  unfoldable pub process :
      Answers → ℕ → Job → Store C K V N → Result Failure Outcome × Store C K V N
  process answers now job s = settle answers now job (transaction (process_body answers now job) s)
