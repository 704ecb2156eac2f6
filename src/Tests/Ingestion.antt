-- ===== src/Tests/Ingestion.antt =====
-- The normalization of one raw event of two records.
use sentriqora.Base.{ℕ, ◌≡◌, refl, none, some, List, [], ◌∷◌, Text, units, ok, find_first, length}
use sentriqora.Ingestion.Processor.{
  received, normalized, RawEvent, Store, Normalizer, Answers, Job, Outcome, process, process_body,
  settle, find_raw_event, or_absent, normalize_raw, read_values, normalize_from, throw_if,
  insert_normalized_events, insert_from, insert_event, record_completion,
}
use sentriqora.Ingestion.Histories.{IsSound, History, fresh, processed, History-IsSound}
use sentriqora.Ingestion.Again.{IsRepeat, process_again}

-- A payload is the list of its records, and a record its own value.
abbrev normalizer : Normalizer (List ℕ) ℕ ℕ ℕ
normalizer = record {
  candidates = λ payload. ok payload;
  normalize = λ type index at d. ok (record { asset_key = none; content = d });
}

abbrev raw : RawEvent (List ℕ)
raw = record {
  id = 6;
  organization_id = 1;
  connector_id = 2;
  payload = 70 ∷ 71 ∷ [];
  received_at = 100;
  retention_until = 9000;
  record_count = 2;
  retry_count = 0;
  status = received;
  rejection_code = none;
  processed_at = none;
}

abbrev store : Store (List ℕ) ℕ ℕ ℕ
store = record {
  raw_events = raw ∷ [];
  connectors = record { id = 2; organization_id = 1; type = 0 } ∷ [];
  assets = [];
  events = [];
  audits = [];
  outbox = [];
  next_id = 10;
}

abbrev job : Job
job = record { connector_id = 2; organization_id = 1; raw_event_id = 6 }

abbrev uuid_text : ℕ → Text
uuid_text n = n ∷ []

abbrev number : ℕ → ℕ
number n = n

abbrev calm : Answers
calm = record {
  start_error = none;
  update_error = none;
  commit_error = none;
  insert_error = none;
  completion_error = none;
  reject_error = none;
  fail_error = none;
}

abbrev broken : Answers
broken = record calm { insert_error = some (units "error") }

abbrev after : Store (List ℕ) ℕ ℕ ℕ
after = (process normalizer uuid_text number calm 200 job store).1

abbrev both : Outcome
both = record { normalized_records = 2; status = normalized }

normalizes : process normalizer uuid_text number calm 200 job store ≡ (ok both, after)
unfolding process process_body settle find_raw_event or_absent normalize_raw read_values
    normalize_from throw_if insert_normalized_events insert_from insert_event record_completion
    find_first
normalizes = refl

two_events : length after.events ≡ 2
unfolding process process_body settle find_raw_event or_absent normalize_raw read_values
    normalize_from throw_if insert_normalized_events insert_from insert_event record_completion
    find_first
two_events = refl

process_again_example :
    IsRepeat normalizer uuid_text number job broken both after
      (process normalizer uuid_text number broken 300 job after).0
      (process normalizer uuid_text number broken 300 job after).1
process_again_example =
    process_again normalizer uuid_text number job calm 200 store both after normalizes broken 300

store-IsSound : IsSound store.raw_events
store-IsSound = record { row = λ _. raw; keyed = (refl, tt); honest = ((refl, refl, refl), tt) }

history : History normalizer uuid_text number after
history = processed calm 200 job (fresh store store-IsSound)

History-IsSound_example : IsSound after.raw_events
History-IsSound_example = History-IsSound normalizer uuid_text number history
