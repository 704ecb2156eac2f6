-- ===== src/Ingestion/Normalizing.antt =====
-- The transaction of `process`, where it returns.
use sentriqora.Base.{
  any, ◌<◌, ◌++◌, ◌&&◌, if◌then◌else◌, ℕ, ◌≡◌, ◌⊎◌, inl, inr, refl, sym, ap, ◌∙◌, subst, true,
  false, none, List, [], ◌∷◌, Text, Result, ok, ok_of_bind, ok-injective, length, update_where,
  Bool-cases, arith, ◌==◌,
}
use sentriqora.Outbox.Producers.{batch_created}
use sentriqora.Incidents.Store.{Audit}
use sentriqora.Ingestion.Processor.{
  normalized, RawEvent, Store, Failure, Normalizer, Answers, Job, Outcome, Value, is_final, is_raw,
  set_processing, set_normalized, find_raw_event, insert_from, insert_normalized_events,
  read_values, record_completion, normalize_raw, known_outcome, process_body, throw_if,
}
use sentriqora.Ingestion.Inserts.{
  length-read_values, insert_from-frame, insert_from-has, insert_from-records, insert-records,
}

module _ {C K V N D : Type 0} (normalizer : Normalizer C K V D) (uuid_text : ℕ → Text)
    (number : ℕ → N) (now : ℕ) (job : Job) where
  -- The rows of a normalization that is committed.
  pub record IsNormalized (raw : RawEvent C) (s : Store C K V N) (out : Outcome)
      (s' : Store C K V N) : Type 0 where
    pub rows :
        s'.raw_events
        ≡ update_where
            (is_raw job)
            (set_normalized now)
            (update_where (is_raw job) set_processing s.raw_events)
    pub connectors : s'.connectors ≡ s.connectors
    pub outcome : out ≡ record { normalized_records = raw.record_count; status = normalized }
    -- each record of the payload has its event, whether it was there before or not
    pub events :
        (k : ℕ)
        → k < raw.record_count
        → any (λ e. e.raw_event_id == job.raw_event_id && e.record_index == k) s'.events ≡ true
    pub audits :
        s'.audits
        ≡ s.audits
          ++ record {
            organization_id = job.organization_id;
            actor_user_id = none;
            action = "raw_event.normalized";
            target_id = job.raw_event_id;
          }
            ∷ []
    pub outbox :
        s'.outbox
        ≡ s.outbox
          ++ batch_created uuid_text s.next_id now job.organization_id job.raw_event_id
              (number raw.record_count)
            ∷ []

  unfoldable pub started : Store C K V N → Store C K V N
  started s = record s { raw_events = update_where (is_raw job) set_processing s.raw_events }

  completed : ℕ → Store C K V N → Store C K V N
  completed count s =
      record_completion normalizer uuid_text number now job count
        (record s { raw_events = update_where (is_raw job) (set_normalized now) s.raw_events })

  committed-IsNormalized :
      (raw : RawEvent C) (s : Store C K V N) (values : List (Value V))
      → length values ≡ raw.record_count
      → IsNormalized raw s
          (record { normalized_records = length values; status = normalized })
          (completed (length values) (insert_from job raw 0 values (started s)))
  unfolding record_completion completed started
  committed-IsNormalized raw s values counted =
      let (rows, connectors) = insert_from-frame job raw 0 values (started s) in
      let (audits, outbox, next_id) = insert_from-records job raw 0 values (started s) in
      record {
        rows = ap (update_where (is_raw job) (set_normalized now)) rows;
        connectors = connectors;
        outcome = ap (λ n. record { normalized_records = n; status = normalized }) counted;
        events = λ k few.
            insert_from-has job raw 0 values (started s) k (omega arith)
              (omega (arith, few, counted));
        audits =
            ap
              (λ (rows : List Audit).
                rows
                ++ record {
                  organization_id = job.organization_id;
                  actor_user_id = none;
                  action = "raw_event.normalized";
                  target_id = job.raw_event_id;
                }
                  ∷ [])
              audits;
        outbox = rw (outbox, next_id, counted) refl;
      }

  normalize_raw-IsNormalized :
      (answers : Answers) (raw : RawEvent C) (type : K) (s : Store C K V N) (out : Outcome)
      (s' : Store C K V N)
      → normalize_raw normalizer uuid_text number answers now job raw type s ≡ ok (out, s')
      → IsNormalized raw s out s'
  unfolding normalize_raw completed started
  normalize_raw-IsNormalized answers raw type s out s' h =
      let (_, _, zero_) = ok_of_bind (throw_if answers.update_error) _ h in
      let (values, reading, one) = ok_of_bind (read_values normalizer raw type) _ zero_ in
      let (_, _, two) = ok_of_bind (throw_if answers.insert_error) _ one in
      let (inserted, inserting, three) =
        ok_of_bind (insert_normalized_events job raw values (started s)) _ two in
      let (_, _, four) = ok_of_bind (throw_if answers.completion_error) _ three in
      let both = ok-injective four in
      let same = insert-records job raw values (started s) inserted inserting in
      subst (λ p. IsNormalized raw s p.0 p.1)
        (ap
            (λ t. (
              record { normalized_records = length values; status = normalized },
              completed (length values) t,
            ))
            (sym same)
          ∙ both)
        (committed-IsNormalized raw s values
          (length-read_values normalizer raw type values reading))

  -- The answer of a transaction, before its COMMIT.
  abbrev pub unfinished_body :
      Answers → Store C K V N → RawEvent C → K → Result Failure (Outcome × Store C K V N)
  unfinished_body answers s raw type =
      if is_final raw.status
      then ok (known_outcome normalizer uuid_text number raw, s)
      else normalize_raw normalizer uuid_text number answers now job raw type s

  -- A body that returns: nothing is left to do, or the event is normalized.
  pub body_cases :
      (answers : Answers) (s : Store C K V N) (out : Outcome) (s' : Store C K V N)
      → process_body normalizer uuid_text number answers now job s ≡ ok (out, s')
      → (raw : RawEvent C) × (type : K) × (find_raw_event job s ≡ ok (raw, type))
        × ((is_final raw.status ≡ true)
              × (out ≡ known_outcome normalizer uuid_text number raw)
              × (s' ≡ s)
            ⊎ (is_final raw.status ≡ false) × IsNormalized raw s out s')
  unfolding process_body
  body_cases answers s out s' h =
      let (_, _, before) = ok_of_bind (throw_if answers.start_error) _ h in
      let ((raw, type), found, after) = ok_of_bind (find_raw_event job s) _ before in
      let (done_, made, last) = ok_of_bind (unfinished_body answers s raw type) _ after in
      let (_, _, end) = ok_of_bind (throw_if answers.commit_error) _ last in
      let made' : unfinished_body answers s raw type ≡ ok (out, s') = made ∙ end in
      (
        raw,
        type,
        found,
        elim (Bool-cases (is_final raw.status)) [
          | inl done ↦
              (let both = ok-injective (rw done at made') in
                inl (done, sym (ap (λ p. p.0) both), sym (ap (λ p. p.1) both)))
          | inr open_ ↦
              inr (open_, normalize_raw-IsNormalized answers raw type s out s' (rw open_ at made'))
        ],
      )
