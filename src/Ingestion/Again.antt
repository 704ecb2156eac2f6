-- ===== src/Ingestion/Again.antt =====
-- A job of `process` that is repeated.
use sentriqora.Base.{
  none, err, ◌⊎◌, ℕ, ◌≡◌, refl, sym, ap, ◌∙◌, subst, Bool, true, false, Option, some, List, [], ◌∷◌,
  Text, Result, ok, All, find_first, find_first-All, find_first-update_where, update_where,
  transaction, Option-cases, arith, ◌==◌, ◌&&◌, not, if◌then◌else◌, inl, inr,
}
use sentriqora.Ingestion.Processor.{
  rejected, other, set_failed, mark_failed, throw_if, RawEvent, Connector, Store, Failure,
  Normalizer, Answers, Job, Outcome, is_final, is_normalized, is_raw, set_processing,
  set_normalized, set_rejected, or_absent, is_connector, find_raw_event, known_outcome, process,
  process_body, settle,
}
use sentriqora.Ingestion.Normalizing.{IsNormalized}
use sentriqora.Ingestion.Rows.{
  IsDone, known, committed, refused, unmarked, broken, unfailed, process-IsDone,
}
use sentriqora.Ingestion.Histories.{
  update_where-twice, is_raw-set_processing, is_raw-set_normalized, is_raw-set_rejected, found_raw,
}

All-Unit : {C : Type 0} (rows : List (RawEvent C)) → All (λ _. Unit {0}) rows
All-Unit [] = tt
All-Unit (n ∷ rows) = (tt, All-Unit rows)

module _ {C K V N : Type 0} (job : Job) where
  connector_of :
      (s : Store C K V N) (raw : RawEvent C) (type : K)
      → find_raw_event job s ≡ ok (raw, type)
      → (c : Connector K) × (find_first
            (is_connector raw.organization_id raw.connector_id)
            s.connectors
          ≡ some c)
        × (c.type ≡ type)
        × ((raw.connector_id == job.connector_id) ≡ true)
  unfolding find_raw_event or_absent
  connector_of s raw type h =
      let row = found_raw job s raw type h in
      let h' = rw row at h in
      elim (Option-cases
        (find_first (is_connector raw.organization_id raw.connector_id) s.connectors)) [
          | inl missing ↦ absurd (ground (arith, h', missing))
          | inr (c, found) ↦
              (let h'' = rw found at h' in (c, found, ground (arith, h''), ground (arith, h'')))
        ]

  found_of :
      (s : Store C K V N) (raw : RawEvent C) (c : Connector K)
      → find_first (is_raw job) s.raw_events ≡ some raw
      → find_first (is_connector raw.organization_id raw.connector_id) s.connectors ≡ some c
      → (raw.connector_id == job.connector_id) ≡ true
      → find_raw_event job s ≡ ok (raw, c.type)
  unfolding find_raw_event or_absent
  found_of s raw c row connector same = ground (arith, row, connector, same)

  -- The row has changed, but neither its keys nor the connectors.
  found_after :
      (s s' : Store C K V N) (raw raw' : RawEvent C) (type : K)
      → find_raw_event job s ≡ ok (raw, type)
      → find_first (is_raw job) s'.raw_events ≡ some raw'
      → raw'.organization_id ≡ raw.organization_id
      → raw'.connector_id ≡ raw.connector_id
      → s'.connectors ≡ s.connectors
      → find_raw_event job s' ≡ ok (raw', type)
  found_after s s' raw raw' type found row organization connector same =
      let (c, at, kind, mine) = connector_of s raw type found in
      subst (λ t. find_raw_event job s' ≡ ok (raw', t)) kind
        (found_of s' raw' c row (rw (organization, connector, same) at) (rw connector mine))

module _ {C K V N D : Type 0} (normalizer : Normalizer C K V D) (uuid_text : ℕ → Text)
    (number : ℕ → N) (job : Job) where
  -- A job on an event that is final: it answers as before, or an error of the database is thrown. It
  -- leaves the row of the event, the normalized events and what was recorded as they are.
  pub data IsRepeat (again : Answers) (out : Outcome) (s : Store C K V N)
      : Result Failure Outcome → Store C K V N → Type 0 where
    same : again.start_error ≡ none → again.commit_error ≡ none → IsRepeat again out s (ok out) s
    thrown :
        {s' : Store C K V N} (e : Text)
        → (again.start_error ≡ some e) ⊎ (again.commit_error ≡ some e)
        → find_first (is_raw job) s'.raw_events ≡ find_first (is_raw job) s.raw_events
        → s'.events ≡ s.events
        → s'.audits ≡ s.audits
        → s'.outbox ≡ s.outbox
        → IsRepeat again out s (err (other e)) s'

  failing_final :
      (again : Answers) (out : Outcome) (s : Store C K V N) (raw : RawEvent C) (e : Text)
      → (again.start_error ≡ some e) ⊎ (again.commit_error ≡ some e)
      → find_first (is_raw job) s.raw_events ≡ some raw
      → is_final raw.status ≡ true
      → IsRepeat again out s (err (other e)) (mark_failed normalizer uuid_text number again job s)
  unfolding mark_failed set_failed
  failing_final again out s raw e why row done = thrown_as again.fail_error
    where
      thrown_as :
          (o : Option Text)
          → IsRepeat again out s (err (other e)) (elim o [
            | some _ ↦ s
            | none ↦ record s {
              raw_events =
                  update_where
                    (λ r. is_raw job r && not (is_final r.status))
                    set_failed
                    s.raw_events;
            }
          ])
      thrown_as (some _) = thrown e why refl refl refl refl
      thrown_as none =
          let miss : (is_raw job raw && not (is_final raw.status)) ≡ false = ground (arith, done) in
          thrown e why
            (find_first-update_where (is_raw job) (λ r. is_raw job r && not (is_final r.status))
                set_failed s.raw_events (λ r. refl) row
              ∙ (ap (λ (b : Bool). some (if b then set_failed raw else raw)) miss ∙ sym row))
            refl refl refl

  body_final :
      (again : Answers) (now : ℕ) (s : Store C K V N) (raw : RawEvent C) (type : K)
      → find_raw_event job s ≡ ok (raw, type)
      → is_final raw.status ≡ true
      → (again.start_error ≡ none)
          × (again.commit_error ≡ none)
          × (process_body normalizer uuid_text number again now job s
              ≡ ok (known_outcome normalizer uuid_text number raw, s))
        ⊎ ((e : Text) × ((again.start_error ≡ some e) ⊎ (again.commit_error ≡ some e))
            × (process_body normalizer uuid_text number again now job s ≡ err (other e)))
  unfolding process_body throw_if
  body_final again now s raw type found done = elim (Option-cases again.start_error) [
    | inr (e, failing) ↦ inr (e, inl failing, rw failing refl)
    | inl started ↦ elim (Option-cases again.commit_error) [
      | inr (e, failing) ↦ inr (e, inr failing, rw (started, failing) (rw found (rw done refl)))
      | inl finished ↦ inl (started, finished, rw (started, finished) (rw found (rw done refl)))
    ]
  ]

  process_final :
      (again : Answers) (now : ℕ) (s : Store C K V N) (raw : RawEvent C) (type : K)
      → find_raw_event job s ≡ ok (raw, type)
      → is_final raw.status ≡ true
      → IsRepeat again
          (known_outcome normalizer uuid_text number raw)
          s
          (process normalizer uuid_text number again now job s).0
          (process normalizer uuid_text number again now job s).1
  unfolding process settle
  process_final again now s raw type found done =
      let ended : Result Failure (Outcome × Store C K V N)
          → Result Failure Outcome × Store C K V N =
        λ b. settle normalizer uuid_text number again now job (transaction (λ _. b) s) in
      let repeats : Result Failure Outcome × Store C K V N → Type 0 =
        λ p. IsRepeat again (known_outcome normalizer uuid_text number raw) s p.0 p.1 in
      elim (body_final again now s raw type found done) [
        | inl (started, finished, body) ↦
            subst repeats (sym (ap ended body)) (same started finished)
        | inr (e, why, body) ↦ subst repeats (sym (ap ended body)) (
            failing_final again (known_outcome normalizer uuid_text number raw) s raw e why
              (found_raw job s raw type found) done)
      ]

  -- The answer and the state of a job that is repeated.
  abbrev Repeats : Result Failure Outcome → Store C K V N → Type 0
  Repeats r s =
      (out : Outcome)
      → r ≡ ok out
      → (again : Answers) (later : ℕ)
      → IsRepeat again out s (process normalizer uuid_text number again later job s).0
          (process normalizer uuid_text number again later job s).1

  same_outcome : (a b : Outcome) → ◌≡◌ {A = Result Failure Outcome} (ok a) (ok b) → a ≡ b
  same_outcome a b h = cc

  final-Repeats :
      (s : Store C K V N) (raw : RawEvent C) (type : K) (out : Outcome)
      → find_raw_event job s ≡ ok (raw, type)
      → is_final raw.status ≡ true
      → known_outcome normalizer uuid_text number raw ≡ out
      → Repeats (ok out) s
  final-Repeats s raw type out found done named o equal again later =
      subst
        (λ x.
          IsRepeat again x s (process normalizer uuid_text number again later job s).0
            (process normalizer uuid_text number again later job s).1)
        (named ∙ same_outcome out o equal) (process_final again later s raw type found done)

  normalized-Repeats :
      (now : ℕ) (s : Store C K V N) (raw : RawEvent C) (type : K) (out : Outcome)
      (s' : Store C K V N)
      → find_raw_event job s ≡ ok (raw, type)
      → IsNormalized normalizer uuid_text number now job raw s out s'
      → Repeats (ok out) s'
  unfolding known_outcome set_normalized set_processing
  normalized-Repeats now s raw type out s' found n =
      let f : RawEvent C → RawEvent C = λ r. set_normalized now (set_processing r) in
      let row = found_raw job s raw type found in
      let (_, mine) = find_first-All (λ _. Unit {0}) _ s.raw_events (All-Unit s.raw_events) row in
      let at : find_first (is_raw job) s'.raw_events ≡ some (f raw) =
        sym (
          ap (find_first (is_raw job)) (
            sym (
              n.rows
              ∙ update_where-twice (is_raw job) set_processing (set_normalized now) s.raw_events
                  (is_raw-set_processing job))))
        ∙ (find_first-update_where (is_raw job) (is_raw job) f s.raw_events
              (is_raw-set_normalized job now) row
            ∙ ap (λ (b : Bool). some (if b then f raw else raw)) mine) in
      final-Repeats s' (f raw) type out
        (found_after job s s' raw (f raw) type found at refl refl n.connectors) refl (sym n.outcome)

  rejected-Repeats :
      (now : ℕ) (s : Store C K V N) (raw : RawEvent C) (type : K) (code : Text)
      → find_raw_event job s ≡ ok (raw, type)
      → is_final raw.status ≡ false
      → Repeats (ok (record { normalized_records = 0; status = rejected })) (record s {
        raw_events =
            update_where
              (λ r. is_raw job r && not (is_normalized r.status))
              (set_rejected now code)
              s.raw_events;
      })
  unfolding known_outcome set_rejected
  rejected-Repeats now s raw type code found unfinished =
      let f : RawEvent C → RawEvent C = set_rejected now code in
      let q : RawEvent C → Bool = λ r. is_raw job r && not (is_normalized r.status) in
      let row = found_raw job s raw type found in
      let (_, mine) = find_first-All (λ _. Unit {0}) _ s.raw_events (All-Unit s.raw_events) row in
      let hit : q raw ≡ true = ground (arith, mine, unfinished) in
      let at : find_first (is_raw job) (update_where q f s.raw_events) ≡ some (f raw) =
        find_first-update_where (is_raw job) q f s.raw_events (is_raw-set_rejected job now code) row
        ∙ ap (λ (b : Bool). some (if b then f raw else raw)) hit in
      let s' : Store C K V N = record s { raw_events = update_where q f s.raw_events } in
      final-Repeats s' (f raw) type (record { normalized_records = 0; status = rejected })
        (found_after job s s' raw (f raw) type found at refl refl refl) refl refl

  done-Repeats :
      (answers : Answers) (now : ℕ) (s : Store C K V N) {r : Result Failure Outcome}
      {s' : Store C K V N}
      → IsDone normalizer uuid_text number now job answers s r s'
      → Repeats r s'
  unfolding set_rejected
  done-Repeats answers now s (known raw type found done) =
      final-Repeats s raw type _ found done refl
  done-Repeats answers now s (committed raw type {out} {s'} found unfinished n) =
      normalized-Repeats now s raw type out s' found n
  done-Repeats answers now s (refused raw type code found unfinished why marked) =
      rejected-Repeats now s raw type code found unfinished
  done-Repeats answers now s (unmarked raw type code e found unfinished why failing) =
      λ o equal again later. absurd (cc)
  done-Repeats answers now s (broken e why marked) = λ o equal again later. absurd (cc)
  done-Repeats answers now s (unfailed e x why failing) = λ o equal again later. absurd (cc)

  -- A job that has answered is not done again. The same job answers the same and changes nothing,
  -- unless its transaction cannot begin or be committed: then that error is thrown, and the row of
  -- the event, the normalized events and the records of the completion are left as they are.
  pub process_again :
      (answers : Answers) (now : ℕ) (s : Store C K V N) (out : Outcome) (s' : Store C K V N)
      → process normalizer uuid_text number answers now job s ≡ (ok out, s')
      → (again : Answers) (later : ℕ)
      → IsRepeat again out s'
          (process normalizer uuid_text number again later job s').0
          (process normalizer uuid_text number again later job s').1
  process_again answers now s out s' h =
      done-Repeats answers now s
        (subst (λ p. IsDone normalizer uuid_text number now job answers s p.0 p.1) h
          (process-IsDone normalizer uuid_text number now job answers s))
        out refl
