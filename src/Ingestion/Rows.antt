-- ===== src/Ingestion/Rows.antt =====
-- What one call of `process` answers and leaves.
use sentriqora.Base.{
  Option, ◌&&◌, not, ℕ, ◌≡◌, inl, inr, refl, sym, subst, true, false, none, some, Text, Result, ok,
  err, transaction, update_where,
}
use sentriqora.Ingestion.Processor.{
  failed, is_normalized, set_failed, set_rejected, rejected, RawEvent, Store, Failure, rejection,
  other, Normalizer, Answers, Job, Outcome, is_final, is_raw, find_raw_event, read_values,
  known_outcome, process_body, mark_rejected, mark_failed, settle, process,
}
use sentriqora.Ingestion.Normalizing.{IsNormalized, body_cases}
use sentriqora.Ingestion.Causes.{IsThrown, Cause, body-Cause}

module _ {C K V N D : Type 0} (normalizer : Normalizer C K V D) (uuid_text : ℕ → Text)
    (number : ℕ → N) (now : ℕ) (job : Job) where
  abbrev rejected_outcome : Outcome
  rejected_outcome = record { normalized_records = 0; status = rejected }

  -- What a job answers and leaves, and why. An event that is final is left as it is; another one is
  -- normalized or rejected; where the mark of a rejection fails nothing is written; and every other
  -- error is thrown, with each row of the event that is not final marked FAILED, unless that fails.
  pub data IsDone (answers : Answers) (s : Store C K V N)
      : Result Failure Outcome → Store C K V N → Type 0 where
    known :
        (raw : RawEvent C) (type : K)
        → find_raw_event job s ≡ ok (raw, type)
        → is_final raw.status ≡ true
        → IsDone answers s (ok (known_outcome normalizer uuid_text number raw)) s
    committed :
        (raw : RawEvent C) (type : K) {out : Outcome} {s' : Store C K V N}
        → find_raw_event job s ≡ ok (raw, type)
        → is_final raw.status ≡ false
        → IsNormalized normalizer uuid_text number now job raw s out s'
        → IsDone answers s (ok out) s'
    refused :
        (raw : RawEvent C) (type : K) (code : Text)
        → find_raw_event job s ≡ ok (raw, type)
        → is_final raw.status ≡ false
        → read_values normalizer raw type ≡ err (rejection code)
        → answers.reject_error ≡ none
        → IsDone answers s (ok rejected_outcome) (record s {
          raw_events =
              update_where
                (λ r. is_raw job r && not (is_normalized r.status))
                (λ r. record r {
                  status = rejected;
                  processed_at = some now;
                  rejection_code = some code;
                })
                s.raw_events;
        })
    unmarked :
        (raw : RawEvent C) (type : K) (code e : Text)
        → find_raw_event job s ≡ ok (raw, type)
        → is_final raw.status ≡ false
        → read_values normalizer raw type ≡ err (rejection code)
        → answers.reject_error ≡ some e
        → IsDone answers s (err (other e)) s
    broken :
        (e : Text)
        → IsThrown normalizer uuid_text number now job answers s e
        → answers.fail_error ≡ none
        → IsDone answers s (err (other e)) (record s {
          raw_events =
              update_where
                (λ r. is_raw job r && not (is_final r.status))
                (λ r. record r { status = failed })
                s.raw_events;
        })
    unfailed :
        (e x : Text)
        → IsThrown normalizer uuid_text number now job answers s e
        → answers.fail_error ≡ some x
        → IsDone answers s (err (other e)) s

  settled :
      (answers : Answers) (s : Store C K V N) (body : Result Failure (Outcome × Store C K V N))
      → process_body normalizer uuid_text number answers now job s ≡ body
      → IsDone answers s
          (settle normalizer uuid_text number answers now job (transaction (λ _. body) s)).0
          (settle normalizer uuid_text number answers now job (transaction (λ _. body) s)).1
  unfolding settle mark_rejected mark_failed set_failed set_rejected Cause
  settled answers s (ok (out, s')) same =
      let (raw, type, found, how) =
        body_cases normalizer uuid_text number now job answers s out s' same in
      elim how [
        | inl (done, outcome, kept) ↦
            subst (λ o. IsDone answers s (ok o) s') (sym outcome)
              (subst (IsDone answers s (ok (known_outcome normalizer uuid_text number raw)))
                (sym kept) (known raw type found done))
        | inr (unfinished, n) ↦ committed raw type found unfinished n
      ]
  settled answers s (err (rejection code)) same =
      let (raw, type, (found, unfinished), why) =
        body-Cause normalizer uuid_text number now job answers s (rejection code) same in
      rejected_as raw type found unfinished why answers.reject_error refl
    where
      rejected_as :
          (raw : RawEvent C) (type : K)
          → find_raw_event job s ≡ ok (raw, type)
          → is_final raw.status ≡ false
          → read_values normalizer raw type ≡ err (rejection code)
          → (o : Option Text) → answers.reject_error ≡ o
          → (let r : Result Failure Outcome × Store C K V N = elim o [
            | some e ↦ (err (other e), s)
            | none ↦ (ok rejected_outcome, mark_rejected normalizer uuid_text number now job code s)
          ] in
              IsDone answers s r.0 r.1)
      rejected_as raw type found unfinished why none marked =
          refused raw type code found unfinished why marked
      rejected_as raw type found unfinished why (some e) failing =
          unmarked raw type code e found unfinished why failing
  settled answers s (err (other e)) same =
      thrown_as (body-Cause normalizer uuid_text number now job answers s (other e) same)
        answers.fail_error refl
    where
      thrown_as :
          IsThrown normalizer uuid_text number now job answers s e
          → (o : Option Text) → answers.fail_error ≡ o
          → IsDone answers s (err (other e)) (elim o [
            | some _ ↦ s
            | none ↦ record s {
              raw_events =
                  update_where
                    (λ r. is_raw job r && not (is_final r.status))
                    set_failed
                    s.raw_events;
            }
          ])
      thrown_as why none marked = broken e why marked
      thrown_as why (some x) failing = unfailed e x why failing

  pub process-IsDone :
      (answers : Answers) (s : Store C K V N)
      → IsDone answers s
          (process normalizer uuid_text number answers now job s).0
          (process normalizer uuid_text number answers now job s).1
  unfolding process
  process-IsDone answers s =
      settled answers s (process_body normalizer uuid_text number answers now job s) refl
