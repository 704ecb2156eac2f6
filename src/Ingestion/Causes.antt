-- ===== src/Ingestion/Causes.antt =====
-- The transaction of `process`, where it throws, and what it throws then.
use sentriqora.Base.{
  units, Option, ℕ, ◌≡◌, inl, inr, refl, sym, ap, ◌∙◌, subst, false, none, some, List, [], ◌∷◌,
  Text, ok, err, err_of_bind, Bool-cases, arith,
}
use sentriqora.Ingestion.Processor.{
  RawEvent, Store, Failure, rejection, other, Normalizer, Answers, Job, Value, is_final, or_absent,
  find_raw_event, insert_normalized_events, read_values, normalize_raw, process_body, throw_if,
}
use sentriqora.Ingestion.Normalizing.{started, unfinished_body}

module _ {C K V N D : Type 0} (normalizer : Normalizer C K V D) (uuid_text : ℕ → Text)
    (number : ℕ → N) (now : ℕ) (job : Job) where
  -- An event that is not final, and what is asked of its payload.
  abbrev pub IsUnfinished : Store C K V N → RawEvent C → K → Type 0
  IsUnfinished s raw type = (find_raw_event job s ≡ ok (raw, type)) × (is_final raw.status ≡ false)

  -- Why a job throws an error that is no rejection.
  pub data IsThrown (answers : Answers) (s : Store C K V N) (e : Text) : Type 0 where
    at_start : answers.start_error ≡ some e → IsThrown answers s e
    absent : find_raw_event job s ≡ err (other e) → IsThrown answers s e
    at_update : answers.update_error ≡ some e → IsThrown answers s e
    unreadable :
        (raw : RawEvent C) (type : K)
        → IsUnfinished s raw type
        → read_values normalizer raw type ≡ err (other e)
        → IsThrown answers s e
    at_insert : answers.insert_error ≡ some e → IsThrown answers s e
    empty :
        (raw : RawEvent C) (type : K)
        → IsUnfinished s raw type
        → read_values normalizer raw type ≡ ok []
        → IsThrown answers s e
    at_completion : answers.completion_error ≡ some e → IsThrown answers s e
    at_commit : answers.commit_error ≡ some e → IsThrown answers s e

  thrown_if :
      {e : Failure} (o : Option Text)
      → throw_if o ≡ err e
      → (x : Text) × (o ≡ some x) × (e ≡ other x)
  unfolding throw_if
  thrown_if none h = absurd (cc)
  thrown_if (some x) h = (x, refl, ground arith)

  unfound :
      (e : Failure) (s : Store C K V N) → find_raw_event job s ≡ err e → (x : Text) × (e ≡ other x)
  unfolding find_raw_event or_absent
  unfound (rejection code) s h = absurd (ground arith)
  unfound (other x) s h = (x, refl)

  insert_empty :
      {e : Failure} (raw : RawEvent C) (values : List (Value V)) (s : Store C K V N)
      → insert_normalized_events job raw values s ≡ err e
      → (values ≡ []) × ((x : Text) × (e ≡ other x))
  unfolding insert_normalized_events
  insert_empty raw [] s h = (refl, (units "error", ground arith))
  insert_empty raw (v ∷ values) s h = absurd (cc)

  -- What an error of the body comes from.
  unfoldable pub Cause : Answers → Store C K V N → Failure → Type 0
  Cause answers s (other e) = IsThrown answers s e
  Cause answers s (rejection code) =
      (raw : RawEvent C) × (type : K) × IsUnfinished s raw type
      × (read_values normalizer raw type ≡ err (rejection code))

  caused :
      (answers : Answers) (s : Store C K V N) {e : Failure} {x : Text}
      → (e ≡ other x)
      → IsThrown answers s x
      → Cause answers s e
  unfolding Cause
  caused answers s same h = subst (Cause answers s) (sym same) h

  normalize-Cause :
      (answers : Answers) (s : Store C K V N) (raw : RawEvent C) (type : K) (e : Failure)
      → IsUnfinished s raw type
      → normalize_raw normalizer uuid_text number answers now job raw type s ≡ err e
      → Cause answers s e
  unfolding normalize_raw Cause started
  normalize-Cause answers s raw type e open_ h =
      elim (err_of_bind (throw_if answers.update_error) _ h) [
        | inl thrown ↦
            (let (x, at, same) = thrown_if answers.update_error thrown in
              caused answers s same (at_update at))
        | inr (_, _, one) ↦ elim (err_of_bind (read_values normalizer raw type) _ one) [
          | inl unread ↦ read_cause e unread
          | inr (values, reading, two) ↦ elim (err_of_bind (throw_if answers.insert_error) _ two) [
            | inl thrown ↦
                (let (x, at, same) = thrown_if answers.insert_error thrown in
                  caused answers s same (at_insert at))
            | inr (_, _, three) ↦
                elim (err_of_bind
                  (insert_normalized_events job raw values
                    (started normalizer uuid_text number now job s))
                  _ three) [
                    | inl failing ↦
                        (let (none_, (x, same)) =
                            insert_empty raw values (started normalizer uuid_text number now job s)
                              failing in
                          caused answers s same (empty raw type open_ (reading ∙ ap ok none_)))
                    | inr (_, _, four) ↦
                        elim (err_of_bind (throw_if answers.completion_error) _ four) [
                          | inl thrown ↦
                              (let (x, at, same) = thrown_if answers.completion_error thrown in
                                caused answers s same (at_completion at))
                          | inr (_, _, five) ↦ absurd (cc)
                        ]
                  ]
          ]
        ]
      ]
    where
      read_cause : (f : Failure) → read_values normalizer raw type ≡ err f → Cause answers s f
      read_cause (other x) unread = unreadable raw type open_ unread
      read_cause (rejection code) unread = (raw, type, open_, unread)

  pub body-Cause :
      (answers : Answers) (s : Store C K V N) (e : Failure)
      → process_body normalizer uuid_text number answers now job s ≡ err e
      → Cause answers s e
  unfolding process_body
  body-Cause answers s e h = elim (err_of_bind (throw_if answers.start_error) _ h) [
    | inl thrown ↦
        (let (x, at, same) = thrown_if answers.start_error thrown in
          caused answers s same (at_start at))
    | inr (_, _, one) ↦ elim (err_of_bind (find_raw_event job s) _ one) [
      | inl missing ↦
          (let (x, same) = unfound e s missing in
            caused answers s same (absent (missing ∙ ap err same)))
      | inr ((raw, type), found, two) ↦
          elim (err_of_bind (unfinished_body normalizer uuid_text number now job answers s raw type)
            _ two) [
              | inl thrown ↦ elim (Bool-cases (is_final raw.status)) [
                | inl done ↦ absurd (let x = rw done at thrown in cc)
                | inr open_ ↦
                    normalize-Cause answers s raw type e (found, open_) (rw open_ at thrown)
              ]
              | inr (_, _, three) ↦ elim (err_of_bind (throw_if answers.commit_error) _ three) [
                | inl thrown ↦
                    (let (x, at, same) = thrown_if answers.commit_error thrown in
                      caused answers s same (at_commit at))
                | inr (_, _, four) ↦ absurd (cc)
              ]
            ]
    ]
  ]
