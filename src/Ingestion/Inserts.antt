-- ===== src/Ingestion/Inserts.antt =====
-- `insertNormalizedEvents`: which rows a job adds to `normalized_events`, and what it leaves alone.
use sentriqora.Base.{
  Bool, any, any-append-last, ◌≤◌, ◌<◌, ◌+◌, ==→eq, ℕ, suc, ◌≡◌, inl, inr, refl, sym, ap, ◌∙◌,
  subst, true, List, [], ◌∷◌, ok, ok_of_bind, ok-injective, ensure, length, Bool-cases, arith, ◌==◌,
}
use sentriqora.Ingestion.Processor.{
  NormalizedEvent, is_row, insert_event, event_of, RawEvent, Store, Failure, Normalizer, Job, Value,
  insert_from, insert_normalized_events, normalize_from, read_values,
}

module _ {C K V D : Type 0} (normalizer : Normalizer C K V D) where
  length-normalize_from :
      (type : K) (at index : ℕ) (ds : List D) (values : List (Value V))
      → normalize_from normalizer type at index ds ≡ ok values
      → length values ≡ length ds
  unfolding normalize_from
  length-normalize_from type at index [] values h = ground (arith, h)
  length-normalize_from type at index (d ∷ ds) values h =
      let (value, _, after) = ok_of_bind (normalizer.normalize type index at d) _ h in
      let (rest, same, last) =
        ok_of_bind (normalize_from normalizer type at (suc index) ds) _ after in
      let step = length-normalize_from type at (suc index) ds rest same in
      ground (arith, step, last)

  counted_of : (n count : ℕ) (e : Failure) (u : Unit {0}) → ensure (n == count) e ≡ ok u → n ≡ count
  counted_of n count e u h = ground (arith, h)

  pub length-read_values :
      (raw : RawEvent C) (type : K) (values : List (Value V))
      → read_values normalizer raw type ≡ ok values
      → length values ≡ raw.record_count
  unfolding read_values
  length-read_values raw type values h =
      let (ds, _, after) = ok_of_bind (normalizer.candidates raw.payload) _ h in
      let (_, after_count, last) = ok_of_bind (ensure (length ds == raw.record_count) _) _ after in
      let counted : length ds ≡ raw.record_count =
        counted_of (length ds) raw.record_count _ _ after_count in
      length-normalize_from type raw.received_at 0 ds values last ∙ counted

module _ {V : Type 0} where
  insert_event-has :
      (e : NormalizedEvent V) (events : List (NormalizedEvent V))
      → any (is_row e.raw_event_id e.record_index) (insert_event e events) ≡ true
  unfolding insert_event
  insert_event-has e events =
      elim (Bool-cases (any (is_row e.raw_event_id e.record_index) events)) [
        | inl there ↦ rw there there
        | inr free ↦ rw free (
            any-append-last (is_row e.raw_event_id e.record_index) events e
            ∙ rw free (ground arith))
      ]

  insert_event-keeps :
      (p : NormalizedEvent V → Bool) (e : NormalizedEvent V) (events : List (NormalizedEvent V))
      → any p events ≡ true
      → any p (insert_event e events) ≡ true
  unfolding insert_event
  insert_event-keeps p e events h =
      elim (Bool-cases (any (is_row e.raw_event_id e.record_index) events)) [
        | inl there ↦ rw there h
        | inr free ↦ rw free (any-append-last p events e ∙ rw h refl)
      ]

module _ {C K V N : Type 0} (job : Job) where
  pub insert_from-frame :
      (raw : RawEvent C) (index : ℕ) (values : List (Value V)) (s : Store C K V N)
      → ((insert_from job raw index values s).raw_events ≡ s.raw_events)
        × ((insert_from job raw index values s).connectors ≡ s.connectors)
  unfolding insert_from
  insert_from-frame raw index [] s = (refl, refl)
  insert_from-frame raw index (v ∷ values) s = insert_from-frame raw (suc index) values _

  insert-frame :
      (raw : RawEvent C) (values : List (Value V)) (s s' : Store C K V N)
      → insert_normalized_events job raw values s ≡ ok s'
      → (s'.raw_events ≡ s.raw_events) × (s'.connectors ≡ s.connectors)
  unfolding insert_normalized_events
  insert-frame raw [] s s' h = absurd (cc)
  insert-frame raw (v ∷ values) s s' h =
      let same : insert_from job raw 0 (v ∷ values) s ≡ s' = ground (arith, h) in
      subst (λ (t : Store C K V N). (t.raw_events ≡ s.raw_events) × (t.connectors ≡ s.connectors))
        same (insert_from-frame raw 0 (v ∷ values) s)

  insert_from-keeps :
      (p : NormalizedEvent V → Bool) (raw : RawEvent C) (index : ℕ) (values : List (Value V))
      (s : Store C K V N)
      → any p s.events ≡ true
      → any p (insert_from job raw index values s).events ≡ true
  unfolding insert_from
  insert_from-keeps p raw index [] s h = h
  insert_from-keeps p raw index (v ∷ values) s h =
      insert_from-keeps p raw (suc index) values _ (insert_event-keeps p _ s.events h)

  -- Each value has a row.
  pub insert_from-has :
      (raw : RawEvent C) (index : ℕ) (values : List (Value V)) (s : Store C K V N) (k : ℕ)
      → index ≤ k
      → k < index + length values
      → any (is_row job.raw_event_id k) (insert_from job raw index values s).events ≡ true
  unfolding insert_from
  insert_from-has raw index [] s k low high = absurd (omega (arith, low, high))
  insert_from-has raw index (v ∷ values) s k low high = elim (Bool-cases (index == k)) [
    | inr later ↦
        insert_from-has raw (suc index) values _ k (ground (arith, low, later))
          (omega (arith, high))
    | inl here ↦
        (let at : index ≡ k = ==→eq index k here in
          let events : List (NormalizedEvent V) =
            insert_event (event_of job raw s index v) s.events in
          let first : any (is_row job.raw_event_id index) events ≡ true =
            insert_event-has (event_of job raw s index v) s.events in
          insert_from-keeps (is_row job.raw_event_id k) raw (suc index) values _
            (ap (λ j. any (is_row job.raw_event_id j) events) (sym at) ∙ first))
  ]

  pub insert_from-records :
      (raw : RawEvent C) (index : ℕ) (values : List (Value V)) (s : Store C K V N)
      → ((insert_from job raw index values s).audits ≡ s.audits)
        × ((insert_from job raw index values s).outbox ≡ s.outbox)
        × ((insert_from job raw index values s).next_id ≡ s.next_id)
  unfolding insert_from
  insert_from-records raw index [] s = (refl, refl, refl)
  insert_from-records raw index (v ∷ values) s = insert_from-records raw (suc index) values _

  pub insert-records :
      (raw : RawEvent C) (values : List (Value V)) (s s' : Store C K V N)
      → insert_normalized_events job raw values s ≡ ok s'
      → (s' ≡ insert_from job raw 0 values s)
  unfolding insert_normalized_events
  insert-records raw [] s s' h = absurd (cc)
  insert-records raw (v ∷ values) s s' h = sym (ok-injective h)
