-- ===== src/Ingestion/Histories.antt =====
-- Repeated jobs, and what histories of jobs leave in `raw_events`.
use sentriqora.Base.{
  ℕ, ◌≡◌, inl, inr, refl, sym, ap, ◌∙◌, subst, Bool, true, false, Option, none, some, List, [], ◌∷◌,
  Text, Result, ok, find_first, find_first-All, update_where, update_where-All, update_where-Agrees,
  on_match, All, All-both, Agrees, Bool-cases, arith,
}
use sentriqora.Ingestion.Processor.{
  Status, received, queued, processing, normalized, rejected, failed, RawEvent, Store, Failure,
  Normalizer, Answers, Job, Outcome, is_final, is_normalized, is_raw, set_processing,
  set_normalized, set_rejected, set_failed, or_absent, find_raw_event, process,
}
use sentriqora.Ingestion.Rows.{
  IsDone, known, committed, refused, unmarked, broken, unfailed, process-IsDone,
}

abbrev pub Present {ℓ} : {A : Type ℓ} → Option A → Type ℓ
Present {A = A} o = (a : A) × (o ≡ some a)

-- What the columns of a row say in each status. A count of attempts other than that of the one which
-- has normalized the event is never stored, and PROCESSING never seen.
abbrev ColumnsOf : Status → ℕ → Option ℕ → Option Text → Type 0
ColumnsOf processing retries at code = ⊥
ColumnsOf normalized retries at code = (retries ≡ 1) × Present at × (code ≡ none)
ColumnsOf rejected retries at code = (retries ≡ 0) × Present at × Present code
ColumnsOf _ retries at code = (retries ≡ 0) × (at ≡ none) × (code ≡ none)

module _ {C : Type 0} where
  abbrev pub IsHonest : RawEvent C → Type 0
  IsHonest r = ColumnsOf r.status r.retry_count r.processed_at r.rejection_code

  pub record IsSound (rows : List (RawEvent C)) : Type 0 where
    pub row : ℕ → RawEvent C
    pub keyed : Agrees (λ (r : RawEvent C). r.id) row rows
    pub honest : All IsHonest rows

  update-IsSound :
      (p : RawEvent C → Bool) (f : RawEvent C → RawEvent C) (rows : List (RawEvent C))
      (h : IsSound rows)
      → ((r : RawEvent C) → (f r).id ≡ r.id)
      → ((r : RawEvent C) → p r ≡ true → r ≡ h.row r.id → IsHonest r → IsHonest (f r))
      → IsSound (update_where p f rows)
  update-IsSound p f rows h same keep = record {
    row = λ k. on_match p f (h.row k);
    keyed = update_where-Agrees (λ (r : RawEvent C). r.id) p f h.row rows same h.keyed;
    honest =
        update_where-All _ _ p f rows (λ r hit both. keep r hit both.0 both.1) (λ r both. both.1)
          (All-both _ _ rows h.keyed h.honest);
  }

  -- Two updates of the same rows are one.
  pub update_where-twice :
      (p : RawEvent C → Bool) (f g : RawEvent C → RawEvent C) (rows : List (RawEvent C))
      → ((r : RawEvent C) → p (f r) ≡ p r)
      → update_where p g (update_where p f rows) ≡ update_where p (λ r. g (f r)) rows
  unfolding update_where
  update_where-twice p f g [] same = refl
  update_where-twice p f g (r ∷ rows) same =
      let at : on_match p g (on_match p f r) ≡ on_match p (λ s. g (f s)) r =
        elim (Bool-cases (p r)) [
          | inl hit ↦ rw hit (rw (same r ∙ hit))
          | inr miss ↦ rw miss (rw miss)
        ] in
      ap (λ s. s ∷ update_where p g (update_where p f rows)) at
      ∙ ap (λ rest. on_match p (λ s. g (f s)) r ∷ rest) (update_where-twice p f g rows same)

untried :
    (st : Status) (retries : ℕ) (at : Option ℕ) (code : Option Text)
    → is_final st ≡ false
    → ColumnsOf st retries at code
    → (retries ≡ 0) × (at ≡ none) × (code ≡ none)
untried processing retries at code h c = absurd c
untried normalized retries at code h c = absurd (cc)
untried rejected retries at code h c = absurd (cc)
untried received retries at code h c = c
untried queued retries at code h c = c
untried failed retries at code h c = c

no_retries :
    (st : Status) (retries : ℕ) (at : Option ℕ) (code : Option Text)
    → is_normalized st ≡ false
    → ColumnsOf st retries at code
    → retries ≡ 0
no_retries processing retries at code h c = absurd c
no_retries normalized retries at code h c = absurd (cc)
no_retries _ retries at code h c = c.0

module _ {C : Type 0} where
  normalized-IsHonest :
      (now : ℕ) (r : RawEvent C)
      → is_final r.status ≡ false
      → IsHonest r
      → IsHonest (set_normalized now (set_processing r))
  unfolding set_normalized set_processing
  normalized-IsHonest now r unfinished h =
      let (zero, _, _) = untried r.status _ _ _ unfinished h in
      (omega (arith, zero), (now, refl), refl)

  rejected-IsHonest :
      (now : ℕ) (code : Text) (r : RawEvent C)
      → is_normalized r.status ≡ false
      → IsHonest r
      → IsHonest (set_rejected now code r)
  unfolding set_rejected
  rejected-IsHonest now code r open_ h =
      (no_retries r.status _ _ _ open_ h, (now, refl), (code, refl))

  failed-IsHonest :
      (r : RawEvent C) → is_final r.status ≡ false → IsHonest r → IsHonest (set_failed r)
  unfolding set_failed
  failed-IsHonest r unfinished h = untried r.status _ _ _ unfinished h

  pub is_raw-set_processing :
      (job : Job) (r : RawEvent C) → is_raw job (set_processing r) ≡ is_raw job r
  unfolding set_processing
  is_raw-set_processing job r = refl

  pub is_raw-set_normalized :
      (job : Job) (now : ℕ) (r : RawEvent C)
      → is_raw job (set_normalized now (set_processing r)) ≡ is_raw job r
  unfolding set_normalized set_processing
  is_raw-set_normalized job now r = refl

  pub is_raw-set_rejected :
      (job : Job) (now : ℕ) (code : Text) (r : RawEvent C)
      → is_raw job (set_rejected now code r) ≡ is_raw job r
  unfolding set_rejected
  is_raw-set_rejected job now code r = refl

  id-set_normalized : (now : ℕ) (r : RawEvent C) → (set_normalized now (set_processing r)).id ≡ r.id
  unfolding set_normalized set_processing
  id-set_normalized now r = refl

  id-set_rejected : (now : ℕ) (code : Text) (r : RawEvent C) → (set_rejected now code r).id ≡ r.id
  unfolding set_rejected
  id-set_rejected now code r = refl

  id-set_failed : (r : RawEvent C) → (set_failed r).id ≡ r.id
  unfolding set_failed
  id-set_failed r = refl

module _ {C K V N : Type 0} where
  pub found_raw :
      (job : Job) (s : Store C K V N) (raw : RawEvent C) (type : K)
      → find_raw_event job s ≡ ok (raw, type)
      → find_first (is_raw job) s.raw_events ≡ some raw
  unfolding find_raw_event or_absent
  found_raw job s raw type h = ground (arith, h)

module _ {C K V N D : Type 0} (normalizer : Normalizer C K V D) (uuid_text : ℕ → Text)
    (number : ℕ → N) where
  normalized-IsSound :
      (now : ℕ) (job : Job) (raw : RawEvent C) (rows : List (RawEvent C))
      → IsSound rows
      → find_first (is_raw job) rows ≡ some raw
      → is_final raw.status ≡ false
      → IsSound (
          update_where
            (is_raw job)
            (set_normalized now)
            (update_where (is_raw job) set_processing rows))
  normalized-IsSound now job raw rows h found unfinished =
      let (keyed, mine) = find_first-All _ _ rows h.keyed found in
      subst IsSound
        (sym (
          update_where-twice (is_raw job) set_processing (set_normalized now) rows
            (is_raw-set_processing job)))
        (update-IsSound (is_raw job) (λ r. set_normalized now (set_processing r)) rows h
          (id-set_normalized now)
          (λ r hit key honest.
            let ids : r.id ≡ raw.id = ground (arith, hit, mine) in
            let same : r ≡ raw = key ∙ (ap h.row ids ∙ sym keyed) in
            normalized-IsHonest now r (ap (λ (q : RawEvent C). is_final q.status) same ∙ unfinished)
              honest))

  step-IsSound :
      (answers : Answers) (now : ℕ) (job : Job) (s : Store C K V N) {r : Result Failure Outcome}
      {s' : Store C K V N}
      → IsDone normalizer uuid_text number now job answers s r s'
      → IsSound s.raw_events
      → IsSound s'.raw_events
  unfolding set_rejected set_failed
  step-IsSound answers now job s (known raw type found done) h = h
  step-IsSound answers now job s (committed raw type found unfinished n) h =
      subst IsSound (sym n.rows)
        (normalized-IsSound now job raw s.raw_events h (found_raw job s raw type found) unfinished)
  step-IsSound answers now job s (refused raw type code found unfinished why marked) h =
      update-IsSound _ (set_rejected now code) s.raw_events h (id-set_rejected now code)
        (λ r hit key honest. rejected-IsHonest now code r (ground (arith, hit)) honest)
  step-IsSound answers now job s (unmarked raw type code e found unfinished why failing) h = h
  step-IsSound answers now job s (broken e why marked) h =
      update-IsSound _ set_failed s.raw_events h id-set_failed
        (λ r hit key honest. failed-IsHonest r (ground (arith, hit)) honest)
  step-IsSound answers now job s (unfailed e x why failing) h = h

  -- Jobs in any order, repeated or not, with any errors.
  pub data History : Store C K V N → Type 0 where
    fresh : (s : Store C K V N) → IsSound s.raw_events → History s
    processed :
        {s : Store C K V N} (answers : Answers) (now : ℕ) (job : Job)
        → History s
        → History (process normalizer uuid_text number answers now job s).1

  -- In every history of jobs, repeated or not, whatever fails in them, no raw event is seen
  -- PROCESSING; one is NORMALIZED with the count of one attempt, a time and no code, or REJECTED with
  -- a time and a code, or has neither, and then no attempt is counted.
  pub History-IsSound : {s : Store C K V N} → History s → IsSound s.raw_events
  History-IsSound (fresh s h) = h
  History-IsSound (processed {s = s} answers now job before) =
      step-IsSound answers now job s (process-IsDone normalizer uuid_text number now job answers s)
        (History-IsSound before)
