-- ===== src/Incidents/UseCases/Safety.antt =====
-- The use cases keep the invariant of the incidents.
use sentriqora.Base.{
  ℕ, ◌≤◌, ◌≡◌, inl, inr, sym, ap, ◌∙◌, subst, true, some, List, Text, Result, ok, err, ok_of_bind,
  All, All-both, find_first, find_first-All, Option-cases, arith,
}
use sentriqora.Incidents.Policy.{assert_transition}
use sentriqora.Incidents.Policy.Laws.{assert_transition_iff}
use sentriqora.Incidents.Store.{Incident, Db, is_incident}
use sentriqora.Incidents.Repository.{
  TransitionInput, MutationResult, success, not_found, conflict, Failure, set_status, if_given,
  is_unchanged, transition,
}
use sentriqora.Incidents.Repository.Effects.{IsApplied, transition_effect}
use sentriqora.Incidents.Invariant.{
  IsWellFormed, IsSound, id-set_status, set_status-IsWellFormed, update-IsSound,
}
use sentriqora.Incidents.UseCases.{
  Principal, TransitionCandidate, plan_transition, transition_incident, unwrap,
}

-- The incident that is read has moved on since it was seen, or is the same.
abbrev pub Later : ℕ → ℕ → Incident → List Incident → Type 0
Later organization id seen rows =
    All
      (λ i.
        is_incident organization id i ≡ true
        → (seen.version ≤ i.version) × (i.version ≡ seen.version → i ≡ seen))
      rows

module _ {N : Type 0} (principal : Principal) (organization id : ℕ)
    (candidate : TransitionCandidate) where
  pub record IsPlan (seen : Db N) (input : TransitionInput) : Type 0 where
    pub current : Incident
    pub found : find_first (is_incident organization id) seen.incidents ≡ some current
    pub allowed :
        assert_transition current.status input.status (record {
          lessons_learned = if_given input.lessons_learned current.lessons_learned;
          root_cause = if_given input.root_cause current.root_cause;
        })
        ≡ ok tt
    pub status : input.current_status ≡ current.status
    pub version : input.version ≡ candidate.version
    pub organization_id : input.organization_id ≡ organization
    pub incident_id : input.incident_id ≡ id

  plan_transition-IsPlan :
      (seen : Db N) (input : TransitionInput)
      → plan_transition principal organization id candidate seen ≡ ok input
      → IsPlan seen input
  unfolding plan_transition
  plan_transition-IsPlan seen input h =
      elim (Option-cases (find_first (is_incident organization id) seen.incidents)) [
        | inl unseen ↦ absurd (ground arith)
        | inr (current, found) ↦ record {
          current = current;
          found = found;
          allowed = ground arith;
          status = ground arith;
          version = ground arith;
          organization_id = ground arith;
          incident_id = ground arith;
        }
      ]

pub unwrap-eq-ok {ℓ κ} :
    {A : Type ℓ} {S : Type κ} (m : Result Failure (MutationResult A × S)) {a : A} {s : S}
    → unwrap m ≡ ok (a, s)
    → m ≡ ok (success a, s)
unfolding unwrap
unwrap-eq-ok (ok (success v, s)) h = cc
unwrap-eq-ok (ok (not_found, s)) h = absurd (cc)
unwrap-eq-ok (ok (conflict, s)) h = absurd (cc)
unwrap-eq-ok (err e) h = absurd (cc)

module _ {N : Type 0} (uuid_text : ℕ → Text) (now : ℕ) where
  -- The repository's part: the row is the one on which the move was checked.
  applied-IsSound :
      (input : TransitionInput) (current : Incident) (db db' : Db N)
      → IsSound db.incidents
      → Later input.organization_id input.incident_id current db.incidents
      → input.version ≤ current.version
      → assert_transition current.status input.status (record {
        lessons_learned = if_given input.lessons_learned current.lessons_learned;
        root_cause = if_given input.root_cause current.root_cause;
      })
        ≡ ok tt
      → IsApplied uuid_text now input db db'
      → IsSound db'.incidents
  applied-IsSound input current db db' h later observed allowed a =
      let ((keyed, at), mine) =
        find_first-All _ _ db.incidents (All-both _ _ db.incidents h.keyed later) a.found in
      let same : a.existing ≡ current =
        (at mine).1 (omega (arith, (at mine).0, a.version, observed)) in
      let (edge, needs) = (assert_transition_iff _ _ _).0 allowed in
      subst IsSound (sym a.rows) (
        update-IsSound (is_unchanged input) (set_status now input a.existing) db.incidents h
          (id-set_status now input a.existing)
          (λ i hit key formed.
            let ids : i.id ≡ a.existing.id = ground arith in
            let here : i ≡ current = key ∙ (ap h.row ids ∙ (sym keyed ∙ same)) in
            subst (λ e. IsWellFormed (set_status now input e i)) (sym same)
              (subst (λ j. IsWellFormed (set_status now input current j)) (sym here)
                (set_status-IsWellFormed now input current
                  (ap (λ (j : Incident). j.status) (sym same) ∙ a.status) edge needs
                  (subst IsWellFormed here formed)))))

  planned-IsSound :
      (principal : Principal) (organization id : ℕ) (candidate : TransitionCandidate)
      (seen db db' : Db N) (current i : Incident) (input : TransitionInput)
      → IsSound db.incidents
      → find_first (is_incident organization id) seen.incidents ≡ some current
      → Later organization id current db.incidents
      → candidate.version ≤ current.version
      → IsPlan principal organization id candidate seen input
      → transition uuid_text now input db ≡ ok (success i, db')
      → IsSound db'.incidents
  planned-IsSound principal organization id candidate seen db db' current i input h found later
        observed plan written =
      let same : plan.current ≡ current = cc in
      let later' : Later input.organization_id input.incident_id current db.incidents =
        rw (plan.organization_id, plan.incident_id) later in
      let allowed =
        subst
          (λ (c : Incident).
            assert_transition c.status input.status (record {
              lessons_learned = if_given input.lessons_learned c.lessons_learned;
              root_cause = if_given input.root_cause c.root_cause;
            })
            ≡ ok tt)
          same plan.allowed in
      elim (transition_effect uuid_text now input db (success i) db' written) [
        | inl (inl refused, _) ↦ absurd (cc)
        | inl (inr refused, _) ↦ absurd (cc)
        | inr (applied, _) ↦
            applied-IsSound input current db db' h later'
              (subst (λ v. v ≤ current.version) (sym plan.version) observed) allowed applied
      ]

  -- `transition` keeps every incident well formed, even if other requests write between its read and
  -- its write, if the client sends a version that it can have seen: one that is no later than the
  -- version of the row that `findIncident` reads.
  pub transition_incident-IsSound :
      (principal : Principal) (organization id : ℕ) (candidate : TransitionCandidate)
      (seen db : Db N) (current : Incident)
      → IsSound db.incidents
      → find_first (is_incident organization id) seen.incidents ≡ some current
      → Later organization id current db.incidents
      → candidate.version ≤ current.version
      → (i : Incident) (db' : Db N)
      → transition_incident uuid_text now principal organization id candidate seen db ≡ ok (i, db')
      → IsSound db'.incidents
  unfolding transition_incident
  transition_incident-IsSound principal organization id candidate seen db current h found later
        observed i db' done =
      let (input, planned, written) =
        ok_of_bind (plan_transition principal organization id candidate seen) _ done in
      planned-IsSound principal organization id candidate seen db db' current i input h found later
        observed (plan_transition-IsPlan principal organization id candidate seen input planned)
        (unwrap-eq-ok _ written)
