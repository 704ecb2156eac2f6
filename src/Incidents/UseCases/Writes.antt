-- ===== src/Incidents/UseCases/Writes.antt =====
-- The other operations keep the invariant of the incidents.
use sentriqora.Base.{
  ℕ, ◌≤◌, ◌≡◌, inl, inr, refl, sym, ap, ◌∙◌, subst, false, Option, Text, ok, ok_of_bind,
  find_first-All, arith, trim, length, ◌&&◌, trim_idempotent,
}
use sentriqora.Outbox.Jobs.{SlaKind, response, resolution}
use sentriqora.Incidents.Policy.{Status, resolved, closed, Analysis}
use sentriqora.Incidents.Policy.Laws.{IsMeaningful, Requires}
use sentriqora.Incidents.Store.{Incident, Db, is_solved, is_closed}
use sentriqora.Incidents.Repository.{success}
use sentriqora.Incidents.Mutations.{
  Change, left_out, clear, to, AnalysisInput, AssignInput, is_clear, changed, is_at, set_analysis,
  set_assignee,
}
use sentriqora.Incidents.Sla.{set_breached, is_unbreached, evaluate_sla}
use sentriqora.Incidents.Effects.{
  IsAnalysed, update_analysis_effect, assign_effect, evaluate_sla_effect,
}
use sentriqora.Incidents.Invariant.{IsWellFormed, IsSound, analysis_of, update-IsSound}
use sentriqora.Incidents.UseCases.{
  Principal, AnalysisCandidate, AssignCandidate, bounded, nullable, parse_analysis, assert_tenant,
  assert_mfa, positive, analysis_input, assign_input, update_incident_analysis, assign_incident,
}
use sentriqora.Incidents.UseCases.Safety.{unwrap-eq-ok}

-- A change that the request schema lets through.
abbrev IsValid : Change → Type 0
IsValid (to text) = 10 ≤ length (trim text)
IsValid _ = Unit

bounded_lem :
    (low high : ℕ) (t v : Text) → bounded low high t ≡ ok v → (v ≡ trim t) × (low ≤ length (trim t))
unfolding bounded
bounded_lem low high t v h = (ground arith, ground arith)

nullable-IsValid : (c v : Change) → nullable 10 5000 c ≡ ok v → IsValid v
unfolding nullable
nullable-IsValid left_out v h = let same : left_out ≡ v = cc in subst IsValid same tt
nullable-IsValid clear v h = let same : clear ≡ v = cc in subst IsValid same tt
nullable-IsValid (to t) v h =
    let (text, parsed, same) = ok_of_bind (bounded 10 5000 t) _ h in
    let (trimmed, long) = bounded_lem 10 5000 t text parsed in
    let written : to text ≡ v = cc in
    subst IsValid written
      (subst (λ s. 10 ≤ length s) (sym (ap trim trimmed ∙ trim_idempotent t)) long)

parse_analysis-IsValid :
    (c v : AnalysisCandidate)
    → parse_analysis c ≡ ok v
    → IsValid v.lessons_learned × IsValid v.root_cause
unfolding parse_analysis
parse_analysis-IsValid c v h =
    let (lessons, l, h1) = ok_of_bind (nullable 10 5000 c.lessons_learned) _ h in
    let (cause, r, h2) = ok_of_bind (nullable 10 5000 c.root_cause) _ h1 in
    let same : (v.lessons_learned ≡ lessons) × (v.root_cause ≡ cause) = ground (arith, h2) in
    (
      subst IsValid (sym same.0) (nullable-IsValid _ _ l),
      subst IsValid (sym same.1) (nullable-IsValid _ _ r),
    )

IsMeaningful-changed :
    (c : Change) (old : Option Text)
    → IsValid c
    → is_clear c ≡ false
    → IsMeaningful old
    → IsMeaningful (changed c old)
IsMeaningful-changed left_out old v h m = m
IsMeaningful-changed clear old v h m = absurd (cc)
IsMeaningful-changed (to t) old v h m = record { text = t; given = refl; long = v }

Requires-changed :
    (s : Status) (lessons cause : Change) (a : Analysis)
    → IsValid lessons
    → IsValid cause
    → (is_solved s && is_clear cause) ≡ false
    → (is_closed s && is_clear lessons) ≡ false
    → Requires s a
    → Requires s (record {
      lessons_learned = changed lessons a.lessons_learned;
      root_cause = changed cause a.root_cause;
    })
Requires-changed resolved l c a vl vc hc hl h = IsMeaningful-changed c _ vc hc h
Requires-changed closed l c a vl vc hc hl (h, k) =
    (IsMeaningful-changed c _ vc hc h, IsMeaningful-changed l _ vl hl k)
Requires-changed _ l c a vl vc hc hl h = h

set_analysis-IsWellFormed :
    (now : ℕ) (input : AnalysisInput) (i : Incident)
    → IsValid input.lessons_learned
    → IsValid input.root_cause
    → (is_solved i.status && is_clear input.root_cause) ≡ false
    → (is_closed i.status && is_clear input.lessons_learned) ≡ false
    → IsWellFormed i
    → IsWellFormed (set_analysis now input i)
unfolding set_analysis
set_analysis-IsWellFormed now input i vl vc hc hl h = record {
  analysis =
      Requires-changed i.status input.lessons_learned input.root_cause (analysis_of i) vl vc hc hl
        h.analysis;
  stamped = h.stamped;
}

id-set_analysis :
    (now : ℕ) (input : AnalysisInput) (i : Incident) → (set_analysis now input i).id ≡ i.id
unfolding set_analysis
id-set_analysis now input i = refl

id-set_assignee :
    (now : ℕ) (input : AssignInput) (i : Incident) → (set_assignee now input i).id ≡ i.id
unfolding set_assignee
id-set_assignee now input i = refl

set_assignee-IsWellFormed :
    (now : ℕ) (input : AssignInput) (i : Incident)
    → IsWellFormed i
    → IsWellFormed (set_assignee now input i)
unfolding set_assignee
set_assignee-IsWellFormed now input i h = record { analysis = h.analysis; stamped = h.stamped }

id-set_breached : (kind : SlaKind) (now : ℕ) (i : Incident) → (set_breached kind now i).id ≡ i.id
unfolding set_breached
id-set_breached response now i = refl
id-set_breached resolution now i = refl

set_breached-IsWellFormed :
    (kind : SlaKind) (now : ℕ) (i : Incident)
    → IsWellFormed i
    → IsWellFormed (set_breached kind now i)
unfolding set_breached
set_breached-IsWellFormed response now i h = record { analysis = h.analysis; stamped = h.stamped }
set_breached-IsWellFormed resolution now i h = record { analysis = h.analysis; stamped = h.stamped }

module _ {N : Type 0} (uuid_text : ℕ → Text) (now : ℕ) where
  analysed-IsSound :
      (input : AnalysisInput) (db db' : Db N)
      → IsValid input.lessons_learned
      → IsValid input.root_cause
      → IsSound db.incidents
      → IsAnalysed uuid_text now input db db'
      → IsSound db'.incidents
  analysed-IsSound input db db' vl vc h a =
      let (keyed, at) = find_first-All _ _ db.incidents h.keyed a.found in
      subst IsSound (sym a.rows) (
        update-IsSound (is_at input.organization_id input.incident_id input.version)
          (set_analysis now input) db.incidents h (id-set_analysis now input)
          (λ i hit key formed.
            let ids : i.id ≡ a.existing.id = ground arith in
            let here : i ≡ a.existing = key ∙ (ap h.row ids ∙ sym keyed) in
            set_analysis-IsWellFormed now input i vl vc
              (ap (λ (j : Incident). is_solved j.status && is_clear input.root_cause) here
                ∙ a.cause_kept)
              (ap (λ (j : Incident). is_closed j.status && is_clear input.lessons_learned) here
                ∙ a.lessons_kept)
              formed))

  -- `updateAnalysis` keeps every incident well formed.
  pub update_incident_analysis-IsSound :
      (principal : Principal) (organization id : ℕ) (candidate : AnalysisCandidate) (db : Db N)
      (i : Incident) (db' : Db N)
      → IsSound db.incidents
      → update_incident_analysis uuid_text now principal organization id candidate db ≡ ok (i, db')
      → IsSound db'.incidents
  unfolding update_incident_analysis
  update_incident_analysis-IsSound principal organization id candidate db i db' h done =
      let (_, _, after) = ok_of_bind (assert_tenant principal organization) _ done in
      let (input, parsed, written) = ok_of_bind (parse_analysis candidate) _ after in
      let (lessons, cause) = parse_analysis-IsValid candidate input parsed in
      elim (update_analysis_effect uuid_text now (analysis_input principal organization id input) db
        (success i) db' (unwrap-eq-ok _ written)) [
          | inl same ↦ subst (λ (d : Db N). IsSound d.incidents) (sym same) h
          | inr a ↦
              analysed-IsSound (analysis_input principal organization id input) db db' lessons cause
                h a
        ]

  -- `assign` keeps every incident well formed.
  pub assign_incident-IsSound :
      (principal : Principal) (organization id : ℕ) (candidate : AssignCandidate) (db : Db N)
      (i : Incident) (db' : Db N)
      → IsSound db.incidents
      → assign_incident uuid_text now principal organization id candidate db ≡ ok (i, db')
      → IsSound db'.incidents
  unfolding assign_incident
  assign_incident-IsSound principal organization id candidate db i db' h done =
      let (_, _, one) = ok_of_bind (assert_tenant principal organization) _ done in
      let (_, _, two) = ok_of_bind (assert_mfa principal) _ one in
      let (version, _, written) = ok_of_bind (positive candidate.version) _ two in
      let given = assign_input principal organization id candidate.assigned_membership_id version in
      elim (assign_effect uuid_text now given db (success i) db' (unwrap-eq-ok _ written)) [
        | inl same ↦ subst (λ (d : Db N). IsSound d.incidents) (sym same) h
        | inr rows ↦ subst IsSound (sym rows) (
            update-IsSound (is_at organization id version) (set_assignee now given) db.incidents h
              (id-set_assignee now given)
              (λ j hit key formed. set_assignee-IsWellFormed now given j formed))
      ]

  -- `evaluateSla` keeps every incident well formed.
  pub evaluate_sla-IsSound :
      (organization id : ℕ) (kind : SlaKind) (db : Db N)
      → IsSound db.incidents
      → IsSound (evaluate_sla uuid_text now organization id kind db).1.incidents
  evaluate_sla-IsSound organization id kind db h =
      elim (evaluate_sla_effect uuid_text now organization kind id db) [
        | inl same ↦ subst (λ (d : Db N). IsSound d.incidents) (sym (ap (λ p. p.1) same)) h
        | inr (_, b) ↦ subst IsSound (sym b.rows) (
            update-IsSound (is_unbreached organization b.incident.id kind) (set_breached kind now)
              db.incidents h (id-set_breached kind now)
              (λ j hit key formed. set_breached-IsWellFormed kind now j formed))
      ]
