-- ===== src/Incidents/Versions.antt =====
-- The versions of the rows: a row that has the version it had before is the row it was.
use sentriqora.Base.{
  ℕ, ◌+◌, ◌≤◌, ◌≡◌, inl, inr, refl, sym, ap, ◌∙◌, subst, Bool, true, some, List, [], ◌∷◌, Text, ok,
  All, All-map, All-mem, find_first, find_first-All, update_where, update_where-All, arith, Memᴰ,
}
use sentriqora.Outbox.Jobs.{SlaKind, response, resolution}
use sentriqora.Incidents.Store.{Incident, Db, is_incident}
use sentriqora.Incidents.Repository.{
  MutationResult, TransitionInput, is_unchanged, set_status, transition,
}
use sentriqora.Incidents.Repository.Effects.{transition_effect}
use sentriqora.Incidents.Mutations.{
  AnalysisInput, AssignInput, is_at, set_analysis, set_assignee, update_analysis, assign,
}
use sentriqora.Incidents.Sla.{set_breached, is_unbreached, evaluate_sla}
use sentriqora.Incidents.Effects.{update_analysis_effect, assign_effect, evaluate_sla_effect}
use sentriqora.Incidents.Invariant.{IsSound}

-- The row comes from one of the rows of before.
pub record Follows (rows : List Incident) (i : Incident) : Type 0 where
  pub earlier : Incident
  pub member : Memᴰ earlier rows
  pub id : i.id ≡ earlier.id
  pub organization : i.organization_id ≡ earlier.organization_id
  pub version : earlier.version ≤ i.version
  pub unchanged : i.version ≡ earlier.version → i ≡ earlier

abbrev pub Ahead : List Incident → List Incident → Type 0
Ahead rows rows' = All (Follows rows) rows'

-- An update that raises the version and keeps the key.
abbrev pub Bumps : (Incident → Incident) → Type 0
Bumps f =
    (i : Incident)
    → ((f i).id ≡ i.id)
      × ((f i).organization_id ≡ i.organization_id)
      × ((f i).version ≡ i.version + 1)

Follows-more :
    (j : Incident) (rows : List Incident) (i : Incident) → Follows rows i → Follows (j ∷ rows) i
Follows-more j rows i f = record {
  earlier = f.earlier;
  member = Memᴰ.tail f.member;
  id = f.id;
  organization = f.organization;
  version = f.version;
  unchanged = f.unchanged;
}

pub Ahead-same : (rows : List Incident) → Ahead rows rows
Ahead-same [] = tt
Ahead-same (i ∷ rows) = (
  record {
    earlier = i;
    member = Memᴰ.head refl;
    id = refl;
    organization = refl;
    version = omega arith;
    unchanged = λ _. refl;
  },
  All-map _ _ rows (Follows-more i rows) (Ahead-same rows),
)

pub Ahead-trans : (a b c : List Incident) → Ahead a b → Ahead b c → Ahead a c
Ahead-trans a b c ab bc =
    All-map _ _ c
      (λ i f.
        let e : Follows a f.earlier = All-mem (Follows a) b ab f.member in
        record {
          earlier = e.earlier;
          member = e.member;
          id = f.id ∙ e.id;
          organization = f.organization ∙ e.organization;
          version = omega (arith, f.version, e.version);
          unchanged = λ same.
              let at : i.version ≡ f.earlier.version = omega (arith, f.version, e.version, same) in
              f.unchanged at ∙ e.unchanged (omega (arith, at, same));
        })
      bc

update-Ahead :
    (p : Incident → Bool) (f : Incident → Incident) (rows : List Incident)
    → Bumps f
    → Ahead rows (update_where p f rows)
update-Ahead p f rows bumps =
    update_where-All (Follows rows) (Follows rows) p f rows
      (λ i hit e.
        let (id, organization, version) = bumps i in
        record {
          earlier = e.earlier;
          member = e.member;
          id = id ∙ e.id;
          organization = organization ∙ e.organization;
          version = omega (arith, version, e.version);
          unchanged = λ same. absurd (omega (arith, version, e.version, same));
        })
      (λ i e. e) (Ahead-same rows)

pub set_status-Bumps :
    (now : ℕ) (input : TransitionInput) (existing : Incident)
    → Bumps (set_status now input existing)
unfolding set_status
set_status-Bumps now input existing i = (refl, refl, refl)

pub set_analysis-Bumps : (now : ℕ) (input : AnalysisInput) → Bumps (set_analysis now input)
unfolding set_analysis
set_analysis-Bumps now input i = (refl, refl, refl)

pub set_assignee-Bumps : (now : ℕ) (input : AssignInput) → Bumps (set_assignee now input)
unfolding set_assignee
set_assignee-Bumps now input i = (refl, refl, refl)

set_breached-Bumps : (kind : SlaKind) (now : ℕ) → Bumps (set_breached kind now)
unfolding set_breached
set_breached-Bumps response now i = (refl, refl, refl)
set_breached-Bumps resolution now i = (refl, refl, refl)

module _ {N : Type 0} (uuid_text : ℕ → Text) (now : ℕ) (db db' : Db N) where
  still : db' ≡ db → Ahead db.incidents db'.incidents
  still same =
      subst (λ (d : Db N). Ahead db.incidents d.incidents) (sym same) (Ahead-same db.incidents)

  module _ (r : MutationResult Incident) where
    pub transition-Ahead :
        (input : TransitionInput)
        → transition uuid_text now input db ≡ ok (r, db')
        → Ahead db.incidents db'.incidents
    transition-Ahead input h = elim (transition_effect uuid_text now input db r db' h) [
      | inl (_, same) ↦ still same
      | inr (a, _) ↦
          subst (Ahead db.incidents) (sym a.rows) (
            update-Ahead (is_unchanged input) _ db.incidents
              (set_status-Bumps now input a.existing))
    ]

    pub update_analysis-Ahead :
        (input : AnalysisInput)
        → update_analysis uuid_text now input db ≡ ok (r, db')
        → Ahead db.incidents db'.incidents
    update_analysis-Ahead input h = elim (update_analysis_effect uuid_text now input db r db' h) [
      | inl same ↦ still same
      | inr a ↦ subst (Ahead db.incidents) (sym a.rows) (
          update-Ahead (is_at input.organization_id input.incident_id input.version) _ db.incidents
            (set_analysis-Bumps now input))
    ]

    pub assign-Ahead :
        (input : AssignInput)
        → assign uuid_text now input db ≡ ok (r, db')
        → Ahead db.incidents db'.incidents
    assign-Ahead input h = elim (assign_effect uuid_text now input db r db' h) [
      | inl same ↦ still same
      | inr rows ↦ subst (Ahead db.incidents) (sym rows) (
          update-Ahead (is_at input.organization_id input.incident_id input.version) _ db.incidents
            (set_assignee-Bumps now input))
    ]

module _ {N : Type 0} (uuid_text : ℕ → Text) (now organization id : ℕ) (kind : SlaKind) where
  pub evaluate_sla-Ahead :
      (db : Db N)
      → Ahead db.incidents (evaluate_sla uuid_text now organization id kind db).1.incidents
  evaluate_sla-Ahead db = elim (evaluate_sla_effect uuid_text now organization kind id db) [
    | inl same ↦
        subst (λ (d : Db N). Ahead db.incidents d.incidents) (sym (ap (λ p. p.1) same))
          (Ahead-same db.incidents)
    | inr (_, b) ↦ subst (Ahead db.incidents) (sym b.rows) (
        update-Ahead (is_unbreached organization b.incident.id kind) _ db.incidents
          (set_breached-Bumps kind now))
  ]

-- What is found in sound rows is what comes later, or has another version.
pub Later-Ahead :
    (organization id : ℕ) (current : Incident) (rows rows' : List Incident)
    → IsSound rows
    → find_first (is_incident organization id) rows ≡ some current
    → Ahead rows rows'
    → All
        (λ i.
          is_incident organization id i ≡ true
          → (current.version ≤ i.version) × (i.version ≡ current.version → i ≡ current))
        rows'
Later-Ahead organization id current rows rows' h found ahead =
    let (keyed, at) = find_first-All _ _ rows h.keyed found in
    All-map _ _ rows'
      (λ i f hit.
        let ids : f.earlier.id ≡ current.id = ground (arith, hit, at, f.id) in
        let same : f.earlier ≡ current =
          All-mem _ rows h.keyed f.member ∙ (ap h.row ids ∙ sym keyed) in
        (
          subst (λ (e : Incident). e.version ≤ i.version) same f.version,
          subst (λ (e : Incident). i.version ≡ e.version → i ≡ e) same f.unchanged,
        ))
      ahead
