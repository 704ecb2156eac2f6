-- ===== src/Incidents/Effects.antt =====
-- When the other operations change the incidents, and how.
use sentriqora.Base.{
  ℕ, ◌≡◌, ◌⊎◌, inl, inr, true, false, some, Text, ok, Option-cases, Bool-cases, find_first,
  update_where, arith, ◌&&◌, ◌==◌,
}
use sentriqora.Outbox.Jobs.{SlaKind}
use sentriqora.Incidents.Store.{
  Incident, Db, is_incident, is_solved, is_closed, add_timeline, add_timeline_once, add_audit,
  create_notification,
}
use sentriqora.Incidents.Repository.{MutationResult}
use sentriqora.Incidents.Mutations.{
  AnalysisInput, AssignInput, is_clear, is_at, set_analysis, set_assignee, apply_analysis,
  update_analysis, assign,
}
use sentriqora.Incidents.Sla.{
  is_new_breach, is_unbreached, set_breached, record_breach, breach, evaluate_sla,
}

module _ {N : Type 0} (uuid_text : ℕ → Text) (now : ℕ) where
  module _ (input : AnalysisInput) where
    pub record IsAnalysed (db db' : Db N) : Type 0 where
      pub existing : Incident
      pub found :
          find_first (is_incident input.organization_id input.incident_id) db.incidents
          ≡ some existing
      pub version : (existing.version == input.version) ≡ true
      pub cause_kept : (is_solved existing.status && is_clear input.root_cause) ≡ false
      pub lessons_kept : (is_closed existing.status && is_clear input.lessons_learned) ≡ false
      pub rows :
          db'.incidents
          ≡ update_where
              (is_at input.organization_id input.incident_id input.version)
              (set_analysis now input)
              db.incidents

    apply_analysis_cases :
        (existing : Incident) (db : Db N) (r : MutationResult Incident) (db' : Db N)
        → apply_analysis uuid_text now input existing db ≡ ok (r, db')
        → (db' ≡ db)
          ⊎ (db'.incidents
              ≡ update_where
                  (is_at input.organization_id input.incident_id input.version)
                  (set_analysis now input)
                  db.incidents)
    unfolding apply_analysis add_timeline add_audit
    apply_analysis_cases existing db r db' h = ground arith

    update_analysis_cases :
        (db : Db N) (r : MutationResult Incident) (db' : Db N)
        → update_analysis uuid_text now input db ≡ ok (r, db')
        → (db' ≡ db)
          ⊎ (existing : Incident) × (find_first
                (is_incident input.organization_id input.incident_id)
                db.incidents
              ≡ some existing)
            × ((existing.version == input.version) ≡ true)
            × ((is_solved existing.status && is_clear input.root_cause) ≡ false)
            × ((is_closed existing.status && is_clear input.lessons_learned) ≡ false)
            × (apply_analysis uuid_text now input existing db ≡ ok (r, db'))
    unfolding update_analysis
    update_analysis_cases db r db' h =
        elim (Option-cases
          (find_first (is_incident input.organization_id input.incident_id) db.incidents)) [
            | inl missing ↦ inl (ground arith)
            | inr (existing, found) ↦ ground arith
          ]

    pub update_analysis_effect :
        (db : Db N) (r : MutationResult Incident) (db' : Db N)
        → update_analysis uuid_text now input db ≡ ok (r, db')
        → (db' ≡ db) ⊎ IsAnalysed db db'
    update_analysis_effect db r db' h = elim (update_analysis_cases db r db' h) [
      | inl same ↦ inl same
      | inr (existing, found, version, cause, lessons, applied) ↦
          elim (apply_analysis_cases existing db r db' applied) [
            | inl same ↦ inl same
            | inr rows ↦ inr (record {
              existing = existing;
              found = found;
              version = version;
              cause_kept = cause;
              lessons_kept = lessons;
              rows = rows;
            })
          ]
    ]

  pub assign_effect :
      (input : AssignInput) (db : Db N) (r : MutationResult Incident) (db' : Db N)
      → assign uuid_text now input db ≡ ok (r, db')
      → (db' ≡ db)
        ⊎ (db'.incidents
            ≡ update_where
                (is_at input.organization_id input.incident_id input.version)
                (set_assignee now input)
                db.incidents)
  unfolding assign add_timeline add_audit create_notification
  assign_effect input db r db' h = ground arith

  module _ (organization : ℕ) (kind : SlaKind) where
    pub record IsBreached (id : ℕ) (db db' : Db N) : Type 0 where
      pub incident : Incident
      pub found : find_first (is_incident organization id) db.incidents ≡ some incident
      pub due : is_new_breach kind now incident ≡ true
      pub rows :
          db'.incidents
          ≡ update_where
              (is_unbreached organization incident.id kind)
              (set_breached kind now)
              db.incidents

    breach_cases :
        (incident : Incident) (db : Db N)
        → (breach uuid_text now organization kind incident db ≡ (false, db))
          ⊎ ((breach uuid_text now organization kind incident db).0 ≡ true)
            × ((breach uuid_text now organization kind incident db).1.incidents
                ≡ update_where
                    (is_unbreached organization incident.id kind)
                    (set_breached kind now)
                    db.incidents)
    unfolding breach record_breach add_audit add_timeline_once create_notification
    breach_cases incident db = ground arith

    pub evaluate_sla_effect :
        (id : ℕ) (db : Db N)
        → (evaluate_sla uuid_text now organization id kind db ≡ (false, db))
          ⊎ ((evaluate_sla uuid_text now organization id kind db).0 ≡ true)
            × IsBreached id db (evaluate_sla uuid_text now organization id kind db).1
    unfolding evaluate_sla
    evaluate_sla_effect id db =
        elim (Option-cases (find_first (is_incident organization id) db.incidents)) [
          | inl missing ↦ inl (rw (missing, evaluate_sla))
          | inr (i, found) ↦ elim (Bool-cases (is_new_breach kind now i)) [
            | inr not_due ↦ inl (rw (found, evaluate_sla) (rw not_due))
            | inl due ↦ elim (breach_cases i db) [
              | inl same ↦ inl (rw (found, evaluate_sla) (rw due same))
              | inr (flag, rows) ↦ inr (
                rw (found, evaluate_sla) (rw due flag),
                record {
                  incident = i;
                  found = found;
                  due = due;
                  rows = rw (found, evaluate_sla) (rw due rows);
                },
              )
            ]
          ]
        ]
