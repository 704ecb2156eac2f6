-- ===== src/Incidents/Repository/Effects.antt =====
-- When `transition` changes the incidents, and how.
use sentriqora.Base.{
  ℕ, ◌≡◌, ◌⊎◌, inl, inr, true, some, Text, ok, ◌==◌, Option-cases, find_first, update_where,
  count_where, arith, ==→eq,
}
use sentriqora.Incidents.Policy.{Status, is_status, opened}
use sentriqora.Incidents.Store.{
  Incident, Db, is_incident, add_timeline, add_audit, create_notification,
}
use sentriqora.Incidents.Repository.{
  TransitionInput, MutationResult, success, not_found, conflict, set_status, is_unchanged,
  record_transition, apply_transition, transition,
}

pub eq_of_is_status : (a b : Status) → is_status a b ≡ true → a ≡ b
eq_of_is_status opened b h = ground arith
eq_of_is_status _ b h = ground arith

module _ {N : Type 0} (uuid_text : ℕ → Text) (now : ℕ) (input : TransitionInput) where
  pub record IsApplied (db db' : Db N) : Type 0 where
    pub existing : Incident
    pub found :
        find_first (is_incident input.organization_id input.incident_id) db.incidents
        ≡ some existing
    pub version : existing.version ≡ input.version
    pub status : existing.status ≡ input.current_status
    pub one : count_where (is_unchanged input) db.incidents ≡ 1
    pub rows :
        db'.incidents
        ≡ update_where (is_unchanged input) (set_status now input existing) db.incidents

  record_transition-incidents :
      (existing : Incident) (db : Db N) (r : MutationResult Incident) (db' : Db N)
      → record_transition uuid_text now input existing db ≡ ok (r, db')
      → (db'.incidents ≡ db.incidents) × ((i : Incident) × (r ≡ success i))
  unfolding record_transition add_timeline add_audit create_notification
  record_transition-incidents existing db r db' h = (ground arith, ground arith)

  apply_transition_cases :
      (existing : Incident) (db : Db N) (r : MutationResult Incident) (db' : Db N)
      → apply_transition uuid_text now input existing db ≡ ok (r, db')
      → (r ≡ conflict) × (db' ≡ db)
        ⊎ (count_where (is_unchanged input) db.incidents ≡ 1)
          × (record_transition uuid_text now input existing (record db {
            incidents =
                update_where (is_unchanged input) (set_status now input existing) db.incidents;
          })
              ≡ ok (r, db'))
  unfolding apply_transition
  apply_transition_cases existing db r db' h = ground arith

  transition_cases :
      (db : Db N) (r : MutationResult Incident) (db' : Db N)
      → transition uuid_text now input db ≡ ok (r, db')
      → ((r ≡ conflict) ⊎ (r ≡ not_found)) × (db' ≡ db)
        ⊎ (existing : Incident) × (find_first
              (is_incident input.organization_id input.incident_id)
              db.incidents
            ≡ some existing)
          × ((existing.version == input.version) ≡ true)
          × (is_status existing.status input.current_status ≡ true)
          × (apply_transition uuid_text now input existing db ≡ ok (r, db'))
  unfolding transition
  transition_cases db r db' h =
      elim (Option-cases
        (find_first (is_incident input.organization_id input.incident_id) db.incidents)) [
          | inl missing ↦ inl (ground arith, ground arith)
          | inr (existing, found) ↦ ground arith
        ]

  -- A transition that returns changes nothing, or it has found the row at the version and in the
  -- status that it was asked for, and has changed that row alone.
  pub transition_effect :
      (db : Db N) (r : MutationResult Incident) (db' : Db N)
      → transition uuid_text now input db ≡ ok (r, db')
      → ((r ≡ conflict) ⊎ (r ≡ not_found)) × (db' ≡ db)
        ⊎ IsApplied db db' × ((i : Incident) × (r ≡ success i))
  transition_effect db r db' h = elim (transition_cases db r db' h) [
    | inl nothing ↦ inl nothing
    | inr (existing, found, version, status, applied) ↦
        elim (apply_transition_cases existing db r db' applied) [
          | inl (refused, same) ↦ inl (inl refused, same)
          | inr (one, recorded) ↦
              (let (rows, done) = record_transition-incidents existing _ r db' recorded in
                inr (
                  record {
                    existing = existing;
                    found = found;
                    version = ==→eq _ _ version;
                    status = eq_of_is_status _ _ status;
                    one = one;
                    rows = rows;
                  },
                  done,
                ))
        ]
  ]
