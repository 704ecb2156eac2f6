-- ===== src/Incidents/Writes.antt =====
-- Optimistic locking by the version column: the three writes of requests, `transition`,
-- `updateAnalysis` and `assign` of apps/api/src/incidents/infrastructure/prisma-incident.repository.ts.
use sentriqora.Base.{
  ℕ, suc, ◌≡◌, ◌≤◌, ◌⊎◌, inl, inr, refl, sym, ap, subst, Bool, true, false, some, Text, ok,
  find_first, find_first-All, find_first-update_where, update_where, arith, ◌==◌, on_match, All,
  List, [], ◌∷◌, Option-cases, ==→eq,
}
use sentriqora.Incidents.Store.{
  Incident, Db, is_incident, add_timeline, add_audit, create_notification,
}
use sentriqora.Incidents.Policy.{number}
use sentriqora.Incidents.Repository.{
  Outcome, success, not_found, conflict, TransitionInput, is_unchanged, transition,
}
use sentriqora.Incidents.Repository.Effects.{IsApplied, transition_effect}
use sentriqora.Incidents.Mutations.{
  AnalysisInput, AssignInput, is_at, set_analysis, set_assignee, apply_analysis, update_analysis,
  assign,
}
use sentriqora.Incidents.Invariant.{IsSound}
use sentriqora.Incidents.Versions.{
  Bumps, set_status-Bumps, set_analysis-Bumps, set_assignee-Bumps, Later-Ahead,
}
use sentriqora.Incidents.Histories.{Steps, Steps-Ahead}

-- A write that a request asks for, and the incident and the version that it names.
pub data Write : Type 0 where
  transitioning : TransitionInput → Write
  analysing : AnalysisInput → Write
  assigning : AssignInput → Write

abbrev pub target : Write → ℕ × ℕ
target (transitioning i) = (i.organization_id, i.incident_id)
target (analysing i) = (i.organization_id, i.incident_id)
target (assigning i) = (i.organization_id, i.incident_id)

abbrev pub version_of : Write → ℕ
version_of (transitioning i) = i.version
version_of (analysing i) = i.version
version_of (assigning i) = i.version

hit_of :
    (p : Incident → Bool) (rows : List Incident) (i : Incident)
    → find_first p rows ≡ some i
    → p i ≡ true
hit_of p rows i found = (find_first-All (λ _. Unit {0}) p rows (all rows) found).1
  where
    all : (xs : List Incident) → All (λ _. Unit {0}) xs
    all [] = tt
    all (x ∷ xs) = (tt, all xs)

raised_of :
    (organization id version : ℕ) (p : Incident → Bool) (f : Incident → Incident)
    (rows rows' : List Incident) (i : Incident)
    → Bumps f
    → find_first (is_incident organization id) rows ≡ some i
    → i.version ≡ version
    → p i ≡ true
    → rows' ≡ update_where p f rows
    → (j : Incident) × (find_first (is_incident organization id) rows' ≡ some j)
      × (j.version ≡ suc version)
raised_of organization id version p f rows rows' i bumps found at hit same =
    let keeps : (k : Incident) → is_incident organization id (f k) ≡ is_incident organization id k =
      λ k. let (ids, organizations, _) = bumps k in rw (ids, organizations) refl in
    let (_, _, raised) = bumps i in
    (
      on_match p f i,
      subst (λ xs. find_first (is_incident organization id) xs ≡ some (on_match p f i)) (sym same)
          (find_first-update_where (is_incident organization id) p f rows keeps found),
      rw hit (omega (arith, raised, at)),
    )

module _ {N : Type 0} (uuid_text : ℕ → Text) where
  abbrev pub perform : ℕ → Write → Db N → Outcome N
  perform now (transitioning input) db = transition uuid_text now input db
  perform now (analysing input) db = update_analysis uuid_text now input db
  perform now (assigning input) db = assign uuid_text now input db

  -- The row that a write has raised to the next version.
  abbrev Raised : Write → Db N → Type 0
  Raised w db =
      (j : Incident) × (find_first (is_incident (target w).0 (target w).1) db.incidents ≡ some j)
      × (j.version ≡ suc (version_of w))

  applied-Raised :
      (now : ℕ) (input : TransitionInput) (db db' : Db N)
      → IsApplied uuid_text now input db db'
      → Raised (transitioning input) db'
  applied-Raised now input db db' a =
      let mine =
        hit_of (is_incident input.organization_id input.incident_id) db.incidents a.existing
          a.found in
      let at : (number a.existing.status == number input.current_status) ≡ true =
        ground (arith, ap number a.status) in
      raised_of input.organization_id input.incident_id input.version (is_unchanged input) _
        db.incidents db'.incidents a.existing (set_status-Bumps now input a.existing) a.found
        a.version (ground (arith, mine, a.version, at)) a.rows

  analysis_written :
      (now : ℕ) (input : AnalysisInput) (existing : Incident) (db : Db N) (i : Incident)
      (db' : Db N)
      → apply_analysis uuid_text now input existing db ≡ ok (success i, db')
      → db'.incidents
        ≡ update_where
            (is_at input.organization_id input.incident_id input.version)
            (set_analysis now input)
            db.incidents
  unfolding apply_analysis add_timeline add_audit
  analysis_written now input existing db i db' h = ground arith

  analysis_found :
      (now : ℕ) (input : AnalysisInput) (db : Db N) (i : Incident) (db' : Db N)
      → update_analysis uuid_text now input db ≡ ok (success i, db')
      → (existing : Incident) × (find_first
            (is_incident input.organization_id input.incident_id)
            db.incidents
          ≡ some existing)
        × ((existing.version == input.version) ≡ true)
        × (apply_analysis uuid_text now input existing db ≡ ok (success i, db'))
  unfolding update_analysis
  analysis_found now input db i db' h =
      elim (Option-cases
        (find_first (is_incident input.organization_id input.incident_id) db.incidents)) [
          | inl missing ↦ absurd (ground arith)
          | inr (existing, found) ↦ ground arith
        ]

  assignment_found :
      (now : ℕ) (input : AssignInput) (db : Db N) (i : Incident) (db' : Db N)
      → assign uuid_text now input db ≡ ok (success i, db')
      → (existing : Incident) × (find_first
            (is_incident input.organization_id input.incident_id)
            db.incidents
          ≡ some existing)
        × ((existing.version == input.version) ≡ true)
        × (db'.incidents
            ≡ update_where
                (is_at input.organization_id input.incident_id input.version)
                (set_assignee now input)
                db.incidents)
  unfolding assign add_timeline add_audit create_notification
  assignment_found now input db i db' h =
      elim (Option-cases
        (find_first (is_incident input.organization_id input.incident_id) db.incidents)) [
          | inl missing ↦ absurd (ground arith)
          | inr (existing, found) ↦ ground arith
        ]

  raised :
      (now : ℕ) (w : Write) (db : Db N) (i : Incident) (db' : Db N)
      → perform now w db ≡ ok (success i, db')
      → Raised w db'
  raised now (transitioning input) db i db' done =
      elim (transition_effect uuid_text now input db (success i) db' done) [
        | inl (inl refused, _) ↦ absurd (cc)
        | inl (inr refused, _) ↦ absurd (cc)
        | inr (a, _) ↦ applied-Raised now input db db' a
      ]
  raised now (analysing input) db i db' done =
      let (existing, found, at, applied) = analysis_found now input db i db' done in
      let mine =
        hit_of (is_incident input.organization_id input.incident_id) db.incidents existing found in
      raised_of input.organization_id input.incident_id input.version
        (is_at input.organization_id input.incident_id input.version) _ db.incidents db'.incidents
        existing (set_analysis-Bumps now input) found (==→eq existing.version input.version at)
        (ground (arith, mine, at)) (analysis_written now input existing db i db' applied)
  raised now (assigning input) db i db' done =
      let (existing, found, at, rows) = assignment_found now input db i db' done in
      let mine =
        hit_of (is_incident input.organization_id input.incident_id) db.incidents existing found in
      raised_of input.organization_id input.incident_id input.version
        (is_at input.organization_id input.incident_id input.version) _ db.incidents db'.incidents
        existing (set_assignee-Bumps now input) found (==→eq existing.version input.version at)
        (ground (arith, mine, at)) rows

  -- A write that is refused and changes nothing.
  abbrev pub IsRefused : ℕ → Write → Db N → Type 0
  IsRefused now w db =
      (perform now w db ≡ ok (conflict, db)) ⊎ (perform now w db ≡ ok (not_found, db))

  refused :
      (now : ℕ) (w : Write) (db : Db N)
      → ((j : Incident)
          → find_first (is_incident (target w).0 (target w).1) db.incidents ≡ some j
          → (j.version == version_of w) ≡ false)
      → IsRefused now w db
  unfolding transition update_analysis assign
  refused now (transitioning input) db newer =
      elim (Option-cases
        (find_first (is_incident input.organization_id input.incident_id) db.incidents)) [
          | inl missing ↦ inr (rw (missing, transition))
          | inr (j, found) ↦ inl (rw (found, transition) (rw (newer j found)))
        ]
  refused now (analysing input) db newer =
      elim (Option-cases
        (find_first (is_incident input.organization_id input.incident_id) db.incidents)) [
          | inl missing ↦ inr (rw (missing, update_analysis))
          | inr (j, found) ↦ inl (rw (found, update_analysis) (rw (newer j found)))
        ]
  refused now (assigning input) db newer =
      elim (Option-cases
        (find_first (is_incident input.organization_id input.incident_id) db.incidents)) [
          | inl missing ↦ ground arith
          | inr (j, found) ↦ (let stale = newer j found in ground arith)
        ]

  -- Of the writes that name one version of an incident, at most one is done: once a transition, a
  -- change of the analysis or an assignment is done, then after any further history each write of the
  -- three kinds that names the same incident and version is refused, as a conflict or as not found,
  -- and changes nothing. The rows that the first write leaves must be well formed, and in the history
  -- clients send with a transition a version that they can have seen.
  pub write_once :
      (now : ℕ) (first : Write) (i : Incident) (db db' later_db : Db N)
      → perform now first db ≡ ok (success i, db')
      → IsSound db'.incidents
      → Steps uuid_text db' later_db
      → (later : ℕ) (again : Write) → target again ≡ target first
      → version_of again ≡ version_of first
      → IsRefused later again later_db
  write_once now first i db db' later_db done sound steps later again same at =
      let (j, found, newer) = raised now first db i db' done in
      let ahead =
        Later-Ahead (target first).0 (target first).1 j db'.incidents later_db.incidents sound found
          (Steps-Ahead uuid_text steps) in
      refused later again later_db (λ k there.
        let there' : find_first (is_incident (target first).0 (target first).1) later_db.incidents
            ≡ some k =
          subst (λ (t : ℕ × ℕ). find_first (is_incident t.0 t.1) later_db.incidents ≡ some k) same
            there in
        let (both, mine) =
          find_first-All _ (is_incident (target first).0 (target first).1) later_db.incidents ahead
            there' in
        let risen : j.version ≤ k.version = (both mine).0 in ground (arith, risen, newer, at))
