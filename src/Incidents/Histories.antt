-- ===== src/Incidents/Histories.antt =====
-- Histories of requests and jobs on the incidents. Each transaction is one step, and a transition
-- is two: others may write between the transaction in which `findIncident` reads the row
-- (apps/api/src/incidents/application/incident.use-cases.ts) and the one in which the repository
-- writes it.
use sentriqora.Base.{ℕ, ◌≤◌, ◌≡◌, some, Text, ok, ok_of_bind, find_first}
use sentriqora.Outbox.Jobs.{SlaKind}
use sentriqora.Incidents.Store.{Incident, Db, is_incident}
use sentriqora.Incidents.Repository.{success}
use sentriqora.Incidents.Invariant.{IsSound}
use sentriqora.Incidents.Sla.{evaluate_sla}
use sentriqora.Incidents.Versions.{
  Ahead, Ahead-same, Ahead-trans, transition-Ahead, update_analysis-Ahead, assign-Ahead,
  evaluate_sla-Ahead, Later-Ahead,
}
use sentriqora.Incidents.UseCases.{
  Principal, TransitionCandidate, AnalysisCandidate, AssignCandidate, plan_transition,
  transition_incident, parse_analysis, update_incident_analysis, assign_incident, assert_tenant,
  assert_mfa, positive, analysis_input, assign_input,
}
use sentriqora.Incidents.UseCases.Safety.{transition_incident-IsSound, unwrap-eq-ok}
use sentriqora.Incidents.UseCases.Writes.{
  update_incident_analysis-IsSound, assign_incident-IsSound, evaluate_sla-IsSound,
}

module _ {N : Type 0} (uuid_text : ℕ → Text) where
  -- What leads from one state of the database to another. The version that a client sends with a
  -- transition is one that it can have seen: no later than that of the row that is read for it.
  pub data Steps : Db N → Db N → Type 0 where
    start : {a : Db N} → Steps a a
    moved :
        {a seen db db' : Db N} {current i : Incident} (now : ℕ) (principal : Principal)
        (organization id : ℕ) (candidate : TransitionCandidate)
        → Steps a seen
        → find_first (is_incident organization id) seen.incidents ≡ some current
        → candidate.version ≤ current.version
        → Steps seen db
        → transition_incident uuid_text now principal organization id candidate seen db
          ≡ ok (i, db')
        → Steps a db'
    analysed :
        {a db db' : Db N} {i : Incident} (now : ℕ) (principal : Principal) (organization id : ℕ)
        (candidate : AnalysisCandidate)
        → Steps a db
        → update_incident_analysis uuid_text now principal organization id candidate db
          ≡ ok (i, db')
        → Steps a db'
    assigned :
        {a db db' : Db N} {i : Incident} (now : ℕ) (principal : Principal) (organization id : ℕ)
        (candidate : AssignCandidate)
        → Steps a db
        → assign_incident uuid_text now principal organization id candidate db ≡ ok (i, db')
        → Steps a db'
    evaluated :
        {a db : Db N} (now organization id : ℕ) (kind : SlaKind)
        → Steps a db
        → Steps a (evaluate_sla uuid_text now organization id kind db).1

  moved-Ahead :
      (now : ℕ) (principal : Principal) (organization id : ℕ) (candidate : TransitionCandidate)
      (seen db db' : Db N) (i : Incident)
      → transition_incident uuid_text now principal organization id candidate seen db ≡ ok (i, db')
      → Ahead db.incidents db'.incidents
  unfolding transition_incident
  moved-Ahead now principal organization id candidate seen db db' i done =
      let (input, _, written) =
        ok_of_bind (plan_transition principal organization id candidate seen) _ done in
      transition-Ahead uuid_text now db db' (success i) input (unwrap-eq-ok _ written)

  analysed-Ahead :
      (now : ℕ) (principal : Principal) (organization id : ℕ) (candidate : AnalysisCandidate)
      (db db' : Db N) (i : Incident)
      → update_incident_analysis uuid_text now principal organization id candidate db ≡ ok (i, db')
      → Ahead db.incidents db'.incidents
  unfolding update_incident_analysis
  analysed-Ahead now principal organization id candidate db db' i done =
      let (_, _, after) = ok_of_bind (assert_tenant principal organization) _ done in
      let (input, _, written) = ok_of_bind (parse_analysis candidate) _ after in
      update_analysis-Ahead uuid_text now db db' (success i)
        (analysis_input principal organization id input) (unwrap-eq-ok _ written)

  assigned-Ahead :
      (now : ℕ) (principal : Principal) (organization id : ℕ) (candidate : AssignCandidate)
      (db db' : Db N) (i : Incident)
      → assign_incident uuid_text now principal organization id candidate db ≡ ok (i, db')
      → Ahead db.incidents db'.incidents
  unfolding assign_incident
  assigned-Ahead now principal organization id candidate db db' i done =
      let (_, _, one) = ok_of_bind (assert_tenant principal organization) _ done in
      let (_, _, two) = ok_of_bind (assert_mfa principal) _ one in
      let (version, _, written) = ok_of_bind (positive candidate.version) _ two in
      assign-Ahead uuid_text now db db' (success i)
        (assign_input principal organization id candidate.assigned_membership_id version)
        (unwrap-eq-ok _ written)

  -- In every history, each row comes from one of before, with its version raised or left alone as a whole.
  pub Steps-Ahead : {a b : Db N} → Steps a b → Ahead a.incidents b.incidents
  Steps-Ahead {a} start = Ahead-same a.incidents
  Steps-Ahead {a} {b}
        (moved {seen = seen} {db} {i = i} now principal organization id candidate before found
          observed between done) =
      Ahead-trans a.incidents db.incidents b.incidents
        (Ahead-trans a.incidents seen.incidents db.incidents (Steps-Ahead before)
          (Steps-Ahead between))
        (moved-Ahead now principal organization id candidate seen db b i done)
  Steps-Ahead {a} {b}
        (analysed {db = db} {i = i} now principal organization id candidate before done) =
      Ahead-trans a.incidents db.incidents b.incidents (Steps-Ahead before)
        (analysed-Ahead now principal organization id candidate db b i done)
  Steps-Ahead {a} {b}
        (assigned {db = db} {i = i} now principal organization id candidate before done) =
      Ahead-trans a.incidents db.incidents b.incidents (Steps-Ahead before)
        (assigned-Ahead now principal organization id candidate db b i done)
  Steps-Ahead {a} (evaluated {db = db} now organization id kind before) =
      Ahead-trans a.incidents db.incidents _ (Steps-Ahead before)
        (evaluate_sla-Ahead uuid_text now organization id kind db)

  -- In every history of transitions, changes of the analysis, assignments and evaluations of
  -- targets, in any order and with writes between the read and the write of a transition, well
  -- formed incidents stay well formed, if clients send versions that they can have seen: a resolved
  -- incident has a root cause of ten characters, a closed one also lessons learned of ten, and the
  -- times of response, resolution and closure are set exactly in the statuses that they belong to.
  pub Steps-IsSound : {a b : Db N} → Steps a b → IsSound a.incidents → IsSound b.incidents
  Steps-IsSound start h = h
  Steps-IsSound {b = b}
        (moved {seen = seen} {db} {current = current} {i} now principal organization id candidate
          before found observed between done)
        h =
      let sound = Steps-IsSound before h in
      transition_incident-IsSound uuid_text now principal organization id candidate seen db current
        (Steps-IsSound between sound) found
        (Later-Ahead organization id current seen.incidents db.incidents sound found
          (Steps-Ahead between))
        observed i b done
  Steps-IsSound {b = b}
        (analysed {db = db} {i = i} now principal organization id candidate before done) h =
      update_incident_analysis-IsSound uuid_text now principal organization id candidate db i b
        (Steps-IsSound before h) done
  Steps-IsSound {b = b}
        (assigned {db = db} {i = i} now principal organization id candidate before done) h =
      assign_incident-IsSound uuid_text now principal organization id candidate db i b
        (Steps-IsSound before h) done
  Steps-IsSound (evaluated {db = db} now organization id kind before) h =
      evaluate_sla-IsSound uuid_text now organization id kind db (Steps-IsSound before h)
