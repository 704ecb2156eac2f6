-- ===== src/Incidents/Mutations.antt =====
-- `updateAnalysis` and `assign` of
-- apps/api/src/incidents/infrastructure/prisma-incident.repository.ts.
use sentriqora.Base.{
  ℕ, ◌+◌, Bool, true, false, Option, none, some, ◌++◌, Text, units, Result, ok, err, ◌>>=◌, ◌==◌,
  find_first, update_where, count_where, ◌&&◌, not, if◌then◌else◌,
}
use sentriqora.Incidents.Store.{
  Incident, Membership, active, inactive, MembershipStatus, analysis_updated, assigned, internal,
  email, Channel, Db, is_incident, passes_checks, add_timeline, add_audit, create_notification,
  is_solved, is_closed,
}
use sentriqora.Incidents.Repository.{
  Failure, check_violated, success, not_found, conflict, Outcome, find_summary,
}

-- A property of a parsed request that may be left out, or be `null`.
pub data Change : Type 0 where
  left_out clear : Change
  to : Text → Change

pub record AnalysisInput : Type 0 where
  pub incident_id : ℕ
  pub organization_id : ℕ
  pub user_id : ℕ
  pub version : ℕ
  pub lessons_learned : Change
  pub root_cause : Change

abbrev pub is_clear : Change → Bool
is_clear clear = true
is_clear _ = false

abbrev pub changed : Change → Option Text → Option Text
changed left_out old = old
changed clear old = none
changed (to text) old = some text

unfoldable pub set_analysis : ℕ → AnalysisInput → Incident → Incident
set_analysis now input i = record i {
  version = i.version + 1;
  lessons_learned = changed input.lessons_learned i.lessons_learned;
  root_cause = changed input.root_cause i.root_cause;
  updated_at = now;
}

-- WHERE id = … AND organization_id = … AND version = …
abbrev pub is_at : ℕ → ℕ → ℕ → Incident → Bool
is_at organization id version i = is_incident organization id i && i.version == version

pub record AssignInput : Type 0 where
  pub assigned_membership_id : Option ℕ
  pub incident_id : ℕ
  pub organization_id : ℕ
  pub user_id : ℕ
  pub version : ℕ

unfoldable pub set_assignee : ℕ → AssignInput → Incident → Incident
set_assignee now input i = record i {
  assigned_membership_id = input.assigned_membership_id;
  version = i.version + 1;
  updated_at = now;
}

abbrev pub is_active : MembershipStatus → Bool
is_active active = true
is_active inactive = false

abbrev pub is_active_member : ℕ → ℕ → Membership → Bool
is_active_member organization id m =
    m.id == id && m.organization_id == organization && is_active m.status

module _ {N : Type 0} (uuid_text : ℕ → Text) where
  record_analysis : AnalysisInput → Db N → Outcome N
  unfolding find_summary
  record_analysis input db = do
    let audited =
        add_audit
          (record {
            organization_id = input.organization_id;
            actor_user_id = some input.user_id;
            action = "incident.analysis_updated";
            target_id = input.incident_id;
          })
          (add_timeline
            (record {
              organization_id = input.organization_id;
              incident_id = input.incident_id;
              actor_user_id = some input.user_id;
              type = analysis_updated;
              title = units "Incident analysis updated";
              detail = units "Root cause or lessons learned were updated.";
              from_status = none;
              to_status = none;
              idempotency_key = none;
            })
            db)
    summary ← find_summary input.organization_id input.incident_id audited
    ok (success summary, audited)

  unfoldable pub apply_analysis : ℕ → AnalysisInput → Incident → Db N → Outcome N
  unfolding record_analysis
  apply_analysis now input existing db =
      let matches = is_at input.organization_id input.incident_id input.version in
      if not (count_where matches db.incidents == 1)
      then ok (conflict, db)
      else if not (passes_checks (set_analysis now input existing))
      then err check_violated
      else record_analysis input
          (record db { incidents = update_where matches (set_analysis now input) db.incidents })

  -- `updateAnalysis`
  unfoldable pub update_analysis : ℕ → AnalysisInput → Db N → Outcome N
  unfolding apply_analysis
  update_analysis now input db =
      elim (find_first (is_incident input.organization_id input.incident_id) db.incidents) [
        | none ↦ ok (not_found, db)
        | some existing ↦
            (if not (existing.version == input.version)
              then ok (conflict, db)
              else if is_solved existing.status && is_clear input.root_cause
              then ok (conflict, db)
              else if is_closed existing.status && is_clear input.lessons_learned
              then ok (conflict, db)
              else apply_analysis now input existing db)
      ]

  notify_assignee : ℕ → AssignInput → ℕ → Incident → Channel → Db N → Db N
  notify_assignee now input member summary channel =
      create_notification uuid_text now input.organization_id (units "Incident assigned to you")
        (record {
          type = "INCIDENT_ASSIGNED";
          incident_id = input.incident_id;
          recipient_membership_id = some member;
          channel = channel;
          body = summary.key ++ (units ": " ++ summary.title);
        })

  -- Both channels, in the order of the loop.
  tell_assignee : ℕ → AssignInput → Db N → Result Failure (Db N)
  unfolding notify_assignee find_summary
  tell_assignee now input db = elim input.assigned_membership_id [
    | none ↦ ok db
    | some member ↦ (do
      summary ← find_summary input.organization_id input.incident_id db
      ok (
          notify_assignee now input member summary email
            (notify_assignee now input member summary internal db)))
  ]

  record_assignment : ℕ → AssignInput → Db N → Outcome N
  unfolding tell_assignee find_summary
  record_assignment now input db = do
    let noted =
        add_timeline
          (record {
            organization_id = input.organization_id;
            incident_id = input.incident_id;
            actor_user_id = some input.user_id;
            type = assigned;
            title = units "Assignment changed";
            detail = elim input.assigned_membership_id [
              | none ↦ units "Incident assignment removed."
              | some _ ↦ units "Incident assigned to an active responder."
            ];
            from_status = none;
            to_status = none;
            idempotency_key = none;
          })
          db
    told ← tell_assignee now input noted
    let audited =
        add_audit
          (record {
            organization_id = input.organization_id;
            actor_user_id = some input.user_id;
            action = "incident.assigned";
            target_id = input.incident_id;
          })
          told
    summary ← find_summary input.organization_id input.incident_id audited
    ok (success summary, audited)

  apply_assignment : ℕ → AssignInput → Db N → Outcome N
  unfolding record_assignment
  apply_assignment now input db =
      let matches = is_at input.organization_id input.incident_id input.version in
      if not (count_where matches db.incidents == 1)
      then ok (conflict, db)
      else record_assignment now input
          (record db { incidents = update_where matches (set_assignee now input) db.incidents })

  assign_found : ℕ → AssignInput → Db N → Outcome N
  unfolding apply_assignment
  assign_found now input db =
      elim (find_first (is_incident input.organization_id input.incident_id) db.incidents) [
        | none ↦ ok (not_found, db)
        | some existing ↦
            (if not (existing.version == input.version)
              then ok (conflict, db)
              else apply_assignment now input db)
      ]

  -- `assign`
  unfoldable pub assign : ℕ → AssignInput → Db N → Outcome N
  unfolding assign_found
  assign now input db = elim input.assigned_membership_id [
    | none ↦ assign_found now input db
    | some member ↦
        elim (find_first (is_active_member input.organization_id member) db.memberships) [
          | none ↦ ok (not_found, db)
          | some _ ↦ assign_found now input db
        ]
  ]
