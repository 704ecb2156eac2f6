-- ===== src/Incidents/Repository.antt =====
-- `transition`, `updateAnalysis` and `assign` of
-- apps/api/src/incidents/infrastructure/prisma-incident.repository.ts. Each runs in one
-- transaction: an error that it throws undoes what it wrote. A summary is the row itself: the
-- names that it joins, and the flags that it computes from the row, are left out.
pub mod Effects
use sentriqora.Base.{
  ℕ, ◌+◌, Bool, true, false, Option, none, some, List, [], ◌∷◌, ◌++◌, String, Text, units, Result,
  ok, err, ◌>>=◌, ensure, ◌==◌, find_first, update_where, count_where, ◌&&◌, ◌||◌, not,
  if◌then◌else◌,
}
use sentriqora.Incidents.Policy.{
  Status, opened, triaged, investigating, contained, resolved, closed, is_status,
}
use sentriqora.Incidents.Store.{
  Incident, Membership, active, TimelineEntry, status_changed, analysis_updated, assigned, internal,
  email, NotificationKey, Db, is_incident, passes_checks, add_timeline, add_audit,
  create_notification, Channel,
}

-- What a repository method can throw.
pub data Failure : Type 0 where
  check_violated incident_not_found : Failure

pub data MutationResult {ℓ} (A : Type ℓ) : Type ℓ where
  success : A → MutationResult A
  not_found conflict : MutationResult A

pub record TransitionInput : Type 0 where
  pub current_status : Status
  pub incident_id : ℕ
  pub organization_id : ℕ
  pub reason : Text
  pub status : Status
  pub user_id : ℕ
  pub version : ℕ
  pub lessons_learned : Option Text
  pub root_cause : Option Text

abbrev pub status_name : Status → String
status_name opened = "OPEN"
status_name triaged = "TRIAGED"
status_name investigating = "INVESTIGATING"
status_name contained = "CONTAINED"
status_name resolved = "RESOLVED"
status_name closed = "CLOSED"

-- `...(value === undefined ? {} : { column: value })` on a column that may be NULL
abbrev pub if_given : Option Text → Option Text → Option Text
if_given none old = old
if_given (some value) old = some value

-- `value ?? now`
abbrev pub or_now : Option ℕ → ℕ → Option ℕ
or_now none now = some now
or_now (some t) now = some t

abbrev pub is_reopening : Status → Status → Bool
is_reopening current target =
    is_status target investigating && (is_status current resolved || is_status current closed)

-- The columns of times after an update; `read` is what was read before it.
abbrev pub next_responded : Status → ℕ → (read old : Option ℕ) → Option ℕ
next_responded target now none old = if is_status target opened then old else some now
next_responded target now (some _) old = old

abbrev pub next_resolved : Status → Status → ℕ → (read old : Option ℕ) → Option ℕ
next_resolved current target now read old =
    if is_reopening current target
    then none
    else if is_status target closed
    then or_now read now
    else if is_status target resolved
    then some now
    else old

abbrev pub next_closed : Status → Status → ℕ → (old : Option ℕ) → Option ℕ
next_closed current target now old =
    if is_reopening current target then none else if is_status target closed then some now else old

-- The `data` of the update in `transition`: later spreads win.
unfoldable pub set_status : ℕ → TransitionInput → Incident → Incident → Incident
set_status now input existing i = record i {
  status = input.status;
  version = i.version + 1;
  lessons_learned = if_given input.lessons_learned i.lessons_learned;
  root_cause = if_given input.root_cause i.root_cause;
  first_responded_at =
      next_responded input.status now existing.first_responded_at i.first_responded_at;
  contained_at = if is_status input.status contained then some now else i.contained_at;
  resolved_at =
      next_resolved input.current_status input.status now existing.resolved_at i.resolved_at;
  closed_at = next_closed input.current_status input.status now i.closed_at;
  updated_at = now;
}

abbrev pub Outcome : Type 0 → Type 0
Outcome N = Result Failure (MutationResult Incident × Db N)

-- The WHERE clause of the update: the row must still be as it was read.
abbrev pub is_unchanged : TransitionInput → Incident → Bool
is_unchanged input i =
    is_incident input.organization_id input.incident_id i
    && is_status i.status input.current_status
    && i.version == input.version

module _ {N : Type 0} where
  -- `findSummaryOrThrow`
  unfoldable pub find_summary : ℕ → ℕ → Db N → Result Failure Incident
  find_summary organization id db = elim (find_first (is_incident organization id) db.incidents) [
    | some i ↦ ok i
    | none ↦ err incident_not_found
  ]

module _ {N : Type 0} (uuid_text : ℕ → Text) where
  -- The timeline entry, the notification and the audit record of a transition.
  unfoldable pub record_transition : ℕ → TransitionInput → Incident → Db N → Outcome N
  unfolding find_summary
  record_transition now input existing db = do
    let noted =
        add_timeline
          (record {
            organization_id = input.organization_id;
            incident_id = input.incident_id;
            actor_user_id = some input.user_id;
            type = status_changed;
            title = units "Status changed to " ++ units (status_name input.status);
            detail = input.reason;
            from_status = some input.current_status;
            to_status = some input.status;
            idempotency_key = none;
          })
          db
    summary ← find_summary input.organization_id input.incident_id noted
    let told =
        create_notification uuid_text now input.organization_id (units "Incident status changed")
          (record {
            type = "INCIDENT_STATUS_CHANGED";
            incident_id = input.incident_id;
            recipient_membership_id = existing.assigned_membership_id;
            channel = internal;
            body =
                summary.key
                ++ (units " changed from "
                    ++ (units (status_name input.current_status)
                        ++ (units " to " ++ (units (status_name input.status) ++ units "."))));
          })
          noted
    ok (
      success summary,
      add_audit
          (record {
            organization_id = input.organization_id;
            actor_user_id = some input.user_id;
            action = "incident.transitioned";
            target_id = input.incident_id;
          })
          told,
    )

  unfoldable pub apply_transition : ℕ → TransitionInput → Incident → Db N → Outcome N
  unfolding record_transition
  apply_transition now input existing db =
      if not (count_where (is_unchanged input) db.incidents == 1)
      then ok (conflict, db)
      else if not (passes_checks (set_status now input existing existing))
      then err check_violated
      else record_transition now input existing (record db {
        incidents = update_where (is_unchanged input) (set_status now input existing) db.incidents;
      })

  -- `transition`
  unfoldable pub transition : ℕ → TransitionInput → Db N → Outcome N
  unfolding apply_transition
  transition now input db =
      elim (find_first (is_incident input.organization_id input.incident_id) db.incidents) [
        | none ↦ ok (not_found, db)
        | some existing ↦
            (if not (existing.version == input.version)
                || not (is_status existing.status input.current_status)
              then ok (conflict, db)
              else apply_transition now input existing db)
      ]
