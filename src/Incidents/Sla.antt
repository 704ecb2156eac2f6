-- ===== src/Incidents/Sla.antt =====
-- `evaluateSla` of apps/worker/src/incident.processor.ts. The whole handler runs in one transaction
-- and holds an advisory lock on the incident and the kind. The times that JavaScript and
-- PostgreSQL read in it are one.
use sentriqora.Base.{
  ℕ, ◌+◌, Bool, true, false, Option, none, some, ◌++◌, Text, units, String, find_first,
  update_where, count_where, ◌&&◌, not, ◌==◌, if◌then◌else◌,
}
use sentriqora.Outbox.Jobs.{SlaKind, response, resolution}
use sentriqora.Outbox.Producers.{kind_name}
use sentriqora.Incidents.Policy.{is_breached}
use sentriqora.Incidents.Store.{
  Incident, sla_breached, sla_key, internal, Db, is_incident, add_timeline_once, add_audit,
  create_notification,
}

abbrev pub is_none : Option ℕ → Bool
is_none none = true
is_none (some _) = false

-- the column that a kind of breach is recorded in
abbrev pub breached_at : SlaKind → Incident → Option ℕ
breached_at response i = i.response_breached_at
breached_at resolution i = i.resolution_breached_at

abbrev pub due_at : SlaKind → Incident → ℕ
due_at response i = i.response_due_at
due_at resolution i = i.resolution_due_at

abbrev pub done_at : SlaKind → Incident → Option ℕ
done_at response i = i.first_responded_at
done_at resolution i = i.resolved_at

-- `responseBreach` and `resolutionBreach`
unfoldable pub is_new_breach : SlaKind → ℕ → Incident → Bool
unfolding is_breached
is_new_breach response now i =
    is_none i.response_breached_at && is_breached now i.response_due_at i.first_responded_at
is_new_breach resolution now i =
    is_none i.resolution_breached_at && is_breached now i.resolution_due_at i.resolved_at

unfoldable pub set_breached : SlaKind → ℕ → Incident → Incident
set_breached response now i = record i {
  response_breached_at = some now;
  version = i.version + 1;
  updated_at = now;
}
set_breached resolution now i = record i {
  resolution_breached_at = some now;
  version = i.version + 1;
  updated_at = now;
}

abbrev pub kind_word : SlaKind → String
kind_word response = "response"
kind_word resolution = "resolution"

-- UPDATE … WHERE organization_id = … AND id = … AND column IS NULL
abbrev pub is_unbreached : ℕ → ℕ → SlaKind → Incident → Bool
is_unbreached organization id kind i = is_incident organization id i && is_none (breached_at kind i)

module _ {N : Type 0} (uuid_text : ℕ → Text) where
  unfoldable pub record_breach : ℕ → ℕ → SlaKind → Incident → Db N → Db N
  record_breach now organization kind incident db =
      add_audit
        (record {
          organization_id = organization;
          actor_user_id = none;
          action = "incident.sla_breached";
          target_id = incident.id;
        })
        (create_notification uuid_text now organization
          (units (kind_name kind) ++ units " SLA breached")
          (record {
            type = "INCIDENT_SLA_BREACHED";
            incident_id = incident.id;
            recipient_membership_id = incident.assigned_membership_id;
            channel = internal;
            body =
                incident.key ++ (units ": " ++ (units (kind_word kind) ++ units " SLA breached."));
          })
          (add_timeline_once (sla_key incident.id kind)
            (record {
              organization_id = organization;
              incident_id = incident.id;
              actor_user_id = none;
              type = sla_breached;
              title = units (kind_name kind) ++ units " SLA breached";
              detail =
                  units "The "
                  ++ (units (kind_word kind)
                      ++ units " target was not completed before its deadline.");
              from_status = none;
              to_status = none;
              idempotency_key = none;
            })
            db))

  unfoldable pub breach : ℕ → ℕ → SlaKind → Incident → Db N → Bool × Db N
  breach now organization kind incident db =
      let matches = is_unbreached organization incident.id kind in
      if not (count_where matches db.incidents == 1) then (false, db) else (
        true,
        record_breach now organization kind incident
            (record db { incidents = update_where matches (set_breached kind now) db.incidents }),
      )

  -- `evaluateSla`; the flag is `breached`
  unfoldable pub evaluate_sla : ℕ → ℕ → ℕ → SlaKind → Db N → Bool × Db N
  unfolding breach
  evaluate_sla now organization id kind db =
      elim (find_first (is_incident organization id) db.incidents) [
        | none ↦ (false, db)
        | some incident ↦
            (if is_new_breach kind now incident
              then breach now organization kind incident db
              else (false, db))
      ]
