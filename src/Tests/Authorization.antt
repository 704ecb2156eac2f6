-- ===== src/Tests/Authorization.antt =====
-- An analyst's request to transition an incident.
use sentriqora.Base.{◌≡◌, ◌↔◌, refl, true, none, some, [], ◌∷◌, ok}
use sentriqora.Authorization.{
  incident_manage, incident_read, viewer, analyst, owner, Principal, Request, has_every_permission,
  permissions_guard, tenant_guard, mfa_verified_guard, can_access_organization, check_permissions,
}
use sentriqora.Authorization.Laws.{
  IsAdmitted, principal_of, viewer_analyst, analyst_admin, admin_owner, through, roles_nested,
  guards_iff,
}

abbrev request : Request
request = record {
  handler_permissions = some (incident_manage ∷ []);
  class_permissions = none;
  organization_id = some 1;
  principal = some (principal_of 1 analyst);
}

reads : has_every_permission (principal_of 1 viewer) (incident_read ∷ []) ≡ true
unfolding has_every_permission
reads = refl

roles_nested_example : has_every_permission (principal_of 1 owner) (incident_read ∷ []) ≡ true
roles_nested_example =
    roles_nested (through viewer_analyst (through analyst_admin admin_owner)) 1 (incident_read ∷ [])
      reads

guards_iff_example :
    ((tenant_guard request ≡ ok true)
      × (permissions_guard request ≡ ok true)
      × (mfa_verified_guard request ≡ ok true))
    ↔ (p : Principal) × IsAdmitted request p
guards_iff_example = guards_iff request

-- The request passes.
passes :
    (tenant_guard request ≡ ok true)
    × (permissions_guard request ≡ ok true)
    × (mfa_verified_guard request ≡ ok true)
unfolding tenant_guard permissions_guard mfa_verified_guard has_every_permission
    can_access_organization check_permissions
passes = (refl, refl, refl)
