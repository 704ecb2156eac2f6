-- ===== src/Authorization.antt =====
-- Roles, permissions and the guards that apply them
-- (packages/domain/src/identity/authorization-policy.ts and
-- apps/api/src/identity/presentation/guards/authorization.guards.ts).
pub mod Laws
use sentriqora.Base.{
  ℕ, Bool, true, false, not, Option, none, some, List, [], ◌∷◌, String, Result, ok, err, ◌==◌, ◌||◌,
  any, every, map, str_eq, if◌then◌else◌,
}

-- `PermissionKey`
pub data Permission : Type 0 where
  organization_read organization_manage member_read member_invite member_manage role_read
        role_manage session_read session_revoke mfa_manage asset_read asset_manage connector_read
        connector_manage connector_secret_rotate api_key_read api_key_manage event_read
        detection_rule_read detection_rule_manage alert_read alert_triage incident_read
        incident_manage incident_evidence sla_policy_manage notification_read knowledge_read
        knowledge_manage ai_recommendation_request :
      Permission

abbrev pub permission_name : Permission → String
permission_name organization_read = "organization.read"
permission_name organization_manage = "organization.manage"
permission_name member_read = "member.read"
permission_name member_invite = "member.invite"
permission_name member_manage = "member.manage"
permission_name role_read = "role.read"
permission_name role_manage = "role.manage"
permission_name session_read = "session.read"
permission_name session_revoke = "session.revoke"
permission_name mfa_manage = "mfa.manage"
permission_name asset_read = "asset.read"
permission_name asset_manage = "asset.manage"
permission_name connector_read = "connector.read"
permission_name connector_manage = "connector.manage"
permission_name connector_secret_rotate = "connector.secret.rotate"
permission_name api_key_read = "api-key.read"
permission_name api_key_manage = "api-key.manage"
permission_name event_read = "event.read"
permission_name detection_rule_read = "detection-rule.read"
permission_name detection_rule_manage = "detection-rule.manage"
permission_name alert_read = "alert.read"
permission_name alert_triage = "alert.triage"
permission_name incident_read = "incident.read"
permission_name incident_manage = "incident.manage"
permission_name incident_evidence = "incident.evidence"
permission_name sla_policy_manage = "sla-policy.manage"
permission_name notification_read = "notification.read"
permission_name knowledge_read = "knowledge.read"
permission_name knowledge_manage = "knowledge.manage"
permission_name ai_recommendation_request = "ai-recommendation.request"

-- `PERMISSION_KEYS`
abbrev pub permission_keys : List Permission
permission_keys =
    organization_read ∷ organization_manage ∷ member_read ∷ member_invite ∷ member_manage
    ∷ role_read ∷ role_manage ∷ session_read ∷ session_revoke ∷ mfa_manage ∷ asset_read
    ∷ asset_manage ∷ connector_read ∷ connector_manage ∷ connector_secret_rotate ∷ api_key_read
    ∷ api_key_manage ∷ event_read ∷ detection_rule_read ∷ detection_rule_manage ∷ alert_read
    ∷ alert_triage ∷ incident_read ∷ incident_manage ∷ incident_evidence ∷ sla_policy_manage
    ∷ notification_read ∷ knowledge_read ∷ knowledge_manage ∷ ai_recommendation_request ∷ []

pub data Role : Type 0 where
  owner admin analyst viewer : Role

-- `SYSTEM_ROLE_PERMISSIONS`
abbrev pub system_role_permissions : Role → List Permission
system_role_permissions owner = permission_keys
system_role_permissions admin =
    organization_read ∷ organization_manage ∷ member_read ∷ member_invite ∷ member_manage
    ∷ role_read ∷ role_manage ∷ session_read ∷ session_revoke ∷ mfa_manage ∷ asset_read
    ∷ asset_manage ∷ connector_read ∷ connector_manage ∷ connector_secret_rotate ∷ api_key_read
    ∷ api_key_manage ∷ event_read ∷ detection_rule_read ∷ detection_rule_manage ∷ alert_read
    ∷ alert_triage ∷ incident_read ∷ incident_manage ∷ incident_evidence ∷ sla_policy_manage
    ∷ notification_read ∷ knowledge_read ∷ knowledge_manage ∷ ai_recommendation_request ∷ []
system_role_permissions analyst =
    organization_read ∷ member_read ∷ role_read ∷ session_read ∷ session_revoke ∷ mfa_manage
    ∷ asset_read ∷ asset_manage ∷ connector_read ∷ event_read ∷ detection_rule_read
    ∷ detection_rule_manage ∷ alert_read ∷ alert_triage ∷ incident_read ∷ incident_manage
    ∷ incident_evidence ∷ notification_read ∷ knowledge_read ∷ knowledge_manage
    ∷ ai_recommendation_request ∷ []
system_role_permissions viewer =
    organization_read ∷ member_read ∷ role_read ∷ session_read ∷ session_revoke ∷ mfa_manage
    ∷ asset_read ∷ connector_read ∷ event_read ∷ detection_rule_read ∷ alert_read ∷ incident_read
    ∷ notification_read ∷ knowledge_read ∷ ai_recommendation_request ∷ []

pub record Principal : Type 0 where
  pub organization_id : ℕ
  pub permissions : List String
  pub mfa_verified : Bool

-- `canAccessOrganization`
unfoldable pub can_access_organization : Principal → ℕ → Bool
can_access_organization principal organization = principal.organization_id == organization

-- `hasEveryPermission`
unfoldable pub has_every_permission : Principal → List Permission → Bool
has_every_permission principal required =
    every (λ k. any (λ granted. str_eq granted (permission_name k)) principal.permissions) required

-- What the guards read of a request: the permissions that the handler and its class ask for, the
-- organization in its path, and who is authenticated.
pub record Request : Type 0 where
  pub handler_permissions : Option (List Permission)
  pub class_permissions : Option (List Permission)
  pub organization_id : Option ℕ
  pub principal : Option Principal

pub data Refusal : Type 0 where
  forbidden : Refusal

-- `getAllAndOverride`: the handler's, or else the class's
abbrev pub required_permissions :
    Option (List Permission) → Option (List Permission) → List Permission
required_permissions (some required) _ = required
required_permissions none (some required) = required
required_permissions none none = []

abbrev pub is_permitted : Option Principal → List Permission → Bool
is_permitted none required = false
is_permitted (some principal) required = has_every_permission principal required

unfoldable pub check_permissions : Option Principal → List Permission → Result Refusal Bool
check_permissions principal [] = ok true
check_permissions principal (k ∷ ks) =
    if is_permitted principal (k ∷ ks) then ok true else err forbidden

-- `PermissionsGuard.canActivate`
unfoldable pub permissions_guard : Request → Result Refusal Bool
permissions_guard request =
    check_permissions request.principal
      (required_permissions request.handler_permissions request.class_permissions)

abbrev is_member : Option Principal → ℕ → Bool
is_member none organization = false
is_member (some principal) organization = can_access_organization principal organization

-- `TenantGuard.canActivate`
unfoldable pub tenant_guard : Request → Result Refusal Bool
tenant_guard request = elim request.organization_id [
  | none ↦ ok true
  | some organization ↦ if is_member request.principal organization then ok true else err forbidden
]

abbrev is_verified : Option Principal → Bool
is_verified none = false
is_verified (some principal) = principal.mfa_verified

-- `MfaVerifiedGuard.canActivate`
unfoldable pub mfa_verified_guard : Request → Result Refusal Bool
mfa_verified_guard request = if is_verified request.principal then ok true else err forbidden
