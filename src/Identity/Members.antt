-- ===== src/Identity/Members.antt =====
-- Organizations, members, invitations and roles: `register`, `createOrganization`,
-- `createInvitation`, `acceptInvitation`, `createRole`, `replaceMembershipRoles`, `createSystemRoles`,
-- `createDefaultSlaPolicies` and the lists of
-- apps/api/src/identity/infrastructure/prisma/prisma-identity.repository.ts.
pub mod Invitations
pub mod Roles
pub mod Laws
pub mod Ownership
pub mod Replacing
use sentriqora.Base.{
  ℕ, suc, Bool, true, false, not, Option, none, some, List, [], ◌∷◌, ◌++◌, String, Text, units,
  Result, ok, err, ◌>>=◌, transaction, ◌==◌, ◌&&◌, ◌||◌, any, map, ltb, length, text_eq, str_eq,
  find_first, update_where, count_where, if◌then◌else◌,
}
use sentriqora.Severity.{Severity, info, low, medium, high, critical}
use sentriqora.Authorization.{
  permission_name, owner, admin, analyst, viewer, system_role_permissions,
}
use sentriqora.Authorization as Authorization
use sentriqora.Identity.Store.{
  User, active, Credential, Organization, Membership, MembershipStatus, enrolled, Role, Permission,
  RolePermission, MembershipRole, Invitation, InvitationStatus, pending, accepted, SlaPolicy,
  Accounts, Failure, unique_constraint, missing_permission, EventRecord, is_active_member,
  is_pending, is_user, is_membership, keys_of_role, sort_unique, record_event,
}

-- `SYSTEM_ROLE_DETAILS`: the description and the name
role_details : Authorization.Role → String × String
role_details owner = ("Full control of the organization.", "Owner")
role_details admin = ("Administration without ownership transfer.", "Administrator")
role_details analyst = ("Security operations and investigation access.", "Analyst")
role_details viewer = ("Read-only organizational access.", "Viewer")

role_key : Authorization.Role → String
role_key owner = "owner"
role_key admin = "admin"
role_key analyst = "analyst"
role_key viewer = "viewer"

-- `DEFAULT_SLA_POLICIES`
default_sla_policies : (organization : ℕ) → List SlaPolicy
default_sla_policies organization =
    policy critical "Critical response" 5 60 10
    ∷ policy high "High response" 15 240 30
    ∷ policy medium "Medium response" 30 720 60
    ∷ policy low "Low response" 120 1_440 240
    ∷ policy info "Informational response" 240 2_880 480
    ∷ []
  where
    policy : Severity → String → ℕ → ℕ → ℕ → SlaPolicy
    policy severity name response_minutes resolution_minutes escalation_minutes = record {
      organization_id = organization;
      severity = severity;
      name = name;
      response_minutes = response_minutes;
      resolution_minutes = resolution_minutes;
      escalation_minutes = escalation_minutes;
    }

-- `createDefaultSlaPolicies`
unfoldable pub create_default_sla_policies : (organization : ℕ) → Accounts → Accounts
unfolding default_sla_policies
create_default_sla_policies organization s = record s {
  sla_policies = s.sla_policies ++ default_sla_policies organization;
}

-- INSERT INTO organizations, users, memberships, roles, with their unique keys
unfoldable pub insert_organization : Organization → Accounts → Result Failure Accounts
insert_organization o s =
    if any (λ p. p.id == o.id || text_eq p.slug o.slug) s.organizations
    then err unique_constraint
    else ok (record s { organizations = s.organizations ++ o ∷ [] })

unfoldable pub insert_user : User → (password_hash : ℕ) → Accounts → Result Failure Accounts
insert_user u password_hash s =
    if any (λ v. v.id == u.id || text_eq v.normalized_email u.normalized_email) s.users
    then err unique_constraint
    else ok (record s {
      users = s.users ++ u ∷ [];
      credentials =
          s.credentials
          ++ record {
            user_id = u.id;
            password_hash = password_hash;
            failed_attempts = 0;
            locked_until = none;
          }
            ∷ [];
    })

unfoldable pub insert_membership :
    (organization user : ℕ) → Accounts → Result Failure (ℕ × Accounts)
insert_membership organization user s =
    if any (is_membership organization user) s.memberships
    then err unique_constraint
    else ok (
      s.next_id,
      record s {
        memberships =
            s.memberships
            ++ record {
              id = s.next_id;
              organization_id = organization;
              user_id = user;
              status = enrolled;
            }
              ∷ [];
        next_id = suc s.next_id;
      },
    )

unfoldable pub insert_role :
    (organization : ℕ)
    → (key : String) → (name description : Text) → Bool
    → Accounts
    → Result Failure (Role × Accounts)
insert_role organization key name description is_system s =
    if any (λ r. r.organization_id == organization && str_eq r.key key) s.roles
    then err unique_constraint
    else (let r : Role = record {
      id = s.next_id;
      organization_id = organization;
      key = key;
      name = name;
      description = description;
      is_system = is_system;
    } in
        ok (r, record s { roles = s.roles ++ r ∷ []; next_id = suc s.next_id }))

abbrev pub has_key : String → Permission → Bool
has_key key p = str_eq p.key key

unfoldable pub grant : (organization role : ℕ) → Permission → Accounts → Accounts
grant organization role p s = record s {
  role_permissions =
      s.role_permissions
      ++ record { organization_id = organization; role_id = role; permission_id = p.id } ∷ [];
}

abbrev pub or_missing_permission : Option Permission → Result Failure Permission
or_missing_permission none = err missing_permission
or_missing_permission (some p) = ok p

-- `permissionIds.get` for each permission of a system role
unfoldable pub grant_all :
    (organization role : ℕ) → List Authorization.Permission → Accounts → Result Failure Accounts
grant_all organization role [] s = ok s
grant_all organization role (k ∷ ks) s =
    or_missing_permission (find_first (has_key (permission_name k)) s.permissions) >>= λ p.
    grant_all organization role ks (grant organization role p s)

-- One round of the loop of `createSystemRoles`.
unfoldable pub create_system_role :
    (organization : ℕ) → Authorization.Role → Accounts → Result Failure (ℕ × Accounts)
unfolding role_details role_key grant_all
create_system_role organization role s = do
  (r, s₁) ←
      insert_role organization (role_key role) (units (role_details role).1)
        (units (role_details role).0) true s
  s₂ ← grant_all organization r.id (system_role_permissions role) s₁
  ok (r.id, s₂)

-- `createSystemRoles`: the id of the owner's role
unfoldable pub create_system_roles : (organization : ℕ) → Accounts → Result Failure (ℕ × Accounts)
unfolding create_system_role
create_system_roles organization s = do
  (owner_role, s₁) ← create_system_role organization owner s
  (_, s₂) ← create_system_role organization admin s₁
  (_, s₃) ← create_system_role organization analyst s₂
  (_, s₄) ← create_system_role organization viewer s₃
  ok (owner_role, s₄)

unfoldable pub add_role : (organization membership role : ℕ) → Accounts → Accounts
add_role organization membership role s = record s {
  membership_roles =
      s.membership_roles
      ++ record { organization_id = organization; membership_id = membership; role_id = role } ∷ [];
}

-- What `register` and `createOrganization` share: the organization's roles and its first member.
unfoldable pub create_owner : (organization user : ℕ) → Accounts → Result Failure Accounts
create_owner organization user s = do
  (owner_role, s₁) ← create_system_roles organization s
  (membership, s₂) ← insert_membership organization user s₁
  ok (add_role organization membership owner_role s₂)

abbrev pub success :
    (organization actor : ℕ) (action target_type : String) (target : ℕ) → EventRecord
success organization actor action target_type target = record {
  organization_id = organization;
  actor_user_id = actor;
  action = action;
  outcome = "success";
  target_type = target_type;
  target_id = target;
}

-- `RegistrationResult`: the identity is the data of its two rows
pub data Registration : Type 0 where
  email_conflict slug_conflict : Registration
  registered : Organization → User → Registration

unfoldable pub register_body :
    Organization → User → (password_hash : ℕ) → Accounts → Result Failure (Registration × Accounts)
register_body o u password_hash s =
    if any (λ v. text_eq v.normalized_email u.normalized_email) s.users
    then ok (email_conflict, s)
    else do
      s₁ ← insert_organization o s
      s₂ ← insert_user u password_hash (create_default_sla_policies o.id s₁)
      s₃ ← create_owner o.id u.id s₂
      ok (registered o u, record_event (success o.id u.id "identity.registered" "user" u.id) s₃)

abbrev pub or_conflict {ℓ} :
    {A : Type ℓ} → A → Result Failure A × Accounts → Result Failure A × Accounts
or_conflict conflict (ok a, s) = (ok a, s)
or_conflict conflict (err unique_constraint, s) = (ok conflict, s)
or_conflict conflict (err e, s) = (err e, s)

-- `register`
unfoldable pub register :
    Organization → User → (password_hash : ℕ) → Accounts → Result Failure Registration × Accounts
unfolding register_body
register o u password_hash s =
    or_conflict slug_conflict (transaction (register_body o u password_hash) s)

create_organization_body :
    Organization
    → (user : ℕ) → Accounts
    → Result Failure (Option (Organization × List String) × Accounts)
create_organization_body o user s = do
  s₁ ← insert_organization o s
  s₂ ← create_owner o.id user (create_default_sla_policies o.id s₁)
  ok (
    some (o, "owner" ∷ []),
    record_event (success o.id user "organization.created" "organization" o.id) s₂,
  )

-- `createOrganization`: the organization and the roles in it of its owner
unfoldable pub create_organization :
    Organization
    → (user : ℕ) → Accounts
    → Result Failure (Option (Organization × List String)) × Accounts
unfolding create_organization_body
create_organization o user s = or_conflict none (transaction (create_organization_body o user) s)
