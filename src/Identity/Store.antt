-- ===== src/Identity/Store.antt =====
-- The tables of the identity component (prisma/schema.prisma), as far as
-- apps/api/src/identity/infrastructure/prisma/prisma-identity.repository.ts reads and writes them,
-- and its helpers `principalFor`, `recordEvent`, `permissionKeys` and `isRecentMfa`. UUIDs and hashes
-- are numbers, since they are only compared; new UUIDs come from a counter. Dates are milliseconds.
use sentriqora.Base.{
  ℕ, ◌*◌, ◌-◌, Bool, true, false, Option, none, some, List, [], ◌∷◌, ◌++◌, String, Text, units,
  ◌==◌, ◌&&◌, leb, ltb, find_first, str_eq, if◌then◌else◌,
}
use sentriqora.Severity.{Severity}

-- `UserStatus` and `MembershipStatus`: ACTIVE of a membership is `enrolled`
pub data UserStatus : Type 0 where
  active disabled : UserStatus

pub data MembershipStatus : Type 0 where
  enrolled suspended : MembershipStatus

pub data InvitationStatus : Type 0 where
  pending accepted revoked expired : InvitationStatus

pub record User : Type 0 where
  pub id : ℕ
  pub email : Text
  pub normalized_email : Text
  pub display_name : Text
  pub status : UserStatus

pub record Credential : Type 0 where
  pub user_id : ℕ
  pub password_hash : ℕ
  pub failed_attempts : ℕ
  pub locked_until : Option ℕ

pub record Organization : Type 0 where
  pub id : ℕ
  pub name : Text
  pub slug : Text

pub record Membership : Type 0 where
  pub id : ℕ
  pub organization_id : ℕ
  pub user_id : ℕ
  pub status : MembershipStatus

pub record Role : Type 0 where
  pub id : ℕ
  pub organization_id : ℕ
  pub key : String
  pub name : Text
  pub description : Text
  pub is_system : Bool

pub record Permission : Type 0 where
  pub id : ℕ
  pub key : String

pub record RolePermission : Type 0 where
  pub organization_id : ℕ
  pub role_id : ℕ
  pub permission_id : ℕ

pub record MembershipRole : Type 0 where
  pub organization_id : ℕ
  pub membership_id : ℕ
  pub role_id : ℕ

pub record Invitation : Type 0 where
  pub id : ℕ
  pub organization_id : ℕ
  pub role_id : ℕ
  pub email : Text
  pub normalized_email : Text
  pub token_hash : ℕ
  pub invited_by_user_id : ℕ
  pub accepted_by_user_id : Option ℕ
  pub accepted_at : Option ℕ
  pub expires_at : ℕ
  pub status : InvitationStatus

pub record Session : Type 0 where
  pub id : ℕ
  pub organization_id : ℕ
  pub user_id : ℕ
  pub device_name : Text
  pub user_agent_hash : ℕ
  pub ip_address : Text
  pub mfa_verified_at : Option ℕ
  pub created_at : ℕ
  pub last_seen_at : ℕ
  pub expires_at : ℕ
  pub revoked_at : Option ℕ
  pub revoke_reason : Option String

pub record RefreshToken : Type 0 where
  pub id : ℕ
  pub organization_id : ℕ
  pub session_id : ℕ
  pub family_id : ℕ
  pub token_hash : ℕ
  pub parent_token_id : Option ℕ
  pub expires_at : ℕ
  pub used_at : Option ℕ
  pub revoked_at : Option ℕ

-- `EncryptedValue`
pub record EncryptedValue : Type 0 where
  pub ciphertext : Text
  pub iv : Text
  pub auth_tag : Text

-- A row of `mfa_methods`; the only type of method is TOTP.
pub record MfaMethod : Type 0 where
  pub user_id : ℕ
  pub label : Text
  pub secret : EncryptedValue
  pub verified_at : Option ℕ
  pub last_used_counter : Option ℕ

pub record RecoveryCode : Type 0 where
  pub user_id : ℕ
  pub code_hash : ℕ
  pub used_at : Option ℕ

pub record MfaChallenge : Type 0 where
  pub id : ℕ
  pub organization_id : ℕ
  pub user_id : ℕ
  pub attempts : ℕ
  pub expires_at : ℕ
  pub consumed_at : Option ℕ

-- A row of `sla_policies`
pub record SlaPolicy : Type 0 where
  pub organization_id : ℕ
  pub severity : Severity
  pub name : String
  pub response_minutes : ℕ
  pub resolution_minutes : ℕ
  pub escalation_minutes : ℕ

-- A row of `event_records`, without the request that it came from.
pub record EventRecord : Type 0 where
  pub organization_id : ℕ
  pub actor_user_id : ℕ
  pub action : String
  pub outcome : String
  pub target_type : String
  pub target_id : ℕ

pub record Accounts : Type 0 where
  pub users : List User
  pub credentials : List Credential
  pub organizations : List Organization
  pub memberships : List Membership
  pub roles : List Role
  pub permissions : List Permission
  pub role_permissions : List RolePermission
  pub membership_roles : List MembershipRole
  pub invitations : List Invitation
  pub sessions : List Session
  pub refresh_tokens : List RefreshToken
  pub mfa_methods : List MfaMethod
  pub recovery_codes : List RecoveryCode
  pub mfa_challenges : List MfaChallenge
  pub sla_policies : List SlaPolicy
  pub event_records : List EventRecord
  pub next_id : ℕ

-- What a statement that breaks a unique key of the database throws, and the errors that the
-- repository throws itself.
pub data Failure : Type 0 where
  unique_constraint missing_principal missing_permission : Failure

-- `SessionPrincipalRecord`
pub record SessionPrincipal : Type 0 where
  pub display_name : Text
  pub email : Text
  pub mfa_verified : Bool
  pub organization_id : ℕ
  pub permissions : List String
  pub session_id : ℕ
  pub user_id : ℕ

abbrev pub is_none {ℓ} : {A : Type ℓ} → Option A → Bool
is_none none = true
is_none (some _) = false

abbrev pub is_active_user : UserStatus → Bool
is_active_user active = true
is_active_user disabled = false

abbrev pub is_active_member : MembershipStatus → Bool
is_active_member enrolled = true
is_active_member suspended = false

abbrev pub is_pending : InvitationStatus → Bool
is_pending pending = true
is_pending _ = false

-- WHERE clauses
abbrev pub is_user : ℕ → User → Bool
is_user id u = u.id == id

abbrev pub is_membership : ℕ → ℕ → Membership → Bool
is_membership organization user m = m.organization_id == organization && m.user_id == user

-- `minutes * 60_000`
abbrev pub minutes : ℕ → ℕ
minutes n = n * 60_000

-- `isRecentMfa`: a time that is yet to come is recent
unfoldable pub is_recent_mfa : Option ℕ → ℕ → Bool
is_recent_mfa none now = false
is_recent_mfa (some verified) now = leb (now - verified) (minutes 15)

-- The order of JavaScript's `sort` on strings: by code units.
text_before : Text → Text → Bool
text_before [] t = true
text_before (c ∷ s) [] = false
text_before (c ∷ s) (d ∷ t) =
    let rest = text_before s t in if ltb c d then true else if c == d then rest else false

unfoldable pub insert_key : String → List String → List String
unfolding text_before
insert_key k [] = k ∷ []
insert_key k (l ∷ ls) =
    let rest = insert_key k ls in
    if str_eq k l then l ∷ ls else if text_before (units k) (units l) then k ∷ l ∷ ls else l ∷ rest

-- `[...new Set(keys)].sort()`, as the insertion of each key into a sorted list without copies
unfoldable pub sort_unique : List String → List String
sort_unique [] = []
sort_unique (k ∷ ks) = insert_key k (sort_unique ks)

module _ (s : Accounts) where
  abbrev key_of_permission : Option Permission → List String
  key_of_permission none = []
  key_of_permission (some p) = p.key ∷ []

  -- role.rolePermissions.map(rolePermission => rolePermission.permission.key)
  unfoldable pub keys_of_role : ℕ → ℕ → List RolePermission → List String
  keys_of_role organization role [] = []
  keys_of_role organization role (g ∷ gs) =
      let rest = keys_of_role organization role gs in
      if g.organization_id == organization && g.role_id == role
      then key_of_permission (find_first (λ p. p.id == g.permission_id) s.permissions) ++ rest
      else rest

  -- membership.membershipRoles.flatMap(…)
  unfoldable pub keys_of_membership : ℕ → ℕ → List MembershipRole → List String
  keys_of_membership organization membership [] = []
  keys_of_membership organization membership (r ∷ rs) =
      let rest = keys_of_membership organization membership rs in
      if r.organization_id == organization && r.membership_id == membership
      then keys_of_role organization r.role_id s.role_permissions ++ rest
      else rest

  -- `permissionKeys`
  unfoldable pub permission_keys_of : Membership → List String
  permission_keys_of m = sort_unique (keys_of_membership m.organization_id m.id s.membership_roles)

  abbrev pub principal_of : ℕ → ℕ → Membership → User → ℕ → Bool → SessionPrincipal
  principal_of organization user m u session mfa_verified = record {
    display_name = u.display_name;
    email = u.email;
    mfa_verified = mfa_verified;
    organization_id = organization;
    permissions = permission_keys_of m;
    session_id = session;
    user_id = user;
  }

  abbrev pub principal_if_active :
      ℕ → ℕ → Membership → Option User → ℕ → Bool → Option SessionPrincipal
  principal_if_active organization user m none session mfa_verified = none
  principal_if_active organization user m (some u) session mfa_verified =
      if is_active_member m.status && is_active_user u.status
      then some (principal_of organization user m u session mfa_verified)
      else none

  -- `principalFor`
  unfoldable pub principal_for : (organization user session : ℕ) → Bool → Option SessionPrincipal
  principal_for organization user session mfa_verified =
      elim (find_first (is_membership organization user) s.memberships) [
        | none ↦ none
        | some m ↦
            principal_if_active organization user m (find_first (is_user m.user_id) s.users) session
              mfa_verified
      ]

-- `recordEvent`
unfoldable pub record_event : EventRecord → Accounts → Accounts
record_event e s = record s { event_records = s.event_records ++ e ∷ [] }
