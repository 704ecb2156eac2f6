-- ===== src/Identity/Members/Roles.antt =====
-- `createRole`, `replaceMembershipRoles` and the lists of members, roles, permissions and
-- organizations of apps/api/src/identity/infrastructure/prisma/prisma-identity.repository.ts. The
-- order of a list that is sorted by a name is left out.
use sentriqora.Base.{
  ℕ, Bool, true, false, not, Option, none, some, List, [], ◌∷◌, ◌++◌, String, Text, Result, ok,
  ◌>>=◌, transaction, ◌==◌, ◌&&◌, any, length, str_eq, find_first, if◌then◌else◌,
}
use sentriqora.Identity.Store.{
  Membership, MembershipStatus, MembershipRole, Role, Permission, Accounts, Failure, is_user,
  record_event,
}
use sentriqora.Identity.Members.{insert_role, grant, success, or_conflict}
use sentriqora.Identity.Members.Invitations.{is_role}

-- `[...new Set(keys)]`: the first occurrence of each
unique_keys : List String → List String → List String
unique_keys seen [] = []
unique_keys seen (k ∷ ks) =
    let after = unique_keys (k ∷ seen) ks in
    let rest = unique_keys seen ks in if any (str_eq k) seen then rest else k ∷ after

-- permission.findMany, WHERE key IN …
permissions_in : List String → List Permission → List Permission
permissions_in keys [] = []
permissions_in keys (p ∷ ps) =
    let rest = permissions_in keys ps in if any (str_eq p.key) keys then p ∷ rest else rest

grant_permissions : (organization role : ℕ) → List Permission → Accounts → Accounts
grant_permissions organization role [] s = s
grant_permissions organization role (p ∷ ps) s =
    grant_permissions organization role ps (grant organization role p s)

-- `RoleSummary`
pub record RoleSummary : Type 0 where
  pub role : Role
  pub permissions : List String

create_role_body :
    (organization actor : ℕ) (key : String) (name description : Text) (keys : List String)
    → Accounts
    → Result Failure (Option RoleSummary × Accounts)
unfolding unique_keys permissions_in grant_permissions
create_role_body organization actor key name description keys s =
    let unique = unique_keys [] keys in
    let found = permissions_in unique s.permissions in
    if length found == length unique
    then (insert_role organization key name description false s >>= λ (r, s₁). ok (
      some (record { role = r; permissions = unique }),
      record_event (success organization actor "organization.role.created" "role" r.id)
          (grant_permissions organization r.id found s₁),
    ))
    else ok (none, s)

-- `createRole`
unfoldable pub create_role :
    (organization actor : ℕ) (key : String) (name description : Text) (keys : List String)
    → Accounts
    → Result Failure (Option RoleSummary) × Accounts
unfolding create_role_body
create_role organization actor key name description keys s =
    or_conflict none (transaction (create_role_body organization actor key name description keys) s)

abbrev pub is_in : List ℕ → ℕ → Bool
is_in ids id = any (λ i. i == id) ids

-- `new Set(roleIds)`
unfoldable pub unique_ids : List ℕ → List ℕ
unique_ids [] = []
unique_ids (i ∷ is) = let rest = unique_ids is in if is_in rest i then rest else i ∷ rest

-- role.findMany
unfoldable pub roles_in : (organization : ℕ) → List ℕ → List Role → List Role
roles_in organization ids [] = []
roles_in organization ids (r ∷ rs) =
    let rest = roles_in organization ids rs in
    if is_in ids r.id && r.organization_id == organization then r ∷ rest else rest

-- The input of `replaceMembershipRoles`.
pub record Replacement : Type 0 where
  pub actor_user_id : ℕ
  pub membership_id : ℕ
  pub organization_id : ℕ
  pub role_ids : List ℕ

abbrev pub is_own : Replacement → Membership → Bool
is_own i m = m.id == i.membership_id && m.organization_id == i.organization_id

abbrev pub is_role_of : Replacement → MembershipRole → Bool
is_role_of i r = r.membership_id == i.membership_id && r.organization_id == i.organization_id

abbrev pub is_owner_role : Role → Bool
is_owner_role r = str_eq r.key "owner"

abbrev pub is_owner : Option Role → Bool
is_owner none = false
is_owner (some r) = is_owner_role r

abbrev pub is_owner_row : Accounts → Replacement → MembershipRole → Bool
is_owner_row s i r =
    is_role_of i r && is_owner (find_first (is_role r.organization_id r.role_id) s.roles)

-- The membership has the owner's role.
unfoldable pub owns : Accounts → Replacement → List MembershipRole → Bool
owns s i rows = any (is_owner_row s i) rows

-- `removingOwnOwnership`
unfoldable pub removes_own_ownership : Replacement → Membership → List Role → Accounts → Bool
removes_own_ownership i m roles s =
    m.user_id == i.actor_user_id && owns s i s.membership_roles && not (any is_owner_role roles)

-- DELETE FROM membership_roles
unfoldable pub without_roles : Replacement → List MembershipRole → List MembershipRole
without_roles i [] = []
without_roles i (r ∷ rs) =
    let rest = without_roles i rs in if is_role_of i r then rest else r ∷ rest

abbrev pub role_row : Replacement → Role → MembershipRole
role_row i r = record {
  organization_id = i.organization_id;
  membership_id = i.membership_id;
  role_id = r.id;
}

unfoldable pub role_rows : Replacement → List Role → List MembershipRole
role_rows i [] = []
role_rows i (r ∷ rs) = role_row i r ∷ role_rows i rs

-- The deletion and the insertion.
unfoldable pub assign_roles : Replacement → List Role → Accounts → Accounts
assign_roles i roles s = record s {
  membership_roles = without_roles i s.membership_roles ++ role_rows i roles;
}

unfoldable pub replace_found : Replacement → Membership → List Role → Accounts → Bool × Accounts
replace_found i m roles s =
    if not (length roles == length (unique_ids i.role_ids))
    then (false, s)
    else if removes_own_ownership i m roles s
    then (false, s)
    else (
      true,
      record_event
          (success i.organization_id i.actor_user_id "organization.membership.roles_replaced"
            "membership" i.membership_id)
          (assign_roles i roles s),
    )

-- `replaceMembershipRoles`
unfoldable pub replace_membership_roles : Replacement → Accounts → Bool × Accounts
replace_membership_roles i s = elim (find_first (is_own i) s.memberships) [
  | none ↦ (false, s)
  | some m ↦ replace_found i m (roles_in i.organization_id i.role_ids s.roles) s
]

-- The keys of a membership's roles.
unfoldable pub role_keys_of : Accounts → Membership → List MembershipRole → List String
role_keys_of s m [] = []
role_keys_of s m (r ∷ rs) =
    let rest = role_keys_of s m rs in
    if r.membership_id == m.id && r.organization_id == m.organization_id
    then elim (find_first (is_role r.organization_id r.role_id) s.roles) [
      | none ↦ rest
      | some role ↦ role.key ∷ rest
    ]
    else rest

-- `MemberSummary`
pub record MemberSummary : Type 0 where
  pub id : ℕ
  pub user_id : ℕ
  pub display_name : Text
  pub email : Text
  pub roles : List String
  pub status : MembershipStatus

members_from : Accounts → (organization : ℕ) → List Membership → List MemberSummary
members_from s organization [] = []
members_from s organization (m ∷ ms) =
    let rest = members_from s organization ms in
    if m.organization_id == organization
    then elim (find_first (is_user m.user_id) s.users) [
      | none ↦ rest
      | some u ↦
          record {
            id = m.id;
            user_id = m.user_id;
            display_name = u.display_name;
            email = u.email;
            roles = role_keys_of s m s.membership_roles;
            status = m.status;
          }
          ∷ rest
    ]
    else rest

-- `listMembers`: the rows stand in the order of their creation
unfoldable pub list_members : (organization : ℕ) → Accounts → List MemberSummary
unfolding members_from
list_members organization s = members_from s organization s.memberships
