-- ===== src/Tests/Members.antt =====
-- An invitation that is accepted twice, and a member whose roles are replaced.
use sentriqora.Base.{
  ℕ, ◌≡◌, refl, true, false, none, some, [], ◌∷◌, units, ok, any, text_eq, find_first, update_where,
  count_where, All,
}
use sentriqora.Identity.Store.{
  User, active, Role, Invitation, pending, Accounts, is_membership, record_event,
}
use sentriqora.Identity.Members.{insert_membership, add_role}
use sentriqora.Identity.Members.Invitations.{
  Acceptance, is_invitation, is_role, accept_invitation, accept_body, accept_found, mark_accepted,
  join,
}
use sentriqora.Identity.Members.Roles.{
  Replacement, replace_membership_roles, replace_found, assign_roles, without_roles, role_rows,
  roles_in, removes_own_ownership, owns, unique_ids,
}
use sentriqora.Identity.Members.Laws.{accept_once}
use sentriqora.Identity.Members.Replacing.{IsReplaced, replace-IsReplaced}
use sentriqora.Tests.Sessions.{blank}

abbrev invitation : Invitation
invitation = record {
  id = 8;
  organization_id = 1;
  role_id = 20;
  email = units "D@e.f";
  normalized_email = units "d@e.f";
  token_hash = 90;
  invited_by_user_id = 2;
  accepted_by_user_id = none;
  accepted_at = none;
  expires_at = 500;
  status = pending;
}

abbrev guest : User
guest = record {
  id = 3;
  email = units "D@e.f";
  normalized_email = units "d@e.f";
  display_name = units "Dan";
  status = active;
}

abbrev owner_role : Role
owner_role = record {
  id = 20;
  organization_id = 1;
  key = "owner";
  name = units "Owner";
  description = [];
  is_system = true;
}

abbrev viewer_role : Role
viewer_role = record owner_role { id = 21; key = "viewer"; name = units "Viewer" }

abbrev company : Accounts
company = record blank {
  users = guest ∷ blank.users;
  roles = owner_role ∷ viewer_role ∷ [];
  membership_roles =
      record { organization_id = 1; membership_id = 5; role_id = 20 }
      ∷ record { organization_id = 1; membership_id = 6; role_id = 21 }
      ∷ [];
  invitations = invitation ∷ [];
}

abbrev acceptance : Acceptance
acceptance = record { organization_id = 1; token_hash = 90; user_id = 3 }

abbrev joined : Accounts
joined = (accept_invitation 100 acceptance company company).1

invited : find_first (is_invitation 100 acceptance) company.invitations ≡ some invitation
unfolding find_first
invited = refl

accepting : accept_invitation 100 acceptance company company ≡ (ok true, joined)
unfolding accept_invitation accept_body find_first accept_found count_where mark_accepted
    update_where join insert_membership add_role record_event text_eq
accepting = refl

accept_once_example :
    (any (is_membership 1 3) joined.memberships ≡ true)
    × ((later : ℕ) (b : Acceptance) (j : Invitation) (seen' : Accounts)
        → find_first (is_invitation later b) seen'.invitations ≡ some j
        → j.id ≡ 8
        → (accept_invitation later b seen' joined).0 ≡ ok false)
accept_once_example = accept_once 100 acceptance invitation company company joined invited accepting

-- The owner takes the viewer's role as well.
abbrev replacement : Replacement
replacement = record {
  actor_user_id = 2;
  membership_id = 5;
  organization_id = 1;
  role_ids = 21 ∷ 20 ∷ 21 ∷ [];
}

abbrev replaced : Accounts
replaced = (replace_membership_roles replacement company).1

replacing : replace_membership_roles replacement company ≡ (true, replaced)
unfolding replace_membership_roles find_first replace_found unique_ids roles_in
    removes_own_ownership owns assign_roles without_roles role_rows record_event
replacing = refl

-- The owner gives up ownership.
abdicating :
    (replace_membership_roles (record replacement { role_ids = 21 ∷ [] }) company).0 ≡ false
unfolding replace_membership_roles find_first replace_found unique_ids roles_in
    removes_own_ownership owns
abdicating = refl

company-IsKeyed :
    All (λ r. find_first (is_role r.organization_id r.id) company.roles ≡ some r) company.roles
unfolding find_first
company-IsKeyed = (refl, (refl, tt))

replace-IsReplaced_example : IsReplaced company replacement replaced
replace-IsReplaced_example =
    replace-IsReplaced company replacement company-IsKeyed replaced replacing
