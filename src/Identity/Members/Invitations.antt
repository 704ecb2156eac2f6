-- ===== src/Identity/Members/Invitations.antt =====
-- `createInvitation` and `acceptInvitation` of
-- apps/api/src/identity/infrastructure/prisma/prisma-identity.repository.ts. What an acceptance reads
-- first it reads in `seen`.
use sentriqora.Base.{
  ℕ, suc, Bool, true, false, not, Option, none, some, [], ◌∷◌, ◌++◌, Text, Result, ok, err, ◌>>=◌,
  transaction, ◌==◌, ◌&&◌, ◌||◌, any, ltb, text_eq, find_first, update_where, count_where,
  if◌then◌else◌,
}
use sentriqora.Identity.Store.{
  User, Membership, Role, Invitation, pending, accepted, Accounts, Failure, unique_constraint,
  is_pending, is_user, is_membership, record_event,
}
use sentriqora.Identity.Members.{insert_membership, add_role, success}

-- The input of `createInvitation`.
pub record NewInvitation : Type 0 where
  pub email : Text
  pub expires_at : ℕ
  pub invited_by_user_id : ℕ
  pub normalized_email : Text
  pub organization_id : ℕ
  pub role_id : ℕ
  pub token_hash : ℕ

abbrev pub is_role : (organization id : ℕ) → Role → Bool
is_role organization id r = r.id == id && r.organization_id == organization

abbrev has_address : Text → Option User → Bool
has_address email none = false
has_address email (some u) = text_eq u.normalized_email email

-- WHERE organization_id = … AND user.normalized_email = …
abbrev is_invited : Accounts → (organization : ℕ) → Text → Membership → Bool
is_invited s organization email m =
    m.organization_id == organization && has_address email (find_first (is_user m.user_id) s.users)

abbrev invitation_of : ℕ → NewInvitation → Invitation
invitation_of id i = record {
  id = id;
  organization_id = i.organization_id;
  role_id = i.role_id;
  email = i.email;
  normalized_email = i.normalized_email;
  token_hash = i.token_hash;
  invited_by_user_id = i.invited_by_user_id;
  accepted_by_user_id = none;
  accepted_at = none;
  expires_at = i.expires_at;
  status = pending;
}

insert_invitation : NewInvitation → Accounts → Result Failure (Option (ℕ × ℕ) × Accounts)
insert_invitation i s =
    if any (λ j. j.token_hash == i.token_hash) s.invitations
    then err unique_constraint
    else ok (
      some (s.next_id, i.expires_at),
      record_event
          (success i.organization_id i.invited_by_user_id "organization.member.invited" "invitation"
            s.next_id)
          (record s {
            invitations = s.invitations ++ invitation_of s.next_id i ∷ [];
            next_id = suc s.next_id;
          }),
    )

create_invitation_body : NewInvitation → Accounts → Result Failure (Option (ℕ × ℕ) × Accounts)
unfolding insert_invitation
create_invitation_body i s =
    if not (any (is_role i.organization_id i.role_id) s.roles)
      || any (is_invited s i.organization_id i.normalized_email) s.memberships
    then ok (none, s)
    else insert_invitation i s

-- `createInvitation`: the id and the expiry
unfoldable pub create_invitation :
    NewInvitation → Accounts → Result Failure (Option (ℕ × ℕ)) × Accounts
unfolding create_invitation_body
create_invitation i = transaction (create_invitation_body i)

-- The input of `acceptInvitation`.
pub record Acceptance : Type 0 where
  pub organization_id : ℕ
  pub token_hash : ℕ
  pub user_id : ℕ

abbrev pub is_invitation : (now : ℕ) → Acceptance → Invitation → Bool
is_invitation now a i =
    i.organization_id == a.organization_id
    && i.token_hash == a.token_hash
    && is_pending i.status
    && ltb now i.expires_at

abbrev pub is_pending_invitation : ℕ → Invitation → Bool
is_pending_invitation id i = i.id == id && is_pending i.status

abbrev pub accept : (now user : ℕ) → Invitation → Invitation
accept now user i = record i {
  status = accepted;
  accepted_by_user_id = some user;
  accepted_at = some now;
}

-- The update of the invitation.
unfoldable pub mark_accepted : (now id user : ℕ) → Accounts → Accounts
mark_accepted now id user s = record s {
  invitations = update_where (is_pending_invitation id) (accept now user) s.invitations;
}

unfoldable pub join : Acceptance → Invitation → Accounts → Result Failure (Bool × Accounts)
join a i s = do
  (membership, s₁) ← insert_membership a.organization_id a.user_id s
  ok (
    true,
    record_event
        (success a.organization_id a.user_id "organization.invitation.accepted" "invitation" i.id)
        (add_role a.organization_id membership i.role_id s₁),
  )

-- What follows the reads.
unfoldable pub accept_found :
    (now : ℕ)
    → Acceptance
    → Invitation
    → User
    → (seen : Accounts) → Accounts
    → Result Failure (Bool × Accounts)
accept_found now a i u seen s =
    if not (text_eq i.normalized_email u.normalized_email)
    then ok (false, s)
    else if any (is_membership a.organization_id a.user_id) seen.memberships
    then ok (false, s)
    else if count_where (is_pending_invitation i.id) s.invitations == 1
    then join a i (mark_accepted now i.id a.user_id s)
    else ok (false, mark_accepted now i.id a.user_id s)

unfoldable pub accept_body :
    (now : ℕ) → Acceptance → (seen : Accounts) → Accounts → Result Failure (Bool × Accounts)
accept_body now a seen s = elim (find_first (is_invitation now a) seen.invitations) [
  | none ↦ ok (false, s)
  | some i ↦ elim (find_first (is_user a.user_id) seen.users) [
    | none ↦ ok (false, s)
    | some u ↦ accept_found now a i u seen s
  ]
]

-- `acceptInvitation`
unfoldable pub accept_invitation :
    (now : ℕ) → Acceptance → (seen : Accounts) → Accounts → Result Failure Bool × Accounts
accept_invitation now a seen = transaction (accept_body now a seen)
