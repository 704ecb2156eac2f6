-- ===== src/Identity/UseCases.antt =====
-- The other operations of apps/api/src/identity/application/identity.use-cases.ts: registration, second
-- factors, sessions, organizations, invitations and roles. The secrets, tokens and ids that are drawn
-- are arguments. `listOrganizations`, `listRoles` and `listPermissions` are left out.
pub mod People
pub mod Registering
pub mod Checks
pub mod FirstSignIn
use sentriqora.Base.{
  ℕ, zero, suc, Bool, true, false, Option, none, some, List, [], ◌∷◌, ◌++◌, String, Text, units,
  trim, Result, ok, err, ◌>>=◌, ◌==◌, map, if◌then◌else◌,
}
use sentriqora.Identity.Store.{
  User, active, Organization, Accounts, Failure, EncryptedValue, SessionPrincipal,
}
use sentriqora.Identity.Sessions.Revocation.{revoke_session, revoke_all_sessions}
use sentriqora.Identity.Mfa.{Enrollment, save_mfa_enrollment, get_pending_mfa, activate_mfa}
use sentriqora.Identity.Values.{
  Unicode, DomainError, EmailAddress, create_email, create_slug, validate_password,
}
use sentriqora.Identity.Security.{Crypto, verify_totp, recovery_hashes, recovery_codes}
use sentriqora.Identity.Login.{plus_seconds}
use sentriqora.Identity.Members.{
  Registration, email_conflict, slug_conflict, registered, register, create_organization,
}
use sentriqora.Identity.Members.Invitations.{create_invitation, accept_invitation}
use sentriqora.Identity.Members.Roles.{
  RoleSummary, create_role, replace_membership_roles, list_members, MemberSummary,
}

-- The codes of `ApplicationError`, and the other errors that the operations throw.
pub data UseCaseError : Type 0 where
  conflict not_found invalid_mfa_code invalid_token validation_failed internal_error : UseCaseError
  domain_error : DomainError → UseCaseError

-- `RegisterIdentityInput`, with the ids that are drawn.
pub record RegisterInput : Type 0 where
  pub display_name : Text
  pub email : Text
  pub organization_name : Text
  pub organization_slug : Option Text
  pub password : Text
  pub organization_id : ℕ
  pub user_id : ℕ

-- `normalized.split('@')[0]`
local_part : Text → Text
local_part [] = []
local_part (c ∷ t) = let rest = local_part t in if c == 64 then [] else c ∷ rest

-- `slug ?? name`
abbrev pub or_name : Option Text → Text → Text
or_name none name = name
or_name (some slug) name = slug

abbrev pub user_of : RegisterInput → EmailAddress → User
user_of i email = record {
  id = i.user_id;
  email = email.value;
  normalized_email = email.normalized;
  display_name = trim i.display_name;
  status = active;
}

abbrev pub organization_of : RegisterInput → (slug : Text) → Organization
organization_of i slug = record {
  id = i.organization_id;
  name = trim i.organization_name;
  slug = slug;
}

-- What `register` checks: the rows that it asks for, and the password.
unfoldable pub checked_registration :
    Unicode → RegisterInput → Result DomainError (Organization × User × Text)
unfolding local_part
checked_registration unicode i = do
  email ← create_email unicode i.email
  slug ← create_slug unicode (or_name i.organization_slug (trim i.organization_name))
  password ←
      validate_password unicode i.password (local_part email.normalized ∷ trim i.display_name ∷ [])
  ok (organization_of i slug, user_of i email, password)

abbrev pub as_registered :
    Result Failure Registration × Accounts → Result UseCaseError (Organization × User) × Accounts
as_registered (ok (registered o u), s) = (ok (o, u), s)
as_registered (ok email_conflict, s) = (err conflict, s)
as_registered (ok slug_conflict, s) = (err conflict, s)
as_registered (err e, s) = (err internal_error, s)

-- `register`
unfoldable pub register_identity :
    Unicode
    → Crypto
    → RegisterInput
    → Accounts
    → Result UseCaseError (Organization × User) × Accounts
register_identity unicode crypto i s = elim (checked_registration unicode i) [
  | err e ↦ (err (domain_error e), s)
  | ok (o, u, password) ↦ as_registered (register o u (crypto.hash_password password) s)
]

-- What a call of the repository answers, where it answers whether it was done.
abbrev pub done_or :
    UseCaseError → Result Failure Bool × Accounts → Result UseCaseError (Unit {0}) × Accounts
done_or e (ok true, s) = (ok tt, s)
done_or e (ok false, s) = (err e, s)
done_or e (err thrown, s) = (err internal_error, s)

abbrev pub value_or :
    {A : Type 0}
    → UseCaseError
    → Result Failure (Option A) × Accounts
    → Result UseCaseError A × Accounts
value_or e (ok (some a), s) = (ok a, s)
value_or e (ok none, s) = (err e, s)
value_or e (err thrown, s) = (err internal_error, s)

-- The answer of `beginMfaEnrollment`; `encodeURIComponent` leaves the units of a UUID as they are.
abbrev otpauth_uri : (user secret : Text) → Text
otpauth_uri user secret =
    units "otpauth://totp/AegisFlow:user-"
    ++ user
    ++ units "?secret="
    ++ secret
    ++ units "&issuer=AegisFlow&algorithm=SHA1&digits=6&period=30"

abbrev enrollment_of : SessionPrincipal → EncryptedValue → Enrollment
enrollment_of p secret = record {
  organization_id = p.organization_id;
  user_id = p.user_id;
  label = units "AegisFlow TOTP";
  secret = secret;
}

-- `beginMfaEnrollment`: the URI and the secret. `uuid_text` writes a UUID.
unfoldable pub begin_mfa_enrollment :
    Crypto
    → (uuid_text : ℕ → Text) → SessionPrincipal
    → (secret : Text) → (seen : Accounts) → Accounts
    → Result UseCaseError (Text × Text) × Accounts
begin_mfa_enrollment crypto uuid_text p secret seen s =
    let (saved, s₁) = save_mfa_enrollment (enrollment_of p (crypto.encrypt secret)) seen s in
    (if saved then ok (otpauth_uri (uuid_text p.user_id) secret, secret) else err conflict, s₁)

abbrev codes_if :
    List Text
    → Result UseCaseError (Unit {0}) × Accounts
    → Result UseCaseError (List Text) × Accounts
codes_if codes (ok tt, s) = (ok codes, s)
codes_if codes (err e, s) = (err e, s)

unfoldable pub activate_with :
    Crypto
    → SessionPrincipal
    → (drawn : List Text) (now : ℕ) → Option ℕ
    → Accounts
    → Result UseCaseError (List Text) × Accounts
activate_with crypto p drawn now none s = (err invalid_mfa_code, s)
activate_with crypto p drawn now (some counter) s = codes_if (recovery_codes drawn) (
    done_or conflict
      (activate_mfa now p.organization_id p.user_id (recovery_hashes crypto drawn) counter s))

-- `confirmMfaEnrollment`: ten recovery codes are drawn
unfoldable pub confirm_mfa_enrollment :
    Crypto
    → SessionPrincipal
    → (code : Text) (drawn : List Text) (now : ℕ) → Accounts
    → Result UseCaseError (List Text) × Accounts
confirm_mfa_enrollment crypto p code drawn now s = elim (get_pending_mfa p.user_id s) [
  | none ↦ (err not_found, s)
  | some pending ↦ elim (crypto.decrypt pending) [
    | none ↦ (err internal_error, s)
    | some secret ↦ activate_with crypto p drawn now (verify_totp crypto secret code now) s
  ]
]

-- `revokeSession`
unfoldable pub revoke_own_session :
    SessionPrincipal → (session now : ℕ) → Accounts → Result UseCaseError (Unit {0}) × Accounts
revoke_own_session p session now s =
    let (revoked, s₁) = revoke_session now p.organization_id p.user_id "user_requested" session s in
    (if revoked then ok tt else err not_found, s₁)

-- `revokeAllSessions`
unfoldable pub revoke_own_sessions : SessionPrincipal → (now : ℕ) → Accounts → ℕ × Accounts
revoke_own_sessions p now s = revoke_all_sessions now p.organization_id p.user_id "global_logout" s

-- `createOrganization`
unfoldable pub found_organization :
    Unicode
    → SessionPrincipal
    → (name : Text) → Option Text
    → (organization : ℕ) → Accounts
    → Result UseCaseError (Organization × List String) × Accounts
found_organization unicode p name slug organization s =
    elim (create_slug unicode (or_name slug (trim name))) [
      | err e ↦ (err (domain_error e), s)
      | ok slug ↦ value_or conflict (
          create_organization (record { id = organization; name = trim name; slug = slug })
            p.user_id s)
    ]

abbrev with_token :
    Text → Result UseCaseError (ℕ × ℕ) × Accounts → Result UseCaseError ((ℕ × ℕ) × Text) × Accounts
with_token token (ok row, s) = (ok (row, token), s)
with_token token (err e, s) = (err e, s)

-- `createInvitation`: the id and the expiry, and the token
unfoldable pub invite :
    Unicode
    → Crypto
    → (invitation_ttl_seconds : ℕ) → SessionPrincipal
    → (organization role : ℕ) (email token : Text) (now : ℕ) → Accounts
    → Result UseCaseError ((ℕ × ℕ) × Text) × Accounts
invite unicode crypto ttl p organization role email token now s =
    elim (create_email unicode email) [
      | err e ↦ (err (domain_error e), s)
      | ok address ↦ with_token token (
          value_or validation_failed (
            create_invitation
              (record {
                email = address.value;
                expires_at = plus_seconds now ttl;
                invited_by_user_id = p.user_id;
                normalized_email = address.normalized;
                organization_id = organization;
                role_id = role;
                token_hash = crypto.hash_opaque_token token;
              })
              s))
    ]

-- `acceptInvitation`
unfoldable pub accept_token :
    Crypto
    → SessionPrincipal
    → (organization : ℕ) (token : Text) (now : ℕ) → (seen : Accounts) → Accounts
    → Result UseCaseError (Unit {0}) × Accounts
accept_token crypto p organization token now seen s = done_or invalid_token (
    accept_invitation now
      (record {
        organization_id = organization;
        token_hash = crypto.hash_opaque_token token;
        user_id = p.user_id;
      })
      seen s)

-- `createRole`
unfoldable pub add_organization_role :
    SessionPrincipal
    → (organization : ℕ) (key : String) (name description : Text) → List String
    → Accounts
    → Result UseCaseError RoleSummary × Accounts
add_organization_role p organization key name description permissions s =
    value_or validation_failed
      (create_role organization p.user_id key (trim name) (trim description) permissions s)

-- `replaceMembershipRoles`
unfoldable pub assign_member_roles :
    SessionPrincipal
    → (organization membership : ℕ) → List ℕ
    → Accounts
    → Result UseCaseError (Unit {0}) × Accounts
assign_member_roles p organization membership roles s =
    let (replaced, s₁) =
      replace_membership_roles
        (record {
          actor_user_id = p.user_id;
          membership_id = membership;
          organization_id = organization;
          role_ids = roles;
        })
        s in
    (if replaced then ok tt else err validation_failed, s₁)
