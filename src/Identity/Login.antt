-- ===== src/Identity/Login.antt =====
-- Sign-in: `findLoginIdentity`, `recordFailedLogin` and `resetFailedLogins` of
-- apps/api/src/identity/infrastructure/prisma/prisma-identity.repository.ts, and `login` and
-- `createAuthenticatedSession` of
-- apps/api/src/identity/application/identity.use-cases.ts. Each call of the repository is a transaction
-- of its own. `Limits` says what the calls of the login protection throw, and what is random, the
-- token and the ids, is an argument.
pub mod Tokens
pub mod Refusals
pub mod Lockout
pub mod Allowed
use sentriqora.Base.{
  ℕ, zero, suc, ◌+◌, ◌*◌, Bool, true, false, not, Option, none, some, List, [], ◌∷◌, String, Text,
  within, trim, text_eq, Result, ok, err, ◌==◌, ◌&&◌, ◌||◌, every, leb, ltb, length, find_first,
  update_where, if◌then◌else◌,
}
use sentriqora.Identity.Store.{
  User, Credential, Membership, MfaMethod, Failure, EncryptedValue, Accounts, SessionPrincipal,
  is_none, is_active_user, is_active_member, is_membership, minutes, permission_keys_of,
}
use sentriqora.Identity.Sessions.{
  NewSession, Rotation, RotationResult, invalid, device_mismatch, reused, rotated, create_session,
  get_active_session_principal,
}
use sentriqora.Identity.Sessions.Refresh.{rotate_refresh_token}
use sentriqora.Identity.Mfa.{
  Completion, ChallengeRecord, is_verified_of, create_mfa_challenge, get_mfa_challenge,
  consume_mfa_challenge,
}
use sentriqora.Identity.Values.{Unicode, EmailAddress, create_email}
use sentriqora.Identity.Security.{Crypto, hash_fingerprint, verify_totp}

-- `LoginIdentity`
pub record LoginIdentity : Type 0 where
  pub display_name : Text
  pub email : Text
  pub failed_attempts : ℕ
  pub locked_until : Option ℕ
  pub membership_active : Bool
  pub mfa : Option EncryptedValue
  pub organization_id : ℕ
  pub password_hash : ℕ
  pub permissions : List String
  pub user_active : Bool
  pub user_id : ℕ

-- The codes of `ApplicationError`, and the other errors that a sign-in throws.
pub data LoginError : Type 0 where
  authentication_failed invalid_mfa_code invalid_token session_reused : LoginError
  rate_limited service_unavailable invalid_email_address internal_error : LoginError

pub record Policy : Type 0 where
  pub mfa_challenge_ttl_seconds : ℕ
  pub refresh_token_ttl_seconds : ℕ

-- What `assertAllowed`, `recordFailure` and `resetIdentity` throw.
pub record Limits : Type 0 where
  pub allowed_error : Option LoginError
  pub failure_error : Option LoginError
  pub reset_error : Option LoginError

-- The input of a request, its context, and the values that are drawn for it.
pub record Request : Type 0 where
  pub device_name : Text
  pub ip_address : Text
  pub user_agent : Text
  pub refresh_token : Text
  pub csrf_token : Text
  pub family_id : ℕ

-- `AuthenticatedSessionResult`
pub record Authenticated : Type 0 where
  pub access_token : Text
  pub csrf_token : Text
  pub principal : SessionPrincipal
  pub refresh_token : Text

-- `LoginResult`
pub data LoginResult : Type 0 where
  authenticated : Authenticated → LoginResult
  challenged : (challenge expires_at : ℕ) → LoginResult

-- WHERE clauses
abbrev pub has_email : Text → User → Bool
has_email email u = text_eq u.normalized_email email

abbrev pub is_credential : ℕ → Credential → Bool
is_credential user c = c.user_id == user

abbrev pub secret_of : Option MfaMethod → Option EncryptedValue
secret_of none = none
secret_of (some m) = some m.secret

abbrev pub login_identity : Accounts → User → Credential → Membership → LoginIdentity
login_identity s u c m = record {
  display_name = u.display_name;
  email = u.email;
  failed_attempts = c.failed_attempts;
  locked_until = c.locked_until;
  membership_active = is_active_member m.status;
  mfa = secret_of (find_first (is_verified_of u.id) s.mfa_methods);
  organization_id = m.organization_id;
  password_hash = c.password_hash;
  permissions = permission_keys_of s m;
  user_active = is_active_user u.status;
  user_id = u.id;
}

-- `findLoginIdentity`
unfoldable pub find_login_identity :
    (email : Text) (organization : ℕ) → Accounts → Option LoginIdentity
find_login_identity email organization s = elim (find_first (has_email email) s.users) [
  | none ↦ none
  | some u ↦ elim (find_first (is_credential u.id) s.credentials) [
    | none ↦ none
    | some c ↦ elim (find_first (is_membership organization u.id) s.memberships) [
      | none ↦ none
      | some m ↦ some (login_identity s u c m)
    ]
  ]
]

abbrev pub lock_after : (now attempts : ℕ) → Option ℕ → Option ℕ
lock_after now attempts locked_until =
    if leb 5 attempts then some (now + minutes 15) else locked_until

abbrev pub count_failure : (now : ℕ) → Credential → Credential
count_failure now c = record c {
  failed_attempts = c.failed_attempts + 1;
  locked_until = lock_after now (c.failed_attempts + 1) c.locked_until;
}

abbrev pub forget_failures : Credential → Credential
forget_failures c = record c { failed_attempts = 0; locked_until = none }

-- `recordFailedLogin`
unfoldable pub record_failed_login : (user now : ℕ) → Accounts → Accounts
record_failed_login user now s = record s {
  credentials = update_where (is_credential user) (count_failure now) s.credentials;
}

-- `resetFailedLogins`
unfoldable pub reset_failed_logins : (user : ℕ) → Accounts → Accounts
reset_failed_logins user s = record s {
  credentials = update_where (is_credential user) forget_failures s.credentials;
}

abbrev pub is_after : Option ℕ → ℕ → Bool
is_after none now = false
is_after (some time) now = ltb now time

-- `plusSeconds`
abbrev pub plus_seconds : (date seconds : ℕ) → ℕ
plus_seconds date seconds = date + seconds * 1_000

abbrev pub thrown_or : {A : Type 0} → Option LoginError → Result LoginError A → Result LoginError A
thrown_or none result = result
thrown_or (some e) result = err e

-- The condition under which `login` refuses: the password, the lock, the user, the member.
unfoldable pub is_refused : Crypto → (password : Text) (now : ℕ) → LoginIdentity → Bool
is_refused crypto password now identity =
    not (crypto.verify_password identity.password_hash password)
    || is_after identity.locked_until now
    || not identity.user_active
    || not identity.membership_active

module _ (unicode : Unicode) (crypto : Crypto) (policy : Policy) where
  abbrev pub session_of : Request → (now organization user : ℕ) → Option ℕ → NewSession
  session_of request now organization user verified = record {
    device_name = trim request.device_name;
    expires_at = plus_seconds now policy.refresh_token_ttl_seconds;
    ip_address = request.ip_address;
    mfa_verified_at = verified;
    organization_id = organization;
    refresh_expires_at = plus_seconds now policy.refresh_token_ttl_seconds;
    refresh_token_family_id = request.family_id;
    refresh_token_hash = crypto.hash_opaque_token request.refresh_token;
    user_agent_hash = hash_fingerprint unicode crypto request.user_agent;
    user_id = user;
  }

  abbrev pub authenticated_by : Request → SessionPrincipal → Authenticated
  authenticated_by request p = record {
    access_token = crypto.issue_access_token p;
    csrf_token = request.csrf_token;
    principal = p;
    refresh_token = request.refresh_token;
  }

  abbrev pub as_authenticated :
      Request
      → Result Failure (SessionPrincipal × ℕ) × Accounts
      → Result LoginError Authenticated × Accounts
  as_authenticated request (ok (p, session), s) =
      (ok (authenticated_by request (record p { session_id = session })), s)
  as_authenticated request (err e, s) = (err internal_error, s)

  -- `createAuthenticatedSession`
  unfoldable pub create_authenticated_session :
      Request
      → (now organization user : ℕ) (verified : Option ℕ) → Accounts
      → Result LoginError Authenticated × Accounts
  create_authenticated_session request now organization user verified s =
      as_authenticated request
        (create_session now (session_of request now organization user verified) s)

  abbrev pub as_login :
      Result LoginError Authenticated × Accounts → Result LoginError LoginResult × Accounts
  as_login (ok a, s) = (ok (authenticated a), s)
  as_login (err e, s) = (err e, s)

  -- What follows the password: a challenge where the user has a second factor, or else a session.
  unfoldable pub accept_login :
      Request → (now : ℕ) → LoginIdentity → Accounts → Result LoginError LoginResult × Accounts
  accept_login request now identity s = elim identity.mfa [
    | none ↦
        as_login (
          create_authenticated_session request now identity.organization_id identity.user_id none s)
    | some _ ↦
        (let (c, s₁) =
            create_mfa_challenge identity.organization_id identity.user_id
              (plus_seconds now policy.mfa_challenge_ttl_seconds) s in
          (ok (challenged c.id c.expires_at), s₁))
  ]

  unfoldable pub refuse_login :
      Limits → (now user : ℕ) → Accounts → Result LoginError LoginResult × Accounts
  refuse_login limits now user s =
      (thrown_or limits.failure_error (err authentication_failed), record_failed_login user now s)

  -- The two resets run side by side: that of the database is done in either case.
  unfoldable pub reset_and_accept :
      Limits
      → Request
      → (now : ℕ) → LoginIdentity
      → Accounts
      → Result LoginError LoginResult × Accounts
  reset_and_accept limits request now identity s =
      let s₁ = reset_failed_logins identity.user_id s in
      elim limits.reset_error [ some e ↦ (err e, s₁) | none ↦ accept_login request now identity s₁ ]

  unfoldable pub login_identified :
      Limits
      → Request
      → (password : Text) (now : ℕ) → LoginIdentity
      → Accounts
      → Result LoginError LoginResult × Accounts
  login_identified limits request password now identity s =
      if is_refused crypto password now identity
      then refuse_login limits now identity.user_id s
      else reset_and_accept limits request now identity s

  unfoldable pub login_with_email :
      Limits
      → Request
      → (email : EmailAddress) (password : Text) (organization now : ℕ) → Accounts
      → Result LoginError LoginResult × Accounts
  login_with_email limits request email password organization now s = elim limits.allowed_error [
    | some e ↦ (err e, s)
    | none ↦ elim (find_login_identity email.normalized organization s) [
      | none ↦ (thrown_or limits.failure_error (err authentication_failed), s)
      | some identity ↦ login_identified limits request password now identity s
    ]
  ]

  -- `login`
  unfoldable pub login :
      Limits
      → Request
      → (email password : Text) (organization now : ℕ) → Accounts
      → Result LoginError LoginResult × Accounts
  login limits request email password organization now s = elim (create_email unicode email) [
    | err _ ↦ (err invalid_email_address, s)
    | ok address ↦ login_with_email limits request address password organization now s
  ]
