-- ===== src/Identity/Sessions.antt =====
-- Sessions and refresh tokens: `createSession`, `getActiveSessionPrincipal`, `rotateRefreshToken`,
-- `listSessions`, `revokeSession`, `revokeAllSessions` and `revokeSessionGraph` of
-- apps/api/src/identity/infrastructure/prisma/prisma-identity.repository.ts. Each runs in a transaction
-- at READ COMMITTED, so that a statement sees what others committed since the last: a rotation reads
-- the token in one state and writes in another, which is the same when nobody comes between.
pub mod Refresh
pub mod Rows
pub mod Consistency
pub mod Cases
pub mod Keeping
pub mod Issuing
pub mod Ending
pub mod Histories
pub mod Invariant
pub mod Guarantees
pub mod Reuse
pub mod Revocation
use sentriqora.Base.{
  ℕ, suc, ◌+◌, Bool, true, false, not, Option, none, some, List, [], ◌∷◌, ◌++◌, String, Text, units,
  Result, ok, err, ◌>>=◌, ensure, transaction, ◌==◌, ◌&&◌, ◌||◌, any, map, leb, ltb, length,
  find_first, update_where, count_where, if◌then◌else◌,
}
use sentriqora.Identity.Store.{
  Session, RefreshToken, Accounts, Failure, unique_constraint, missing_principal, SessionPrincipal,
  is_none, is_recent_mfa, principal_for, record_event,
}

-- `CreateSessionInput`, without the request that is recorded
pub record NewSession : Type 0 where
  pub device_name : Text
  pub expires_at : ℕ
  pub ip_address : Text
  pub mfa_verified_at : Option ℕ
  pub organization_id : ℕ
  pub refresh_expires_at : ℕ
  pub refresh_token_family_id : ℕ
  pub refresh_token_hash : ℕ
  pub user_agent_hash : ℕ
  pub user_id : ℕ

-- The input of `rotateRefreshToken`.
pub record Rotation : Type 0 where
  pub current_token_hash : ℕ
  pub expected_user_agent_hash : ℕ
  pub new_expires_at : ℕ
  pub new_token_hash : ℕ
  pub now : ℕ
  pub organization_id : ℕ

-- `RefreshRotationResult`
pub data RotationResult : Type 0 where
  invalid device_mismatch reused : RotationResult
  rotated : SessionPrincipal → RotationResult

-- WHERE clauses
abbrev pub has_hash : ℕ → RefreshToken → Bool
has_hash hash t = t.token_hash == hash

abbrev pub is_session : ℕ → Session → Bool
is_session id x = x.id == id

abbrev pub is_live : RefreshToken → Bool
is_live t = is_none t.used_at && is_none t.revoked_at

abbrev pub is_token : ℕ → RefreshToken → Bool
is_token id t = t.id == id && is_live t

abbrev pub is_unrevoked : ℕ → Session → Bool
is_unrevoked id x = x.id == id && is_none x.revoked_at

abbrev pub is_unrevoked_of : ℕ → RefreshToken → Bool
is_unrevoked_of session t = t.session_id == session && is_none t.revoked_at

abbrev pub is_own_session : (organization user id : ℕ) → Session → Bool
is_own_session organization user id x =
    x.id == id && x.organization_id == organization && x.user_id == user

-- The data of the updates.
abbrev pub revoke : String → ℕ → Session → Session
revoke reason now x = record x { revoked_at = some now; revoke_reason = some reason }

abbrev pub revoke_token : ℕ → RefreshToken → RefreshToken
revoke_token now t = record t { revoked_at = some now }

abbrev pub consume : ℕ → RefreshToken → RefreshToken
consume now t = record t { used_at = some now }

abbrev pub seen_at : ℕ → Session → Session
seen_at now x = record x { last_seen_at = now }

-- `revokeSessionGraph`
unfoldable pub revoke_session_graph :
    (session : ℕ) (reason : String) (now : ℕ) → Accounts → Accounts
revoke_session_graph session reason now s = record s {
  sessions = update_where (is_unrevoked session) (revoke reason now) s.sessions;
  refresh_tokens = update_where (is_unrevoked_of session) (revoke_token now) s.refresh_tokens;
}

abbrev pub has_parent : Option ℕ → RefreshToken → Bool
has_parent none t = false
has_parent (some parent) t = elim t.parent_token_id [ none ↦ false | some p ↦ p == parent ]

-- INSERT INTO refresh_tokens, with its two unique keys
unfoldable pub insert_token : RefreshToken → Accounts → Result Failure Accounts
insert_token t s =
    if any (λ u. u.token_hash == t.token_hash || has_parent t.parent_token_id u) s.refresh_tokens
    then err unique_constraint
    else ok (record s { refresh_tokens = s.refresh_tokens ++ t ∷ []; next_id = suc s.next_id })

abbrev pub or_missing : Option SessionPrincipal → Result Failure SessionPrincipal
or_missing none = err missing_principal
or_missing (some p) = ok p

unfoldable pub new_session : ℕ → ℕ → NewSession → Session
new_session now id input = record {
  id = id;
  organization_id = input.organization_id;
  user_id = input.user_id;
  device_name = input.device_name;
  user_agent_hash = input.user_agent_hash;
  ip_address = input.ip_address;
  mfa_verified_at = input.mfa_verified_at;
  created_at = now;
  last_seen_at = now;
  expires_at = input.expires_at;
  revoked_at = none;
  revoke_reason = none;
}

-- The first refresh token of a session.
unfoldable pub first_token : ℕ → ℕ → NewSession → RefreshToken
first_token id session input = record {
  id = id;
  organization_id = input.organization_id;
  session_id = session;
  family_id = input.refresh_token_family_id;
  token_hash = input.refresh_token_hash;
  parent_token_id = none;
  expires_at = input.refresh_expires_at;
  used_at = none;
  revoked_at = none;
}

-- INSERT INTO sessions
unfoldable pub insert_session : Session → Accounts → Accounts
insert_session x s = record s { sessions = s.sessions ++ x ∷ []; next_id = suc s.next_id }

-- The body of `createSession`: the principal and the session's id.
unfoldable pub create_session_body :
    ℕ → NewSession → Accounts → Result Failure ((SessionPrincipal × ℕ) × Accounts)
unfolding new_session first_token insert_session
create_session_body now input s = do
  let session = s.next_id
  let s₁ = insert_session (new_session now session input) s
  s₂ ← insert_token (first_token s₁.next_id session input) s₁
  principal ← or_missing (
      principal_for s₂ input.organization_id input.user_id session
        (is_recent_mfa input.mfa_verified_at now))
  ok (
    (principal, session),
    record_event
        (record {
          organization_id = input.organization_id;
          actor_user_id = input.user_id;
          action = "auth.session.created";
          outcome = "success";
          target_type = "session";
          target_id = session;
        })
        s₂,
  )

-- `createSession`
unfoldable pub create_session :
    ℕ → NewSession → Accounts → Result Failure (SessionPrincipal × ℕ) × Accounts
create_session now input = transaction (create_session_body now input)

abbrev pub active_session : (now organization user session : ℕ) → Session → Bool
active_session now organization user session x =
    is_own_session organization user session x && ltb now x.expires_at && is_none x.revoked_at

-- `getActiveSessionPrincipal`
unfoldable pub get_active_session_principal :
    (now organization user session : ℕ) → Accounts → Option SessionPrincipal
get_active_session_principal now organization user session s =
    elim (find_first (active_session now organization user session) s.sessions) [
      | none ↦ none
      | some x ↦ principal_for s organization user x.id (is_recent_mfa x.mfa_verified_at now)
    ]
