-- ===== src/Identity/Sessions/Refresh.antt =====
-- `rotateRefreshToken` of
-- apps/api/src/identity/infrastructure/prisma/prisma-identity.repository.ts.
use sentriqora.Base.{
  ℕ, Bool, not, Option, none, some, Result, ok, ◌>>=◌, transaction, ◌==◌, ◌||◌, leb, find_first,
  update_where, count_where, if◌then◌else◌,
}
use sentriqora.Identity.Store.{
  Session, RefreshToken, Accounts, Failure, SessionPrincipal, EventRecord, is_none, is_recent_mfa,
  principal_for, record_event,
}
use sentriqora.Identity.Sessions.{
  Rotation, RotationResult, invalid, device_mismatch, reused, rotated, has_hash, is_session,
  is_live, is_token, consume, seen_at, revoke_session_graph, insert_token,
}

-- The token with its session. A foreign key keeps the session of a token in the table.
unfoldable pub current_of : (hash : ℕ) → Accounts → Option (RefreshToken × Session)
current_of hash s = elim (find_first (has_hash hash) s.refresh_tokens) [
  | none ↦ none
  | some t ↦ elim (find_first (is_session t.session_id) s.sessions) [
    | none ↦ none
    | some x ↦ some (t, x)
  ]
]

unfoldable pub child_token : ℕ → Rotation → RefreshToken → RefreshToken
child_token id r t = record {
  id = id;
  organization_id = t.organization_id;
  session_id = t.session_id;
  family_id = t.family_id;
  token_hash = r.new_token_hash;
  parent_token_id = some t.id;
  expires_at = r.new_expires_at;
  used_at = none;
  revoked_at = none;
}

unfoldable pub consume_token : (id now : ℕ) → Accounts → Accounts
consume_token id now s = record s {
  refresh_tokens = update_where (is_token id) (consume now) s.refresh_tokens;
}

unfoldable pub touch_session : (id now : ℕ) → Accounts → Accounts
touch_session id now s = record s {
  sessions = update_where (is_session id) (seen_at now) s.sessions;
}

abbrev pub rotation_of : Option SessionPrincipal → RotationResult
rotation_of none = invalid
rotation_of (some p) = rotated p

-- The successor of a consumed token; the answer of an inactive member is `invalid`.
unfoldable pub issue :
    Rotation → RefreshToken → Session → Accounts → Result Failure (RotationResult × Accounts)
unfolding child_token touch_session
issue r t x s = do
  s₁ ← insert_token (child_token s.next_id r t) s
  let s₂ = touch_session t.session_id r.now s₁
  ok (
    rotation_of (
        principal_for s₂ t.organization_id x.user_id t.session_id
          (is_recent_mfa x.mfa_verified_at r.now)),
    s₂,
  )

abbrev pub reuse_detected : Rotation → RefreshToken → Session → EventRecord
reuse_detected r t x = record {
  organization_id = r.organization_id;
  actor_user_id = x.user_id;
  action = "auth.refresh.reuse_detected";
  outcome = "blocked";
  target_type = "session";
  target_id = t.session_id;
}

abbrev pub is_expired : Rotation → RefreshToken → Session → Bool
is_expired r t x = leb t.expires_at r.now || leb x.expires_at r.now || not (is_none x.revoked_at)

-- The update of the token and what follows: `count` is the number of its rows.
unfoldable pub rotate_live :
    Rotation → RefreshToken → Session → Accounts → Result Failure (RotationResult × Accounts)
rotate_live r t x s =
    if count_where (is_token t.id) s.refresh_tokens == 1
    then issue r t x (consume_token t.id r.now s)
    else ok (reused, revoke_session_graph t.session_id "refresh_reuse" r.now s)

-- What follows the read.
unfoldable pub rotate_current :
    Rotation → RefreshToken → Session → Accounts → Result Failure (RotationResult × Accounts)
rotate_current r t x s =
    if not (t.organization_id == r.organization_id)
    then ok (invalid, s)
    else if not (x.user_agent_hash == r.expected_user_agent_hash)
    then ok (device_mismatch, revoke_session_graph t.session_id "device_mismatch" r.now s)
    else if not (is_live t)
    then ok (
      reused,
      record_event (reuse_detected r t x)
          (revoke_session_graph t.session_id "refresh_reuse" r.now s),
    )
    else if is_expired r t x
    then ok (invalid, s)
    else rotate_live r t x s

unfoldable pub rotate_body :
    Rotation → (seen : Accounts) → Accounts → Result Failure (RotationResult × Accounts)
rotate_body r seen s = elim (current_of r.current_token_hash seen) [
  | none ↦ ok (invalid, s)
  | some (t, x) ↦ rotate_current r t x s
]

-- `rotateRefreshToken`: it reads in `seen`
unfoldable pub rotate_refresh_token :
    Rotation → (seen : Accounts) → Accounts → Result Failure RotationResult × Accounts
rotate_refresh_token r seen = transaction (rotate_body r seen)
