-- ===== src/Identity/Sessions/Histories.antt =====
-- Histories of the sessions: the operations of the repository that succeed, in the order of their
-- writes. A rotation may have read any earlier state. One that throws is rolled back and leaves no
-- trace. The log has the newest event first.
use sentriqora.Base.{
  ℕ, ◌≡◌, Bool, true, false, not, ◌==◌, ◌&&◌, some, List, [], ◌∷◌, Memᴰ, String, ok, any,
}
use sentriqora.Identity.Store.{Session, RefreshToken, Accounts, SessionPrincipal}
use sentriqora.Identity.Sessions.{
  NewSession, Rotation, RotationResult, device_mismatch, reused, rotated, create_session,
  get_active_session_principal,
}
use sentriqora.Identity.Sessions.Refresh.{current_of, rotate_refresh_token}
use sentriqora.Identity.Sessions.Revocation.{
  open_sessions, revoke_session, revoke_all_sessions, is_in,
}
use sentriqora.Identity.Sessions.Keeping.{IsSame}

pub data Event : Type 0 where
  -- createSession
  started : (session : ℕ) → Event
  -- rotateRefreshToken of a token that is there: its hash and its session
  answered : (hash session : ℕ) → RotationResult → Event
  -- revokeSession
  ended : (session : ℕ) → Event
  -- revokeAllSessions
  ended_all : (sessions : List ℕ) → Event
  -- getActiveSessionPrincipal, for a request with an access token
  admitted : (session : ℕ) → Event

pub data History : List Accounts → List Event → Accounts → Type 0 where
  start : (s : Accounts) → s.sessions ≡ [] → s.refresh_tokens ≡ [] → History (s ∷ []) [] s
  creates :
      {past : List Accounts} {log : List Event} {s : Accounts} (now : ℕ) (input : NewSession)
      (p : SessionPrincipal) (session : ℕ) (s' : Accounts)
      → History past log s
      → create_session now input s ≡ (ok (p, session), s')
      → History (s' ∷ past) (started session ∷ log) s'
  rotates :
      {past : List Accounts} {log : List Event} {s : Accounts} (r : Rotation) (seen : Accounts)
      (t : RefreshToken) (x : Session) (result : RotationResult) (s' : Accounts)
      → History past log s
      → Memᴰ seen past
      → current_of r.current_token_hash seen ≡ some (t, x)
      → rotate_refresh_token r seen s ≡ (ok result, s')
      → History (s' ∷ past) (answered r.current_token_hash t.session_id result ∷ log) s'
  revokes :
      {past : List Accounts} {log : List Event} {s : Accounts} (now organization actor : ℕ)
      (reason : String) (session : ℕ) (s' : Accounts)
      → History past log s
      → revoke_session now organization actor reason session s ≡ (true, s')
      → History (s' ∷ past) (ended session ∷ log) s'
  revokes_all :
      {past : List Accounts} {log : List Event} {s : Accounts} (now organization user : ℕ)
      (reason : String) (n : ℕ) (s' : Accounts)
      → History past log s
      → revoke_all_sessions now organization user reason s ≡ (n, s')
      → History (s' ∷ past) (ended_all (open_sessions organization user s.sessions) ∷ log) s'
  admits :
      {past : List Accounts} {log : List Event} {s : Accounts} (now organization user session : ℕ)
      (p : SessionPrincipal)
      → History past log s
      → get_active_session_principal now organization user session s ≡ some p
      → History past (admitted session ∷ log) s
  -- any change of the other tables
  changes :
      {past : List Accounts} {log : List Event} {s : Accounts} (s' : Accounts)
      → History past log s
      → IsSame s s'
      → History (s' ∷ past) log s'

abbrev is_rotated : RotationResult → Bool
is_rotated (rotated p) = true
is_rotated _ = false

abbrev is_stop : RotationResult → Bool
is_stop device_mismatch = true
is_stop reused = true
is_stop _ = false

-- A rotation of the token with the hash that succeeds.
abbrev pub is_rotation_of : ℕ → Event → Bool
is_rotation_of hash (answered h k result) = h == hash && is_rotated result
is_rotation_of hash _ = false

-- The session is revoked: by its user, with all the user's sessions, or for a token that was used
-- twice or on another device.
abbrev pub ends : ℕ → Event → Bool
ends session (ended k) = k == session
ends session (ended_all ks) = is_in ks session
ends session (answered h k result) = k == session && is_stop result
ends session _ = false

-- The session is used: it starts, its token is rotated, or a request is admitted.
abbrev pub uses : ℕ → Event → Bool
uses session (started k) = k == session
uses session (answered h k result) = k == session && is_rotated result
uses session (admitted k) = k == session
uses session _ = false

-- No use of the session comes after its end.
unfoldable pub is_quiet : ℕ → List Event → Bool
is_quiet session [] = true
is_quiet session (e ∷ log) = is_quiet session log && not (uses session e && any (ends session) log)
