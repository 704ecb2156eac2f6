-- ===== src/Identity/Sessions/Revocation.antt =====
-- `listSessions`, `revokeSession` and `revokeAllSessions` of
-- apps/api/src/identity/infrastructure/prisma/prisma-identity.repository.ts.
use sentriqora.Base.{
  ℕ, Bool, true, false, Option, none, some, List, [], ◌∷◌, String, Text, any, map, length, ltb,
  ◌==◌, ◌&&◌, find_first, update_where, if◌then◌else◌,
}
use sentriqora.Identity.Store.{Session, RefreshToken, Accounts, is_none, record_event}
use sentriqora.Identity.Sessions.{is_own_session, revoke, revoke_token, revoke_session_graph}

-- `SessionRecord`
pub record SessionRecord : Type 0 where
  pub id : ℕ
  pub device_name : Text
  pub ip_address : Text
  pub current : Bool
  pub created_at : ℕ
  pub last_seen_at : ℕ
  pub expires_at : ℕ
  pub revoked_at : Option ℕ

abbrev session_record : ℕ → Session → SessionRecord
session_record current x = record {
  id = x.id;
  device_name = x.device_name;
  ip_address = x.ip_address;
  current = x.id == current;
  created_at = x.created_at;
  last_seen_at = x.last_seen_at;
  expires_at = x.expires_at;
  revoked_at = x.revoked_at;
}

-- ORDER BY created_at DESC, an insertion sort
unfoldable pub insert_recent : Session → List Session → List Session
insert_recent x [] = x ∷ []
insert_recent x (y ∷ ys) =
    let rest = insert_recent x ys in if ltb x.created_at y.created_at then y ∷ rest else x ∷ y ∷ ys

unfoldable pub recent_of : (organization user : ℕ) → List Session → List Session
recent_of organization user [] = []
recent_of organization user (x ∷ xs) =
    let rest = recent_of organization user xs in
    if x.organization_id == organization && x.user_id == user then insert_recent x rest else rest

-- `listSessions`
unfoldable pub list_sessions : (current organization user : ℕ) → Accounts → List SessionRecord
list_sessions current organization user s =
    map (session_record current) (recent_of organization user s.sessions)

-- `revokeSession`: whether the session was there
unfoldable pub revoke_session :
    (now organization actor : ℕ) (reason : String) (session : ℕ) → Accounts → Bool × Accounts
revoke_session now organization actor reason session s =
    elim (find_first (is_own_session organization actor session) s.sessions) [
      | none ↦ (false, s)
      | some x ↦ (
        true,
        record_event
            (record {
              organization_id = organization;
              actor_user_id = actor;
              action = "auth.session.revoked";
              outcome = "success";
              target_type = "session";
              target_id = x.id;
            })
            (revoke_session_graph x.id reason now s),
      )
    ]

-- The ids of the sessions that are not revoked.
unfoldable pub open_sessions : (organization user : ℕ) → List Session → List ℕ
open_sessions organization user [] = []
open_sessions organization user (x ∷ xs) =
    let rest = open_sessions organization user xs in
    if x.organization_id == organization && x.user_id == user && is_none x.revoked_at
    then x.id ∷ rest
    else rest

abbrev pub is_in : List ℕ → ℕ → Bool
is_in ids id = any (λ i. i == id) ids

abbrev pub is_unrevoked_in : List ℕ → RefreshToken → Bool
is_unrevoked_in ids t = is_in ids t.session_id && is_none t.revoked_at

unfoldable pub revoke_ids : List ℕ → (reason : String) (now : ℕ) → Accounts → Accounts
revoke_ids ids reason now s = record s {
  sessions = update_where (λ x. is_in ids x.id) (revoke reason now) s.sessions;
  refresh_tokens = update_where (is_unrevoked_in ids) (revoke_token now) s.refresh_tokens;
}

-- `revokeAllSessions`: the number of sessions that were revoked
unfoldable pub revoke_all_sessions :
    (now organization user : ℕ) (reason : String) → Accounts → ℕ × Accounts
revoke_all_sessions now organization user reason s =
    let ids = open_sessions organization user s.sessions in
    (
      length ids,
      record_event
          (record {
            organization_id = organization;
            actor_user_id = user;
            action = "auth.sessions.revoked_all";
            outcome = "success";
            target_type = "user";
            target_id = user;
          })
          (revoke_ids ids reason now s),
    )
