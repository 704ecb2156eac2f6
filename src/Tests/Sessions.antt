-- ===== src/Tests/Sessions.antt =====
-- A session that is started, and whose refresh token is rotated and then used again.
use sentriqora.Base.{
  ◌≤◌, ◌≡◌, ◌⊎◌, refl, true, false, none, some, List, [], ◌∷◌, units, ok, any, All, Memᴰ,
  count_where, find_first, update_where,
}
use sentriqora.Identity.Store.{
  active, enrolled, Session, RefreshToken, Accounts, SessionPrincipal, is_recent_mfa, principal_for,
  permission_keys_of, keys_of_membership, sort_unique, record_event,
}
use sentriqora.Identity.Sessions.{
  NewSession, Rotation, RotationResult, rotated, reused, device_mismatch, is_live, is_unrevoked,
  create_session, create_session_body, insert_token,
}
use sentriqora.Identity.Sessions.Refresh.{
  current_of, rotate_refresh_token, rotate_body, rotate_current, rotate_live, issue, consume_token,
}
use sentriqora.Identity.Sessions.Consistency.{IsConsistent}
use sentriqora.Identity.Sessions.Histories.{
  Event, started, answered, History, start, creates, rotates, is_rotation_of, is_quiet,
}
use sentriqora.Identity.Sessions.Guarantees.{rotated_once, revoked_is_final, History-IsConsistent}
use sentriqora.Identity.Sessions.Reuse.{reuse_revokes, rotate_succeeds, is_taken, is_successor}

abbrev pub blank : Accounts
blank = record {
  users =
      record {
        id = 2;
        email = units "A@b.c";
        normalized_email = units "a@b.c";
        display_name = units "Ada";
        status = active;
      }
      ∷ [];
  credentials = [];
  organizations = [];
  memberships = record { id = 5; organization_id = 1; user_id = 2; status = enrolled } ∷ [];
  roles = [];
  permissions = [];
  role_permissions = [];
  membership_roles = [];
  invitations = [];
  sessions = [];
  refresh_tokens = [];
  mfa_methods = [];
  recovery_codes = [];
  mfa_challenges = [];
  sla_policies = [];
  event_records = [];
  next_id = 10;
}

abbrev input : NewSession
input = record {
  device_name = units "Laptop";
  expires_at = 9_000;
  ip_address = units "::1";
  mfa_verified_at = none;
  organization_id = 1;
  refresh_expires_at = 9_000;
  refresh_token_family_id = 7;
  refresh_token_hash = 70;
  user_agent_hash = 80;
  user_id = 2;
}

abbrev principal : SessionPrincipal
principal = record {
  display_name = units "Ada";
  email = units "A@b.c";
  mfa_verified = false;
  organization_id = 1;
  permissions = [];
  session_id = 10;
  user_id = 2;
}

abbrev opened : Accounts
opened = (create_session 100 input blank).1

abbrev session : Session
session = record {
  id = 10;
  organization_id = 1;
  user_id = 2;
  device_name = units "Laptop";
  user_agent_hash = 80;
  ip_address = units "::1";
  mfa_verified_at = none;
  created_at = 100;
  last_seen_at = 100;
  expires_at = 9_000;
  revoked_at = none;
  revoke_reason = none;
}

abbrev token : RefreshToken
token = record {
  id = 11;
  organization_id = 1;
  session_id = 10;
  family_id = 7;
  token_hash = 70;
  parent_token_id = none;
  expires_at = 9_000;
  used_at = none;
  revoked_at = none;
}

abbrev rotation : Rotation
rotation = record {
  current_token_hash = 70;
  expected_user_agent_hash = 80;
  new_expires_at = 9_500;
  new_token_hash = 71;
  now = 200;
  organization_id = 1;
}

abbrev renewed : Accounts
renewed = (rotate_refresh_token rotation opened opened).1

abbrev spent : Accounts
spent = (rotate_refresh_token rotation opened renewed).1

opening : create_session 100 input blank ≡ (ok (principal, 10), opened)
unfolding create_session create_session_body insert_token principal_for find_first is_recent_mfa
    permission_keys_of sort_unique keys_of_membership
opening = refl

rotating : rotate_refresh_token rotation opened opened ≡ (ok (rotated principal), renewed)
unfolding rotate_refresh_token rotate_body current_of find_first create_session create_session_body
    insert_token principal_for record_event rotate_current rotate_live count_where issue
    consume_token update_where is_recent_mfa permission_keys_of sort_unique keys_of_membership
rotating = refl

reading : current_of 70 opened ≡ some (token, session)
unfolding current_of find_first create_session create_session_body insert_token principal_for
    record_event
reading = refl

-- A second request with the same token that has read it before the first was answered.
again : rotate_refresh_token rotation opened renewed ≡ (ok reused, spent)
unfolding rotate_refresh_token rotate_body current_of find_first create_session create_session_body
    insert_token principal_for record_event rotate_current rotate_live count_where issue
    consume_token update_where
again = refl

history :
    History
      (spent ∷ renewed ∷ opened ∷ blank ∷ [])
      (answered 70 10 reused ∷ answered 70 10 (rotated principal) ∷ started 10 ∷ [])
      spent
history =
    rotates rotation opened token session reused spent
      (rotates rotation opened token session (rotated principal) renewed
        (creates 100 input principal 10 opened (start blank refl refl) opening) (Memᴰ.head refl)
        reading rotating)
      (Memᴰ.tail (Memᴰ.head refl)) reading again

abbrev short_history : History (opened ∷ blank ∷ []) (started 10 ∷ []) opened
short_history = creates 100 input principal 10 opened (start blank refl refl) opening

abbrev log : List Event
log = answered 70 10 reused ∷ answered 70 10 (rotated principal) ∷ started 10 ∷ []

rotated_once_example : count_where (is_rotation_of 70) log ≤ 1
rotated_once_example = rotated_once history 70

revoked_is_final_example : is_quiet 10 log ≡ true
revoked_is_final_example = revoked_is_final history 10

History-IsConsistent_example : IsConsistent spent
History-IsConsistent_example = History-IsConsistent history

abbrev used_token : RefreshToken
used_token = record token { used_at = some 200 }

abbrev seen_session : Session
seen_session = record session { last_seen_at = 200 }

history_after :
    History
      (renewed ∷ opened ∷ blank ∷ [])
      (answered 70 10 (rotated principal) ∷ started 10 ∷ [])
      renewed
history_after =
    rotates rotation opened token session (rotated principal) renewed
      (creates 100 input principal 10 opened (start blank refl refl) opening) (Memᴰ.head refl)
      reading rotating

reading_used : current_of 70 renewed ≡ some (used_token, seen_session)
unfolding current_of find_first rotate_refresh_token rotate_body create_session create_session_body
    insert_token principal_for record_event rotate_current rotate_live count_where issue
    consume_token update_where
reading_used = refl

reuse_revokes_example :
    (result : RotationResult) × (s' : Accounts) × (rotate_refresh_token rotation renewed renewed
      ≡ (ok result, s'))
    × ((result ≡ device_mismatch) ⊎ (result ≡ reused))
    × (any (is_unrevoked 10) s'.sessions ≡ false)
    × All (λ u. u.session_id ≡ 10 → is_live u ≡ false) s'.refresh_tokens
reuse_revokes_example =
    reuse_revokes history_after rotation used_token seen_session reading_used refl refl

active_member : principal_for opened 1 2 10 (is_recent_mfa none 200) ≡ some principal
unfolding principal_for find_first create_session create_session_body insert_token record_event
    is_recent_mfa permission_keys_of sort_unique keys_of_membership
active_member = refl

untaken : any (is_taken rotation token) opened.refresh_tokens ≡ false
unfolding create_session create_session_body insert_token principal_for find_first record_event
untaken = refl

rotate_succeeds_example :
    (s' : Accounts) × (rotate_refresh_token rotation opened opened ≡ (ok (rotated principal), s'))
    × (any (is_successor rotation token) s'.refresh_tokens ≡ true)
rotate_succeeds_example =
    rotate_succeeds (creates 100 input principal 10 opened (start blank refl refl) opening) rotation
      token session principal reading refl refl refl refl active_member untaken
