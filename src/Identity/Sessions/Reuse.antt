-- ===== src/Identity/Sessions/Reuse.antt =====
-- When the rotation of a refresh token succeeds, and what a second use of it does.
use sentriqora.Base.{
  ◌≡◌, ◌⊎◌, inl, inr, refl, ◌∙◌, Bool, true, false, ◌==◌, ◌&&◌, ◌||◌, some, List, ok, any,
  any-append-last, any-update_where, count_where-pos, count_where-le, transaction_of_ok, All,
  All-map, find_first, arith, count_where, Bool-cases,
}
use sentriqora.Identity.Store.{
  Session, RefreshToken, Accounts, SessionPrincipal, is_recent_mfa, principal_for, record_event,
  permission_keys_of, keys_of_membership, keys_of_role,
}
use sentriqora.Identity.Sessions.{
  Rotation, RotationResult, device_mismatch, reused, rotated, is_live, has_hash, has_parent,
  is_unrevoked, revoke_session_graph, is_token, consume, insert_token,
}
use sentriqora.Identity.Sessions.Refresh.{
  current_of, reuse_detected, rotate_current, rotate_body, rotate_refresh_token, is_expired,
  rotate_live, issue, consume_token, child_token, touch_session,
}
use sentriqora.Identity.Sessions.Consistency.{is_live_of, IsConsistent}
use sentriqora.Identity.Sessions.Rows.{with_token, IsKnown}
use sentriqora.Identity.Sessions.Cases.{IsStopped, stops, stops_with_event}
use sentriqora.Identity.Sessions.Keeping.{stopped-IsClosed, stopped-dead}
use sentriqora.Identity.Sessions.Histories.{Event, History}
use sentriqora.Identity.Sessions.Invariant.{current-IsKnown, current_of_cases}
use sentriqora.Identity.Sessions.Guarantees.{History-IsConsistent}

module _ (r : Rotation) (s : Accounts) (t : RefreshToken) (x : Session) where
  pub rotate_read :
      (result : RotationResult) (s' : Accounts)
      → current_of r.current_token_hash s ≡ some (t, x)
      → rotate_current r t x s ≡ ok (result, s')
      → rotate_refresh_token r s s ≡ (ok result, s')
  unfolding rotate_refresh_token rotate_body
  rotate_read result s' read done =
      transaction_of_ok (rotate_body r s) s (rw (read, rotate_body) done)

  dead_rotation :
      t.organization_id ≡ r.organization_id
      → is_live t ≡ false
      → (result : RotationResult) × (s' : Accounts) × (rotate_current r t x s ≡ ok (result, s'))
        × IsStopped r t x s result s'
  unfolding rotate_current
  dead_rotation own dead = elim (Bool-cases (x.user_agent_hash == r.expected_user_agent_hash)) [
    | inr strange ↦ (
      device_mismatch,
      revoke_session_graph t.session_id "device_mismatch" r.now s,
      ground (arith, own, strange),
      stops r t x s device_mismatch "device_mismatch" (inl refl),
    )
    | inl known ↦ (
      reused,
      record_event (reuse_detected r t x)
          (revoke_session_graph t.session_id "refresh_reuse" r.now s),
      ground (arith, own, known, dead),
      stops_with_event r t x s reused "refresh_reuse" (inr refl),
    )
  ]

-- In a state of any history, a refresh token that was used or revoked is answered by `reused`, or by
-- `device_mismatch`; after that its session is revoked and none of the session's tokens is live.
pub reuse_revokes :
    {past : List Accounts} {log : List Event} {s : Accounts}
    → History past log s
    → (r : Rotation) (t : RefreshToken) (x : Session)
    → current_of r.current_token_hash s ≡ some (t, x)
    → t.organization_id ≡ r.organization_id
    → is_live t ≡ false
    → (result : RotationResult) × (s' : Accounts) × (rotate_refresh_token r s s ≡ (ok result, s'))
      × ((result ≡ device_mismatch) ⊎ (result ≡ reused))
      × (any (is_unrevoked t.session_id) s'.sessions ≡ false)
      × All (λ u. u.session_id ≡ t.session_id → is_live u ≡ false) s'.refresh_tokens
reuse_revokes {s = s} h r t x read own dead =
    let (k, _) = current-IsKnown r.current_token_hash s s t x (History-IsConsistent h).known read in
    let (result, s', done, stop) = dead_rotation r s t x own dead in
    (
      result,
      s',
      rotate_read r s t x result s' read done,
      stop.answer,
      (stopped-IsClosed r t x s result s' k.bounded stop).revoked,
      stopped-dead r t x s result s' stop,
    )

-- The token that takes the place of a rotated one.
abbrev pub is_successor : Rotation → RefreshToken → RefreshToken → Bool
is_successor r t u = u.token_hash == r.new_token_hash && is_live_of t.session_id u

-- No token has the new hash, or is a successor of this one already.
abbrev pub is_taken : Rotation → RefreshToken → RefreshToken → Bool
is_taken r t u = u.token_hash == r.new_token_hash || has_parent (some t.id) u

module _ (r : Rotation) (s : Accounts) (t : RefreshToken) (x : Session) (p : SessionPrincipal)
    (c : IsConsistent s) (k : IsKnown s t.id t.token_hash t.session_id) where
  live_single :
      find_first (has_hash r.current_token_hash) s.refresh_tokens ≡ some t
      → is_live t ≡ true
      → (count_where (is_token t.id) s.refresh_tokens == 1) ≡ true
  live_single found live =
      let at_least =
        count_where-pos (is_token t.id) (has_hash r.current_token_hash) s.refresh_tokens t found
          (ground (arith, live)) in
      let at_most = count_where-le (is_live_of t.session_id) (is_token t.id) s.refresh_tokens (
        All-map _ (λ u. is_token t.id u ≡ true → is_live_of t.session_id u ≡ true) s.refresh_tokens
          (λ u same hit. ground (arith, hit, (same.0 (ground (arith, hit))).1)) k.rows) in
      ground (arith, at_least, at_most, c.one t.session_id)

  abbrev consumed : Accounts
  consumed = consume_token t.id r.now s

  abbrev child : RefreshToken
  child = child_token consumed.next_id r t

  abbrev issued_state : Accounts
  issued_state = touch_session t.session_id r.now (with_token consumed child)

  inserted :
      any (is_taken r t) s.refresh_tokens ≡ false
      → insert_token child consumed ≡ ok (with_token consumed child)
  unfolding insert_token consume_token child_token
  inserted untaken =
      let untaken' =
        any-update_where (is_taken r t) (is_token t.id) (consume r.now) s.refresh_tokens
          (λ u _. refl)
        ∙ untaken in
      ground (arith, untaken')

  same_principal :
      principal_for issued_state t.organization_id x.user_id t.session_id
        (is_recent_mfa x.mfa_verified_at r.now)
      ≡ principal_for s t.organization_id x.user_id t.session_id
          (is_recent_mfa x.mfa_verified_at r.now)
  unfolding principal_for touch_session consume_token permission_keys_of keys_of_membership
      keys_of_role
  same_principal = refl

  issue_succeeds :
      principal_for s t.organization_id x.user_id t.session_id
          (is_recent_mfa x.mfa_verified_at r.now)
        ≡ some p
      → any (is_taken r t) s.refresh_tokens ≡ false
      → issue r t x consumed ≡ ok (rotated p, issued_state)
  unfolding issue
  issue_succeeds active untaken = rw (inserted untaken, same_principal ∙ active) refl

  successor : any (is_successor r t) issued_state.refresh_tokens ≡ true
  unfolding touch_session child_token consume_token
  successor = any-append-last (is_successor r t) (consumed.refresh_tokens) child ∙ ground arith

-- In a state of any history, a live and unexpired refresh token of an active member rotates when it
-- comes from its device, unless its new hash is taken or it has a successor: the answer is `rotated`
-- with the member's principal, and then a live token of the same session has the new hash.
pub rotate_succeeds :
    {past : List Accounts} {log : List Event} {s : Accounts}
    → History past log s
    → (r : Rotation) (t : RefreshToken) (x : Session) (p : SessionPrincipal)
    → current_of r.current_token_hash s ≡ some (t, x)
    → t.organization_id ≡ r.organization_id
    → x.user_agent_hash ≡ r.expected_user_agent_hash
    → is_live t ≡ true
    → is_expired r t x ≡ false
    → principal_for s t.organization_id x.user_id t.session_id
        (is_recent_mfa x.mfa_verified_at r.now)
      ≡ some p
    → any (is_taken r t) s.refresh_tokens ≡ false
    → (s' : Accounts) × (rotate_refresh_token r s s ≡ (ok (rotated p), s'))
      × (any (is_successor r t) s'.refresh_tokens ≡ true)
unfolding rotate_current rotate_live
rotate_succeeds {s = s} h r t x p read own known live alive active untaken =
    let c = History-IsConsistent h in
    let (k, _) = current-IsKnown r.current_token_hash s s t x c.known read in
    let (found, _) = current_of_cases r.current_token_hash s t x read in
    let single = live_single r s t x p c k found live in
    let issued = issue_succeeds r s t x p c k active untaken in
    (
      issued_state r s t x p c k,
      rotate_read r s t x (rotated p) (issued_state r s t x p c k) read
          (ground (arith, own, known, live, alive, single, issued)),
      successor r s t x p c k,
    )
