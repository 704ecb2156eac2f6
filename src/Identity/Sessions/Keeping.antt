-- ===== src/Identity/Sessions/Keeping.antt =====
-- The operations keep the invariant of the sessions and what is known of the rows.
use sentriqora.Base.{
  ℕ, ◌≤◌, ◌<◌, ◌≡◌, refl, sym, ap, ◌∙◌, subst, true, false, ◌==◌, String, any, All, All-map, arith,
  any-update_where, update_where-All, count_where,
}
use sentriqora.Identity.Store.{Session, RefreshToken, Accounts}
use sentriqora.Identity.Sessions.{
  Rotation, RotationResult, is_session, is_unrevoked, is_live, seen_at, revoke_session_graph,
}
use sentriqora.Identity.Sessions.Refresh.{touch_session}
use sentriqora.Identity.Sessions.Rows.{
  IsKnown, IsClosed, Keeps, Keeps-trans, frame-Keeps, update_sessions-Keeps,
}
use sentriqora.Identity.Sessions.Consistency.{
  is_live_of, HasSession, IsConsistent, seen_at-IsClosing, revoke_rows-Keeps, revoke_rows-IsClosed,
  revoke_rows-dead, revoke_rows-IsConsistent,
}
use sentriqora.Identity.Sessions.Cases.{IsStopped}

-- What is stated of `sessions`, `refresh_tokens` and the counter holds after a change of the rest.
pub record IsSame (s s' : Accounts) : Type 0 where
  pub refresh_tokens : s'.refresh_tokens ≡ s.refresh_tokens
  pub sessions : s'.sessions ≡ s.sessions
  pub next_id : s.next_id ≤ s'.next_id

pub same-Keeps : (s s' : Accounts) → IsSame s s' → Keeps s s'
same-Keeps s s' e = frame-Keeps s s' e.refresh_tokens e.sessions e.next_id

pub same-IsConsistent : (s s' : Accounts) → IsSame s s' → IsConsistent s → IsConsistent s'
same-IsConsistent s s' e c = record {
  known = subst (All (λ t. IsKnown s' t.id t.token_hash t.session_id)) (sym e.refresh_tokens) (
      All-map (λ t. IsKnown s t.id t.token_hash t.session_id)
        (λ t. IsKnown s' t.id t.token_hash t.session_id) s.refresh_tokens
        (λ t k. (same-Keeps s s' e).known _ _ _ k) c.known);
  bounded = subst (All (λ x. x.id < s'.next_id)) (sym e.sessions) (
      All-map (λ x. x.id < s.next_id) (λ x. x.id < s'.next_id) s.sessions
        (λ x h. omega (arith, h, e.next_id)) c.bounded);
  live = subst (All (HasSession s')) (sym e.refresh_tokens) (
      All-map (HasSession s) (HasSession s') s.refresh_tokens
        (λ t h live. ap (any (is_unrevoked t.session_id)) e.sessions ∙ h live) c.live);
  one = λ session.
      subst (λ ts. count_where (is_live_of session) ts ≤ 1) (sym e.refresh_tokens) (c.one session);
}

pub touch-IsConsistent :
    (id now : ℕ) (s : Accounts) → IsConsistent s → IsConsistent (touch_session id now s)
unfolding touch_session
touch-IsConsistent id now s c = record {
  known =
      All-map (λ t. IsKnown s t.id t.token_hash t.session_id) _ s.refresh_tokens
        (λ t k.
          (update_sessions-Keeps (is_session id) (seen_at now) s (seen_at-IsClosing now)).known _ _
            _ k)
        c.known;
  bounded =
      update_where-All (λ x. x.id < s.next_id) (λ x. x.id < s.next_id) (is_session id) (seen_at now)
        s.sessions (λ x _ h. h) (λ x h. h) c.bounded;
  live =
      All-map (HasSession s) (HasSession (touch_session id now s)) s.refresh_tokens
        (λ t h live.
          any-update_where (is_unrevoked t.session_id) (is_session id) (seen_at now) s.sessions
            (λ x _. refl)
          ∙ h live)
        c.live;
  one = λ session. c.one session;
}

-- An operation keeps the invariant and what is known.
abbrev pub IsKeeping : Accounts → Accounts → Type 0
IsKeeping s s' = Keeps s s' × (IsConsistent s → IsConsistent s')

pub IsKeeping-trans : (s s' s'' : Accounts) → IsKeeping s s' → IsKeeping s' s'' → IsKeeping s s''
IsKeeping-trans s s' s'' (keeps, consistent) (keeps', consistent') =
    (Keeps-trans s s' s'' keeps keeps', λ c. consistent' (consistent c))

pub same-IsKeeping : (s s' : Accounts) → IsSame s s' → IsKeeping s s'
same-IsKeeping s s' e = (same-Keeps s s' e, same-IsConsistent s s' e)

-- `revokeSessionGraph`
module _ (session : ℕ) (reason : String) (now : ℕ) (s : Accounts) where
  inside : (x : Session) → is_unrevoked session x ≡ true → (x.id == session) ≡ true
  inside x hit = ground (arith, hit)

  pub graph-IsKeeping : IsKeeping s (revoke_session_graph session reason now s)
  unfolding revoke_session_graph
  graph-IsKeeping = (
    revoke_rows-Keeps (λ j. j == session) (is_unrevoked session) reason now s inside,
    revoke_rows-IsConsistent (λ j. j == session) (is_unrevoked session) reason now s inside,
  )

  pub graph-IsClosed :
      session < s.next_id → IsClosed (revoke_session_graph session reason now s) session
  unfolding revoke_session_graph
  graph-IsClosed below = record {
    below = below;
    revoked =
        revoke_rows-IsClosed (λ j. j == session) (is_unrevoked session) reason now s inside session
          (λ x hit. hit);
  }

  pub graph-dead :
      All
        (λ t. t.session_id ≡ session → is_live t ≡ false)
        (revoke_session_graph session reason now s).refresh_tokens
  unfolding revoke_session_graph
  graph-dead =
      revoke_rows-dead (λ j. j == session) (is_unrevoked session) reason now s inside session
        (ground arith)

pub same-IsClosed :
    (s s' : Accounts) (session : ℕ) → IsSame s s' → IsClosed s session → IsClosed s' session
same-IsClosed s s' session e c = record {
  below = omega (arith, c.below, e.next_id);
  revoked = ap (any (is_unrevoked session)) e.sessions ∙ c.revoked;
}

module _ (r : Rotation) (t : RefreshToken) (x : Session) (s : Accounts) (result : RotationResult)
    (s' : Accounts) where
  stopped_same :
      (stop : IsStopped r t x s result s')
      → IsSame (revoke_session_graph t.session_id stop.reason r.now s) s'
  unfolding revoke_session_graph
  stopped_same stop = record {
    refresh_tokens = stop.refresh_tokens;
    sessions = stop.sessions;
    next_id = omega (arith, stop.next_id);
  }

  pub stopped-IsKeeping : IsStopped r t x s result s' → IsKeeping s s'
  stopped-IsKeeping stop =
      IsKeeping-trans s _ s' (graph-IsKeeping t.session_id stop.reason r.now s)
        (same-IsKeeping _ s' (stopped_same stop))

  pub stopped-IsClosed :
      t.session_id < s.next_id → IsStopped r t x s result s' → IsClosed s' t.session_id
  stopped-IsClosed below stop =
      same-IsClosed _ s' t.session_id (stopped_same stop)
        (graph-IsClosed t.session_id stop.reason r.now s below)

  pub stopped-dead :
      IsStopped r t x s result s'
      → All (λ u. u.session_id ≡ t.session_id → is_live u ≡ false) s'.refresh_tokens
  stopped-dead stop =
      subst (All (λ u. u.session_id ≡ t.session_id → is_live u ≡ false)) (sym stop.refresh_tokens)
        (graph-dead t.session_id stop.reason r.now s)
