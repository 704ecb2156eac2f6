-- ===== src/Identity/Sessions/Issuing.antt =====
-- The operations that insert refresh tokens: they keep the invariant, and consume a token for good.
use sentriqora.Base.{
  ℕ, ◌≡◌, refl, sym, ◌∙◌, subst, true, false, any, All-map, All-both, any-eq-true, arith,
  any-append-last, update_where-All_split, count_where, count_where-none, count_where-update_where,
  count_where-any,
}
use sentriqora.Identity.Store.{Session, RefreshToken, Accounts}
use sentriqora.Identity.Sessions.{
  NewSession, Rotation, RotationResult, is_session, is_unrevoked, is_live, is_token, consume,
  seen_at,
}
use sentriqora.Identity.Sessions.Refresh.{child_token, consume_token, touch_session}
use sentriqora.Identity.Sessions.Rows.{
  SameRow, IsKnown, IsSpent, Keeps, Keeps-trans, with_token, with_session, update_tokens-Keeps,
  update_sessions-Keeps, with_token-Keeps, with_session-Keeps,
}
use sentriqora.Identity.Sessions.Consistency.{
  is_live_of, HasSession, IsConsistent, consume-IsLowering, seen_at-IsClosing, lower-IsConsistent,
  with_session-IsConsistent, with_token-IsConsistent,
}
use sentriqora.Identity.Sessions.Cases.{IsIssued, IsCreated}
use sentriqora.Identity.Sessions.Keeping.{IsSame, same-Keeps, same-IsConsistent, touch-IsConsistent}

module _ (id hash session now : ℕ) (s : Accounts) (k : IsKnown s id hash session)
    (single : count_where (is_token id) s.refresh_tokens ≡ 1) (c : IsConsistent s) where
  -- The live row with the id.
  consumed_open : any (is_unrevoked session) s.sessions ≡ true
  consumed_open =
      let (t, (same, h), hit) =
        any-eq-true (λ t. SameRow id hash session t × HasSession s t) (is_token id) s.refresh_tokens
          (count_where-any (is_token id) s.refresh_tokens 0 single)
          (All-both (SameRow id hash session) (HasSession s) s.refresh_tokens k.rows c.live) in
      let mine : t.session_id ≡ session = (same.0 (ground (arith, hit))).1 in
      subst (λ j. any (is_unrevoked j) s.sessions ≡ true) mine (h (ground (arith, hit)))

  consumed_alone : count_where (is_live_of session) (consume_token id now s).refresh_tokens ≡ 0
  unfolding consume_token
  consumed_alone = omega (
    arith,
    single,
    c.one session,
    count_where-update_where (is_live_of session) (is_token id) (consume now) s.refresh_tokens
        (λ t. ground arith)
        (All-map (SameRow id hash session) (λ t. is_token id t ≡ true → is_live_of session t ≡ true)
          s.refresh_tokens (λ t same hit. ground (arith, hit, (same.0 (ground (arith, hit))).1))
          k.rows),
  )

  consumed_spent : IsSpent (consume_token id now s) hash
  unfolding consume_token
  consumed_spent =
      let kept = update_tokens-Keeps (is_token id) (consume now) s (consume-IsLowering now) in
      record {
        present = (kept.known id hash session k).present;
        dead =
            update_where-All_split (SameRow id hash session)
              (λ t. t.token_hash ≡ hash → is_live t ≡ false) (is_token id) (consume now)
              s.refresh_tokens (λ t _ same e. refl)
              (λ t miss same e. ground (arith, miss, same.1 e)) k.rows;
      }

module _ (r : Rotation) (t : RefreshToken) (x : Session) (s : Accounts) (result : RotationResult)
    (s' : Accounts) (k : IsKnown s t.id t.token_hash t.session_id)
    (issued : IsIssued r t x s result s') where
  abbrev consumed : Accounts
  consumed = consume_token t.id r.now s

  abbrev child : Accounts
  child = with_token consumed (child_token consumed.next_id r t)

  consumed-Keeps : Keeps s consumed
  unfolding consume_token
  consumed-Keeps = update_tokens-Keeps (is_token t.id) (consume r.now) s (consume-IsLowering r.now)

  child-Keeps : Keeps consumed child
  unfolding child_token
  child-Keeps = with_token-Keeps (child_token consumed.next_id r t) consumed refl issued.unused

  touched-Keeps : Keeps child s'
  unfolding touch_session
  touched-Keeps = subst (Keeps child) (sym issued.after) (
      update_sessions-Keeps (is_session t.session_id) (seen_at r.now) child
        (seen_at-IsClosing r.now))

  pub issued-Keeps : Keeps s s'
  issued-Keeps =
      Keeps-trans s consumed s' consumed-Keeps
        (Keeps-trans consumed child s' child-Keeps touched-Keeps)

  -- The session was not revoked.
  pub issued_open : IsConsistent s → any (is_unrevoked t.session_id) s.sessions ≡ true
  issued_open c = consumed_open t.id t.token_hash t.session_id r.now s k issued.single c

  pub issued-IsSpent : IsConsistent s → IsSpent s' t.token_hash
  issued-IsSpent c = touched-Keeps.spent t.token_hash (
      child-Keeps.spent t.token_hash
        (consumed_spent t.id t.token_hash t.session_id r.now s k issued.single c))

  pub issued-IsConsistent : IsConsistent s → IsConsistent s'
  unfolding child_token consume_token
  issued-IsConsistent c = subst IsConsistent (sym issued.after) (
      touch-IsConsistent t.session_id r.now child (
        with_token-IsConsistent (child_token consumed.next_id r t) consumed refl issued.unused
          (issued_open c) (consumed_alone t.id t.token_hash t.session_id r.now s k issued.single c)
          (lower-IsConsistent (is_token t.id) (consume r.now) s (consume-IsLowering r.now) c)))

module _ (now : ℕ) (input : NewSession) (s : Accounts) (session : ℕ) (s' : Accounts)
    (created : IsCreated now input s session s') where
  abbrev opened : Accounts
  opened = with_session s created.row

  created_same : IsSame (with_token opened created.token) s'
  created_same = record {
    refresh_tokens = created.refresh_tokens;
    sessions = created.sessions;
    next_id = omega (arith, created.next_id);
  }

  pub created-Keeps : Keeps s s'
  created-Keeps = Keeps-trans s opened s' (with_session-Keeps created.row s created.row_id) (
      Keeps-trans opened _ s'
        (with_token-Keeps created.token opened created.token_id created.unused)
        (same-Keeps _ s' created_same))

  -- The session is new, so that no live token belongs to it.
  new_alone :
      IsConsistent s → count_where (is_live_of created.token.session_id) s.refresh_tokens ≡ 0
  new_alone c = count_where-none (is_live_of created.token.session_id) s.refresh_tokens (
      All-map (λ t. IsKnown s t.id t.token_hash t.session_id)
        (λ t. is_live_of created.token.session_id t ≡ false) s.refresh_tokens
        (λ t k. ground (arith, k.bounded, created.token_session)) c.known)

  new_open : any (is_unrevoked created.token.session_id) opened.sessions ≡ true
  new_open =
      any-append-last (is_unrevoked created.token.session_id) s.sessions created.row
      ∙ ground (arith, created.row_id, created.token_session, created.unrevoked)

  pub created-IsConsistent : IsConsistent s → IsConsistent s'
  created-IsConsistent c = same-IsConsistent _ s' created_same (
      with_token-IsConsistent created.token opened created.token_id created.unused new_open
        (new_alone c) (with_session-IsConsistent created.row s created.row_id c))
