-- ===== src/Identity/Sessions/Cases.antt =====
-- The branches of the operations on sessions.
use sentriqora.Base.{
  ℕ, suc, ◌≡◌, ◌⊎◌, inl, inr, refl, sym, ap, ◌∙◌, subst, false, ◌==◌, ==→eq, String, none, Result,
  ok, ok_of_bind, ok-injective, any, count_where, Bool-cases,
}
use sentriqora.Identity.Store.{
  Session, RefreshToken, Accounts, Failure, SessionPrincipal, is_recent_mfa, principal_for,
  record_event,
}
use sentriqora.Identity.Sessions.{
  NewSession, Rotation, RotationResult, invalid, device_mismatch, reused, has_hash, is_live,
  is_token, insert_token, revoke_session_graph, create_session_body, new_session, first_token,
  insert_session, or_missing,
}
use sentriqora.Identity.Sessions.Refresh.{
  child_token, consume_token, touch_session, rotation_of, issue, reuse_detected, is_expired,
  rotate_live, rotate_current,
}
use sentriqora.Identity.Sessions.Rows.{insert_token_cases, with_token, with_session}

module _ (r : Rotation) (t : RefreshToken) (x : Session) (s : Accounts) where
  abbrev consumed : Accounts
  consumed = consume_token t.id r.now s

  -- The token is consumed, its successor is inserted and the session is touched.
  pub record IsIssued (result : RotationResult) (s' : Accounts) : Type 0 where
    pub organization : t.organization_id ≡ r.organization_id
    pub fingerprint : x.user_agent_hash ≡ r.expected_user_agent_hash
    pub alive : is_expired r t x ≡ false
    pub single : count_where (is_token t.id) s.refresh_tokens ≡ 1
    pub unused : any (has_hash r.new_token_hash) consumed.refresh_tokens ≡ false
    pub after :
        s'
        ≡ touch_session t.session_id r.now (with_token consumed (child_token consumed.next_id r t))
    pub answer :
        result
        ≡ rotation_of (
            principal_for s' t.organization_id x.user_id t.session_id
              (is_recent_mfa x.mfa_verified_at r.now))

  -- The session is revoked.
  pub record IsStopped (result : RotationResult) (s' : Accounts) : Type 0 where
    pub reason : String
    pub answer : (result ≡ device_mismatch) ⊎ (result ≡ reused)
    pub sessions : s'.sessions ≡ (revoke_session_graph t.session_id reason r.now s).sessions
    pub refresh_tokens :
        s'.refresh_tokens ≡ (revoke_session_graph t.session_id reason r.now s).refresh_tokens
    pub next_id : s'.next_id ≡ s.next_id

  abbrev pub IsRefused : RotationResult → Accounts → Type 0
  IsRefused result s' = (result ≡ invalid) × (s' ≡ s)

  abbrev pub RotationCases : RotationResult → Accounts → Type 0
  RotationCases result s' = IsRefused result s' ⊎ (IsStopped result s' ⊎ IsIssued result s')

  issue-IsIssued :
      (result : RotationResult) (s' : Accounts)
      → t.organization_id ≡ r.organization_id
      → x.user_agent_hash ≡ r.expected_user_agent_hash
      → is_expired r t x ≡ false
      → count_where (is_token t.id) s.refresh_tokens ≡ 1
      → issue r t x consumed ≡ ok (result, s')
      → IsIssued result s'
  unfolding issue
  issue-IsIssued result s' organization fingerprint alive single h =
      let (s₁, inserted, returned) =
        ok_of_bind (insert_token (child_token consumed.next_id r t) consumed) _ h in
      let (unused, s₁_is) =
        insert_token_cases (child_token consumed.next_id r t) consumed s₁ inserted in
      let both = ok-injective returned in
      let after = sym (ap (λ p. p.1) both) in
      record {
        organization = organization;
        fingerprint = fingerprint;
        alive = alive;
        single = single;
        unused = unused;
        after = after ∙ ap (touch_session t.session_id r.now) s₁_is;
        answer =
            sym (ap (λ p. p.0) both)
            ∙ ap
                (λ s₂. rotation_of (
                  principal_for s₂ t.organization_id x.user_id t.session_id
                    (is_recent_mfa x.mfa_verified_at r.now)))
                (sym after);
      }

  pub stops :
      (result : RotationResult) (reason : String)
      → (result ≡ device_mismatch) ⊎ (result ≡ reused)
      → IsStopped result (revoke_session_graph t.session_id reason r.now s)
  unfolding revoke_session_graph
  stops result reason which = record {
    reason = reason;
    answer = which;
    sessions = refl;
    refresh_tokens = refl;
    next_id = refl;
  }

  pub stops_with_event :
      (result : RotationResult) (reason : String)
      → (result ≡ device_mismatch) ⊎ (result ≡ reused)
      → IsStopped result
          (record_event (reuse_detected r t x) (revoke_session_graph t.session_id reason r.now s))
  unfolding record_event revoke_session_graph
  stops_with_event result reason which = record {
    reason = reason;
    answer = which;
    sessions = refl;
    refresh_tokens = refl;
    next_id = refl;
  }

  returned_as :
      (P : RotationResult → Accounts → Type 0) (result result' : RotationResult) (s₁ s' : Accounts)
      → ◌≡◌ {A = Result Failure (RotationResult × Accounts)} (ok (result, s₁)) (ok (result', s'))
      → P result s₁
      → P result' s'
  returned_as P result result' s₁ s' h = subst (λ p. P p.0 p.1) (ok-injective h)

  -- What the rotation of a token that was found does when it does not throw.
  pub rotate_current_cases :
      (result : RotationResult) (s' : Accounts)
      → rotate_current r t x s ≡ ok (result, s')
      → RotationCases result s'
  unfolding rotate_current rotate_live
  rotate_current_cases result s' h = elim (Bool-cases (t.organization_id == r.organization_id)) [
    | inr other ↦ inl (returned_as IsRefused invalid result _ s' (rw other at h) (refl, refl))
    | inl own ↦ elim (Bool-cases (x.user_agent_hash == r.expected_user_agent_hash)) [
      | inr strange ↦ inr (
          inl (
            returned_as IsStopped device_mismatch result _ s' (rw (own, strange) at h)
              (stops device_mismatch "device_mismatch" (inl refl))))
      | inl known ↦ elim (Bool-cases (is_live t)) [
        | inr dead ↦ inr (
            inl (
              returned_as IsStopped reused result _ s' (rw (own, known, dead) at h)
                (stops_with_event reused "refresh_reuse" (inr refl))))
        | inl live ↦ elim (Bool-cases (is_expired r t x)) [
          | inl late ↦ inl (
              returned_as IsRefused invalid result _ s' (rw (own, known, live, late) at h)
                (refl, refl))
          | inr alive ↦ elim (Bool-cases (count_where (is_token t.id) s.refresh_tokens == 1)) [
            | inr lost ↦ inr (
                inl (
                  returned_as IsStopped reused result _ s' (rw (own, known, live, alive, lost) at h)
                    (stops reused "refresh_reuse" (inr refl))))
            | inl single ↦ inr (
                inr (
                  issue-IsIssued result s' (==→eq _ _ own) (==→eq _ _ known) alive
                    (==→eq _ _ single) (rw (own, known, live, alive, single) at h)))
          ]
        ]
      ]
    ]
  ]

-- What the creation of a session does when it does not throw.
pub record IsCreated (now : ℕ) (input : NewSession) (s : Accounts) (session : ℕ) (s' : Accounts)
    : Type 0 where
  pub token : RefreshToken
  pub row : Session
  pub named : session ≡ s.next_id
  pub row_id : row.id ≡ s.next_id
  pub unrevoked : row.revoked_at ≡ none
  pub token_id : token.id ≡ suc s.next_id
  pub token_session : token.session_id ≡ s.next_id
  pub token_hash : token.token_hash ≡ input.refresh_token_hash
  pub unused : any (has_hash token.token_hash) s.refresh_tokens ≡ false
  pub refresh_tokens : s'.refresh_tokens ≡ (with_token (with_session s row) token).refresh_tokens
  pub sessions : s'.sessions ≡ (with_token (with_session s row) token).sessions
  pub next_id : s'.next_id ≡ suc (suc s.next_id)

pub create_session-IsCreated :
    (now : ℕ) (input : NewSession) (s : Accounts) (p : SessionPrincipal) (session : ℕ)
    (s' : Accounts)
    → create_session_body now input s ≡ ok ((p, session), s')
    → IsCreated now input s session s'
unfolding create_session_body record_event new_session first_token insert_session
create_session-IsCreated now input s p session s' h =
    let x = new_session now s.next_id input in
    let t = first_token (suc s.next_id) s.next_id input in
    let (s₂, inserted, rest) = ok_of_bind (insert_token t (insert_session x s)) _ h in
    let (unused, s₂_is) = insert_token_cases t (insert_session x s) s₂ inserted in
    let (principal, found, returned) =
      ok_of_bind
        (or_missing (
          principal_for s₂ input.organization_id input.user_id s.next_id
            (is_recent_mfa input.mfa_verified_at now)))
        _ rest in
    let both = ok-injective returned in
    let after = sym (ap (λ q. q.1) both) in
    record {
      token = t;
      row = x;
      named = sym (ap (λ q. q.0.1) both);
      row_id = refl;
      unrevoked = refl;
      token_id = refl;
      token_session = refl;
      token_hash = refl;
      unused = unused;
      refresh_tokens =
          ap (λ (a : Accounts). a.refresh_tokens) (after)
          ∙ ap (λ (a : Accounts). a.refresh_tokens) s₂_is;
      sessions = ap (λ (a : Accounts). a.sessions) after ∙ ap (λ (a : Accounts). a.sessions) s₂_is;
      next_id = ap (λ (a : Accounts). a.next_id) after ∙ ap (λ (a : Accounts). a.next_id) s₂_is;
    }
