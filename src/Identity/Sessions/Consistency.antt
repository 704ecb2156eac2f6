-- ===== src/Identity/Sessions/Consistency.antt =====
-- The invariant of `sessions` and `refresh_tokens`, and the statements that keep it.
use sentriqora.Base.{
  ℕ, suc, ◌≤◌, ◌<◌, ◌≡◌, refl, sym, ap, ◌∙◌, subst, Bool, true, false, ◌==◌, ◌&&◌, ==→eq, String,
  [], ◌∷◌, ◌++◌, any, All, All-append, All-map, any-eq-true, arith, any-update_where, any-append,
  any-append-last, any-false, any-All, All-unit, All-both, inl, inr, update_where, update_where-All,
  update_where-All_split, count_where, count_where-append, count_where-update_where-le, Bool-cases,
  one_if-le,
}
use sentriqora.Identity.Store.{Session, RefreshToken, Accounts, is_none}
use sentriqora.Identity.Sessions.{
  has_hash, is_unrevoked, is_live, revoke, revoke_token, consume, seen_at,
}
use sentriqora.Identity.Sessions.Rows.{
  SameRow, IsKnown, Keeps, Keeps-trans, IsLowering, IsClosing, with_tokens, with_sessions,
  with_token, with_session, update_tokens-Keeps, update_sessions-Keeps, with_token-Keeps,
  with_session-Keeps,
}

abbrev pub is_live_of : ℕ → RefreshToken → Bool
is_live_of session t = t.session_id == session && is_live t

-- A live token belongs to a session that is not revoked.
abbrev pub HasSession : Accounts → RefreshToken → Type 0
HasSession s t = is_live t ≡ true → any (is_unrevoked t.session_id) s.sessions ≡ true

pub record IsConsistent (s : Accounts) : Type 0 where
  pub known : All (λ t. IsKnown s t.id t.token_hash t.session_id) s.refresh_tokens
  pub bounded : All (λ x. x.id < s.next_id) s.sessions
  pub live : All (HasSession s) s.refresh_tokens
  pub one : (session : ℕ) → count_where (is_live_of session) s.refresh_tokens ≤ 1

-- A row that an update rewrites stays known.
update-IsKnown :
    (q : RefreshToken → Bool) (f : RefreshToken → RefreshToken) (s s' : Accounts)
    → IsLowering f
    → Keeps s s'
    → All (λ t. IsKnown s t.id t.token_hash t.session_id) s.refresh_tokens
    → All (λ t. IsKnown s' t.id t.token_hash t.session_id) (update_where q f s.refresh_tokens)
update-IsKnown q f s s' l k h =
    update_where-All (λ t. IsKnown s t.id t.token_hash t.session_id)
      (λ t. IsKnown s' t.id t.token_hash t.session_id) q f s.refresh_tokens
      (λ t _ known. rw (l.id t, l.hash t, l.session t) (k.known _ _ _ known))
      (λ t known. k.known _ _ _ known) h

one-update :
    (q : RefreshToken → Bool) (f : RefreshToken → RefreshToken) (s : Accounts) (session : ℕ)
    → IsLowering f
    → count_where (is_live_of session) s.refresh_tokens ≤ 1
    → count_where (is_live_of session) (update_where q f s.refresh_tokens) ≤ 1
one-update q f s session l h = omega (
  arith,
  h,
  count_where-update_where-le (is_live_of session) q f s.refresh_tokens
      (λ t now. ground (arith, l.session t, l.live t, now)),
)

pub consume-IsLowering : (now : ℕ) → IsLowering (consume now)
consume-IsLowering now = record {
  id = λ t. refl;
  hash = λ t. refl;
  session = λ t. refl;
  live = λ t h. absurd (cc);
}

pub revoke_token-IsLowering : (now : ℕ) → IsLowering (revoke_token now)
revoke_token-IsLowering now = record {
  id = λ t. refl;
  hash = λ t. refl;
  session = λ t. refl;
  live = λ t h. absurd (ground (arith, h));
}

pub revoke-IsClosing : (reason : String) (now : ℕ) → IsClosing (revoke reason now)
revoke-IsClosing reason now = record { id = λ x. refl; revoked = λ x h. absurd (cc) }

pub seen_at-IsClosing : (now : ℕ) → IsClosing (seen_at now)
seen_at-IsClosing now = record { id = λ x. refl; revoked = λ x h. h }

pub lower-IsConsistent :
    (q : RefreshToken → Bool) (f : RefreshToken → RefreshToken) (s : Accounts)
    → IsLowering f
    → IsConsistent s
    → IsConsistent (with_tokens s (update_where q f s.refresh_tokens))
lower-IsConsistent q f s l c = record {
  known = update-IsKnown q f s _ l (update_tokens-Keeps q f s l) c.known;
  bounded = c.bounded;
  live =
      update_where-All (HasSession s) (HasSession s) q f s.refresh_tokens
        (λ t _ h now. ap (λ k. any (is_unrevoked k) s.sessions) (l.session t) ∙ h (l.live t now))
        (λ t h. h) c.live;
  one = λ session. one-update q f s session l (c.one session);
}

-- The rows of some sessions are revoked, and their tokens with them: `all` says which.
abbrev pub revoke_rows :
    (all : ℕ → Bool) (q : Session → Bool) (reason : String) (now : ℕ) → Accounts → Accounts
revoke_rows all q reason now s = record s {
  sessions = update_where q (revoke reason now) s.sessions;
  refresh_tokens =
      update_where (λ t. all t.session_id && is_none t.revoked_at) (revoke_token now)
        s.refresh_tokens;
}

module _ (all : ℕ → Bool) (q : Session → Bool) (reason : String) (now : ℕ) (s : Accounts)
    (inside : (x : Session) → q x ≡ true → all x.id ≡ true) where
  pub revoke_rows-Keeps : Keeps s (revoke_rows all q reason now s)
  revoke_rows-Keeps =
      Keeps-trans s (with_sessions s (update_where q (revoke reason now) s.sessions)) _
        (update_sessions-Keeps q (revoke reason now) s (revoke-IsClosing reason now))
        (update_tokens-Keeps _ (revoke_token now) _ (revoke_token-IsLowering now))

  others_open :
      (session : ℕ)
      → all session ≡ false
      → any (is_unrevoked session) (update_where q (revoke reason now) s.sessions)
        ≡ any (is_unrevoked session) s.sessions
  others_open session out =
      any-update_where (is_unrevoked session) q (revoke reason now) s.sessions λ x hit.
        elim (Bool-cases (x.id == session)) [
          | inl same ↦ absurd (ground (arith, inside x hit, out, ap all (==→eq x.id session same)))
          | inr other ↦ rw other
        ]

  pub revoke_rows-IsConsistent : IsConsistent s → IsConsistent (revoke_rows all q reason now s)
  revoke_rows-IsConsistent c = record {
    known = update-IsKnown _ _ s _ (revoke_token-IsLowering now) revoke_rows-Keeps c.known;
    bounded =
        update_where-All (λ x. x.id < s.next_id) (λ x. x.id < s.next_id) q (revoke reason now)
          s.sessions (λ x _ h. h) (λ x h. h) c.bounded;
    live =
        update_where-All_split (HasSession s) (HasSession (revoke_rows all q reason now s))
          (λ t. all t.session_id && is_none t.revoked_at) (revoke_token now) s.refresh_tokens
          (λ t _ h live. absurd (ground (arith, live)))
          (λ t miss h live. others_open t.session_id (ground (arith, miss, live)) ∙ h live) c.live;
    one = λ session. one-update _ _ s session (revoke_token-IsLowering now) (c.one session);
  }

  -- Of a session that is revoked, no token is live.
  pub revoke_rows-dead :
      (session : ℕ)
      → all session ≡ true
      → All
          (λ t. t.session_id ≡ session → is_live t ≡ false)
          (revoke_rows all q reason now s).refresh_tokens
  revoke_rows-dead session chosen =
      update_where-All_split (λ _. Unit {0}) (λ t. t.session_id ≡ session → is_live t ≡ false)
        (λ t. all t.session_id && is_none t.revoked_at) (revoke_token now) s.refresh_tokens
        (λ t _ h e. ground arith) (λ t miss h e. ground (arith, miss, rw (sym e) at chosen))
        (All-unit s.refresh_tokens)

  pub revoke_rows-IsClosed :
      (session : ℕ)
      → ((x : Session) → is_unrevoked session x ≡ true → q x ≡ true)
      → any (is_unrevoked session) (update_where q (revoke reason now) s.sessions) ≡ false
  revoke_rows-IsClosed session covers = any-false (is_unrevoked session) _ (
      update_where-All_split (λ _. Unit {0}) (λ x. is_unrevoked session x ≡ false) q
        (revoke reason now) s.sessions (λ x _ h. ground arith)
        (λ x miss h. elim (Bool-cases (is_unrevoked session x)) [
          | inl hit ↦ absurd (ground (arith, covers x hit, miss))
          | inr none_left ↦ none_left
        ])
        (All-unit s.sessions))

-- A new session, whose id is the next one.
pub with_session-IsConsistent :
    (x : Session) (s : Accounts)
    → x.id ≡ s.next_id
    → IsConsistent s
    → IsConsistent (with_session s x)
with_session-IsConsistent x s fresh c = record {
  known =
      All-map (λ t. IsKnown s t.id t.token_hash t.session_id)
        (λ t. IsKnown (with_session s x) t.id t.token_hash t.session_id) s.refresh_tokens
        (λ t known. (with_session-Keeps x s fresh).known _ _ _ known) c.known;
  bounded =
      All-append (λ y. y.id < suc s.next_id) s.sessions (x ∷ [])
        (All-map (λ y. y.id < s.next_id) (λ y. y.id < suc s.next_id) s.sessions
          (λ y h. omega (arith, h)) c.bounded)
        (omega (arith, fresh), tt);
  live =
      All-map (HasSession s) (HasSession (with_session s x)) s.refresh_tokens
        (λ t h live. any-append (is_unrevoked t.session_id) s.sessions (x ∷ []) (h live)) c.live;
  one = λ session. c.one session;
}

-- A new token, whose id is the next one, of a session that is not revoked and has no live token.
pub with_token-IsConsistent :
    (t : RefreshToken) (s : Accounts)
    → t.id ≡ s.next_id
    → any (has_hash t.token_hash) s.refresh_tokens ≡ false
    → any (is_unrevoked t.session_id) s.sessions ≡ true
    → count_where (is_live_of t.session_id) s.refresh_tokens ≡ 0
    → IsConsistent s
    → IsConsistent (with_token s t)
with_token-IsConsistent t s fresh unused is_open alone c = record {
  known =
      All-append (λ u. IsKnown (with_token s t) u.id u.token_hash u.session_id) s.refresh_tokens
        (t ∷ [])
        (All-map (λ u. IsKnown s u.id u.token_hash u.session_id)
          (λ u. IsKnown (with_token s t) u.id u.token_hash u.session_id) s.refresh_tokens
          (λ u known. (with_token-Keeps t s fresh unused).known _ _ _ known) c.known)
        (new_known, tt);
  bounded =
      All-map (λ y. y.id < s.next_id) (λ y. y.id < suc s.next_id) s.sessions
        (λ y h. omega (arith, h)) c.bounded;
  live = All-append (HasSession s) s.refresh_tokens (t ∷ []) c.live ((λ _. is_open), tt);
  one = λ session. one_more session;
}
  where
    session_bounded : t.session_id < suc s.next_id
    session_bounded =
        let (x, below, hit) =
          any-eq-true (λ x. x.id < s.next_id) (is_unrevoked t.session_id) s.sessions is_open
            c.bounded in
        ground (arith, below, hit)

    new_known : IsKnown (with_token s t) t.id t.token_hash t.session_id
    new_known = record {
      below = omega (arith, fresh);
      bounded = session_bounded;
      rows =
          All-append (λ u. SameRow t.id t.token_hash t.session_id u) s.refresh_tokens (t ∷ [])
            (All-map _ _ s.refresh_tokens
              (λ u (known, miss). (
                (λ e. absurd (omega (arith, e, fresh, IsKnown.below known))),
                (λ e. absurd (ground (arith, miss, e))),
              ))
              (All-both (λ u. IsKnown s u.id u.token_hash u.session_id)
                (λ u. has_hash t.token_hash u ≡ false) s.refresh_tokens c.known
                (any-All (has_hash t.token_hash) s.refresh_tokens unused)))
            (((λ _. (refl, refl)), (λ _. refl)), tt);
      present = any-append-last (has_hash t.token_hash) s.refresh_tokens t ∙ ground arith;
    }

    one_more : (session : ℕ) → count_where (is_live_of session) (s.refresh_tokens ++ t ∷ []) ≤ 1
    one_more session =
        let counted = count_where-append (is_live_of session) s.refresh_tokens t in
        elim (Bool-cases (t.session_id == session)) [
          | inl same ↦
              (let mine : count_where (is_live_of session) s.refresh_tokens ≡ 0 =
                  subst (λ k. count_where (is_live_of k) s.refresh_tokens ≡ 0)
                    (==→eq t.session_id session same) alone in
                omega (arith, counted, mine, one_if-le (is_live_of session t)))
          | inr other ↦ omega (arith, rw other at counted, c.one session)
        ]
