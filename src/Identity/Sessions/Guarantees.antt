-- ===== src/Identity/Sessions/Guarantees.antt =====
-- Every history of the sessions has the invariant, and what follows.
use sentriqora.Base.{
  ℕ, ◌≤◌, ◌≡◌, inl, inr, refl, sym, ap, ◌∙◌, subst, true, false, ==→eq, some, List, [], ◌∷◌, String,
  ok, any, All-mem, Memᴰ, ok_of_transaction, find_first, find_first-All, any-All, arith,
  count_where, Option-cases,
}
use sentriqora.Identity.Store.{
  Session, RefreshToken, Accounts, SessionPrincipal, is_recent_mfa, principal_for,
}
use sentriqora.Identity.Sessions.{
  NewSession, Rotation, RotationResult, is_unrevoked, active_session, create_session_body,
  create_session, get_active_session_principal,
}
use sentriqora.Identity.Sessions.Refresh.{current_of, rotate_body, rotate_refresh_token}
use sentriqora.Identity.Sessions.Revocation.{open_sessions, revoke_session, revoke_all_sessions}
use sentriqora.Identity.Sessions.Rows.{IsKnown, IsSpent, IsClosed}
use sentriqora.Identity.Sessions.Consistency.{IsConsistent}
use sentriqora.Identity.Sessions.Cases.{
  RotationCases, IsRefused, IsStopped, IsIssued, rotate_current_cases, create_session-IsCreated,
}
use sentriqora.Identity.Sessions.Keeping.{
  IsKeeping, same-IsKeeping, stopped-IsKeeping, stopped-IsClosed,
}
use sentriqora.Identity.Sessions.Issuing.{
  issued-Keeps, issued-IsSpent, issued-IsConsistent, issued_open, created-Keeps,
  created-IsConsistent,
}
use sentriqora.Identity.Sessions.Ending.{
  revoke_session-IsEnded, ended-IsKeeping, ended-IsClosed, all-IsKeeping, all-IsClosed,
}
use sentriqora.Identity.Sessions.Histories.{
  Event, started, answered, ended, ended_all, admitted, History, start, creates, rotates, revokes,
  revokes_all, admits, changes, is_rotation_of, is_quiet,
}
use sentriqora.Identity.Sessions.Invariant.{
  Knows, Holds, advance, log_event, not_closed, not_spent, issued_unspent, current-IsKnown,
}

-- A rotation of a token that was found is the rotation of the row that was read.
pub rotate_body_cases :
    (r : Rotation) (seen s : Accounts) (t : RefreshToken) (x : Session) (result : RotationResult)
    (s' : Accounts)
    → current_of r.current_token_hash seen ≡ some (t, x)
    → rotate_refresh_token r seen s ≡ (ok result, s')
    → RotationCases r t x s result s'
unfolding rotate_refresh_token rotate_body
rotate_body_cases r seen s t x result s' read h =
    rotate_current_cases r t x s result s'
      (rw (read, rotate_body) at (ok_of_transaction (rotate_body r seen) s h))

-- A request is admitted for a session of the table.
active_cases :
    (now organization user session : ℕ) (s : Accounts) (p : SessionPrincipal)
    → get_active_session_principal now organization user session s ≡ some p
    → (x : Session) × (find_first (active_session now organization user session) s.sessions
        ≡ some x)
      × (principal_for s organization user x.id (is_recent_mfa x.mfa_verified_at now) ≡ some p)
unfolding get_active_session_principal
active_cases now organization user session s p h =
    elim (Option-cases (find_first (active_session now organization user session) s.sessions)) [
      | inl missing ↦ absurd (let e = rw (missing, get_active_session_principal) at h in cc)
      | inr (x, found) ↦ (x, found, rw (found, get_active_session_principal) at h)
    ]

self-IsKeeping : (s s' : Accounts) → s' ≡ s → IsKeeping s s'
self-IsKeeping s s' same = same-IsKeeping s s' (record {
  refresh_tokens = ap (λ (a : Accounts). a.refresh_tokens) same;
  sessions = ap (λ (a : Accounts). a.sessions) same;
  next_id = omega (arith, ap (λ (a : Accounts). a.next_id) same);
})

module _ (past : List Accounts) (log : List Event) (s : Accounts) (h : Holds past log s) where
  module _ (r : Rotation) (seen : Accounts) (t : RefreshToken) (x : Session)
      (result : RotationResult) (s' : Accounts) (earlier : Memᴰ seen past)
      (read : current_of r.current_token_hash seen ≡ some (t, x)) where
    abbrev event : Event
    event = answered r.current_token_hash t.session_id result

    read-IsKnown : IsKnown s t.id t.token_hash t.session_id × (t.token_hash ≡ r.current_token_hash)
    read-IsKnown =
        current-IsKnown r.current_token_hash seen s t x (All-mem (Knows s) past h.known earlier)
          read

    refused-Holds : IsRefused r t x s result s' → Holds (s' ∷ past) (event ∷ log) s'
    refused-Holds (answer, same) =
        log_event (s' ∷ past) log s' event
          (
            λ hash hit. absurd (ground (arith, hit, answer)),
            λ session hit. absurd (ground (arith, hit, answer)),
          )
          (λ hash hit. absurd (ground (arith, hit, answer)))
          (λ session hit. absurd (ground (arith, hit, answer)))
          (advance past log s s' (self-IsKeeping s s' same) h)

    stopped-Holds : IsStopped r t x s result s' → Holds (s' ∷ past) (event ∷ log) s'
    stopped-Holds stop =
        let (k, hashed) = read-IsKnown in
        log_event (s' ∷ past) log s' event
          (
            λ hash hit. absurd (ground (arith, hit, stop.answer)),
            λ session hit.
                subst (IsClosed s') (==→eq t.session_id session (ground (arith, hit)))
                  (stopped-IsClosed r t x s result s' k.bounded stop),
          )
          (λ hash hit. absurd (ground (arith, hit, stop.answer)))
          (λ session hit. absurd (ground (arith, hit, stop.answer)))
          (advance past log s s' (stopped-IsKeeping r t x s result s' stop) h)

    issued-Holds : IsIssued r t x s result s' → Holds (s' ∷ past) (event ∷ log) s'
    issued-Holds issued =
        let (k, hashed) = read-IsKnown in
        log_event (s' ∷ past) log s' event
          (
            λ hash hit.
                subst (IsSpent s') (hashed ∙ ==→eq r.current_token_hash hash (ground (arith, hit)))
                  (issued-IsSpent r t x s result s' k issued h.consistent),
            λ session hit. absurd (ground (arith, hit, issued.answer)),
          )
          (λ hash hit. not_spent s hash log h.traced (λ spent.
            issued_unspent r t x s result s' k issued (
              subst (IsSpent s)
                (sym (hashed ∙ ==→eq r.current_token_hash hash (ground (arith, hit)))) spent)))
          (λ session hit. not_closed s session log h.traced (λ closed.
            let still =
              subst (λ j. any (is_unrevoked j) s.sessions ≡ true)
                (==→eq t.session_id session (ground (arith, hit)))
                (issued_open r t x s result s' k issued h.consistent) in
            ground (arith, still, closed.revoked)))
          (advance past log s s'
            (
              issued-Keeps r t x s result s' k issued,
              issued-IsConsistent r t x s result s' k issued,
            )
            h)

    rotated-Holds :
        rotate_refresh_token r seen s ≡ (ok result, s') → Holds (s' ∷ past) (event ∷ log) s'
    rotated-Holds done = elim (rotate_body_cases r seen s t x result s' read done) [
      | inl refused ↦ refused-Holds refused
      | inr (inl stop) ↦ stopped-Holds stop
      | inr (inr issued) ↦ issued-Holds issued
    ]

  created-Holds :
      (now : ℕ) (input : NewSession) (p : SessionPrincipal) (session : ℕ) (s' : Accounts)
      → create_session now input s ≡ (ok (p, session), s')
      → Holds (s' ∷ past) (started session ∷ log) s'
  unfolding create_session
  created-Holds now input p session s' done =
      let created =
        create_session-IsCreated now input s p session s'
          (ok_of_transaction (create_session_body now input) s done) in
      log_event (s' ∷ past) log s' (started session) (λ hash hit. absurd (cc), λ k hit. absurd (cc))
        (λ hash hit. absurd (cc))
        (λ k hit.
          not_closed s k log h.traced (λ closed. ground (arith, hit, created.named, closed.below)))
        (advance past log s s'
          (
            created-Keeps now input s session s' created,
            created-IsConsistent now input s session s' created,
          )
          h)

  ended-Holds :
      (now organization actor : ℕ) (reason : String) (session : ℕ) (s' : Accounts)
      → revoke_session now organization actor reason session s ≡ (true, s')
      → Holds (s' ∷ past) (ended session ∷ log) s'
  ended-Holds now organization actor reason session s' done =
      let e = revoke_session-IsEnded now organization actor reason session s s' done in
      let closed = ended-IsClosed now organization actor reason session s s' e h.consistent in
      log_event (s' ∷ past) log s' (ended session)
        (λ hash hit. absurd (cc), λ k hit. subst (IsClosed s') (==→eq session k hit) closed)
        (λ hash hit. absurd (cc)) (λ k hit. absurd (cc))
        (advance past log s s' (ended-IsKeeping now organization actor reason session s s' e) h)

  all_ended-Holds :
      (now organization user : ℕ) (reason : String) (n : ℕ) (s' : Accounts)
      → revoke_all_sessions now organization user reason s ≡ (n, s')
      → Holds (s' ∷ past) (ended_all (open_sessions organization user s.sessions) ∷ log) s'
  all_ended-Holds now organization user reason n s' done =
      log_event (s' ∷ past) log s' (ended_all (open_sessions organization user s.sessions))
        (
          λ hash hit. absurd (cc),
          λ k hit. all-IsClosed now organization user reason n s s' done h.consistent k hit,
        )
        (λ hash hit. absurd (cc)) (λ k hit. absurd (cc))
        (advance past log s s' (all-IsKeeping now organization user reason n s s' done) h)

  admitted-Holds :
      (now organization user session : ℕ) (p : SessionPrincipal)
      → get_active_session_principal now organization user session s ≡ some p
      → Holds past (admitted session ∷ log) s
  admitted-Holds now organization user session p done =
      log_event past log s (admitted session) (λ hash hit. absurd (cc), λ k hit. absurd (cc))
        (λ hash hit. absurd (cc))
        (λ k hit. not_closed s k log h.traced (λ closed.
          let (x, found, _) = active_cases now organization user session s p done in
          let (shut, hit') =
            find_first-All (λ x. is_unrevoked k x ≡ false)
              (active_session now organization user session) s.sessions
              (any-All (is_unrevoked k) s.sessions closed.revoked) found in
          ground (arith, hit, hit', shut)))
        h

start-Holds : (s : Accounts) → s.sessions ≡ [] → s.refresh_tokens ≡ [] → Holds (s ∷ []) [] s
unfolding count_where is_quiet
start-Holds s no_sessions no_tokens = record {
  consistent = record {
    known = rw no_tokens tt;
    bounded = rw no_sessions tt;
    live = rw no_tokens tt;
    one = λ session. rw no_tokens (omega arith);
  };
  known = (rw no_tokens tt, tt);
  traced = tt;
  once = λ hash. omega arith;
  quiet = λ session. refl;
}

-- The invariant holds in every history.
pub History-Holds :
    {past : List Accounts} {log : List Event} {s : Accounts} → History past log s → Holds past log s
History-Holds (start s no_sessions no_tokens) = start-Holds s no_sessions no_tokens
History-Holds (creates now input p session s' h done) =
    created-Holds _ _ _ (History-Holds h) now input p session s' done
History-Holds (rotates r seen t x result s' h earlier read done) =
    rotated-Holds _ _ _ (History-Holds h) r seen t x result s' earlier read done
History-Holds (revokes now organization actor reason session s' h done) =
    ended-Holds _ _ _ (History-Holds h) now organization actor reason session s' done
History-Holds (revokes_all now organization user reason n s' h done) =
    all_ended-Holds _ _ _ (History-Holds h) now organization user reason n s' done
History-Holds (admits now organization user session p h done) =
    admitted-Holds _ _ _ (History-Holds h) now organization user session p done
History-Holds (changes s' h same) = advance _ _ _ s' (same-IsKeeping _ s' same) (History-Holds h)

-- In every history of the repository's operations, whatever earlier state each rotation has read, at
-- most one rotation of a refresh token succeeds.
pub rotated_once :
    {past : List Accounts} {log : List Event} {s : Accounts}
    → History past log s
    → (hash : ℕ) → count_where (is_rotation_of hash) log ≤ 1
rotated_once h hash = (History-Holds h).once hash

-- After a session is revoked, by its user, with all the user's sessions, or because a token of it was
-- used twice or on another device, no token of it is rotated and no request with it is admitted.
pub revoked_is_final :
    {past : List Accounts} {log : List Event} {s : Accounts}
    → History past log s
    → (session : ℕ) → is_quiet session log ≡ true
revoked_is_final h session = (History-Holds h).quiet session

-- In every history, a session has at most one live refresh token, and none when it is revoked; ids
-- and hashes of refresh tokens are theirs alone.
pub History-IsConsistent :
    {past : List Accounts} {log : List Event} {s : Accounts} → History past log s → IsConsistent s
History-IsConsistent h = (History-Holds h).consistent
