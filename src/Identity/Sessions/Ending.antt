-- ===== src/Identity/Sessions/Ending.antt =====
-- The operations that revoke sessions keep the invariant, and close what they revoke.
use sentriqora.Base.{
  ℕ, ◌<◌, ◌≡◌, sym, ap, ◌∙◌, subst, true, false, ◌==◌, ◌&&◌, ==→eq, String, some, List, [], ◌∷◌,
  All, find_first, find_first-All, arith, Bool-cases, inl, inr, any-eq-true, Option-cases,
}
use sentriqora.Identity.Store.{Session, Accounts, is_none, record_event}
use sentriqora.Identity.Sessions.{is_own_session, revoke_session_graph}
use sentriqora.Identity.Sessions.Revocation.{
  is_in, open_sessions, revoke_ids, revoke_session, revoke_all_sessions,
}
use sentriqora.Identity.Sessions.Rows.{IsClosed}
use sentriqora.Identity.Sessions.Consistency.{
  IsConsistent, revoke_rows-Keeps, revoke_rows-IsConsistent, revoke_rows-IsClosed,
}
use sentriqora.Identity.Sessions.Keeping.{
  IsSame, IsKeeping, IsKeeping-trans, same-IsKeeping, graph-IsKeeping, graph-IsClosed,
  same-IsClosed,
}

-- A session of the caller is found and revoked.
pub record IsEnded (organization actor session now : ℕ) (reason : String) (s s' : Accounts)
    : Type 0 where
  pub row : Session
  pub found : find_first (is_own_session organization actor session) s.sessions ≡ some row
  pub after : IsSame (revoke_session_graph row.id reason now s) s'

module _ (now organization actor : ℕ) (reason : String) (session : ℕ) (s s' : Accounts) where
  pub revoke_session-IsEnded :
      revoke_session now organization actor reason session s ≡ (true, s')
      → IsEnded organization actor session now reason s s'
  unfolding revoke_session record_event
  revoke_session-IsEnded h =
      elim (Option-cases (find_first (is_own_session organization actor session) s.sessions)) [
        | inl missing ↦
            (let gave : false ≡ true = ap (λ p. p.0) (rw (missing, revoke_session) at h) in
              absurd (cc))
        | inr (x, found) ↦
            (let gave = ap (λ p. p.1) (rw (found, revoke_session) at h) in
              record {
                row = x;
                found = found;
                after = record {
                  refresh_tokens = ap (λ (a : Accounts). a.refresh_tokens) (sym gave);
                  sessions = ap (λ (a : Accounts). a.sessions) (sym gave);
                  next_id = omega (arith, ap (λ (a : Accounts). a.next_id) gave);
                };
              })
      ]

  module _ (e : IsEnded organization actor session now reason s s') where
    pub ended-IsKeeping : IsKeeping s s'
    ended-IsKeeping =
        IsKeeping-trans s _ s' (graph-IsKeeping e.row.id reason now s) (same-IsKeeping _ s' e.after)

    pub ended-IsClosed : IsConsistent s → IsClosed s' session
    ended-IsClosed c =
        let (below, hit) =
          find_first-All (λ x. x.id < s.next_id) (is_own_session organization actor session)
            s.sessions c.bounded e.found in
        let mine : e.row.id ≡ session = ground (arith, hit) in
        subst (IsClosed s') mine
          (same-IsClosed _ s' e.row.id e.after (graph-IsClosed e.row.id reason now s below))

-- The ids that are found are those of rows.
open_sessions-bounded :
    (organization user bound : ℕ) (xs : List Session)
    → All (λ x. x.id < bound) xs
    → All (λ id. id < bound) (open_sessions organization user xs)
unfolding open_sessions
open_sessions-bounded organization user bound [] h = tt
open_sessions-bounded organization user bound (x ∷ xs) (h, hs) =
    let rest = open_sessions-bounded organization user bound xs hs in
    elim (Bool-cases
      (x.organization_id == organization && x.user_id == user && is_none x.revoked_at)) [
        | inl hit ↦ rw hit (h, rest)
        | inr miss ↦ rw miss rest
      ]

module _ (ids : List ℕ) (reason : String) (now : ℕ) (s : Accounts) where
  ids-IsKeeping : IsKeeping s (revoke_ids ids reason now s)
  unfolding revoke_ids
  ids-IsKeeping = (
    revoke_rows-Keeps (is_in ids) (λ x. is_in ids x.id) reason now s (λ x hit. hit),
    revoke_rows-IsConsistent (is_in ids) (λ x. is_in ids x.id) reason now s (λ x hit. hit),
  )

  ids-IsClosed :
      (id : ℕ) → is_in ids id ≡ true → id < s.next_id → IsClosed (revoke_ids ids reason now s) id
  unfolding revoke_ids
  ids-IsClosed id chosen below = record {
    below = below;
    revoked =
        revoke_rows-IsClosed (is_in ids) (λ x. is_in ids x.id) reason now s (λ x hit. hit) id
          (λ x hit. ap (is_in ids) (==→eq x.id id (ground (arith, hit))) ∙ chosen);
  }

module _ (now organization user : ℕ) (reason : String) (n : ℕ) (s s' : Accounts)
    (h : revoke_all_sessions now organization user reason s ≡ (n, s')) where
  abbrev ids : List ℕ
  ids = open_sessions organization user s.sessions

  all_same : IsSame (revoke_ids ids reason now s) s'
  unfolding revoke_all_sessions record_event
  all_same =
      let gave = ap (λ p. p.1) h in
      record {
        refresh_tokens = ap (λ (a : Accounts). a.refresh_tokens) (sym gave);
        sessions = ap (λ (a : Accounts). a.sessions) (sym gave);
        next_id = omega (arith, ap (λ (a : Accounts). a.next_id) gave);
      }

  pub all-IsKeeping : IsKeeping s s'
  all-IsKeeping =
      IsKeeping-trans s _ s' (ids-IsKeeping ids reason now s) (same-IsKeeping _ s' all_same)

  pub all-IsClosed : IsConsistent s → (id : ℕ) → is_in ids id ≡ true → IsClosed s' id
  all-IsClosed c id chosen =
      let (j, below, hit) =
        any-eq-true (λ j. j < s.next_id) (λ j. j == id) ids chosen
          (open_sessions-bounded organization user s.next_id s.sessions c.bounded) in
      same-IsClosed _ s' id all_same
        (ids-IsClosed ids reason now s id chosen (ground (arith, below, hit)))
