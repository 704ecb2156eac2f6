-- ===== src/Identity/Sessions/Invariant.antt =====
-- What holds in every history of the sessions.
use sentriqora.Base.{
  ℕ, ◌≤◌, ◌≡◌, inl, inr, true, false, ==→eq, some, List, ◌∷◌, any, All, All-map, All-both,
  any-eq-true, any-false, find_first, find_first-All, arith, count_where, count_where-any,
  count_where-none, Bool-cases,
}
use sentriqora.Identity.Store.{Session, RefreshToken, Accounts}
use sentriqora.Identity.Sessions.{Rotation, RotationResult, has_hash, is_session, is_live, is_token}
use sentriqora.Identity.Sessions.Refresh.{current_of}
use sentriqora.Identity.Sessions.Rows.{SameRow, IsKnown, IsSpent, IsClosed}
use sentriqora.Identity.Sessions.Consistency.{IsConsistent}
use sentriqora.Identity.Sessions.Cases.{IsIssued}
use sentriqora.Identity.Sessions.Keeping.{IsKeeping}
use sentriqora.Identity.Sessions.Histories.{Event, is_rotation_of, ends, uses, is_quiet}

-- The tokens of a state are known in another.
abbrev pub Knows : Accounts → Accounts → Type 0
Knows s p = All (λ t. IsKnown s t.id t.token_hash t.session_id) p.refresh_tokens

-- What an event has brought about for good.
abbrev pub Traced : Accounts → Event → Type 0
Traced s e =
    ((hash : ℕ) → is_rotation_of hash e ≡ true → IsSpent s hash)
    × ((session : ℕ) → ends session e ≡ true → IsClosed s session)

pub record Holds (past : List Accounts) (log : List Event) (s : Accounts) : Type 0 where
  pub consistent : IsConsistent s
  pub known : All (Knows s) past
  pub traced : All (Traced s) log
  pub once : (hash : ℕ) → count_where (is_rotation_of hash) log ≤ 1
  pub quiet : (session : ℕ) → is_quiet session log ≡ true

-- No event of the log has revoked the session.
abbrev pub Unended : ℕ → List Event → Type 0
Unended session log = any (ends session) log ≡ false

pub not_closed :
    (s : Accounts) (session : ℕ) (log : List Event)
    → All (Traced s) log
    → (IsClosed s session → ⊥)
    → Unended session log
not_closed s session log traced open_still = any-false (ends session) log (
    All-map (Traced s) (λ e. ends session e ≡ false) log
      (λ e trace. elim (Bool-cases (ends session e)) [
        | inl ended_by ↦ absurd (open_still (trace.1 session ended_by))
        | inr other ↦ other
      ])
      traced)

pub not_spent :
    (s : Accounts) (hash : ℕ) (log : List Event)
    → All (Traced s) log
    → (IsSpent s hash → ⊥)
    → count_where (is_rotation_of hash) log ≡ 0
not_spent s hash log traced live_still = count_where-none (is_rotation_of hash) log (
    All-map (Traced s) (λ e. is_rotation_of hash e ≡ false) log
      (λ e trace. elim (Bool-cases (is_rotation_of hash e)) [
        | inl rotated_by ↦ absurd (live_still (trace.0 hash rotated_by))
        | inr other ↦ other
      ])
      traced)

-- A step that adds a state.
pub advance :
    (past : List Accounts) (log : List Event) (s s' : Accounts)
    → IsKeeping s s'
    → Holds past log s
    → Holds (s' ∷ past) log s'
advance past log s s' (keeps, consistent) h =
    let c' = consistent h.consistent in
    record {
      consistent = c';
      known = (
        c'.known,
        All-map (Knows s) (Knows s') past
            (λ p known.
              All-map (λ t. IsKnown s t.id t.token_hash t.session_id)
                (λ t. IsKnown s' t.id t.token_hash t.session_id) p.refresh_tokens
                (λ t k. keeps.known _ _ _ k) known)
            h.known,
      );
      traced =
          All-map (Traced s) (Traced s') log
            (λ e (spent, closed). (
              λ hash hit. keeps.spent hash (spent hash hit),
              λ session hit. keeps.closed session (closed session hit),
            ))
            h.traced;
      once = h.once;
      quiet = h.quiet;
    }

-- A step that adds an event to the log.
pub log_event :
    (past : List Accounts) (log : List Event) (s : Accounts) (e : Event)
    → Traced s e
    → ((hash : ℕ) → is_rotation_of hash e ≡ true → count_where (is_rotation_of hash) log ≡ 0)
    → ((session : ℕ) → uses session e ≡ true → Unended session log)
    → Holds past log s
    → Holds past (e ∷ log) s
unfolding count_where is_quiet
log_event past log s e trace first unended h = record {
  consistent = h.consistent;
  known = h.known;
  traced = (trace, h.traced);
  once = λ hash. elim (Bool-cases (is_rotation_of hash e)) [
    | inl hit ↦ rw hit (omega (arith, first hash hit))
    | inr miss ↦ rw miss (h.once hash)
  ];
  quiet = λ session. elim (Bool-cases (uses session e)) [
    | inl hit ↦ rw (hit, h.quiet session, unended session hit)
    | inr miss ↦ rw (miss, h.quiet session)
  ];
}

-- A token that is consumed was not spent, and its session was not closed.
module _ (r : Rotation) (t : RefreshToken) (x : Session) (s : Accounts) (result : RotationResult)
    (s' : Accounts) (k : IsKnown s t.id t.token_hash t.session_id)
    (issued : IsIssued r t x s result s') where
  pub issued_unspent : IsSpent s t.token_hash → ⊥
  issued_unspent spent =
      let (u, (same, dead), hit) =
        any-eq-true
          (λ u.
            SameRow t.id t.token_hash t.session_id u
            × (u.token_hash ≡ t.token_hash → is_live u ≡ false))
          (is_token t.id) s.refresh_tokens
          (count_where-any (is_token t.id) s.refresh_tokens 0 issued.single)
          (All-both (SameRow t.id t.token_hash t.session_id)
            (λ u. u.token_hash ≡ t.token_hash → is_live u ≡ false) s.refresh_tokens k.rows
            spent.dead) in
      ground (arith, hit, dead (same.0 (ground (arith, hit))).0)

pub current_of_cases :
    (hash : ℕ) (seen : Accounts) (t : RefreshToken) (x : Session)
    → current_of hash seen ≡ some (t, x)
    → (find_first (has_hash hash) seen.refresh_tokens ≡ some t)
      × (find_first (is_session t.session_id) seen.sessions ≡ some x)
unfolding current_of
current_of_cases hash seen t x h = ground arith

-- The token of a read is known.
pub current-IsKnown :
    (hash : ℕ) (seen s : Accounts) (t : RefreshToken) (x : Session)
    → Knows s seen
    → current_of hash seen ≡ some (t, x)
    → IsKnown s t.id t.token_hash t.session_id × (t.token_hash ≡ hash)
current-IsKnown hash seen s t x known h =
    let (found, _) = current_of_cases hash seen t x h in
    let (k, hit) =
      find_first-All (λ u. IsKnown s u.id u.token_hash u.session_id) (has_hash hash)
        seen.refresh_tokens known found in
    (k, ==→eq t.token_hash hash hit)
