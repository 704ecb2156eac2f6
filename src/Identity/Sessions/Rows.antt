-- ===== src/Identity/Sessions/Rows.antt =====
-- What the statements on `sessions` and `refresh_tokens` leave as it is.
use sentriqora.Base.{
  ℕ, suc, ◌≤◌, ◌<◌, ◌≡◌, inl, inr, refl, sym, ap, ◌∙◌, Bool, true, false, ◌==◌, ◌||◌, List, [], ◌∷◌,
  ◌++◌, ok, any, All, All-append, any-false, any-update_where, any-append, any-append-last, any-All,
  update_where, update_where-All, arith, Bool-cases,
}
use sentriqora.Identity.Store.{Session, RefreshToken, Accounts, is_none}
use sentriqora.Identity.Sessions.{has_hash, is_unrevoked, is_live, has_parent, insert_token}

-- A row with the id of a token has its hash and its session, and one with its hash has its id.
abbrev pub SameRow : (id hash session : ℕ) → RefreshToken → Type 0
SameRow id hash session u =
    (u.id ≡ id → (u.token_hash ≡ hash) × (u.session_id ≡ session))
    × (u.token_hash ≡ hash → u.id ≡ id)

pub record IsKnown (s : Accounts) (id hash session : ℕ) : Type 0 where
  pub below : id < s.next_id
  pub bounded : session < s.next_id
  pub rows : All (SameRow id hash session) s.refresh_tokens
  pub present : any (has_hash hash) s.refresh_tokens ≡ true

-- No token with the hash is live.
pub record IsSpent (s : Accounts) (hash : ℕ) : Type 0 where
  pub present : any (has_hash hash) s.refresh_tokens ≡ true
  pub dead : All (λ t. t.token_hash ≡ hash → is_live t ≡ false) s.refresh_tokens

-- The session is revoked, and no new one gets its id.
pub record IsClosed (s : Accounts) (session : ℕ) : Type 0 where
  pub below : session < s.next_id
  pub revoked : any (is_unrevoked session) s.sessions ≡ false

pub record Keeps (s s' : Accounts) : Type 0 where
  pub known : (id hash session : ℕ) → IsKnown s id hash session → IsKnown s' id hash session
  pub spent : (hash : ℕ) → IsSpent s hash → IsSpent s' hash
  pub closed : (session : ℕ) → IsClosed s session → IsClosed s' session

pub Keeps-trans : (s s' s'' : Accounts) → Keeps s s' → Keeps s' s'' → Keeps s s''
Keeps-trans s s' s'' first second = record {
  known = λ id hash session k. second.known id hash session (first.known id hash session k);
  spent = λ hash k. second.spent hash (first.spent hash k);
  closed = λ session k. second.closed session (first.closed session k);
}

-- A statement on other tables.
pub frame-Keeps :
    (s s' : Accounts)
    → s'.refresh_tokens ≡ s.refresh_tokens
    → s'.sessions ≡ s.sessions
    → s.next_id ≤ s'.next_id
    → Keeps s s'
frame-Keeps s s' tokens sessions next = record {
  known = λ id hash session k. record {
    below = omega (arith, k.below, next);
    bounded = omega (arith, k.bounded, next);
    rows = rw tokens k.rows;
    present = rw tokens k.present;
  };
  spent = λ hash k. record { present = rw tokens k.present; dead = rw tokens k.dead };
  closed =
      λ session k. record { below = omega (arith, k.below, next); revoked = rw sessions k.revoked };
}

-- An update that keeps the id, the hash and the session, and revives no token.
pub record IsLowering (f : RefreshToken → RefreshToken) : Type 0 where
  pub id : (t : RefreshToken) → (f t).id ≡ t.id
  pub hash : (t : RefreshToken) → (f t).token_hash ≡ t.token_hash
  pub session : (t : RefreshToken) → (f t).session_id ≡ t.session_id
  pub live : (t : RefreshToken) → is_live (f t) ≡ true → is_live t ≡ true

not-live :
    (f : RefreshToken → RefreshToken) (t : RefreshToken)
    → IsLowering f
    → is_live t ≡ false
    → is_live (f t) ≡ false
not-live f t l dead = elim (Bool-cases (is_live (f t))) [
  | inl now ↦ absurd (ground (arith, l.live t now, dead))
  | inr h ↦ h
]

abbrev pub with_tokens : Accounts → List RefreshToken → Accounts
with_tokens s ts = record s { refresh_tokens = ts }

abbrev pub with_sessions : Accounts → List Session → Accounts
with_sessions s xs = record s { sessions = xs }

pub update_tokens-Keeps :
    (q : RefreshToken → Bool) (f : RefreshToken → RefreshToken) (s : Accounts)
    → IsLowering f
    → Keeps s (with_tokens s (update_where q f s.refresh_tokens))
update_tokens-Keeps q f s l = record {
  known = λ id hash session k. record {
    below = k.below;
    bounded = k.bounded;
    rows =
        update_where-All (SameRow id hash session) (SameRow id hash session) q f s.refresh_tokens
          (λ t _ same. (
            λ e. (
              l.hash t ∙ (same.0 (sym (l.id t) ∙ e)).0,
              l.session t ∙ (same.0 (sym (l.id t) ∙ e)).1,
            ),
            λ e. l.id t ∙ same.1 (sym (l.hash t) ∙ e),
          ))
          (λ t same. same) k.rows;
    present = present_after hash ∙ k.present;
  };
  spent = λ hash k. record {
    present = present_after hash ∙ k.present;
    dead =
        update_where-All (λ t. t.token_hash ≡ hash → is_live t ≡ false)
          (λ t. t.token_hash ≡ hash → is_live t ≡ false) q f s.refresh_tokens
          (λ t _ dead e. not-live f t l (dead (sym (l.hash t) ∙ e))) (λ t dead. dead) k.dead;
  };
  closed = λ session k. record { below = k.below; revoked = k.revoked };
}
  where
    present_after :
        (hash : ℕ)
        → any (has_hash hash) (update_where q f s.refresh_tokens)
          ≡ any (has_hash hash) s.refresh_tokens
    present_after hash =
        any-update_where (has_hash hash) q f s.refresh_tokens λ t _. ap (λ h. h == hash) (l.hash t)

-- An update that keeps the id, and does not undo a revocation.
pub record IsClosing (f : Session → Session) : Type 0 where
  pub id : (x : Session) → (f x).id ≡ x.id
  pub revoked : (x : Session) → is_none (f x).revoked_at ≡ true → is_none x.revoked_at ≡ true

still_revoked :
    (f : Session → Session) (session : ℕ) (x : Session)
    → IsClosing f
    → is_unrevoked session x ≡ false
    → is_unrevoked session (f x) ≡ false
still_revoked f session x c h = elim (Bool-cases (is_none (f x).revoked_at)) [
  | inl now ↦ rw (c.id x, now) (rw (c.revoked x now) at h)
  | inr never ↦ rw (c.id x, never) (ground arith)
]

pub update_sessions-Keeps :
    (q : Session → Bool) (f : Session → Session) (s : Accounts)
    → IsClosing f
    → Keeps s (with_sessions s (update_where q f s.sessions))
update_sessions-Keeps q f s c = record {
  known = λ id hash session k. record {
    below = k.below;
    bounded = k.bounded;
    rows = k.rows;
    present = k.present;
  };
  spent = λ hash k. record { present = k.present; dead = k.dead };
  closed = λ session k. record {
    below = k.below;
    revoked = any-false (is_unrevoked session) _ (
        update_where-All (λ x. is_unrevoked session x ≡ false) (λ x. is_unrevoked session x ≡ false)
          q f s.sessions (λ x _ h. still_revoked f session x c h) (λ x h. h)
          (any-All (is_unrevoked session) s.sessions k.revoked));
  };
}

abbrev pub with_token : Accounts → RefreshToken → Accounts
with_token s t = record s { refresh_tokens = s.refresh_tokens ++ t ∷ []; next_id = suc s.next_id }

abbrev pub with_session : Accounts → Session → Accounts
with_session s x = record s { sessions = s.sessions ++ x ∷ []; next_id = suc s.next_id }

any-left :
    {A : Type 0} (p q : A → Bool) (xs : List A)
    → any (λ x. p x || q x) xs ≡ false
    → any p xs ≡ false
any-left p q [] h = refl
any-left p q (x ∷ xs) h = elim (Bool-cases (p x)) [
  | inl hit ↦ absurd (ground (arith, hit, h))
  | inr miss ↦ elim (Bool-cases (q x)) [
    | inl hit ↦ absurd (ground (arith, miss, hit, h))
    | inr never ↦ rw miss (any-left p q xs (rw (miss, never) at h))
  ]
]

-- An insertion that does not throw, of a hash that no row has.
pub insert_token_cases :
    (t : RefreshToken) (s s' : Accounts)
    → insert_token t s ≡ ok s'
    → (any (has_hash t.token_hash) s.refresh_tokens ≡ false) × (s' ≡ with_token s t)
unfolding insert_token
insert_token_cases t s s' h =
    ground
      (arith, h, any-left (has_hash t.token_hash) (has_parent t.parent_token_id) s.refresh_tokens)

pub with_token-Keeps :
    (t : RefreshToken) (s : Accounts)
    → t.id ≡ s.next_id
    → any (has_hash t.token_hash) s.refresh_tokens ≡ false
    → Keeps s (with_token s t)
with_token-Keeps t s fresh unused = record {
  known = λ id hash session k. record {
    below = omega (arith, k.below);
    bounded = omega (arith, k.bounded);
    rows = All-append (SameRow id hash session) s.refresh_tokens (t ∷ []) k.rows (
      (λ e. absurd (omega (arith, k.below, fresh, e)), λ e. absurd (other hash k.present e)),
      tt,
    );
    present = any-append (has_hash hash) s.refresh_tokens (t ∷ []) k.present;
  };
  spent = λ hash k. record {
    present = any-append (has_hash hash) s.refresh_tokens (t ∷ []) k.present;
    dead =
        All-append (λ u. u.token_hash ≡ hash → is_live u ≡ false) s.refresh_tokens (t ∷ []) k.dead
          (λ e. absurd (other hash k.present e), tt);
  };
  closed = λ session k. record { below = omega (arith, k.below); revoked = k.revoked };
}
  where
    other : (hash : ℕ) → any (has_hash hash) s.refresh_tokens ≡ true → t.token_hash ≡ hash → ⊥
    other hash present e = ground (arith, rw e at unused, present)

pub with_session-Keeps :
    (x : Session) (s : Accounts) → x.id ≡ s.next_id → Keeps s (with_session s x)
with_session-Keeps x s fresh = record {
  known = λ id hash session k. record {
    below = omega (arith, k.below);
    bounded = omega (arith, k.bounded);
    rows = k.rows;
    present = k.present;
  };
  spent = λ hash k. record { present = k.present; dead = k.dead };
  closed = λ session k. record {
    below = omega (arith, k.below);
    revoked =
        any-append-last (is_unrevoked session) s.sessions x
        ∙ rw k.revoked (ground (arith, k.below, fresh));
  };
}
