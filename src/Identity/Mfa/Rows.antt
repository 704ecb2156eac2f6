-- ===== src/Identity/Mfa/Rows.antt =====
-- What the statements on second factors leave as it is: a consumed challenge, a counter that was
-- reached, a recovery code that was used.
use sentriqora.Base.{
  ℕ, suc, ◌≤◌, ◌<◌, ◌≡◌, refl, sym, ap, ◌∙◌, subst, Bool, true, false, List, [], ◌∷◌, ◌++◌, any,
  All, any-false, any-All, any-append-last, any-update_where, update_where, update_where-All, arith,
}
use sentriqora.Identity.Store.{MfaMethod, RecoveryCode, MfaChallenge, Accounts}
use sentriqora.Identity.Mfa.{
  is_verified, is_method_of, is_unverified_of, is_below, accepts_counter, is_code, is_unused_code,
  is_open_challenge, use_counter, use_code, verify,
}

pub record IsConsumed (s : Accounts) (id : ℕ) : Type 0 where
  pub below : id < s.next_id
  pub consumed : any (is_open_challenge id) s.mfa_challenges ≡ false

-- The user's method is verified, and takes no counter up to this one.
abbrev pub HasReached : (user counter : ℕ) → MfaMethod → Type 0
HasReached user counter m =
    m.user_id ≡ user → (is_verified m ≡ true) × (is_below m.last_used_counter counter ≡ false)

pub record IsReached (s : Accounts) (user counter : ℕ) : Type 0 where
  pub present : any (is_method_of user) s.mfa_methods ≡ true
  pub rows : All (HasReached user counter) s.mfa_methods

pub record IsUsed (s : Accounts) (user hash : ℕ) : Type 0 where
  pub present : any (is_code user hash) s.recovery_codes ≡ true
  pub used : any (is_unused_code user hash) s.recovery_codes ≡ false

pub record Keeps (s s' : Accounts) : Type 0 where
  pub consumed : (id : ℕ) → IsConsumed s id → IsConsumed s' id
  pub reached : (user counter : ℕ) → IsReached s user counter → IsReached s' user counter
  pub used : (user hash : ℕ) → IsUsed s user hash → IsUsed s' user hash

pub Keeps-trans : (s s' s'' : Accounts) → Keeps s s' → Keeps s' s'' → Keeps s s''
Keeps-trans s s' s'' first second = record {
  consumed = λ id k. second.consumed id (first.consumed id k);
  reached = λ user counter k. second.reached user counter (first.reached user counter k);
  used = λ user hash k. second.used user hash (first.used user hash k);
}

-- A statement on other tables.
pub record IsSame (s s' : Accounts) : Type 0 where
  pub mfa_challenges : s'.mfa_challenges ≡ s.mfa_challenges
  pub mfa_methods : s'.mfa_methods ≡ s.mfa_methods
  pub recovery_codes : s'.recovery_codes ≡ s.recovery_codes
  pub next_id : s.next_id ≤ s'.next_id

pub same-Keeps : (s s' : Accounts) → IsSame s s' → Keeps s s'
same-Keeps s s' e = record {
  consumed = λ id k. record {
    below = omega (arith, k.below, e.next_id);
    consumed = ap (any (is_open_challenge id)) e.mfa_challenges ∙ k.consumed;
  };
  reached = λ user counter k. record {
    present = ap (any (is_method_of user)) e.mfa_methods ∙ k.present;
    rows = subst (All (HasReached user counter)) (sym e.mfa_methods) k.rows;
  };
  used = λ user hash k. record {
    present = ap (any (is_code user hash)) e.recovery_codes ∙ k.present;
    used = ap (any (is_unused_code user hash)) e.recovery_codes ∙ k.used;
  };
}

-- A change of the methods alone, of the codes alone, of the challenges alone.
pub methods-Keeps :
    (s : Accounts) (ms : List MfaMethod)
    → ((user counter : ℕ)
        → IsReached s user counter
        → IsReached (record s { mfa_methods = ms }) user counter)
    → Keeps s (record s { mfa_methods = ms })
methods-Keeps s ms keeps = record {
  consumed = λ id k. record { below = k.below; consumed = k.consumed };
  reached = keeps;
  used = λ user hash k. record { present = k.present; used = k.used };
}

pub codes-Keeps :
    (s : Accounts) (cs : List RecoveryCode)
    → ((user hash : ℕ) → IsUsed s user hash → IsUsed (record s { recovery_codes = cs }) user hash)
    → Keeps s (record s { recovery_codes = cs })
codes-Keeps s cs keeps = record {
  consumed = λ id k. record { below = k.below; consumed = k.consumed };
  reached = λ user counter k. record { present = k.present; rows = k.rows };
  used = keeps;
}

pub challenges-Keeps :
    (s : Accounts) (q : MfaChallenge → Bool) (f : MfaChallenge → MfaChallenge)
    → ((id : ℕ)
        → (c : MfaChallenge) → is_open_challenge id c ≡ false
        → is_open_challenge id (f c) ≡ false)
    → Keeps s (record s { mfa_challenges = update_where q f s.mfa_challenges })
challenges-Keeps s q f shut = record {
  consumed = λ id k. record {
    below = k.below;
    consumed = any-false (is_open_challenge id) _ (
        update_where-All (λ c. is_open_challenge id c ≡ false) (λ c. is_open_challenge id c ≡ false)
          q f s.mfa_challenges (λ c _ h. shut id c h) (λ c h. h)
          (any-All (is_open_challenge id) s.mfa_challenges k.consumed));
  };
  reached = λ user counter k. record { present = k.present; rows = k.rows };
  used = λ user hash k. record { present = k.present; used = k.used };
}

pub new_challenge-Keeps :
    (s : Accounts) (c : MfaChallenge)
    → c.id ≡ s.next_id
    → Keeps s (record s { mfa_challenges = s.mfa_challenges ++ c ∷ []; next_id = suc s.next_id })
new_challenge-Keeps s c fresh = record {
  consumed = λ id k. record {
    below = omega (arith, k.below);
    consumed =
        any-append-last (is_open_challenge id) s.mfa_challenges c
        ∙ rw k.consumed (ground (arith, k.below, fresh));
  };
  reached = λ user counter k. record { present = k.present; rows = k.rows };
  used = λ user hash k. record { present = k.present; used = k.used };
}

-- A counter that is used replaces a lower one.
pub use_counter-Keeps :
    (s : Accounts) (user counter : ℕ)
    → Keeps s (record s {
      mfa_methods = update_where (accepts_counter user counter) (use_counter counter) s.mfa_methods;
    })
use_counter-Keeps s user counter = methods-Keeps s _ λ owner last k. record {
  present =
      any-update_where (is_method_of owner) (accepts_counter user counter) (use_counter counter)
        s.mfa_methods (λ m _. refl)
      ∙ k.present;
  rows =
      update_where-All (HasReached owner last) (HasReached owner last)
        (accepts_counter user counter) (use_counter counter) s.mfa_methods
        (λ m hit h mine. ground (arith, hit, h mine)) (λ m h. h) k.rows;
}

-- Only a method that is not verified is verified.
pub verify-Keeps :
    (s : Accounts) (now user counter : ℕ)
    → Keeps s (record s {
      mfa_methods = update_where (is_unverified_of user) (verify now counter) s.mfa_methods;
    })
verify-Keeps s now user counter = methods-Keeps s _ λ owner last k. record {
  present =
      any-update_where (is_method_of owner) (is_unverified_of user) (verify now counter)
        s.mfa_methods (λ m _. refl)
      ∙ k.present;
  rows =
      update_where-All (HasReached owner last) (HasReached owner last) (is_unverified_of user)
        (verify now counter) s.mfa_methods (λ m hit h mine. absurd (ground (arith, hit, h mine)))
        (λ m h. h) k.rows;
}

pub use_code-Keeps :
    (s : Accounts) (now user hash : ℕ)
    → Keeps s (record s {
      recovery_codes = update_where (is_unused_code user hash) (use_code now) s.recovery_codes;
    })
use_code-Keeps s now user hash = codes-Keeps s _ λ owner mine k. record {
  present =
      any-update_where (is_code owner mine) (is_unused_code user hash) (use_code now)
        s.recovery_codes (λ c _. refl)
      ∙ k.present;
  used = any-false (is_unused_code owner mine) _ (
      update_where-All (λ c. is_unused_code owner mine c ≡ false)
        (λ c. is_unused_code owner mine c ≡ false) (is_unused_code user hash) (use_code now)
        s.recovery_codes (λ c hit h. ground arith) (λ c h. h)
        (any-All (is_unused_code owner mine) s.recovery_codes k.used));
}
