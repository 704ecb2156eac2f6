-- ===== src/Identity/Login/Refusals.antt =====
-- When a sign-in fails.
use sentriqora.Base.{
  ℕ, ◌≡◌, ◌↔◌, refl, sym, ap, ◌∙◌, Bool, true, false, Option, none, some, Text, Result, ok, err,
  Option-cases, Bool-cases, inl, inr,
}
use sentriqora.Identity.Store.{Accounts, Failure, SessionPrincipal}
use sentriqora.Identity.Values.{Unicode, EmailAddress, create_email}
use sentriqora.Identity.Security.{Crypto}
use sentriqora.Identity.Login.{
  LoginIdentity, LoginError, authentication_failed, Policy, Limits, Request, LoginResult,
  Authenticated, find_login_identity, record_failed_login, reset_failed_logins, is_refused,
  create_authenticated_session, accept_login, refuse_login, reset_and_accept, login_identified,
  login_with_email, login, as_authenticated, as_login,
}

-- The login protection throws nothing.
abbrev pub calm : Limits
calm = record { allowed_error = none; failure_error = none; reset_error = none }

-- A sign-in of this identity is refused; nobody is always refused.
abbrev pub is_rejected : Crypto → (password : Text) (now : ℕ) → Option LoginIdentity → Bool
is_rejected crypto password now none = true
is_rejected crypto password now (some identity) = is_refused crypto password now identity

module _ (unicode : Unicode) (crypto : Crypto) (policy : Policy) where
  as_authenticated_error :
      (request : Request) (r : Result Failure (SessionPrincipal × ℕ) × Accounts)
      → (as_authenticated unicode crypto policy request r).0 ≡ err authentication_failed
      → ⊥
  as_authenticated_error request (ok (p, session), s) h = cc
  as_authenticated_error request (err e, s) h = cc

  as_login_error :
      (r : Result LoginError Authenticated × Accounts)
      → (as_login unicode crypto policy r).0 ≡ err authentication_failed
      → r.0 ≡ err authentication_failed
  as_login_error (ok a, s) h = absurd (cc)
  as_login_error (err e, s) h = cc

  -- Past the checks the error is another one.
  accepted_error :
      (request : Request) (now : ℕ) (identity : LoginIdentity) (s : Accounts)
      → (accept_login unicode crypto policy request now identity s).0 ≡ err authentication_failed
      → ⊥
  unfolding accept_login create_authenticated_session
  accepted_error request now identity s h = elim (Option-cases identity.mfa) [
    | inl without ↦
        as_authenticated_error request _ (as_login_error _ (rw (without, accept_login) at h))
    | inr (secret, with_mfa) ↦ (let e = rw (with_mfa, accept_login) at h in cc)
  ]

  module _ (request : Request) (password : Text) (now : ℕ) where
    pub refused_login :
        (identity : LoginIdentity) (s : Accounts)
        → is_refused crypto password now identity ≡ true
        → login_identified unicode crypto policy calm request password now identity s
          ≡ (err authentication_failed, record_failed_login identity.user_id now s)
    unfolding login_identified refuse_login
    refused_login identity s refused = rw refused refl

    pub unrefused_login :
        (identity : LoginIdentity) (s : Accounts)
        → is_refused crypto password now identity ≡ false
        → login_identified unicode crypto policy calm request password now identity s
          ≡ accept_login unicode crypto policy request now identity
              (reset_failed_logins identity.user_id s)
    unfolding login_identified reset_and_accept
    unrefused_login identity s accepted = rw accepted refl

    -- A sign-in that fails has counted the failure.
    pub failed_login :
        (identity : LoginIdentity) (s s' : Accounts)
        → login_identified unicode crypto policy calm request password now identity s
          ≡ (err authentication_failed, s')
        → (is_refused crypto password now identity ≡ true)
          × (s' ≡ record_failed_login identity.user_id now s)
    failed_login identity s s' h = elim (Bool-cases (is_refused crypto password now identity)) [
      | inl refused ↦ (refused, ap (λ p. p.1) (sym h ∙ refused_login identity s refused))
      | inr accepted ↦ absurd (
          accepted_error request now identity (reset_failed_logins identity.user_id s)
            (ap (λ p. p.0) (sym (unrefused_login identity s accepted) ∙ h)))
    ]

    module _ (email : Text) (address : EmailAddress) (organization : ℕ) (s : Accounts)
        (valid : create_email unicode email ≡ ok address) where
      pub login_known :
          (identity : LoginIdentity)
          → find_login_identity address.normalized organization s ≡ some identity
          → login unicode crypto policy calm request email password organization now s
            ≡ login_identified unicode crypto policy calm request password now identity s
      unfolding login login_with_email
      login_known identity found = rw (valid, login) (rw (found, login_with_email) refl)

      login_unknown :
          find_login_identity address.normalized organization s ≡ none
          → login unicode crypto policy calm request email password organization now s
            ≡ (err authentication_failed, s)
      unfolding login login_with_email
      login_unknown missing = rw (valid, login) (rw (missing, login_with_email) refl)

      abbrev answer : Result LoginError LoginResult
      answer = (login unicode crypto policy calm request email password organization now s).0

      rejected :
          is_rejected crypto password now (find_login_identity address.normalized organization s)
            ≡ true
          → answer ≡ err authentication_failed
      rejected h = elim (Option-cases (find_login_identity address.normalized organization s)) [
        | inl missing ↦ ap (λ p. p.0) (login_unknown missing)
        | inr (identity, found) ↦
            ap (λ p. p.0) (login_known identity found ∙ refused_login identity s (rw found at h))
      ]

      only_rejected :
          answer ≡ err authentication_failed
          → is_rejected crypto password now (find_login_identity address.normalized organization s)
            ≡ true
      only_rejected h =
          elim (Option-cases (find_login_identity address.normalized organization s)) [
            | inl missing ↦ rw missing refl
            | inr (identity, found) ↦
                (let r =
                    login_identified unicode crypto policy calm request password now identity s in
                  let failed : r ≡ (err authentication_failed, r.1) =
                    ap (λ a. (a, r.1)) (sym (ap (λ p. p.0) (login_known identity found)) ∙ h) in
                  rw found (failed_login identity s r.1 failed).0)
          ]

      -- A sign-in fails for the identities that are rejected.
      pub login_rejected_iff : (answer ≡ err authentication_failed) ↔ (
          is_rejected crypto password now (find_login_identity address.normalized organization s)
          ≡ true)
      login_rejected_iff = (only_rejected, rejected)
