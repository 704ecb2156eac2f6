-- ===== src/Identity/Login/Tokens.antt =====
-- What else opens a session: `completeMfaLogin`, `refresh` and `authenticateAccessToken` of
-- apps/api/src/identity/application/identity.use-cases.ts.
use sentriqora.Base.{
  ℕ, Bool, Option, none, some, [], ◌∷◌, Text, within, trim, Result, ok, err, ◌==◌, ◌&&◌, ◌||◌,
  every, leb, length, if◌then◌else◌,
}
use sentriqora.Identity.Store.{Failure, Accounts, SessionPrincipal}
use sentriqora.Identity.Sessions.{
  RotationResult, invalid, device_mismatch, reused, rotated, get_active_session_principal,
}
use sentriqora.Identity.Sessions.Refresh.{rotate_refresh_token}
use sentriqora.Identity.Mfa.{Completion, ChallengeRecord, get_mfa_challenge, consume_mfa_challenge}
use sentriqora.Identity.Values.{Unicode}
use sentriqora.Identity.Security.{Crypto, hash_fingerprint, verify_totp}
use sentriqora.Identity.Login.{
  LoginError, invalid_mfa_code, invalid_token, session_reused, internal_error, Policy, Request,
  Authenticated, plus_seconds, authenticated_by, create_authenticated_session,
}

module _ (unicode : Unicode) (crypto : Crypto) (policy : Policy) where
  -- `code.replaceAll('-', '')`
  without_dashes : Text → Text
  without_dashes [] = []
  without_dashes (c ∷ t) = let rest = without_dashes t in if c == 45 then rest else c ∷ rest

  -- `/^\d{6}$/`
  abbrev is_totp : Text → Bool
  is_totp code = length code == 6 && every (within 48 57) code

  abbrev completion : ChallengeRecord → Option ℕ → Option ℕ → Completion
  completion c code counter = record {
    challenge_id = c.id;
    organization_id = c.organization_id;
    user_id = c.user_id;
    recovery_code_hash = code;
    totp_counter = counter;
  }

  -- The factor that a code stands for; a secret that does not decrypt throws.
  unfoldable pub offered :
      (upper : Text → Text) (code : Text) (now : ℕ) → ChallengeRecord → Option Completion
  unfolding without_dashes
  offered upper code now c =
      let normalized = upper (trim (without_dashes code)) in
      if is_totp normalized
      then elim (crypto.decrypt c.mfa) [
        | none ↦ none
        | some secret ↦ some (completion c none (verify_totp crypto secret normalized now))
      ]
      else some (completion c (some (crypto.hash_opaque_token normalized)) none)

  abbrev is_stale : (now : ℕ) → ChallengeRecord → Bool
  is_stale now c = leb c.expires_at now || leb 5 c.attempts

  unfoldable pub complete_challenge :
      Request
      → (now : ℕ) → ChallengeRecord
      → Option Completion
      → (seen : Accounts) → Accounts
      → Result LoginError Authenticated × Accounts
  complete_challenge request now c none seen s = (err internal_error, s)
  complete_challenge request now c (some i) seen s =
      let (consumed, s₁) = consume_mfa_challenge now i seen s in
      if consumed
      then create_authenticated_session unicode crypto policy request now c.organization_id
          c.user_id (some now) s₁
      else (err invalid_mfa_code, s₁)

  -- `completeMfaLogin`: the challenge is read in `first`, and then again in `seen`
  unfoldable pub complete_mfa_login :
      (upper : Text → Text)
      → Request
      → (challenge organization : ℕ) (code : Text) (now : ℕ) → (first seen : Accounts) → Accounts
      → Result LoginError Authenticated × Accounts
  complete_mfa_login upper request challenge organization code now first seen s =
      elim (get_mfa_challenge organization challenge first) [
        | none ↦ (err invalid_mfa_code, s)
        | some c ↦
            (if is_stale now c
              then (err invalid_mfa_code, s)
              else complete_challenge request now c (offered upper code now c) seen s)
      ]

  abbrev refreshed :
      Request
      → Result Failure RotationResult × Accounts
      → Result LoginError Authenticated × Accounts
  refreshed request (err e, s) = (err internal_error, s)
  refreshed request (ok reused, s) = (err session_reused, s)
  refreshed request (ok (rotated p), s) = (ok (authenticated_by unicode crypto policy request p), s)
  refreshed request (ok invalid, s) = (err invalid_token, s)
  refreshed request (ok device_mismatch, s) = (err invalid_token, s)

  -- `refresh`
  unfoldable pub refresh :
      Request
      → (token : Text) (organization now : ℕ) → (seen : Accounts) → Accounts
      → Result LoginError Authenticated × Accounts
  refresh request token organization now seen s = refreshed request (
      rotate_refresh_token
        (record {
          current_token_hash = crypto.hash_opaque_token token;
          expected_user_agent_hash = hash_fingerprint unicode crypto request.user_agent;
          new_expires_at = plus_seconds now policy.refresh_token_ttl_seconds;
          new_token_hash = crypto.hash_opaque_token request.refresh_token;
          now = now;
          organization_id = organization;
        })
        seen s)

-- `authenticateAccessToken`, on what `verifyAccessToken` reads of the token
unfoldable pub authenticate_access_token :
    (now : ℕ) → Option SessionPrincipal → Accounts → Result LoginError SessionPrincipal
authenticate_access_token now none s = err invalid_token
authenticate_access_token now (some claims) s =
    elim (get_active_session_principal now claims.organization_id claims.user_id claims.session_id
      s) [ none ↦ err invalid_token | some p ↦ ok p ]
