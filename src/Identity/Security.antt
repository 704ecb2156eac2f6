-- ===== src/Identity/Security.antt =====
-- `verifyTotp`, `hashFingerprint` and `generateRecoveryCodes` of
-- apps/api/src/identity/infrastructure/node-identity-security.adapter.ts. The cryptography is the
-- parameter `Crypto`: password hashes, HMAC digests, ciphers, tokens, and the digits of a TOTP.
use sentriqora.Base.{
  List, [], ◌∷◌, map, ℕ, zero, suc, ◌+◌, ◌/◌, Bool, Option, none, some, Text, trim, text_eq,
  if◌then◌else◌,
}
use sentriqora.Identity.Store.{EncryptedValue, SessionPrincipal}
use sentriqora.Identity.Values.{Unicode}

pub record Crypto : Type 0 where
  -- argon2's `hash` and `verify`
  pub hash_password : Text → ℕ
  pub verify_password : ℕ → Text → Bool
  -- HMAC-SHA256 under the pepper
  pub hash_opaque_token : Text → ℕ
  -- AES-256-GCM; a value that is not authentic throws
  pub encrypt : Text → EncryptedValue
  pub decrypt : EncryptedValue → Option Text
  -- `totpCode`
  pub totp_code : Text → ℕ → Text
  -- `issueAccessToken`
  pub issue_access_token : SessionPrincipal → Text

-- `hashFingerprint`
unfoldable pub hash_fingerprint : Unicode → Crypto → Text → ℕ
hash_fingerprint unicode crypto value = crypto.hash_opaque_token (unicode.lower_case (trim value))

-- One round of the loop of `verifyTotp`.
abbrev or_counter : Crypto → (secret code : Text) → ℕ → Option ℕ → Option ℕ
or_counter crypto secret code counter rest =
    if text_eq (crypto.totp_code secret counter) code then some counter else rest

-- The counter before the current one is passed over where it is negative.
abbrev previous : Crypto → (secret code : Text) → ℕ → Option ℕ → Option ℕ
previous crypto secret code zero rest = rest
previous crypto secret code (suc n) rest = or_counter crypto secret code n rest

-- `verifyTotp`
unfoldable pub verify_totp : Crypto → (secret code : Text) → (now : ℕ) → Option ℕ
verify_totp crypto secret code now =
    let current = now / 30_000 in
    previous crypto secret code current
      (or_counter crypto secret code current (or_counter crypto secret code (current + 1) none))

-- `normalized.match(/.{1,4}/gu)?.join('-') ?? normalized`: the number says how many units of the
-- group are to come
grouped : ℕ → Text → Text
grouped left [] = []
grouped zero (c ∷ t) = 45 ∷ c ∷ grouped 3 t
grouped (suc left) (c ∷ t) = c ∷ grouped left t

-- `generateRecoveryCodes`, on the codes that are drawn
unfoldable pub recovery_codes : List Text → List Text
unfolding grouped
recovery_codes drawn = map (grouped 4) drawn

unfoldable pub recovery_hashes : Crypto → List Text → List ℕ
recovery_hashes crypto drawn = map crypto.hash_opaque_token drawn
