-- ===== src/Identity/Mfa.antt =====
-- Second factors: `createMfaChallenge`, `getMfaChallenge`, `consumeMfaChallenge`, `saveMfaEnrollment`,
-- `getPendingMfa` and `activateMfa` of
-- apps/api/src/identity/infrastructure/prisma/prisma-identity.repository.ts. As for sessions, what a
-- transaction reads first it reads in `seen`.
pub mod Rows
pub mod Operations
pub mod Factors
pub mod Completing
pub mod Enrolling
pub mod Histories
pub mod Once
pub mod Guarantees
use sentriqora.Base.{
  ℕ, suc, ◌+◌, Bool, true, false, not, Option, none, some, List, [], ◌∷◌, ◌++◌, String, Text,
  Result, ok, err, ◌>>=◌, transaction, ◌==◌, ◌&&◌, any, ltb, find_first, update_where, count_where,
  if◌then◌else◌,
}
use sentriqora.Identity.Store.{
  EncryptedValue, MfaMethod, RecoveryCode, MfaChallenge, Accounts, Failure, unique_constraint,
  is_none, EventRecord, record_event,
}

-- `MfaChallengeRecord`
pub record ChallengeRecord : Type 0 where
  pub id : ℕ
  pub organization_id : ℕ
  pub user_id : ℕ
  pub attempts : ℕ
  pub expires_at : ℕ
  pub mfa : EncryptedValue

-- The input of `consumeMfaChallenge`.
pub record Completion : Type 0 where
  pub challenge_id : ℕ
  pub organization_id : ℕ
  pub user_id : ℕ
  pub recovery_code_hash : Option ℕ
  pub totp_counter : Option ℕ

-- The input of `saveMfaEnrollment`.
pub record Enrollment : Type 0 where
  pub organization_id : ℕ
  pub user_id : ℕ
  pub label : Text
  pub secret : EncryptedValue

abbrev pub is_verified : MfaMethod → Bool
is_verified m = not (is_none m.verified_at)

-- WHERE clauses
abbrev pub is_method_of : ℕ → MfaMethod → Bool
is_method_of user m = m.user_id == user

abbrev pub is_verified_of : ℕ → MfaMethod → Bool
is_verified_of user m = m.user_id == user && is_verified m

abbrev pub is_unverified_of : ℕ → MfaMethod → Bool
is_unverified_of user m = m.user_id == user && is_none m.verified_at

abbrev pub is_below : Option ℕ → ℕ → Bool
is_below none counter = true
is_below (some last) counter = ltb last counter

abbrev pub accepts_counter : ℕ → ℕ → MfaMethod → Bool
accepts_counter user counter m = is_verified_of user m && is_below m.last_used_counter counter

abbrev pub is_code : ℕ → ℕ → RecoveryCode → Bool
is_code user hash c = c.user_id == user && c.code_hash == hash

abbrev pub is_unused_code : ℕ → ℕ → RecoveryCode → Bool
is_unused_code user hash c = is_code user hash c && is_none c.used_at

abbrev pub is_open_challenge : ℕ → MfaChallenge → Bool
is_open_challenge id c = c.id == id && is_none c.consumed_at

abbrev pub is_same_challenge : ℕ → ℕ → MfaChallenge → Bool
is_same_challenge attempts id c = c.attempts == attempts && is_open_challenge id c

abbrev pub is_answerable : ℕ → Completion → MfaChallenge → Bool
is_answerable now i c =
    ltb c.attempts 5
    && ltb now c.expires_at
    && c.user_id == i.user_id
    && is_open_challenge i.challenge_id c

-- The data of the updates.
abbrev pub use_counter : ℕ → MfaMethod → MfaMethod
use_counter counter m = record m { last_used_counter = some counter }

abbrev pub use_code : ℕ → RecoveryCode → RecoveryCode
use_code now c = record c { used_at = some now }

abbrev pub consume_challenge : ℕ → MfaChallenge → MfaChallenge
consume_challenge now c = record c { consumed_at = some now }

abbrev pub count_attempt : MfaChallenge → MfaChallenge
count_attempt c = record c { attempts = c.attempts + 1 }

abbrev pub verify : ℕ → ℕ → MfaMethod → MfaMethod
verify now counter m = record m { verified_at = some now; last_used_counter = some counter }

abbrev pub renew : Enrollment → MfaMethod → MfaMethod
renew i m = record m { label = i.label; secret = i.secret; last_used_counter = none }

-- `createMfaChallenge`
unfoldable pub create_mfa_challenge :
    (organization user expires : ℕ) → Accounts → MfaChallenge × Accounts
create_mfa_challenge organization user expires s =
    let c : MfaChallenge = record {
      id = s.next_id;
      organization_id = organization;
      user_id = user;
      attempts = 0;
      expires_at = expires;
      consumed_at = none;
    } in
    (c, record s { mfa_challenges = s.mfa_challenges ++ c ∷ []; next_id = suc s.next_id })

abbrev challenge_record : MfaChallenge → MfaMethod → ChallengeRecord
challenge_record c m = record {
  id = c.id;
  organization_id = c.organization_id;
  user_id = c.user_id;
  attempts = c.attempts;
  expires_at = c.expires_at;
  mfa = m.secret;
}

-- `getMfaChallenge`
unfoldable pub get_mfa_challenge : (organization id : ℕ) → Accounts → Option ChallengeRecord
get_mfa_challenge organization id s =
    elim (find_first (λ c. c.organization_id == organization && is_open_challenge id c)
      s.mfa_challenges) [
        | none ↦ none
        | some c ↦ elim (find_first (is_verified_of c.user_id) s.mfa_methods) [
          | none ↦ none
          | some m ↦ some (challenge_record c m)
        ]
      ]

-- The factor that a completion offers is used up, if it is good: `factorConsumed`.
unfoldable pub consume_counter : (user counter : ℕ) → Accounts → Bool × Accounts
consume_counter user counter s = (
  count_where (accepts_counter user counter) s.mfa_methods == 1,
  record s {
    mfa_methods = update_where (accepts_counter user counter) (use_counter counter) s.mfa_methods;
  },
)

unfoldable pub consume_code : (now user hash : ℕ) → Accounts → Bool × Accounts
consume_code now user hash s = (
  count_where (is_unused_code user hash) s.recovery_codes == 1,
  record s {
    recovery_codes = update_where (is_unused_code user hash) (use_code now) s.recovery_codes;
  },
)

unfoldable pub consume_factor : (now : ℕ) → Completion → Accounts → Bool × Accounts
consume_factor now i s = elim i.totp_counter [
  | some counter ↦ consume_counter i.user_id counter s
  | none ↦ elim i.recovery_code_hash [
    | some hash ↦ consume_code now i.user_id hash s
    | none ↦ (false, s)
  ]
]

unfoldable pub miss_challenge : MfaChallenge → Accounts → Accounts
miss_challenge c s = record s {
  mfa_challenges = update_where (is_same_challenge c.attempts c.id) count_attempt s.mfa_challenges;
}

unfoldable pub close_challenge : (now : ℕ) → MfaChallenge → Accounts → Accounts
close_challenge now c s = record s {
  mfa_challenges =
      update_where (is_same_challenge c.attempts c.id) (consume_challenge now) s.mfa_challenges;
}

abbrev pub completed_event : Completion → MfaChallenge → EventRecord
completed_event i c = record {
  organization_id = i.organization_id;
  actor_user_id = i.user_id;
  action = "auth.mfa_challenge.completed";
  outcome = "success";
  target_type = "mfa_challenge";
  target_id = c.id;
}

-- What follows the factor. One that was used up stays so when the challenge is gone.
unfoldable pub finish_challenge :
    (now : ℕ) → Completion → MfaChallenge → Bool × Accounts → Bool × Accounts
finish_challenge now i c (false, s) = (false, miss_challenge c s)
finish_challenge now i c (true, s) =
    if count_where (is_same_challenge c.attempts c.id) s.mfa_challenges == 1
    then (true, record_event (completed_event i c) (close_challenge now c s))
    else (false, close_challenge now c s)

-- `consumeMfaChallenge`
unfoldable pub consume_mfa_challenge :
    (now : ℕ) → Completion → (seen : Accounts) → Accounts → Bool × Accounts
consume_mfa_challenge now i seen s = elim (find_first (is_answerable now i) seen.mfa_challenges) [
  | none ↦ (false, s)
  | some c ↦ finish_challenge now i c (consume_factor now i s)
]

abbrev pub new_method : Enrollment → MfaMethod
new_method i = record {
  user_id = i.user_id;
  label = i.label;
  secret = i.secret;
  verified_at = none;
  last_used_counter = none;
}

-- The upsert of `saveMfaEnrollment`.
unfoldable pub upsert_method : Enrollment → Accounts → Accounts
upsert_method i s =
    if any (is_method_of i.user_id) s.mfa_methods
    then record s { mfa_methods = update_where (is_method_of i.user_id) (renew i) s.mfa_methods }
    else record s { mfa_methods = s.mfa_methods ++ new_method i ∷ [] }

abbrev pub user_event : (organization user : ℕ) → String → EventRecord
user_event organization user action = record {
  organization_id = organization;
  actor_user_id = user;
  action = action;
  outcome = "success";
  target_type = "user";
  target_id = user;
}

abbrev pub is_verified_method : Option MfaMethod → Bool
is_verified_method none = false
is_verified_method (some m) = is_verified m

-- `saveMfaEnrollment`
unfoldable pub save_mfa_enrollment : Enrollment → (seen : Accounts) → Accounts → Bool × Accounts
save_mfa_enrollment i seen s =
    if is_verified_method (find_first (is_method_of i.user_id) seen.mfa_methods)
    then (false, s)
    else (
      true,
      record_event (user_event i.organization_id i.user_id "auth.mfa_enrollment.started")
          (upsert_method i s),
    )

abbrev pending_of : Option MfaMethod → Option EncryptedValue
pending_of none = none
pending_of (some m) = if is_verified m then none else some m.secret

-- `getPendingMfa`
unfoldable pub get_pending_mfa : (user : ℕ) → Accounts → Option EncryptedValue
get_pending_mfa user s = pending_of (find_first (is_method_of user) s.mfa_methods)

-- INSERT INTO recovery_codes, with the unique key of a user's code
unfoldable pub insert_codes :
    (user : ℕ) → List ℕ → List RecoveryCode → Result Failure (List RecoveryCode)
insert_codes user [] codes = ok codes
insert_codes user (hash ∷ hashes) codes =
    let rest =
      insert_codes user hashes
        (codes ++ record { user_id = user; code_hash = hash; used_at = none } ∷ []) in
    if any (is_code user hash) codes then err unique_constraint else rest

unfoldable pub activate_body :
    (now organization user : ℕ) (hashes : List ℕ) (counter : ℕ)
    → Accounts
    → Result Failure (Bool × Accounts)
activate_body now organization user hashes counter s =
    if count_where (is_unverified_of user) s.mfa_methods == 1
    then (insert_codes user hashes s.recovery_codes >>= λ codes. ok (
      true,
      record_event (user_event organization user "auth.mfa_enrollment.activated") (record s {
        mfa_methods = update_where (is_unverified_of user) (verify now counter) s.mfa_methods;
        recovery_codes = codes;
      }),
    ))
    else ok (
      false,
      record s {
        mfa_methods = update_where (is_unverified_of user) (verify now counter) s.mfa_methods;
      },
    )

-- `activateMfa`
unfoldable pub activate_mfa :
    (now organization user : ℕ) (hashes : List ℕ) (counter : ℕ)
    → Accounts
    → Result Failure Bool × Accounts
activate_mfa now organization user hashes counter =
    transaction (activate_body now organization user hashes counter)
