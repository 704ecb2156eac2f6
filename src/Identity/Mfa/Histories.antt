-- ===== src/Identity/Mfa/Histories.antt =====
-- Histories of second factors: the operations of the repository, in the order of their writes. A
-- completion may have read any earlier state; no enrolment is raced by an activation. The log has the
-- newest event first.
use sentriqora.Base.{
  ℕ, ◌≡◌, Bool, true, false, not, ◌==◌, ◌&&◌, Option, some, List, [], ◌∷◌, Memᴰ, ok, any, leb,
}
use sentriqora.Identity.Store.{Accounts}
use sentriqora.Identity.Mfa.{
  Completion, Enrollment, create_mfa_challenge, consume_mfa_challenge, save_mfa_enrollment,
  activate_mfa,
}
use sentriqora.Identity.Mfa.Rows.{IsSame}
use sentriqora.Identity.Mfa.Factors.{Factor, totp, recovery, factor_of}

pub data Event : Type 0 where
  -- consumeMfaChallenge answers true
  completed : (challenge user : ℕ) → Option Factor → Event
  -- activateMfa answers true
  activated : (user counter : ℕ) → Event

pub data History : List Accounts → List Event → Accounts → Type 0 where
  start : (s : Accounts) → s.mfa_methods ≡ [] → s.mfa_challenges ≡ [] → History (s ∷ []) [] s
  challenges :
      {past : List Accounts} {log : List Event} {s : Accounts} (organization user expires : ℕ)
      → History past log s
      → History
          ((create_mfa_challenge organization user expires s).1 ∷ past)
          log
          (create_mfa_challenge organization user expires s).1
  completes :
      {past : List Accounts} {log : List Event} {s : Accounts} (now : ℕ) (i : Completion)
      (seen s' : Accounts)
      → History past log s
      → Memᴰ seen past
      → consume_mfa_challenge now i seen s ≡ (true, s')
      → History (s' ∷ past) (completed i.challenge_id i.user_id (factor_of i) ∷ log) s'
  fails :
      {past : List Accounts} {log : List Event} {s : Accounts} (now : ℕ) (i : Completion)
      (seen s' : Accounts)
      → History past log s
      → Memᴰ seen past
      → consume_mfa_challenge now i seen s ≡ (false, s')
      → History (s' ∷ past) log s'
  enrolls :
      {past : List Accounts} {log : List Event} {s : Accounts} (i : Enrollment)
      → History past log s
      → History ((save_mfa_enrollment i s s).1 ∷ past) log (save_mfa_enrollment i s s).1
  activates :
      {past : List Accounts} {log : List Event} {s : Accounts} (now organization user : ℕ)
      (hashes : List ℕ) (counter : ℕ) (s' : Accounts)
      → History past log s
      → activate_mfa now organization user hashes counter s ≡ (ok true, s')
      → History (s' ∷ past) (activated user counter ∷ log) s'
  -- any change of the other tables
  changes :
      {past : List Accounts} {log : List Event} {s : Accounts} (s' : Accounts)
      → History past log s
      → IsSame s s'
      → History (s' ∷ past) log s'

abbrev pub answers : (challenge : ℕ) → Event → Bool
answers challenge (completed c u f) = c == challenge
answers challenge _ = false

abbrev pub uses_code : (user hash : ℕ) → Event → Bool
uses_code user hash (completed c u (some (recovery h))) = u == user && h == hash
uses_code user hash _ = false

-- The user's TOTP code of the counter, or of a later one, was accepted.
abbrev pub reaches : (user counter : ℕ) → Event → Bool
reaches user counter (completed c u (some (totp n))) = u == user && leb counter n
reaches user counter (activated u n) = u == user && leb counter n
reaches user counter _ = false

-- The user's TOTP code is accepted although one of its counter or of a later one was.
abbrev pub replays : (user : ℕ) → List Event → Event → Bool
replays user log (completed c u (some (totp n))) = u == user && any (reaches user n) log
replays user log (activated u n) = u == user && any (reaches user n) log
replays user log _ = false

unfoldable pub is_increasing : (user : ℕ) → List Event → Bool
is_increasing user [] = true
is_increasing user (e ∷ log) = is_increasing user log && not (replays user log e)
