-- ===== src/Tests/SignIn.antt =====
-- Five wrong passwords, and then the right one.
use sentriqora.Base.{
  trim, ℕ, ◌≡◌, ◌↔◌, refl, true, none, some, [], ◌∷◌, Text, units, ok, err, text_eq, length, arith,
  find_first, update_where,
}
use sentriqora.Identity.Store.{keys_of_membership, sort_unique, permission_keys_of, Accounts}
use sentriqora.Identity.Values.{email_matches, Unicode, EmailAddress, create_email}
use sentriqora.Identity.Security.{Crypto}
use sentriqora.Identity.Login.{
  record_failed_login, refuse_login, login_identified, login_with_email, LoginIdentity,
  authentication_failed, Policy, Request, find_login_identity, login, is_refused,
}
use sentriqora.Identity.Login.Refusals.{calm}
use sentriqora.Identity.Login.Allowed.{IsAllowed, login_fails_iff}
use sentriqora.Identity.Login.Lockout.{Guesses, none_yet, guess, lockout}
use sentriqora.Tests.Sessions.{blank}

abbrev unicode : Unicode
unicode = record { nfc = λ t. t; nfkd = λ t. t; lower_case = λ t. t }

abbrev crypto : Crypto
crypto = record {
  hash_password = λ t. length t;
  verify_password = λ hash t. text_eq t (hash ∷ []);
  hash_opaque_token = λ t. length t;
  encrypt = λ t. record { ciphertext = t; iv = []; auth_tag = [] };
  decrypt = λ v. some v.ciphertext;
  totp_code = λ secret counter. counter ∷ [];
  issue_access_token = λ p. p.email;
}

abbrev policy : Policy
policy = record { mfa_challenge_ttl_seconds = 300; refresh_token_ttl_seconds = 600 }

abbrev request : Request
request = record {
  device_name = units "Laptop";
  ip_address = units "::1";
  user_agent = units "curl";
  refresh_token = units "r";
  csrf_token = units "c";
  family_id = 7;
}

abbrev email : Text
email = units "a@b.c"

abbrev address : EmailAddress
address = record { value = units "a@b.c"; normalized = units "a@b.c" }

abbrev known : Accounts
known = record blank {
  credentials =
      record { user_id = 2; password_hash = 77; failed_attempts = 0; locked_until = none } ∷ [];
}

abbrev try : ℕ → Accounts → Accounts
try now s = (login unicode crypto policy calm request email (1 ∷ []) 1 now s).1

abbrev identity : LoginIdentity
identity = record {
  display_name = units "Ada";
  email = units "A@b.c";
  failed_attempts = 0;
  locked_until = none;
  membership_active = true;
  mfa = none;
  organization_id = 1;
  password_hash = 77;
  permissions = [];
  user_active = true;
  user_id = 2;
}

valid : create_email unicode email ≡ ok address
unfolding create_email trim email_matches
valid = refl

found : find_login_identity (units "a@b.c") 1 known ≡ some identity
unfolding find_login_identity find_first text_eq permission_keys_of sort_unique keys_of_membership
found = refl

abbrev after_1 : Accounts
after_1 = try 1 known

fails_1 :
    login unicode crypto policy calm request email (1 ∷ []) 1 1 known
    ≡ (err authentication_failed, after_1)
unfolding login create_email trim email_matches login_with_email find_login_identity find_first
    text_eq login_identified is_refused refuse_login record_failed_login update_where
fails_1 = refl

abbrev after_2 : Accounts
after_2 = try 2 after_1

fails_2 :
    login unicode crypto policy calm request email (1 ∷ []) 1 2 after_1
    ≡ (err authentication_failed, after_2)
unfolding login create_email trim email_matches login_with_email find_login_identity find_first
    text_eq login_identified is_refused refuse_login record_failed_login update_where
fails_2 = refl

abbrev after_3 : Accounts
after_3 = try 3 after_2

fails_3 :
    login unicode crypto policy calm request email (1 ∷ []) 1 3 after_2
    ≡ (err authentication_failed, after_3)
unfolding login create_email trim email_matches login_with_email find_login_identity find_first
    text_eq login_identified is_refused refuse_login record_failed_login update_where
fails_3 = refl

abbrev after_4 : Accounts
after_4 = try 4 after_3

fails_4 :
    login unicode crypto policy calm request email (1 ∷ []) 1 4 after_3
    ≡ (err authentication_failed, after_4)
unfolding login create_email trim email_matches login_with_email find_login_identity find_first
    text_eq login_identified is_refused refuse_login record_failed_login update_where
fails_4 = refl

abbrev after_5 : Accounts
after_5 = try 5 after_4

fails_5 :
    login unicode crypto policy calm request email (1 ∷ []) 1 5 after_4
    ≡ (err authentication_failed, after_5)
unfolding login create_email trim email_matches login_with_email find_login_identity find_first
    text_eq login_identified is_refused refuse_login record_failed_login update_where
fails_5 = refl

guesses : Guesses unicode crypto policy email 1 5 5 known after_5
guesses =
    guess request (1 ∷ []) 5 after_5
      (guess request (1 ∷ []) 4 after_4
        (guess request (1 ∷ []) 3 after_3
          (guess request (1 ∷ []) 2 after_2
            (guess request (1 ∷ []) 1 after_1 (none_yet known) fails_1) fails_2)
          fails_3)
        fails_4)
      fails_5

lockout_example :
    (login unicode crypto policy calm request email (77 ∷ []) 1 6 after_5).0
    ≡ err authentication_failed
lockout_example =
    lockout unicode crypto policy email 1 address valid identity found guesses (omega arith) request
      (77 ∷ []) 6 (omega arith)

login_fails_iff_example :
    ((login unicode crypto policy calm request email (1 ∷ []) 1 6 known).0
      ≡ err authentication_failed)
    ↔ (¬ IsAllowed crypto (units "a@b.c") (1 ∷ []) 1 6 known)
login_fails_iff_example =
    login_fails_iff unicode crypto policy request (1 ∷ []) 6 email address 1 known valid
