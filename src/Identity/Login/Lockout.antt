-- ===== src/Identity/Login/Lockout.antt =====
-- Five failed sign-ins lock an account for fifteen minutes.
use sentriqora.Base.{
  ℕ, suc, ◌+◌, ◌≤◌, ◌<◌, ◌≡◌, refl, sym, ap, ◌∙◌, subst, true, some, Text, ok, err, find_first,
  find_first-update_where, find_first-All, All-unit, Option-cases, inl, inr, arith,
}
use sentriqora.Identity.Store.{
  User, Credential, Membership, Accounts, is_membership, minutes, permission_keys_of,
  keys_of_membership, keys_of_role,
}
use sentriqora.Identity.Values.{Unicode, EmailAddress, create_email}
use sentriqora.Identity.Security.{Crypto}
use sentriqora.Identity.Login.{
  LoginIdentity, authentication_failed, Policy, Request, has_email, is_credential, login_identity,
  find_login_identity, count_failure, lock_after, record_failed_login, is_refused, login,
}
use sentriqora.Identity.Login.Refusals.{calm, failed_login, login_known, login_rejected_iff}

-- A locked identity is refused.
locked_refused :
    (crypto : Crypto) (password : Text) (now : ℕ) (identity : LoginIdentity) (time : ℕ)
    → identity.locked_until ≡ some time
    → now < time
    → is_refused crypto password now identity ≡ true
unfolding is_refused
locked_refused crypto password now identity time locked soon = ground (arith, locked, soon)

-- The rows that make an identity.
pub record IsFound (email : Text) (organization : ℕ) (s : Accounts) (identity : LoginIdentity)
    : Type 0 where
  pub user : User
  pub credential : Credential
  pub membership : Membership
  pub user_found : find_first (has_email email) s.users ≡ some user
  pub credential_found : find_first (is_credential user.id) s.credentials ≡ some credential
  pub membership_found :
      find_first (is_membership organization user.id) s.memberships ≡ some membership
  pub made : identity ≡ login_identity s user credential membership

module _ (email : Text) (organization : ℕ) where
  pub find_login_identity-IsFound :
      (s : Accounts) (identity : LoginIdentity)
      → find_login_identity email organization s ≡ some identity
      → IsFound email organization s identity
  unfolding find_login_identity
  find_login_identity-IsFound s identity h =
      elim (Option-cases (find_first (has_email email) s.users)) [
        | inl missing ↦ absurd (let e = rw (missing, find_login_identity) at h in cc)
        | inr (u, user_found) ↦
            (let h₁ = rw (user_found, find_login_identity) at h in
              elim (Option-cases (find_first (is_credential u.id) s.credentials)) [
                | inl missing ↦ absurd (let e = rw missing at h₁ in cc)
                | inr (c, credential_found) ↦
                    (let h₂ = rw credential_found at h₁ in
                      elim (Option-cases
                        (find_first (is_membership organization u.id) s.memberships)) [
                          | inl missing ↦ absurd (let e = rw missing at h₂ in cc)
                          | inr (m, membership_found) ↦ record {
                            user = u;
                            credential = c;
                            membership = m;
                            user_found = user_found;
                            credential_found = credential_found;
                            membership_found = membership_found;
                            made = cc (rw membership_found at h₂);
                          }
                        ])
              ])
      ]

  -- An identity after a failure that is counted.
  abbrev pub after_failure : (now : ℕ) → LoginIdentity → LoginIdentity
  after_failure now i = record i {
    failed_attempts = i.failed_attempts + 1;
    locked_until = lock_after now (i.failed_attempts + 1) i.locked_until;
  }

  found_of :
      (s : Accounts) (u : User) (c : Credential) (m : Membership)
      → find_first (has_email email) s.users ≡ some u
      → find_first (is_credential u.id) s.credentials ≡ some c
      → find_first (is_membership organization u.id) s.memberships ≡ some m
      → find_login_identity email organization s ≡ some (login_identity s u c m)
  unfolding find_login_identity
  found_of s u c m user_found credential_found membership_found =
      rw (user_found, find_login_identity) (rw credential_found (rw membership_found refl))

  module _ (now : ℕ) (s : Accounts) (u : User) (c : Credential) (m : Membership) where
    abbrev counted : Accounts
    counted = record_failed_login u.id now s

    credential_counted :
        find_first (is_credential u.id) s.credentials ≡ some c
        → find_first (is_credential u.id) counted.credentials ≡ some (count_failure now c)
    unfolding record_failed_login
    credential_counted found =
        let (_, mine) =
          find_first-All (λ _. Unit {0}) (is_credential u.id) s.credentials (All-unit s.credentials)
            found in
        find_first-update_where (is_credential u.id) (is_credential u.id) (count_failure now)
          s.credentials (λ d. refl) found
        ∙ rw mine refl

    same_users : counted.users ≡ s.users
    unfolding record_failed_login
    same_users = refl

    same_memberships : counted.memberships ≡ s.memberships
    unfolding record_failed_login
    same_memberships = refl

    identity_counted :
        login_identity counted u (count_failure now c) m
        ≡ after_failure now (login_identity s u c m)
    unfolding record_failed_login permission_keys_of keys_of_membership keys_of_role
    identity_counted = refl

  found_again :
      (now : ℕ) (s : Accounts) (identity : LoginIdentity)
      → find_login_identity email organization s ≡ some identity
      → find_login_identity email organization (record_failed_login identity.user_id now s)
        ≡ some (after_failure now identity)
  found_again now s identity h =
      let f = find_login_identity-IsFound s identity h in
      subst
        (λ i.
          find_login_identity email organization (record_failed_login i.user_id now s)
          ≡ some (after_failure now i))
        (sym f.made)
        (found_of (counted now s f.user f.credential f.membership) f.user
            (count_failure now f.credential) f.membership
            (ap (find_first (has_email email)) (same_users now s f.user f.credential f.membership)
              ∙ f.user_found)
            (credential_counted now s f.user f.credential f.membership f.credential_found)
            (ap (find_first (is_membership organization f.user.id))
                (same_memberships now s f.user f.credential f.membership)
              ∙ f.membership_found)
          ∙ ap some (identity_counted now s f.user f.credential f.membership))

-- Sign-ins with one address in one organization that all fail, one after the other: how many there
-- are, and when the last was.
module _ (unicode : Unicode) (crypto : Crypto) (policy : Policy) (email : Text)
    (organization : ℕ) where
  pub data Guesses : (count last : ℕ) → Accounts → Accounts → Type 0 where
    none_yet : (s : Accounts) → Guesses 0 0 s s
    guess :
        {count last : ℕ} {start s : Accounts} (request : Request) (password : Text) (now : ℕ)
        (s' : Accounts)
        → Guesses count last start s
        → login unicode crypto policy calm request email password organization now s
          ≡ (err authentication_failed, s')
        → Guesses (suc count) now start s'

  module _ (address : EmailAddress) (valid : create_email unicode email ≡ ok address) where
    -- What the sign-ins have left of the identity.
    pub record IsGuessed (count last : ℕ) (s : Accounts) : Type 0 where
      pub identity : LoginIdentity
      pub found : find_login_identity address.normalized organization s ≡ some identity
      pub counted : count ≤ identity.failed_attempts
      pub locked : 5 ≤ count → identity.locked_until ≡ some (last + minutes 15)

    Guesses-IsGuessed :
        {count last : ℕ} {start s : Accounts} (identity : LoginIdentity)
        → find_login_identity address.normalized organization start ≡ some identity
        → Guesses count last start s
        → IsGuessed count last s
    Guesses-IsGuessed identity found (none_yet s) = record {
      identity = identity;
      found = found;
      counted = omega arith;
      locked = λ many. absurd (omega (arith, many));
    }
    Guesses-IsGuessed {start = start} identity found
          (guess {count} {last} {s = s} request password now s' before failed) =
        let g = Guesses-IsGuessed identity found before in
        let (_, after) = failed_login unicode crypto policy request password now g.identity s s' (
          sym (
            login_known unicode crypto policy request password now email address organization s
              valid g.identity g.found)
          ∙ failed) in
        record {
          identity = after_failure address.normalized organization now g.identity;
          found =
              ap (find_login_identity address.normalized organization) after
              ∙ found_again address.normalized organization now s g.identity g.found;
          counted = omega (arith, g.counted);
          locked = λ many. ground (arith, many, g.counted);
        }

    -- While the login protection throws nothing: after five or more sign-ins in a row to an account
    -- with a valid address, all answered by `authentication_failed`, each sign-in to it within
    -- fifteen minutes of the last of them is answered so too, whatever its password.
    pub lockout :
        {count last : ℕ} {start s : Accounts} (identity : LoginIdentity)
        → find_login_identity address.normalized organization start ≡ some identity
        → Guesses count last start s
        → 5 ≤ count
        → (request : Request) (password : Text) (now : ℕ) → now < last + minutes 15
        → (login unicode crypto policy calm request email password organization now s).0
          ≡ err authentication_failed
    lockout {count} {last} {s = s} identity found guesses many request password now soon =
        let g = Guesses-IsGuessed identity found guesses in
        (login_rejected_iff unicode crypto policy request password now email address organization s
            valid).1
          (rw g.found (
            locked_refused crypto password now g.identity (last + minutes 15) (g.locked many) soon))
