-- ===== src/Identity/Login/Allowed.antt =====
-- Who may sign in, said without the code of the sign-in.
use sentriqora.Base.{
  ok, ℕ, ◌≤◌, ◌≡◌, ◌↔◌, refl, ap, ◌∙◌, subst, true, false, Option, none, some, Text, text_eq, err,
  ◌==◌, ◌&&◌, find_first, Option-cases, Bool-cases, inl, inr, arith,
}
use sentriqora.Identity.Store.{
  User, UserStatus, active, disabled, Credential, Membership, MembershipStatus, enrolled, suspended,
  Accounts, is_active_user, is_active_member,
}
use sentriqora.Identity.Values.{Unicode, EmailAddress, create_email}
use sentriqora.Identity.Security.{Crypto}
use sentriqora.Identity.Login.{
  LoginIdentity, authentication_failed, Policy, Request, login_identity, find_login_identity,
  is_refused, is_after, login,
}
use sentriqora.Identity.Login.Refusals.{calm, is_rejected, login_rejected_iff}
use sentriqora.Identity.Login.Lockout.{find_login_identity-IsFound}

-- The rows of a user who may sign in to the organization with the password.
pub record IsAllowed (crypto : Crypto) (email password : Text) (organization now : ℕ) (s : Accounts)
    : Type 0 where
  pub user : User
  pub credential : Credential
  pub membership : Membership
  pub user_found : find_first (λ u. text_eq u.normalized_email email) s.users ≡ some user
  pub credential_found : find_first (λ c. c.user_id == user.id) s.credentials ≡ some credential
  pub membership_found :
      find_first (λ m. m.organization_id == organization && m.user_id == user.id) s.memberships
      ≡ some membership
  pub verified : crypto.verify_password credential.password_hash password ≡ true
  pub unlocked : (time : ℕ) → credential.locked_until ≡ some time → time ≤ now
  pub enabled : user.status ≡ active
  pub member : membership.status ≡ enrolled

enabled_of : (st : UserStatus) → is_active_user st ≡ true → st ≡ active
enabled_of active h = refl
enabled_of disabled h = absurd (cc)

member_of : (st : MembershipStatus) → is_active_member st ≡ true → st ≡ enrolled
member_of enrolled h = refl
member_of suspended h = absurd (cc)

unlocked_of :
    (until : Option ℕ) (now : ℕ)
    → is_after until now ≡ false
    → (time : ℕ) → until ≡ some time
    → time ≤ now
unlocked_of none now h time e = absurd (cc)
unlocked_of (some t) now h time e = ground (arith, h, e)

not_after :
    (until : Option ℕ) (now : ℕ)
    → ((time : ℕ) → until ≡ some time → time ≤ now)
    → is_after until now ≡ false
not_after none now h = refl
not_after (some t) now h = ground (arith, h t refl)

module _ (crypto : Crypto) (password : Text) (now : ℕ) where
  unrefused :
      (identity : LoginIdentity)
      → is_refused crypto password now identity ≡ false
      → (crypto.verify_password identity.password_hash password ≡ true)
        × (is_after identity.locked_until now ≡ false)
        × (identity.user_active ≡ true)
        × (identity.membership_active ≡ true)
  unfolding is_refused
  unrefused identity h =
      (ground (arith, h), ground (arith, h), ground (arith, h), ground (arith, h))

  unrefused_of :
      (identity : LoginIdentity)
      → crypto.verify_password identity.password_hash password ≡ true
      → is_after identity.locked_until now ≡ false
      → identity.user_active ≡ true
      → identity.membership_active ≡ true
      → is_refused crypto password now identity ≡ false
  unfolding is_refused
  unrefused_of identity v l u m = rw (v, l, u, m) refl

  module _ (email : Text) (organization : ℕ) (s : Accounts) where
    allowed_found :
        (a : IsAllowed crypto email password organization now s)
        → find_login_identity email organization s
          ≡ some (login_identity s a.user a.credential a.membership)
    unfolding find_login_identity
    allowed_found a =
        rw (a.user_found, find_login_identity) (rw a.credential_found (rw a.membership_found refl))

    allowed_accepted :
        IsAllowed crypto email password organization now s
        → is_rejected crypto password now (find_login_identity email organization s) ≡ false
    allowed_accepted a =
        ap (is_rejected crypto password now) (allowed_found a)
        ∙ unrefused_of (login_identity s a.user a.credential a.membership) a.verified
            (not_after a.credential.locked_until now a.unlocked) (ap is_active_user a.enabled)
            (ap is_active_member a.member)

    found-IsAllowed :
        (identity : LoginIdentity)
        → find_login_identity email organization s ≡ some identity
        → is_refused crypto password now identity ≡ false
        → IsAllowed crypto email password organization now s
    found-IsAllowed identity found kept =
        let f = find_login_identity-IsFound email organization s identity found in
        let (verified, unlocked, enabled, member) =
          unrefused (login_identity s f.user f.credential f.membership)
            (subst (λ i. is_refused crypto password now i ≡ false) f.made kept) in
        record {
          user = f.user;
          credential = f.credential;
          membership = f.membership;
          user_found = f.user_found;
          credential_found = f.credential_found;
          membership_found = f.membership_found;
          verified = verified;
          unlocked = unlocked_of f.credential.locked_until now unlocked;
          enabled = enabled_of f.user.status enabled;
          member = member_of f.membership.status member;
        }

    disallowed :
        ¬ IsAllowed crypto email password organization now s
        → is_rejected crypto password now (find_login_identity email organization s) ≡ true
    disallowed h = elim (Option-cases (find_login_identity email organization s)) [
      | inl missing ↦ rw missing refl
      | inr (identity, found) ↦ elim (Bool-cases (is_refused crypto password now identity)) [
        | inl refused ↦ rw found refused
        | inr kept ↦ absurd (h (found-IsAllowed identity found kept))
      ]
    ]

module _ (unicode : Unicode) (crypto : Crypto) (policy : Policy) (request : Request)
    (password : Text) (now : ℕ) (email : Text) (address : EmailAddress) (organization : ℕ)
    (s : Accounts) where
  -- When the login protection throws nothing and the address is valid, a sign-in answers
  -- `authentication_failed` exactly when not all of this holds: a user has the address, has a
  -- credential whose hash verifies the password and that is not locked beyond now, and is active,
  -- and has a membership of the organization that is active. The answer does not tell these apart.
  pub login_fails_iff :
      create_email unicode email ≡ ok address
      → ((login unicode crypto policy calm request email password organization now s).0
          ≡ err authentication_failed)
        ↔ (¬ IsAllowed crypto address.normalized password organization now s)
  login_fails_iff valid =
      let both =
        login_rejected_iff unicode crypto policy request password now email address organization s
          valid in
      (
        λ failed allowed.
            let no =
              allowed_accepted crypto password now address.normalized organization s allowed in
            let yes = both.0 failed in cc,
        λ barred. both.1 (disallowed crypto password now address.normalized organization s barred),
      )
