-- ===== src/Identity/UseCases/FirstSignIn.antt =====
-- A registered user can sign in, with the password of the registration.
use sentriqora.Base.{
  Option, suc, transaction_of_ok, ℕ, ◌≡◌, refl, sym, ap, ◌∙◌, subst, Bool, true, false, none, some,
  [], ◌∷◌, ◌++◌, Text, Result, ok, any, ◌||◌, ◌==◌, find_first, arith,
}
use sentriqora.Identity.Store.{
  RefreshToken, MfaMethod, SessionPrincipal, is_recent_mfa, principal_for, principal_of, is_user,
  User, Organization, active, Accounts, is_membership, record_event,
}
use sentriqora.Identity.Values.{Unicode}
use sentriqora.Identity.Security.{Crypto}
use sentriqora.Identity.Mfa.{is_verified_of}
use sentriqora.Identity.Login.{
  LoginIdentity, session_of, accept_login, create_authenticated_session, authenticated,
  authenticated_by, Authenticated, LoginError, LoginResult, secret_of, reset_failed_logins, Policy,
  Request, is_credential, login_identity, find_login_identity, is_refused, login,
}
use sentriqora.Identity.Login.Refusals.{login_known, unrefused_login, calm}
use sentriqora.Identity.UseCases.{RegisterInput, register_identity}
use sentriqora.Identity.Sessions.{
  NewSession, create_session, create_session_body, insert_token, new_session, first_token,
  insert_session,
}
use sentriqora.Identity.UseCases.People.{credential_of, member_of}
use sentriqora.Identity.UseCases.Registering.{
  find_first-append-last, IsRegistered, registered_found,
}
use sentriqora.Identity.UseCases.Checks.{register_identity_cases}

module _ (unicode : Unicode) (crypto : Crypto) where
  registered_unrefused :
      (o : Organization) (u : User) (password : Text) (now id : ℕ) (s : Accounts)
      → u.status ≡ active
      → crypto.verify_password (crypto.hash_password password) password ≡ true
      → is_refused crypto password now (
          login_identity s u
            (credential_of u (crypto.hash_password password))
            (member_of id o.id u.id))
        ≡ false
  unfolding is_refused
  registered_unrefused o u password now id s enabled verified = rw (verified, enabled) refl

or_false : (b : Bool) → (b || false) ≡ b
or_false true = refl
or_false false = refl

abbrev with_session : (now : ℕ) → NewSession → Accounts → Accounts
with_session now input s = record s {
  sessions = s.sessions ++ new_session now s.next_id input ∷ [];
  refresh_tokens = s.refresh_tokens ++ first_token (suc s.next_id) s.next_id input ∷ [];
  next_id = suc (suc s.next_id);
}

-- A session is created for a principal that is found, with a token that is new.
session_created :
    (now : ℕ) (input : NewSession) (s : Accounts) (p : SessionPrincipal)
    → any (λ t. t.token_hash == input.refresh_token_hash) s.refresh_tokens ≡ false
    → principal_for
        (with_session now input s)
        input.organization_id
        input.user_id
        s.next_id
        (is_recent_mfa input.mfa_verified_at now)
      ≡ some p
    → (s' : Accounts) × (create_session now input s ≡ (ok (p, s.next_id), s'))
unfolding create_session create_session_body insert_token new_session first_token insert_session
session_created now input s p free found =
    let free' : any (λ (t : RefreshToken). t.token_hash == input.refresh_token_hash || false)
          s.refresh_tokens
        ≡ false =
      (λ i.
        any (λ (t : RefreshToken). or_false (t.token_hash == input.refresh_token_hash) i)
          s.refresh_tokens)
      ∙ free in
    (
      record_event
          (record {
            organization_id = input.organization_id;
            actor_user_id = input.user_id;
            action = "auth.session.created";
            outcome = "success";
            target_type = "session";
            target_id = s.next_id;
          })
          (with_session now input s),
      transaction_of_ok (create_session_body now input) s (rw free' (rw found refl)),
    )

new_principal :
    (o : Organization) (u : User) (password_hash : ℕ) (s s' : Accounts)
    → (r : IsRegistered o u password_hash s s') → u.status ≡ active
    → (t : Accounts) → t.users ≡ s'.users
    → t.memberships ≡ s'.memberships
    → (session : ℕ) (recent : Bool)
    → principal_for t o.id u.id session recent
      ≡ some (principal_of t o.id u.id (member_of r.id o.id u.id) u session recent)
unfolding principal_for
new_principal o u password_hash s s' r enabled t users memberships session recent =
    let member : find_first (is_membership o.id u.id) t.memberships
        ≡ some (member_of r.id o.id u.id) =
      ap (find_first (is_membership o.id u.id)) memberships
      ∙ (ap (λ p. find_first (is_membership o.id u.id) p.2) r.rows
          ∙ find_first-append-last (is_membership o.id u.id) s.memberships
              (member_of r.id o.id u.id) r.free (ground arith)) in
    let user : find_first (is_user u.id) t.users ≡ some u =
      ap (find_first (is_user u.id)) users
      ∙ (ap (λ p. find_first (is_user u.id) p.0) r.rows
          ∙ find_first-append-last (is_user u.id) s.users u r.new (ground arith)) in
    rw (member, principal_for) (rw user (rw enabled refl))

accepted_session :
    (unicode : Unicode) (crypto : Crypto) (policy : Policy) (request : Request) (now : ℕ)
    (identity : LoginIdentity) (s s' : Accounts) (p : SessionPrincipal) (session : ℕ)
    → identity.mfa ≡ none
    → create_session now
        (session_of unicode crypto policy request now identity.organization_id identity.user_id
          none)
        s
      ≡ (ok (p, session), s')
    → accept_login unicode crypto policy request now identity s ≡ (
      ok (
          authenticated
            (authenticated_by unicode crypto policy request (record p { session_id = session }))),
      s',
    )
unfolding accept_login create_authenticated_session
accepted_session unicode crypto policy request now identity s s' p session without created =
    rw (without, accept_login) (rw created refl)

-- The answer of a sign-in that opens a session of the user in the organization.
pub record IsSignedIn (organization user : ℕ) (answer : Result LoginError LoginResult × Accounts)
    : Type 0 where
  pub session : Authenticated
  pub answered : answer.0 ≡ ok (authenticated session)
  pub own : session.principal.user_id ≡ user
  pub inside : session.principal.organization_id ≡ organization

module _ (unicode : Unicode) (crypto : Crypto) (policy : Policy) where
  -- The sign-in that follows the checks of a registration.
  registered_session :
      (o : Organization) (u : User) (password : Text) (s s' : Accounts)
      → (r : IsRegistered o u (crypto.hash_password password) s s') → u.status ≡ active
      → find_first (is_verified_of u.id) s'.mfa_methods ≡ none
      → (request : Request) (now : ℕ)
      → any (λ t. t.token_hash == crypto.hash_opaque_token request.refresh_token) s'.refresh_tokens
        ≡ false
      → IsSignedIn o.id u.id (
          accept_login unicode crypto policy request now
            (login_identity s' u
              (credential_of u (crypto.hash_password password))
              (member_of r.id o.id u.id))
            (reset_failed_logins u.id s'))
  unfolding reset_failed_logins
  registered_session o u password s s' r enabled factorless request now free =
      let identity =
        login_identity s' u (credential_of u (crypto.hash_password password))
          (member_of r.id o.id u.id) in
      let s₁ = reset_failed_logins u.id s' in
      let input = session_of unicode crypto policy request now o.id u.id none in
      let p =
        principal_of (with_session now input s₁) o.id u.id (member_of r.id o.id u.id) u s₁.next_id
          (is_recent_mfa none now) in
      let (s₂, created) = session_created now input s₁ p free (
        new_principal o u (crypto.hash_password password) s s' r enabled (with_session now input s₁)
          refl refl s₁.next_id (is_recent_mfa none now)) in
      record {
        session =
            authenticated_by unicode crypto policy request (record p { session_id = s₁.next_id });
        answered =
            ap (λ a. a.0)
              (accepted_session unicode crypto policy request now identity s₁ s₂ p s₁.next_id
                (ap (λ (m : Option MfaMethod). secret_of m) factorless) created);
        own = refl;
        inside = refl;
      }

  -- After a registration that succeeds, a sign-in with the address and the password that were
  -- registered opens a session of the new user in the new organization, when the login protection
  -- throws nothing. The password is taken to be in the normal form in which it is stored, and a
  -- password to verify against its own hash. The user's id has no credential before, the user has no
  -- second factor, and the refresh token that is drawn is not in use.
  pub registered_signs_in :
      (i : RegisterInput) (o : Organization) (u : User) (s s' : Accounts)
      → register_identity unicode crypto i s ≡ (ok (o, u), s')
      → unicode.nfc i.password ≡ i.password
      → ((t : Text) → crypto.verify_password (crypto.hash_password t) t ≡ true)
      → any (is_credential u.id) s.credentials ≡ false
      → find_first (is_verified_of u.id) s'.mfa_methods ≡ none
      → (request : Request) (now : ℕ)
      → any (λ t. t.token_hash == crypto.hash_opaque_token request.refresh_token) s'.refresh_tokens
        ≡ false
      → IsSignedIn o.id u.id
          (login unicode crypto policy calm request i.email i.password o.id now s')
  registered_signs_in i o u s s' done normal verifies fresh factorless request now free =
      let (password, (checked, r₀)) = register_identity_cases unicode crypto i o u s s' done in
      let r : IsRegistered o u (crypto.hash_password i.password) s s' =
        subst (λ p. IsRegistered o u (crypto.hash_password p) s s') (checked.plain ∙ normal) r₀ in
      let enabled = ap (λ (v : User). v.status) checked.user in
      let identity =
        login_identity s' u (credential_of u (crypto.hash_password i.password))
          (member_of r.id o.id u.id) in
      let found : find_login_identity checked.address.normalized o.id s' ≡ some identity =
        ap (λ a. find_login_identity a o.id s')
          (sym (ap (λ (v : User). v.normalized_email) checked.user))
        ∙ registered_found o u (crypto.hash_password i.password) s s' r fresh in
      let signed : login unicode crypto policy calm request i.email i.password o.id now s'
          ≡ accept_login unicode crypto policy request now identity (reset_failed_logins u.id s') =
        login_known unicode crypto policy request i.password now i.email checked.address o.id s'
          checked.valid identity found
        ∙ unrefused_login unicode crypto policy request i.password now identity s' (
            registered_unrefused unicode crypto o u i.password now r.id s' enabled
              (verifies i.password)) in
      subst (IsSignedIn o.id u.id) (sym signed)
        (registered_session o u i.password s s' r enabled factorless request now free)
