-- ===== src/Identity/UseCases/Checks.antt =====
-- What a registration has checked, and that its transaction was committed.
use sentriqora.Base.{
  ℕ, ◌≡◌, sym, ap, ◌∙◌, subst, List, [], ◌∷◌, Text, Result, ok, err, ok_of_bind, ok-injective,
  ok_of_transaction, Result-cases, transaction, inl, inr,
}
use sentriqora.Identity.Store.{
  User, Organization, Accounts, Failure, unique_constraint, missing_principal, missing_permission,
}
use sentriqora.Identity.Values.{
  Unicode, EmailAddress, create_email, validate_password, accepted_if, Reason, password_reasons,
  create_slug, password_reasons,
}
use sentriqora.Identity.Security.{Crypto}
use sentriqora.Identity.Members.{
  Registration, registered, email_conflict, slug_conflict, register, register_body, or_conflict,
}
use sentriqora.Identity.UseCases.{
  RegisterInput, user_of, checked_registration, as_registered, register_identity,
}
use sentriqora.Identity.UseCases.Registering.{IsRegistered, register_body-IsRegistered}

accepted_if_ok :
    (reasons : List Reason) {t password : Text} → accepted_if reasons t ≡ ok password → password ≡ t
accepted_if_ok [] h = cc
accepted_if_ok (reason ∷ reasons) h = absurd (cc)

validate_password_ok :
    (unicode : Unicode) (candidate : Text) (hints : List Text) (password : Text)
    → validate_password unicode candidate hints ≡ ok password
    → password ≡ unicode.nfc candidate
unfolding validate_password
validate_password_ok unicode candidate hints password h =
    accepted_if_ok (password_reasons unicode (unicode.nfc candidate) hints) h

or_conflict_ok :
    {o : Organization} {u : User} {s' : Accounts} (r : Result Failure Registration × Accounts)
    → or_conflict slug_conflict r ≡ (ok (registered o u), s')
    → r ≡ (ok (registered o u), s')
or_conflict_ok (ok a, s) h = h
or_conflict_ok (err unique_constraint, s) h = absurd (cc)
or_conflict_ok (err missing_principal, s) h = absurd (cc)
or_conflict_ok (err missing_permission, s) h = absurd (cc)

as_registered_ok :
    {o : Organization} {u : User} {s' : Accounts} (r : Result Failure Registration × Accounts)
    → as_registered r ≡ (ok (o, u), s')
    → r ≡ (ok (registered o u), s')
as_registered_ok (ok (registered o u), s) h = cc
as_registered_ok (ok email_conflict, s) h = absurd (cc)
as_registered_ok (ok slug_conflict, s) h = absurd (cc)
as_registered_ok (err e, s) h = absurd (cc)

-- What is checked before the rows are written.
pub record IsChecked (unicode : Unicode) (i : RegisterInput) (o : Organization) (u : User)
    (password : Text) : Type 0 where
  pub address : EmailAddress
  pub valid : create_email unicode i.email ≡ ok address
  pub user : u ≡ user_of i address
  pub plain : password ≡ unicode.nfc i.password

checked_registration-IsChecked :
    (unicode : Unicode) (i : RegisterInput) (o : Organization) (u : User) (password : Text)
    → checked_registration unicode i ≡ ok (o, u, password)
    → IsChecked unicode i o u password
unfolding checked_registration
checked_registration-IsChecked unicode i o u password h =
    let (address, valid, r₁) = ok_of_bind (create_email unicode i.email) _ h in
    let (slug, _, r₂) = ok_of_bind (create_slug unicode _) _ r₁ in
    let (plain, validated, last) = ok_of_bind (validate_password unicode i.password _) _ r₂ in
    let same = ok-injective last in
    record {
      address = address;
      valid = valid;
      user = ap (λ p. p.1) (sym same);
      plain = ap (λ p. p.2) (sym same) ∙ validate_password_ok unicode i.password _ plain validated;
    }

registered_pair :
    (unicode : Unicode) (i : RegisterInput) (o o' : Organization) (u u' : User) (password : Text)
    (hash : ℕ) (s s' : Accounts)
    → checked_registration unicode i ≡ ok (o, u, password)
    → register o u hash s ≡ (ok (registered o' u'), s')
    → IsChecked unicode i o' u' password × IsRegistered o' u' hash s s'
unfolding register
registered_pair unicode i o o' u u' password hash s s' checked h =
    let (same_o, same_u, rows) = register_body-IsRegistered o u hash s o' u' s' (
      ok_of_transaction (register_body o u hash) s
        (or_conflict_ok (transaction (register_body o u hash) s) h)) in
    let same : ◌≡◌ {A = Organization × User} (o, u) (o', u') = cc in
    subst (λ p. IsChecked unicode i p.0 p.1 password × IsRegistered p.0 p.1 hash s s') same
      (checked_registration-IsChecked unicode i o u password checked, rows)

module _ (unicode : Unicode) (crypto : Crypto) where
  pub register_identity_cases :
      (i : RegisterInput) (o : Organization) (u : User) (s s' : Accounts)
      → register_identity unicode crypto i s ≡ (ok (o, u), s')
      → (password : Text) × (IsChecked unicode i o u password
          × IsRegistered o u (crypto.hash_password password) s s')
  unfolding register_identity
  register_identity_cases i o u s s' h = elim (Result-cases (checked_registration unicode i)) [
    | inl (e, invalid) ↦ absurd (let e = rw (invalid, register_identity) at h in cc)
    | inr ((o₀, u₀, password), checked) ↦ (
      password,
      registered_pair unicode i o₀ o u₀ u password (crypto.hash_password password) s s' checked (
          as_registered_ok (register o₀ u₀ (crypto.hash_password password) s)
            (rw (checked, register_identity) at h)),
    )
  ]
