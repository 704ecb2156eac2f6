-- ===== src/Tests/Registering.antt =====
-- A registration, and the first sign-in after it.
use sentriqora.Base.{
  false, any, ℕ, suc, ◌≡◌, refl, none, some, List, [], ◌∷◌, units, ok, ◌==◌, text_eq, length, arith,
  find_first, trim,
}
use sentriqora.Authorization.{permission_name, permission_keys}
use sentriqora.Authorization as Authorization
use sentriqora.Identity.Store.{record_event, User, active, Organization, Permission, Accounts}
use sentriqora.Identity.Values.{
  Unicode, create_email, email_matches, create_slug, validate_password, password_reasons,
  code_points,
}
use sentriqora.Identity.Security.{Crypto}
use sentriqora.Identity.Mfa.{is_verified_of}
use sentriqora.Identity.Login.{Policy, Request, login}
use sentriqora.Identity.Login.Refusals.{calm}
use sentriqora.Identity.Members.{
  register, register_body, insert_organization, insert_user, insert_membership, insert_role, grant,
  grant_all, create_system_role, create_system_roles, create_owner, add_role,
  create_default_sla_policies,
}
use sentriqora.Identity.UseCases.{RegisterInput, register_identity, checked_registration}
use sentriqora.Identity.UseCases.FirstSignIn.{IsSignedIn, registered_signs_in}
use sentriqora.Tests.Sessions.{blank}

abbrev unicode : Unicode
unicode = record { nfc = λ t. t; nfkd = λ t. t; lower_case = λ t. t }

abbrev crypto : Crypto
crypto = record {
  hash_password = λ t. length t;
  verify_password = λ hash t. hash == length t;
  hash_opaque_token = λ t. length t;
  encrypt = λ t. record { ciphertext = t; iv = []; auth_tag = [] };
  decrypt = λ v. some v.ciphertext;
  totp_code = λ secret counter. counter ∷ [];
  issue_access_token = λ p. p.email;
}

abbrev policy : Policy
policy = record { mfa_challenge_ttl_seconds = 300; refresh_token_ttl_seconds = 600 }

abbrev request : Request
request = record {
  device_name = units "Laptop";
  ip_address = units "::1";
  user_agent = units "curl";
  refresh_token = units "r";
  csrf_token = units "c";
  family_id = 7;
}

abbrev catalog_from : ℕ → List Authorization.Permission → List Permission
catalog_from id [] = []
catalog_from id (k ∷ ks) = record { id = id; key = permission_name k } ∷ catalog_from (suc id) ks

abbrev installed : Accounts
installed = record blank { permissions = catalog_from 100 permission_keys }

abbrev input : RegisterInput
input = record {
  display_name = units "Eve ";
  email = units "e@f.gh";
  organization_name = units "acme corp";
  organization_slug = none;
  password = units "correct horse battery";
  organization_id = 30;
  user_id = 31;
}

abbrev organization : Organization
organization = record { id = 30; name = units "acme corp"; slug = units "acme-corp" }

abbrev user : User
user = record {
  id = 31;
  email = units "e@f.gh";
  normalized_email = units "e@f.gh";
  display_name = units "Eve";
  status = active;
}

abbrev signed_up : Accounts
signed_up = (register_identity unicode crypto input installed).1

checks : checked_registration unicode input ≡ ok (organization, user, units "correct horse battery")
unfolding checked_registration create_email trim email_matches create_slug validate_password
    password_reasons code_points text_eq
checks = refl

registers : register_identity unicode crypto input installed ≡ (ok (organization, user), signed_up)
unfolding register_identity checked_registration create_email trim email_matches create_slug
    validate_password password_reasons code_points text_eq register register_body
    insert_organization insert_user insert_membership insert_role grant grant_all create_system_role
    create_system_roles create_owner add_role create_default_sla_policies find_first
registers = refl

factorless : find_first (is_verified_of 31) signed_up.mfa_methods ≡ none
unfolding register_identity checked_registration create_email trim email_matches create_slug
    validate_password password_reasons code_points text_eq register register_body
    insert_organization insert_user insert_membership insert_role grant grant_all create_system_role
    create_system_roles create_owner add_role create_default_sla_policies find_first record_event
factorless = refl

unused : any (λ t. t.token_hash == 1) signed_up.refresh_tokens ≡ false
unfolding register_identity checked_registration create_email trim email_matches create_slug
    validate_password password_reasons code_points text_eq register register_body
    insert_organization insert_user insert_membership insert_role grant grant_all create_system_role
    create_system_roles create_owner add_role create_default_sla_policies find_first record_event
unused = refl

registered_signs_in_example : IsSignedIn 30 31 (
    login unicode crypto policy calm request
      (units "e@f.gh")
      (units "correct horse battery")
      30
      900
      signed_up)
registered_signs_in_example =
    registered_signs_in unicode crypto policy input organization user installed signed_up registers
      refl (λ t. ground arith) refl factorless request 900 unused
