-- ===== src/Identity/UseCases/Registering.antt =====
-- The rows that a registration leaves, as a sign-in looks them up.
use sentriqora.Base.{
  ℕ, ◌≡◌, refl, sym, ap, ◌∙◌, Bool, true, false, some, List, [], ◌∷◌, ◌++◌, Text, text_eq, Result,
  ok, ok_of_bind, any, find_first, Bool-cases, inl, inr, arith,
}
use sentriqora.Identity.Store.{
  is_user, User, Organization, Accounts, Failure, is_membership, record_event,
}
use sentriqora.Identity.Login.{has_email, is_credential, login_identity, find_login_identity}
use sentriqora.Identity.Members.{
  Registration, registered, insert_organization, insert_user, create_owner,
  create_default_sla_policies, register_body,
}
use sentriqora.Identity.UseCases.People.{
  people, credential_of, member_of, insert_organization-people, insert_user-people, insert_user_new,
  create_owner-people,
}

-- The rows that a registration leaves.
pub record IsRegistered (o : Organization) (u : User) (password_hash : ℕ) (s s' : Accounts)
    : Type 0 where
  pub unknown : any (has_email u.normalized_email) s.users ≡ false
  pub new : any (is_user u.id) s.users ≡ false
  pub free : any (is_membership o.id u.id) s.memberships ≡ false
  pub id : ℕ
  pub rows : people s' ≡ (
    s.users ++ u ∷ [],
    s.credentials ++ credential_of u password_hash ∷ [],
    s.memberships ++ member_of id o.id u.id ∷ [],
  )

inserts-IsRegistered :
    (o : Organization) (u : User) (password_hash : ℕ) (s s₁ s₂ s₃ : Accounts)
    → any (has_email u.normalized_email) s.users ≡ false
    → insert_organization o s ≡ ok s₁
    → insert_user u password_hash (create_default_sla_policies o.id s₁) ≡ ok s₂
    → create_owner o.id u.id s₂ ≡ ok s₃
    → IsRegistered o u password_hash s s₃
unfolding create_default_sla_policies
inserts-IsRegistered o u password_hash s s₁ s₂ s₃ unknown h₁ h₂ h₃ =
    let e₁ = insert_organization-people o s s₁ h₁ in
    let e₂ = insert_user-people u password_hash (create_default_sla_policies o.id s₁) s₂ h₂ in
    let (free, (id, e₃)) = create_owner-people o.id u.id s₂ s₃ h₃ in
    let two = e₂ ∙ ap (λ p. (p.0 ++ u ∷ [], p.1 ++ credential_of u password_hash ∷ [], p.2)) e₁ in
    record {
      unknown = unknown;
      new =
          ap (λ p. any (is_user u.id) p.0) (sym e₁)
          ∙ insert_user_new u password_hash (create_default_sla_policies o.id s₁) s₂ h₂;
      free = ap (λ p. any (is_membership o.id u.id) p.2) (sym two) ∙ free;
      id = id;
      rows = e₃ ∙ ap (λ p. (p.0, p.1, p.2 ++ member_of id o.id u.id ∷ [])) two;
    }

same_rows :
    (o : Organization) (u : User) (password_hash : ℕ) (s t t' : Accounts)
    → people t' ≡ people t
    → IsRegistered o u password_hash s t
    → IsRegistered o u password_hash s t'
same_rows o u password_hash s t t' same r = record {
  unknown = r.unknown;
  new = r.new;
  free = r.free;
  id = r.id;
  rows = same ∙ r.rows;
}

last_of :
    (o o' : Organization) (u u' : User) (t t' : Accounts)
    → ◌≡◌ {A = Result Failure (Registration × Accounts)}
        (ok (registered o u, t))
        (ok (registered o' u', t'))
    → (o' ≡ o) × (u' ≡ u) × (t' ≡ t)
last_of o o' u u' t t' h = (cc, cc, cc)

pub register_body-IsRegistered :
    (o : Organization) (u : User) (password_hash : ℕ) (s : Accounts) (o' : Organization) (u' : User)
    (s' : Accounts)
    → register_body o u password_hash s ≡ ok (registered o' u', s')
    → (o' ≡ o) × (u' ≡ u) × IsRegistered o u password_hash s s'
unfolding register_body record_event
register_body-IsRegistered o u password_hash s o' u' s' h =
    elim (Bool-cases (any (has_email u.normalized_email) s.users)) [
      | inl known ↦ absurd (let e = rw known at h in cc)
      | inr unknown ↦
          (let (s₁, h₁, r₁) = ok_of_bind (insert_organization o s) _ (rw unknown at h) in
            let (s₂, h₂, r₂) =
              ok_of_bind (insert_user u password_hash (create_default_sla_policies o.id s₁)) _ r₁ in
            let (s₃, h₃, r₃) = ok_of_bind (create_owner o.id u.id s₂) _ r₂ in
            let (same_o, same_u, after) = last_of o o' u u' _ s' r₃ in
            (
              same_o,
              same_u,
              same_rows o u password_hash s s₃ s' (ap people after)
                  (inserts-IsRegistered o u password_hash s s₁ s₂ s₃ unknown h₁ h₂ h₃),
            ))
    ]

pub find_first-append-last {ℓ} :
    {A : Type ℓ} (p : A → Bool) (xs : List A) (x : A)
    → any p xs ≡ false
    → p x ≡ true
    → find_first p (xs ++ x ∷ []) ≡ some x
unfolding find_first
find_first-append-last p [] x free hit = rw hit refl
find_first-append-last p (y ∷ ys) x free hit = elim (Bool-cases (p y)) [
  | inl taken ↦ absurd (let e = rw taken at free in cc)
  | inr other ↦ rw other (find_first-append-last p ys x (rw other at free) hit)
]

text_eq_refl : (t : Text) → text_eq t t ≡ true
unfolding text_eq
text_eq_refl [] = refl
text_eq_refl (c ∷ t) = ground (arith, text_eq_refl t)

-- The identity that a sign-in finds after a registration.
pub registered_found :
    (o : Organization) (u : User) (password_hash : ℕ) (s s' : Accounts)
    → (r : IsRegistered o u password_hash s s') → any (is_credential u.id) s.credentials ≡ false
    → find_login_identity u.normalized_email o.id s'
      ≡ some (login_identity s' u (credential_of u password_hash) (member_of r.id o.id u.id))
unfolding find_login_identity
registered_found o u password_hash s s' r fresh =
    let user : find_first (has_email u.normalized_email) s'.users ≡ some u =
      ap (λ p. find_first (has_email u.normalized_email) p.0) r.rows
      ∙ find_first-append-last (has_email u.normalized_email) s.users u r.unknown
          (text_eq_refl u.normalized_email) in
    let credential : find_first (is_credential u.id) s'.credentials
        ≡ some (credential_of u password_hash) =
      ap (λ p. find_first (is_credential u.id) p.1) r.rows
      ∙ find_first-append-last (is_credential u.id) s.credentials (credential_of u password_hash)
          fresh (ground arith) in
    let member : find_first (is_membership o.id u.id) s'.memberships
        ≡ some (member_of r.id o.id u.id) =
      ap (λ p. find_first (is_membership o.id u.id) p.2) r.rows
      ∙ find_first-append-last (is_membership o.id u.id) s.memberships (member_of r.id o.id u.id)
          r.free (ground arith) in
    rw (user, find_login_identity) (rw credential (rw member refl))
