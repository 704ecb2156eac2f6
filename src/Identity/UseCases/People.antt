-- ===== src/Identity/UseCases/People.antt =====
-- What each statement of a registration does to the rows that a sign-in looks up.
use sentriqora.Base.{
  ℕ, ◌≡◌, refl, sym, ap, ◌∙◌, Bool, true, false, none, List, [], ◌∷◌, ◌++◌, String, Text, text_eq,
  ok, ok_of_bind, ok-injective, any, ◌||◌, ◌&&◌, ◌==◌, find_first, str_eq, Bool-cases, inl, inr,
}
use sentriqora.Authorization.{
  permission_name, owner, admin, analyst, viewer, system_role_permissions,
}
use sentriqora.Authorization as Authorization
use sentriqora.Identity.Store.{
  is_user, User, Credential, Membership, Organization, Role, enrolled, Accounts, is_membership,
}
use sentriqora.Identity.Members.{
  insert_organization, insert_user, insert_membership, insert_role, has_key, grant, grant_all,
  or_missing_permission, create_system_role, create_system_roles, create_owner, add_role,
}

-- What a sign-in looks up.
abbrev pub people : Accounts → List User × List Credential × List Membership
people s = (s.users, s.credentials, s.memberships)

insert_role-people :
    (organization : ℕ) (key : String) (name description : Text) (is_system : Bool) (s : Accounts)
    (r : Role) (s' : Accounts)
    → insert_role organization key name description is_system s ≡ ok (r, s')
    → people s' ≡ people s
unfolding insert_role
insert_role-people organization key name description is_system s r s' h =
    elim (Bool-cases (any (λ r. r.organization_id == organization && str_eq r.key key) s.roles)) [
      | inl taken ↦ absurd (let e = rw taken at h in cc)
      | inr free ↦ ap (λ p. people p.1) (sym (ok-injective (rw free at h)))
    ]

grant_all-people :
    (organization role : ℕ) (ks : List Authorization.Permission) (s s' : Accounts)
    → grant_all organization role ks s ≡ ok s'
    → people s' ≡ people s
unfolding grant_all grant
grant_all-people organization role [] s s' h = ap people (sym (ok-injective h))
grant_all-people organization role (k ∷ ks) s s' h =
    let (p, _, rest) =
      ok_of_bind (or_missing_permission (find_first (has_key (permission_name k)) s.permissions))
        (λ p. grant_all organization role ks (grant organization role p s)) h in
    grant_all-people organization role ks (grant organization role p s) s' rest

create_system_role-people :
    (organization : ℕ) (role : Authorization.Role) (s : Accounts) (id : ℕ) (s' : Accounts)
    → create_system_role organization role s ≡ ok (id, s')
    → people s' ≡ people s
unfolding create_system_role
create_system_role-people organization role s id s' h =
    let ((r, s₁), inserted, rest) = ok_of_bind (insert_role organization _ _ _ true s) _ h in
    let (s₂, granted, last) =
      ok_of_bind (grant_all organization r.id (system_role_permissions role) s₁) _ rest in
    ap (λ p. people p.1) (sym (ok-injective last))
    ∙ (grant_all-people organization r.id (system_role_permissions role) s₁ s₂ granted
        ∙ insert_role-people organization _ _ _ true s r s₁ inserted)

create_system_roles-people :
    (organization : ℕ) (s : Accounts) (id : ℕ) (s' : Accounts)
    → create_system_roles organization s ≡ ok (id, s')
    → people s' ≡ people s
unfolding create_system_roles
create_system_roles-people organization s id s' h =
    let ((i₁, s₁), h₁, r₁) = ok_of_bind (create_system_role organization owner s) _ h in
    let ((i₂, s₂), h₂, r₂) = ok_of_bind (create_system_role organization admin s₁) _ r₁ in
    let ((i₃, s₃), h₃, r₃) = ok_of_bind (create_system_role organization analyst s₂) _ r₂ in
    let ((i₄, s₄), h₄, r₄) = ok_of_bind (create_system_role organization viewer s₃) _ r₃ in
    ap (λ p. people p.1) (sym (ok-injective r₄))
    ∙ (create_system_role-people organization viewer s₃ i₄ s₄ h₄
        ∙ (create_system_role-people organization analyst s₂ i₃ s₃ h₃
            ∙ (create_system_role-people organization admin s₁ i₂ s₂ h₂
                ∙ create_system_role-people organization owner s i₁ s₁ h₁)))

abbrev pub credential_of : User → (password_hash : ℕ) → Credential
credential_of u password_hash = record {
  user_id = u.id;
  password_hash = password_hash;
  failed_attempts = 0;
  locked_until = none;
}

pub insert_user-people :
    (u : User) (password_hash : ℕ) (s s' : Accounts)
    → insert_user u password_hash s ≡ ok s'
    → people s'
      ≡ (s.users ++ u ∷ [], s.credentials ++ credential_of u password_hash ∷ [], s.memberships)
unfolding insert_user
insert_user-people u password_hash s s' h =
    elim (Bool-cases
      (any (λ v. v.id == u.id || text_eq v.normalized_email u.normalized_email) s.users)) [
        | inl taken ↦ absurd (let e = rw taken at h in cc)
        | inr free ↦ ap people (sym (ok-injective (rw free at h)))
      ]

any_left {ℓ} :
    {A : Type ℓ} (p q : A → Bool) (xs : List A)
    → any (λ x. p x || q x) xs ≡ false
    → any p xs ≡ false
any_left p q [] h = refl
any_left p q (x ∷ xs) h = elim (Bool-cases (p x)) [
  | inl hit ↦ absurd (let e = rw hit at h in cc)
  | inr miss ↦ elim (Bool-cases (q x)) [
    | inl other ↦ absurd (let e = rw (miss, other) at h in cc)
    | inr neither ↦ rw miss (any_left p q xs (rw (miss, neither) at h))
  ]
]

pub insert_user_new :
    (u : User) (password_hash : ℕ) (s s' : Accounts)
    → insert_user u password_hash s ≡ ok s'
    → any (is_user u.id) s.users ≡ false
unfolding insert_user
insert_user_new u password_hash s s' h =
    elim (Bool-cases
      (any (λ v. v.id == u.id || text_eq v.normalized_email u.normalized_email) s.users)) [
        | inl taken ↦ absurd (let e = rw taken at h in cc)
        | inr free ↦
            any_left (is_user u.id) (λ v. text_eq v.normalized_email u.normalized_email) s.users
              free
      ]

pub insert_organization-people :
    (o : Organization) (s s' : Accounts) → insert_organization o s ≡ ok s' → people s' ≡ people s
unfolding insert_organization
insert_organization-people o s s' h =
    elim (Bool-cases (any (λ p. p.id == o.id || text_eq p.slug o.slug) s.organizations)) [
      | inl taken ↦ absurd (let e = rw taken at h in cc)
      | inr free ↦ ap people (sym (ok-injective (rw free at h)))
    ]

abbrev pub member_of : (id organization user : ℕ) → Membership
member_of id organization user = record {
  id = id;
  organization_id = organization;
  user_id = user;
  status = enrolled;
}

insert_membership-people :
    (organization user : ℕ) (s : Accounts) (id : ℕ) (s' : Accounts)
    → insert_membership organization user s ≡ ok (id, s')
    → (any (is_membership organization user) s.memberships ≡ false)
      × (people s'
          ≡ (s.users, s.credentials, s.memberships ++ member_of s.next_id organization user ∷ []))
unfolding insert_membership
insert_membership-people organization user s id s' h =
    elim (Bool-cases (any (is_membership organization user) s.memberships)) [
      | inl taken ↦ absurd (let e = rw taken at h in cc)
      | inr free ↦ (free, ap (λ p. people p.1) (sym (ok-injective (rw free at h))))
    ]

pub create_owner-people :
    (organization user : ℕ) (s s' : Accounts)
    → create_owner organization user s ≡ ok s'
    → (any (is_membership organization user) s.memberships ≡ false)
      × ((id : ℕ) × (people s'
            ≡ (s.users, s.credentials, s.memberships ++ member_of id organization user ∷ [])))
unfolding create_owner add_role
create_owner-people organization user s s' h =
    let ((owner_role, s₁), roles, rest) = ok_of_bind (create_system_roles organization s) _ h in
    let ((id, s₂), inserted, last) = ok_of_bind (insert_membership organization user s₁) _ rest in
    let same = create_system_roles-people organization s owner_role s₁ roles in
    let (free, added) = insert_membership-people organization user s₁ id s₂ inserted in
    (
      ap (λ p. any (is_membership organization user) p.2) (sym same) ∙ free,
      (
        s₁.next_id,
        ap people (sym (ok-injective last))
            ∙ (added
                ∙ ap (λ p. (p.0, p.1, p.2 ++ member_of s₁.next_id organization user ∷ [])) same),
      ),
    )
