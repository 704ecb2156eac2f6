-- ===== src/Identity/Members/Ownership.antt =====
-- A replacement of roles stays inside its organization, and does not take the actor's own ownership.
use sentriqora.Base.{
  ◌≡◌, refl, sym, ap, ◌∙◌, subst, Bool, true, false, ◌==◌, ◌&&◌, some, List, [], ◌∷◌, ◌++◌, any,
  All, All-append, All-map, find_first, arith, Bool-cases, Option-cases, inl, inr,
}
use sentriqora.Identity.Store.{Membership, MembershipRole, Role, Accounts, record_event}
use sentriqora.Identity.Members.Invitations.{is_role}
use sentriqora.Identity.Members.Roles.{
  Replacement, is_in, is_own, is_role_of, is_owner, is_owner_role, is_owner_row, owns,
  removes_own_ownership, without_roles, role_row, role_rows, roles_in, assign_roles, replace_found,
  replace_membership_roles,
}

-- The primary key of `roles`.
abbrev pub IsKeyed : Accounts → Type 0
IsKeyed s = All (λ r. find_first (is_role r.organization_id r.id) s.roles ≡ some r) s.roles

-- A role that is asked for, in the organization.
abbrev pub IsAsked : Replacement → Role → Type 0
IsAsked i r = (is_in i.role_ids r.id ≡ true) × (r.organization_id ≡ i.organization_id)

roles_in-IsAsked :
    (P : Role → Type 0) (i : Replacement) (rs : List Role)
    → All P rs
    → All (λ r. P r × IsAsked i r) (roles_in i.organization_id i.role_ids rs)
unfolding roles_in
roles_in-IsAsked P i [] h = tt
roles_in-IsAsked P i (r ∷ rs) (h, hs) =
    let rest = roles_in-IsAsked P i rs hs in
    elim (Bool-cases (is_in i.role_ids r.id && r.organization_id == i.organization_id)) [
      | inl hit ↦ rw hit ((h, (ground (arith, hit), ground (arith, hit))), rest)
      | inr miss ↦ rw miss rest
    ]

without_twice :
    (i : Replacement) (rs : List MembershipRole)
    → All (λ r. is_role_of i r ≡ false) (without_roles i rs)
unfolding without_roles
without_twice i [] = tt
without_twice i (r ∷ rs) = elim (Bool-cases (is_role_of i r)) [
  | inl hit ↦ rw hit (without_twice i rs)
  | inr miss ↦ rw miss (miss, without_twice i rs)
]

-- The rows of the others are kept, and the new rows are the membership's.
without_rows : (i : Replacement) (roles : List Role) → without_roles i (role_rows i roles) ≡ []
unfolding without_roles role_rows
without_rows i [] = refl
without_rows i (r ∷ rs) =
    let mine : is_role_of i (role_row i r) ≡ true = ground arith in
    rw (mine, without_rows i rs) refl

without_append :
    (i : Replacement) (xs ys : List MembershipRole)
    → without_roles i (without_roles i xs ++ ys) ≡ without_roles i xs ++ without_roles i ys
unfolding without_roles
without_append i [] ys = refl
without_append i (x ∷ xs) ys = elim (Bool-cases (is_role_of i x)) [
  | inl hit ↦ rw hit (without_append i xs ys)
  | inr miss ↦ rw miss (rw miss (ap (λ zs. x ∷ zs) (without_append i xs ys)))
]

append_nil : (xs : List MembershipRole) → xs ++ [] ≡ xs
append_nil [] = refl
append_nil (x ∷ xs) = ap (λ zs. x ∷ zs) (append_nil xs)

role_rows-All :
    (P : Role → Type 0) (Q : MembershipRole → Type 0) (i : Replacement) (rs : List Role)
    → ((r : Role) → P r → Q (role_row i r))
    → All P rs
    → All Q (role_rows i rs)
unfolding role_rows
role_rows-All P Q i [] f h = tt
role_rows-All P Q i (r ∷ rs) f (h, hs) = (f r h, role_rows-All P Q i rs f hs)

-- A row of the membership has a role that was asked for and that the organization has.
abbrev pub IsGranted : Accounts → Replacement → MembershipRole → Type 0
IsGranted s i row =
    is_role_of i row ≡ true
    → (is_in i.role_ids row.role_id ≡ true)
      × ((r : Role) × (find_first (is_role i.organization_id row.role_id) s.roles ≡ some r))

-- An asked role is found by its id in the organization.
asked_found :
    (s : Accounts) (i : Replacement) (r : Role)
    → find_first (is_role r.organization_id r.id) s.roles ≡ some r
    → IsAsked i r
    → find_first (is_role i.organization_id r.id) s.roles ≡ some r
asked_found s i r keyed asked =
    subst (λ o. find_first (is_role o r.id) s.roles ≡ some r) asked.1 keyed

any_tail :
    (p : MembershipRole → Bool) (x : MembershipRole) (xs : List MembershipRole)
    → any p xs ≡ true
    → any p (x ∷ xs) ≡ true
any_tail p x xs h = elim (Bool-cases (p x)) [ inl hit ↦ rw hit | inr miss ↦ rw miss h ]

any_right :
    (p : MembershipRole → Bool) (xs ys : List MembershipRole)
    → any p ys ≡ true
    → any p (xs ++ ys) ≡ true
any_right p [] ys h = h
any_right p (x ∷ xs) ys h = any_tail p x (xs ++ ys) (any_right p xs ys h)

-- An owner's role among those that are assigned makes an owner.
rows_own :
    (s : Accounts) (i : Replacement) (rs : List Role)
    → All (λ r. (find_first (is_role r.organization_id r.id) s.roles ≡ some r) × IsAsked i r) rs
    → any is_owner_role rs ≡ true
    → any (is_owner_row s i) (role_rows i rs) ≡ true
unfolding role_rows
rows_own s i [] h some_owner = absurd (cc)
rows_own s i (r ∷ rs) ((keyed, asked), hs) some_owner = elim (Bool-cases (is_owner_role r)) [
  | inr other ↦
      any_tail (is_owner_row s i) (role_row i r) (role_rows i rs)
        (rows_own s i rs hs (rw other at some_owner))
  | inl owner_role ↦
      (let hit : is_owner_row s i (role_row i r) ≡ true =
          ground (arith, asked_found s i r keyed asked, owner_role) in
        rw hit refl)
]

-- A replacement that is made, in the terms of its statements.
pub record IsRearranged (s : Accounts) (i : Replacement) (s' : Accounts) : Type 0 where
  pub membership : Membership
  pub found : find_first (is_own i) s.memberships ≡ some membership
  -- the rows of other memberships and organizations are as they were
  pub others : without_roles i s'.membership_roles ≡ without_roles i s.membership_roles
  pub granted : All (IsGranted s i) s'.membership_roles
  pub ownership :
      membership.user_id ≡ i.actor_user_id
      → owns s i s.membership_roles ≡ true
      → owns s' i s'.membership_roles ≡ true

module _ (s : Accounts) (i : Replacement) (keyed : IsKeyed s) where
  abbrev asked : List Role
  asked = roles_in i.organization_id i.role_ids s.roles

  asked-All :
      All (λ r. (find_first (is_role r.organization_id r.id) s.roles ≡ some r) × IsAsked i r) asked
  asked-All =
      roles_in-IsAsked (λ r. find_first (is_role r.organization_id r.id) s.roles ≡ some r) i s.roles
        keyed

  abbrev rows : List MembershipRole
  rows = without_roles i s.membership_roles ++ role_rows i asked

  rows_others : without_roles i rows ≡ without_roles i s.membership_roles
  rows_others =
      without_append i s.membership_roles (role_rows i asked)
      ∙ (ap (λ ys. without_roles i s.membership_roles ++ ys) (without_rows i asked)
          ∙ append_nil (without_roles i s.membership_roles))

  rows-IsGranted : All (IsGranted s i) rows
  rows-IsGranted =
      All-append (IsGranted s i) (without_roles i s.membership_roles) (role_rows i asked)
        (All-map (λ r. is_role_of i r ≡ false) (IsGranted s i) (without_roles i s.membership_roles)
          (λ r miss hit. absurd (ground (arith, miss, hit))) (without_twice i s.membership_roles))
        (role_rows-All
          (λ r. (find_first (is_role r.organization_id r.id) s.roles ≡ some r) × IsAsked i r)
          (IsGranted s i) i asked
          (λ r (keyed, wanted) _. (wanted.0, (r, asked_found s i r keyed wanted))) asked-All)

  rows_owned :
      (m : Membership)
      → removes_own_ownership i m asked s ≡ false
      → m.user_id ≡ i.actor_user_id
      → owns s i s.membership_roles ≡ true
      → any (is_owner_row s i) rows ≡ true
  unfolding removes_own_ownership
  rows_owned m kept own owned =
      any_right (is_owner_row s i) (without_roles i s.membership_roles) (role_rows i asked)
        (rows_own s i asked asked-All (ground (arith, kept, own, owned)))

  rows_same_roles :
      (s' : Accounts)
      → s'.roles ≡ s.roles
      → any (is_owner_row s' i) rows ≡ any (is_owner_row s i) rows
  rows_same_roles s' same =
      ap
        (λ rs.
          any
            (λ r. is_role_of i r && is_owner (find_first (is_role r.organization_id r.role_id) rs))
            rows)
        same

  replaced_cases :
      (m : Membership) (s' : Accounts)
      → replace_found i m asked s ≡ (true, s')
      → (removes_own_ownership i m asked s ≡ false)
        × (s'.membership_roles ≡ rows)
        × (s'.roles ≡ s.roles)
  unfolding replace_found assign_roles record_event
  replaced_cases m s' h = ground (arith, h)

  pub replace-IsRearranged :
      (s' : Accounts) → replace_membership_roles i s ≡ (true, s') → IsRearranged s i s'
  unfolding replace_membership_roles owns
  replace-IsRearranged s' h = elim (Option-cases (find_first (is_own i) s.memberships)) [
    | inl missing ↦
        absurd (let e = ap (λ p. p.0) (rw (missing, replace_membership_roles) at h) in cc)
    | inr (m, found) ↦
        (let (kept, same, roles) =
            replaced_cases m s' (rw (found, replace_membership_roles) at h) in
          record {
            membership = m;
            found = found;
            others = ap (without_roles i) same ∙ rows_others;
            granted = subst (All (IsGranted s i)) (sym same) rows-IsGranted;
            ownership = λ own owned.
                ap (any (is_owner_row s' i)) same
                ∙ (rows_same_roles s' roles ∙ rows_owned m kept own owned);
          })
  ]
