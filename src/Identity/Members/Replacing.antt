-- ===== src/Identity/Members/Replacing.antt =====
-- What a replacement of roles does, said without the code of its statements.
use sentriqora.Base.{
  ℕ, ◌≡◌, ◌↔◌, refl, sym, ap, ◌∙◌, subst, Bool, true, false, some, Option, none, List, [], ◌∷◌,
  ◌==◌, ◌&&◌, any, str_eq, All, All-mem, Memᴰ, any-eq-true, find_first, Bool-cases, inl, inr, arith,
}
use sentriqora.Identity.Store.{Membership, MembershipRole, Role, Accounts}
use sentriqora.Identity.Members.Invitations.{is_role}
use sentriqora.Identity.Members.Roles.{
  Replacement, is_role_of, is_owner, is_owner_role, is_owner_row, owns, without_roles,
  replace_membership_roles,
}
use sentriqora.Identity.Members.Ownership.{IsKeyed, IsGranted, replace-IsRearranged}

-- A row of the membership whose roles are replaced.
abbrev pub IsOf : Replacement → MembershipRole → Type 0
IsOf i row = (row.membership_id ≡ i.membership_id) × (row.organization_id ≡ i.organization_id)

-- A role of the row, in the organization.
abbrev pub HasRole : Accounts → (organization id : ℕ) → Role → Type 0
HasRole s organization id role =
    find_first (λ r. r.id == id && r.organization_id == organization) s.roles ≡ some role

-- The membership has a role with the key of an owner.
pub record IsOwner (s : Accounts) (i : Replacement) : Type 0 where
  pub row : MembershipRole
  pub role : Role
  pub known : Memᴰ row s.membership_roles
  pub own : IsOf i row
  pub found : HasRole s row.organization_id row.role_id role
  pub key : str_eq role.key "owner" ≡ true

pub record IsReplaced (s : Accounts) (i : Replacement) (s' : Accounts) : Type 0 where
  pub membership : Membership
  pub found :
      find_first
        (λ m. m.id == i.membership_id && m.organization_id == i.organization_id)
        s.memberships
      ≡ some membership
  pub others :
      (row : MembershipRole)
      → ¬ IsOf i row
      → Memᴰ row s'.membership_roles ↔ Memᴰ row s.membership_roles
  pub granted :
      (row : MembershipRole)
      → Memᴰ row s'.membership_roles
      → IsOf i row
      → (any (λ id. id == row.role_id) i.role_ids ≡ true)
        × ((role : Role) × HasRole s i.organization_id row.role_id role)
  pub ownership : membership.user_id ≡ i.actor_user_id → IsOwner s i → IsOwner s' i

is_role_of-IsOf : (i : Replacement) (row : MembershipRole) → IsOf i row → is_role_of i row ≡ true
is_role_of-IsOf i row (m, o) = ground (arith, m, o)

IsOf-is_role_of : (i : Replacement) (row : MembershipRole) → is_role_of i row ≡ true → IsOf i row
IsOf-is_role_of i row h = (ground (arith, h), ground (arith, h))

not_role_of : (i : Replacement) (row : MembershipRole) → ¬ IsOf i row → is_role_of i row ≡ false
not_role_of i row other = elim (Bool-cases (is_role_of i row)) [
  | inl hit ↦ absurd (other (IsOf-is_role_of i row hit))
  | inr miss ↦ miss
]

mem_kept :
    (i : Replacement) (row : MembershipRole) (rows : List MembershipRole)
    → is_role_of i row ≡ false
    → Memᴰ row rows
    → Memᴰ row (without_roles i rows)
unfolding without_roles
mem_kept i row [] other m = elim m [ ]
mem_kept i row (r ∷ rs) other (Memᴰ.head same) =
    let kept : is_role_of i r ≡ false = ap (is_role_of i) (sym same) ∙ other in
    rw kept (Memᴰ.head same)
mem_kept i row (r ∷ rs) other (Memᴰ.tail m) =
    let rest = mem_kept i row rs other m in
    elim (Bool-cases (is_role_of i r)) [
      | inl hit ↦ rw hit rest
      | inr miss ↦ rw miss (Memᴰ.tail rest)
    ]

mem_of_kept :
    (i : Replacement) (row : MembershipRole) (rows : List MembershipRole)
    → Memᴰ row (without_roles i rows)
    → Memᴰ row rows
unfolding without_roles
mem_of_kept i row [] m = m
mem_of_kept i row (r ∷ rs) m = elim (Bool-cases (is_role_of i r)) [
  | inl hit ↦ Memᴰ.tail (mem_of_kept i row rs (rw hit at m))
  | inr miss ↦ step (mem_of_kept i row rs) (rw miss at m)
]
  where
    step :
        (Memᴰ row (without_roles i rs) → Memᴰ row rs)
        → Memᴰ row (r ∷ without_roles i rs)
        → Memᴰ row (r ∷ rs)
    step more (Memᴰ.head same) = Memᴰ.head same
    step more (Memᴰ.tail rest) = Memᴰ.tail (more rest)

any_of_mem :
    (p : MembershipRole → Bool) (row : MembershipRole) (rows : List MembershipRole)
    → p row ≡ true
    → Memᴰ row rows
    → any p rows ≡ true
any_of_mem p row [] hit m = elim m [ ]
any_of_mem p row (r ∷ rs) hit (Memᴰ.head same) = rw (ap p (sym same) ∙ hit) refl
any_of_mem p row (r ∷ rs) hit (Memᴰ.tail m) =
    let rest = any_of_mem p row rs hit m in
    elim (Bool-cases (p r)) [ inl taken ↦ rw taken refl | inr free ↦ rw free rest ]

members : (rows : List MembershipRole) → All (λ r. Memᴰ r rows) rows
members [] = tt
members (r ∷ rows) = (Memᴰ.head refl, weaken rows (members rows))
  where
    weaken :
        (xs : List MembershipRole) → All (λ x. Memᴰ x rows) xs → All (λ x. Memᴰ x (r ∷ rows)) xs
    weaken [] h = tt
    weaken (x ∷ xs) (h, hs) = (Memᴰ.tail h, weaken xs hs)

owner_cases :
    (o : Option Role)
    → is_owner o ≡ true
    → (role : Role) × (o ≡ some role) × (is_owner_role role ≡ true)
owner_cases none h = absurd (cc)
owner_cases (some role) h = (role, refl, h)

owns-IsOwner : (s : Accounts) (i : Replacement) → IsOwner s i → owns s i s.membership_roles ≡ true
unfolding owns
owns-IsOwner s i o =
    any_of_mem (is_owner_row s i) o.row s.membership_roles
      (rw (is_role_of-IsOf i o.row o.own) (ap is_owner o.found ∙ o.key)) o.known

IsOwner-owns : (s : Accounts) (i : Replacement) → owns s i s.membership_roles ≡ true → IsOwner s i
unfolding owns
IsOwner-owns s i h =
    let (row, known, hit) =
      any-eq-true (λ r. Memᴰ r s.membership_roles) (is_owner_row s i) s.membership_roles h
        (members s.membership_roles) in
    let (role, found, key) =
      owner_cases (find_first (is_role row.organization_id row.role_id) s.roles)
        (ground (arith, hit)) in
    record {
      row = row;
      role = role;
      known = known;
      own = IsOf-is_role_of i row (ground (arith, hit));
      found = found;
      key = key;
    }

-- A replacement of roles that is made concerns a membership of the organization. The role rows of all
-- others are the same as before, and the membership has only roles that were asked for and that the
-- organization has. When actors replace their own roles and were owners, they still are. The ids of
-- roles are taken to be distinct, as the primary key makes them.
pub replace-IsReplaced :
    (s : Accounts) (i : Replacement)
    → IsKeyed s
    → (s' : Accounts) → replace_membership_roles i s ≡ (true, s')
    → IsReplaced s i s'
replace-IsReplaced s i keyed s' h =
    let r = replace-IsRearranged s i keyed s' h in
    record {
      membership = r.membership;
      found = r.found;
      others = λ row other.
          let miss = not_role_of i row other in
          (
            λ m.
                mem_of_kept i row s.membership_roles
                  (subst (Memᴰ row) r.others (mem_kept i row s'.membership_roles miss m)),
            λ m.
                mem_of_kept i row s'.membership_roles
                  (subst (Memᴰ row) (sym r.others) (mem_kept i row s.membership_roles miss m)),
          );
      granted = λ row m own.
          All-mem (IsGranted s i) s'.membership_roles r.granted m (is_role_of-IsOf i row own);
      ownership = λ self owner. IsOwner-owns s' i (r.ownership self (owns-IsOwner s i owner));
    }
