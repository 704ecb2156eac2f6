-- ===== src/Authorization/Laws.antt =====
-- What the policy and the guards let through.
use sentriqora.Base.{
  ℕ, ◌≡◌, ◌↔◌, inl, inr, refl, sym, subst, Bool, true, false, Option, none, some, List, [], ◌∷◌,
  String, Result, ok, err, All, Memᴰ, any, every, str_eq, eq_iff, Bool-cases, arith, map, All-map,
  All-mem, Option-cases, if◌then◌else◌,
}
use sentriqora.Authorization.{
  Permission, permission_name, Role, owner, admin, analyst, viewer, system_role_permissions,
  Principal, can_access_organization, has_every_permission, Request, Refusal, forbidden,
  required_permissions, check_permissions, permissions_guard, tenant_guard, mfa_verified_guard,
}

abbrev pub IsGranted : List String → Permission → Type 0
IsGranted granted k = Memᴰ (permission_name k) granted

any-Mem :
    (granted : List String) (n : String) → any (λ g. str_eq g n) granted ≡ true → Memᴰ n granted
any-Mem [] n h = absurd (cc)
any-Mem (g ∷ gs) n h = elim (Bool-cases (str_eq g n)) [
  | inl hit ↦ Memᴰ.head (sym ((eq_iff g n).0 hit))
  | inr miss ↦ Memᴰ.tail (any-Mem gs n (rw miss at h))
]

Mem-any :
    (granted : List String) (n : String) → Memᴰ n granted → any (λ g. str_eq g n) granted ≡ true
Mem-any [] n m = elim m [ ]
Mem-any (g ∷ gs) n (Memᴰ.head e) = rw ((eq_iff g n).1 (sym e))
Mem-any (g ∷ gs) n (Memᴰ.tail m) = elim (Bool-cases (str_eq g n)) [
  | inl hit ↦ rw hit
  | inr miss ↦ rw miss (Mem-any gs n m)
]

every-All :
    {A : Type 0} (P : A → Type 0) (p : A → Bool) (xs : List A)
    → ((x : A) → p x ≡ true → P x)
    → every p xs ≡ true
    → All P xs
every-All P p [] f h = tt
every-All P p (x ∷ xs) f h = elim (Bool-cases (p x)) [
  | inl hit ↦ (f x hit, every-All P p xs f (rw hit at h))
  | inr miss ↦ absurd (ground (arith, h, miss))
]

All-every :
    {A : Type 0} (P : A → Type 0) (p : A → Bool) (xs : List A)
    → ((x : A) → P x → p x ≡ true)
    → All P xs
    → every p xs ≡ true
All-every P p [] f h = refl
All-every P p (x ∷ xs) f (h, hs) = rw (f x h) (All-every P p xs f hs)

-- `hasEveryPermission` is true exactly when each permission that is asked for is among the granted ones.
pub has_every_permission_iff :
    (principal : Principal) (required : List Permission)
    → (has_every_permission principal required ≡ true)
      ↔ All (IsGranted principal.permissions) required
unfolding has_every_permission
has_every_permission_iff principal required = (
  every-All _ _ required (λ k hit. any-Mem principal.permissions (permission_name k) hit),
  All-every _ _ required (λ k m. Mem-any principal.permissions (permission_name k) m),
)

-- A principal of an organization with the permissions of a system role.
abbrev pub principal_of : ℕ → Role → Principal
principal_of organization role = record {
  organization_id = organization;
  permissions = map permission_name (system_role_permissions role);
  mfa_verified = true;
}

-- From the weakest role to the strongest.
pub data AtMost : Role → Role → Type 0 where
  viewer_analyst : AtMost viewer analyst
  analyst_admin : AtMost analyst admin
  admin_owner : AtMost admin owner
  same : {r : Role} → AtMost r r
  through : {a b c : Role} → AtMost a b → AtMost b c → AtMost a c

abbrev names : Role → List String
names role = map permission_name (system_role_permissions role)

included :
    (xs ys : List String)
    → every (λ n. any (λ g. str_eq g n) ys) xs ≡ true
    → (n : String) → Memᴰ n xs
    → Memᴰ n ys
included xs ys h n m =
    All-mem (λ n. Memᴰ n ys) xs (every-All _ _ xs (λ n hit. any-Mem ys n hit) h) m

AtMost-names : {a b : Role} → AtMost a b → (n : String) → Memᴰ n (names a) → Memᴰ n (names b)
AtMost-names viewer_analyst n m = included (names viewer) (names analyst) refl n m
AtMost-names analyst_admin n m = included (names analyst) (names admin) refl n m
AtMost-names admin_owner n m = included (names admin) (names owner) refl n m
AtMost-names same n m = m
AtMost-names (through p q) n m = AtMost-names q n (AtMost-names p n m)

-- The system roles are nested: what is permitted to a viewer is permitted to an analyst, to an
-- administrator and to an owner, and so on up.
pub roles_nested :
    {a b : Role}
    → AtMost a b
    → (organization : ℕ) (required : List Permission)
    → has_every_permission (principal_of organization a) required ≡ true
    → has_every_permission (principal_of organization b) required ≡ true
roles_nested {a} {b} order organization required h =
    (has_every_permission_iff (principal_of organization b) required).1 (
      All-map _ _ required (λ k m. AtMost-names order (permission_name k) m)
        ((has_every_permission_iff (principal_of organization a) required).0 h))

-- What the three guards ask of who is authenticated.
pub record IsAdmitted (r : Request) (p : Principal) : Type 0 where
  pub authenticated : r.principal ≡ some p
  pub verified : p.mfa_verified ≡ true
  pub tenant :
      (organization : ℕ) → r.organization_id ≡ some organization → p.organization_id ≡ organization
  pub granted :
      All (IsGranted p.permissions) (required_permissions r.handler_permissions r.class_permissions)

verified_of :
    (r : Request)
    → mfa_verified_guard r ≡ ok true
    → (p : Principal) × (r.principal ≡ some p) × (p.mfa_verified ≡ true)
unfolding mfa_verified_guard
verified_of r h = ground (arith, h)

tenant_of :
    (r : Request) (p : Principal) (organization : ℕ)
    → r.principal ≡ some p
    → r.organization_id ≡ some organization
    → tenant_guard r ≡ ok true
    → p.organization_id ≡ organization
unfolding tenant_guard can_access_organization
tenant_of r p organization e o h = ground (arith, e, o, h)

granted_of :
    (principal : Option Principal) (p : Principal) (required : List Permission)
    → principal ≡ some p
    → check_permissions principal required ≡ ok true
    → has_every_permission p required ≡ true
unfolding check_permissions has_every_permission
granted_of principal p [] e h = refl
granted_of none p (k ∷ ks) e h = absurd (cc)
granted_of (some q) p (k ∷ ks) e h =
    let same : q ≡ p = cc in
    subst (λ (x : Principal). has_every_permission x (k ∷ ks) ≡ true) same
      (passed (has_every_permission q (k ∷ ks)) h)
  where
    passed :
        (b : Bool)
        → ◌≡◌ {A = Result Refusal Bool} (if b then ok true else err forbidden) (ok true)
        → b ≡ true
    passed true h = refl
    passed false h = absurd (cc)

of_granted :
    (principal : Option Principal) (p : Principal) (required : List Permission)
    → principal ≡ some p
    → has_every_permission p required ≡ true
    → check_permissions principal required ≡ ok true
unfolding check_permissions
of_granted principal p [] e h = refl
of_granted principal p (k ∷ ks) e h = rw e (rw h)

member_of :
    (r : Request) (p : Principal)
    → r.principal ≡ some p
    → ((organization : ℕ)
        → r.organization_id ≡ some organization
        → p.organization_id ≡ organization)
    → tenant_guard r ≡ ok true
unfolding tenant_guard can_access_organization
member_of r p e h = elim (Option-cases r.organization_id) [
  | inl none_given ↦ rw none_given
  | inr (organization, given) ↦ (let here = h organization given in ground (arith, e, given, here))
]

of_verified :
    (r : Request) (p : Principal)
    → r.principal ≡ some p
    → p.mfa_verified ≡ true
    → mfa_verified_guard r ≡ ok true
unfolding mfa_verified_guard
of_verified r p e h = rw e (rw h)

-- A request passes the guards of tenant, permissions and second factor exactly when it is
-- authenticated with a second factor, as a member of the organization in its path, if there is one,
-- and with each permission that its handler asks for, or its class if the handler asks for none.
pub guards_iff :
    (r : Request)
    → ((tenant_guard r ≡ ok true)
        × (permissions_guard r ≡ ok true)
        × (mfa_verified_guard r ≡ ok true))
      ↔ (p : Principal) × IsAdmitted r p
unfolding permissions_guard
guards_iff r = (
  λ (tenant, permitted, mfa).
      let (p, authenticated, verified) = verified_of r mfa in
      (
        p,
        record {
          authenticated = authenticated;
          verified = verified;
          tenant = λ organization o. tenant_of r p organization authenticated o tenant;
          granted =
              (has_every_permission_iff p _).0 (granted_of r.principal p _ authenticated permitted);
        },
      ),
  λ (p, a). (
    member_of r p a.authenticated a.tenant,
    of_granted r.principal p _ a.authenticated ((has_every_permission_iff p _).1 a.granted),
    of_verified r p a.authenticated a.verified,
  ),
)
