-- ===== src/Base/Results.antt =====
-- Results of code that may throw, and transactions that roll back when it does.
use mathlib.Core.Path.{◌≡◌, refl, ap}
use mathlib.Core.Logic.{◌⊎◌, inl, inr}
use mathlib.Core.Bool.{Bool, true, false}

pub data Result {ℓ κ} (E : Type ℓ) (A : Type κ) : Type (ℓ ⊔ κ) where
  err : E → Result E A
  ok : A → Result E A

module _ {ℓ κ μ} {E : Type ℓ} {A : Type κ} {B : Type μ} where
  infixl 5 ◌>>=◌
  -- The statements after one that may throw.
  abbrev pub ◌>>=◌ : Result E A → (A → Result E B) → Result E B
  err thrown >>= rest = err thrown
  ok value >>= rest = rest value

  pub err_of_bind :
      (first : Result E A) (rest : A → Result E B) {thrown : E}
      → (first >>= rest) ≡ err thrown
      → (first ≡ err thrown) ⊎ ((value : A) × (first ≡ ok value) × (rest value ≡ err thrown))
  err_of_bind (err e) rest same = inl cc
  err_of_bind (ok value) rest same = inr (value, refl, same)

  pub ok_of_bind :
      (first : Result E A) (rest : A → Result E B) {result : B}
      → (first >>= rest) ≡ ok result
      → (value : A) × (first ≡ ok value) × (rest value ≡ ok result)
  ok_of_bind (err thrown) rest same = cc
  ok_of_bind (ok value) rest same = (value, refl, same)

pub ok-injective {ℓ κ} :
    {E : Type ℓ} {A : Type κ} {a b : A} → ◌≡◌ {A = Result E A} (ok a) (ok b) → a ≡ b
ok-injective h = cc

module _ {ℓ} {E : Type ℓ} where
  -- `if (!test) throw thrown;`
  abbrev pub ensure : Bool → E → Result E (Unit {0})
  ensure false thrown = err thrown
  ensure true thrown = ok tt

-- A database transaction: what the body wrote is committed if the body returns, and none of it if
-- the body throws.
module _ {ℓ κ μ} {S : Type ℓ} {E : Type κ} {A : Type μ} where
  abbrev pub transaction : (S → Result E (A × S)) → S → Result E A × S
  transaction body s = elim (body s) [ ok (a, s') ↦ (ok a, s') | err e ↦ (err e, s) ]

  -- A transaction that returns has committed what its body wrote.
  pub ok_of_transaction :
      (body : S → Result E (A × S)) (s : S) {a : A} {s' : S}
      → transaction body s ≡ (ok a, s')
      → body s ≡ ok (a, s')
  ok_of_transaction body s same = committed (body s) same
    where
      committed :
          (r : Result E (A × S)) {a : A} {s' : S}
          → ◌≡◌ {A = Result E A × S}
              (elim r [ ok (a, s') ↦ (ok a, s') | err e ↦ (err e, s) ])
              (ok a, s')
          → r ≡ ok (a, s')
      committed (ok (b, t)) h = cc
      committed (err e) h = absurd (cc)

  pub transaction_of_ok :
      (body : S → Result E (A × S)) (s : S) {a : A} {s' : S}
      → body s ≡ ok (a, s')
      → transaction body s ≡ (ok a, s')
  transaction_of_ok body s same =
      ap (λ r. elim r [ ok (a, s') ↦ (ok a, s') | err e ↦ (err e, s) ]) same

pub Result-cases {ℓ κ} :
    {E : Type ℓ} {A : Type κ} (r : Result E A) → ((e : E) × (r ≡ err e)) ⊎ ((a : A) × (r ≡ ok a))
Result-cases (err e) = inl (e, refl)
Result-cases (ok a) = inr (a, refl)
