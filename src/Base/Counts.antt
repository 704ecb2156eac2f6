-- ===== src/Base/Counts.antt =====
-- How the rows that a condition selects change with the statements on a table.
use Prim.Native.Nat.{ℕ, suc, ◌+◌, ◌≤◌}
use mathlib.Core.Path.{◌≡◌, refl}
use mathlib.Core.Logic.{inl, inr}
use mathlib.Core.Bool.{Bool, true, false, ◌||◌}
use mathlib.Core.Option.{none, some}
use mathlib.Core.List.{List, [], ◌∷◌, ◌++◌}
use native.Mathlib.Omega.{arith}
use package.sentriqora.Base.Tests.{if◌then◌else◌, Bool-cases}
use package.sentriqora.Base.Lists.{All, any}
use package.sentriqora.Base.Tables.{find_first, update_where, count_where}

abbrev pub one_if : Bool → ℕ
one_if true = 1
one_if false = 0

pub one_if-le : (b : Bool) → one_if b ≤ 1
one_if-le true = omega arith
one_if-le false = omega arith

module _ {ℓ} {A : Type ℓ} where
  -- A condition that the update does not change on the rows that it matches.
  pub any-update_where :
      (p q : A → Bool) (f : A → A) (xs : List A)
      → ((x : A) → q x ≡ true → p (f x) ≡ p x)
      → any p (update_where q f xs) ≡ any p xs
  unfolding update_where
  any-update_where p q f [] same = refl
  any-update_where p q f (x ∷ xs) same = elim (Bool-cases (q x)) [
    | inl hit ↦ rw (hit, same x hit, any-update_where p q f xs same)
    | inr miss ↦ rw (miss, any-update_where p q f xs same)
  ]

  pub any-append : (p : A → Bool) (xs ys : List A) → any p xs ≡ true → any p (xs ++ ys) ≡ true
  any-append p (x ∷ xs) ys h = elim (Bool-cases (p x)) [
    | inl hit ↦ rw hit
    | inr miss ↦ rw miss (any-append p xs ys (rw miss at h))
  ]
  any-append p [] ys h = absurd (cc)

  pub any-append-last :
      (p : A → Bool) (xs : List A) (x : A) → any p (xs ++ x ∷ []) ≡ (any p xs || p x)
  any-append-last p [] x = ground arith
  any-append-last p (y ∷ ys) x = elim (Bool-cases (p y)) [
    | inl hit ↦ rw hit
    | inr miss ↦ rw miss (any-append-last p ys x)
  ]

  pub any-false : (p : A → Bool) (xs : List A) → All (λ x. p x ≡ false) xs → any p xs ≡ false
  any-false p [] h = refl
  any-false p (x ∷ xs) (h, hs) = rw h (any-false p xs hs)

  pub any-All : (p : A → Bool) (xs : List A) → any p xs ≡ false → All (λ x. p x ≡ false) xs
  any-All p [] h = tt
  any-All p (x ∷ xs) h = elim (Bool-cases (p x)) [
    | inl hit ↦ absurd (ground (arith, hit, h))
    | inr miss ↦ (miss, any-All p xs (rw miss at h))
  ]

  pub All-unit : (xs : List A) → All (λ _. Unit {0}) xs
  All-unit [] = tt
  All-unit (x ∷ xs) = (tt, All-unit xs)

  pub count_where-append :
      (p : A → Bool) (xs : List A) (x : A)
      → count_where p (xs ++ x ∷ []) ≡ count_where p xs + one_if (p x)
  unfolding count_where
  count_where-append p [] x = ground arith
  count_where-append p (y ∷ ys) x = elim (Bool-cases (p y)) [
    | inl hit ↦ rw hit (omega (arith, count_where-append p ys x))
    | inr miss ↦ rw miss (count_where-append p ys x)
  ]

  pub count_where-none :
      (p : A → Bool) (xs : List A) → All (λ x. p x ≡ false) xs → count_where p xs ≡ 0
  unfolding count_where
  count_where-none p [] h = refl
  count_where-none p (x ∷ xs) (h, hs) = rw h (count_where-none p xs hs)

  -- An update that adds no row to those that a condition selects.
  pub count_where-update_where-le :
      (p q : A → Bool) (f : A → A) (xs : List A)
      → ((x : A) → p (f x) ≡ true → p x ≡ true)
      → count_where p (update_where q f xs) ≤ count_where p xs
  unfolding count_where update_where
  count_where-update_where-le p q f [] lowers = omega arith
  count_where-update_where-le p q f (x ∷ xs) lowers =
      let rest = count_where-update_where-le p q f xs lowers in
      elim (Bool-cases (q x)) [
        | inr miss ↦ rw miss (ground (arith, rest))
        | inl hit ↦ elim (Bool-cases (p (f x))) [
          | inl now ↦ rw (hit, now, lowers x now) (omega (arith, rest))
          | inr never ↦ rw (hit, never) (ground (arith, rest))
        ]
      ]

  -- An update that takes the rows that it matches out of those that a condition selects.
  pub count_where-update_where :
      (p q : A → Bool) (f : A → A) (xs : List A)
      → ((x : A) → p (f x) ≡ false)
      → All (λ x. q x ≡ true → p x ≡ true) xs
      → count_where p (update_where q f xs) + count_where q xs ≡ count_where p xs
  unfolding count_where update_where
  count_where-update_where p q f [] out h = refl
  count_where-update_where p q f (x ∷ xs) out (h, hs) =
      let rest = count_where-update_where p q f xs out hs in
      elim (Bool-cases (q x)) [
        | inr miss ↦ rw miss (ground (arith, rest))
        | inl hit ↦ rw (hit, out x, h hit) (omega (arith, rest))
      ]

  pub count_where-le :
      (p q : A → Bool) (xs : List A)
      → All (λ x. q x ≡ true → p x ≡ true) xs
      → count_where q xs ≤ count_where p xs
  unfolding count_where
  count_where-le p q [] h = omega arith
  count_where-le p q (x ∷ xs) (h, hs) =
      let rest = count_where-le p q xs hs in
      elim (Bool-cases (q x)) [
        | inr miss ↦ rw miss (ground (arith, rest))
        | inl hit ↦ rw (hit, h hit) (omega (arith, rest))
      ]

  pub count_where-pos :
      (p q : A → Bool) (xs : List A) (x : A)
      → find_first q xs ≡ some x
      → p x ≡ true
      → 1 ≤ count_where p xs
  unfolding count_where find_first
  count_where-pos p q [] x h hit = absurd (cc)
  count_where-pos p q (y ∷ ys) x h hit = elim (Bool-cases (p y)) [
    | inl now ↦ rw now (omega arith)
    | inr other ↦ elim (Bool-cases (q y)) [
      | inl here ↦ absurd (ground (arith, here, h, hit, other))
      | inr miss ↦ rw other (count_where-pos p q ys x (rw miss at h) hit)
    ]
  ]

  pub count_where-any :
      (p : A → Bool) (xs : List A) (n : ℕ) → count_where p xs ≡ suc n → any p xs ≡ true
  unfolding count_where
  count_where-any p [] n h = absurd (omega (arith, h))
  count_where-any p (x ∷ xs) n h = elim (Bool-cases (p x)) [
    | inl hit ↦ rw hit
    | inr miss ↦ rw miss (count_where-any p xs n (rw miss at h))
  ]

  pub find_first-any :
      (p : A → Bool) (xs : List A) (x : A) → find_first p xs ≡ some x → any p xs ≡ true
  unfolding find_first
  find_first-any p [] x h = absurd (cc)
  find_first-any p (y ∷ ys) x h = elim (Bool-cases (p y)) [
    | inl hit ↦ rw hit
    | inr miss ↦ rw miss (find_first-any p ys x (rw miss at h))
  ]

  -- What holds of the rows after an update, when those that it passes over matter.
  pub update_where-All_split {κ μ} :
      (P : A → Type κ) (Q : A → Type μ) (p : A → Bool) (f : A → A) (xs : List A)
      → ((x : A) → p x ≡ true → P x → Q (f x))
      → ((x : A) → p x ≡ false → P x → Q x)
      → All P xs
      → All Q (update_where p f xs)
  unfolding update_where
  update_where-All_split P Q p f [] hit miss h = tt
  update_where-All_split P Q p f (x ∷ xs) hit miss (h, hs) =
      (at (p x) (hit x) (miss x), update_where-All_split P Q p f xs hit miss hs)
    where
      at :
          (b : Bool)
          → (b ≡ true → P x → Q (f x))
          → (b ≡ false → P x → Q x)
          → Q (if b then f x else x)
      at true k l = k refl h
      at false k l = l refl h

  pub count_where-zero : (p : A → Bool) (xs : List A) → count_where p xs ≡ 0 → any p xs ≡ false
  unfolding count_where
  count_where-zero p [] h = refl
  count_where-zero p (x ∷ xs) h = elim (Bool-cases (p x)) [
    | inl hit ↦ absurd (omega (arith, rw hit at h))
    | inr miss ↦ rw miss (count_where-zero p xs (rw miss at h))
  ]

  pub any-count_where : (p : A → Bool) (xs : List A) → any p xs ≡ false → count_where p xs ≡ 0
  any-count_where p xs h = count_where-none p xs (any-All p xs h)

  -- When as many rows have a property as have one that it implies, the rows are the same.
  pub count_where-same :
      (p q : A → Bool) (xs : List A)
      → All (λ x. q x ≡ true → p x ≡ true) xs
      → count_where p xs ≤ count_where q xs
      → All (λ x. p x ≡ true → q x ≡ true) xs
  unfolding count_where
  count_where-same p q [] h few = tt
  count_where-same p q (x ∷ xs) (h, hs) few = elim (Bool-cases (q x)) [
    | inl hit ↦ (λ _. hit, count_where-same p q xs hs (omega (arith, rw (hit, h hit) at few)))
    | inr miss ↦ elim (Bool-cases (p x)) [
      | inl extra ↦ absurd (omega (arith, rw (miss, extra) at few, count_where-le p q xs hs))
      | inr out ↦ (
        λ now. absurd (ground (arith, now, out)),
        count_where-same p q xs hs (rw (miss, out) at few),
      )
    ]
  ]

  pub any-implies :
      (p q : A → Bool) (xs : List A)
      → ((x : A) → p x ≡ true → q x ≡ true)
      → any p xs ≡ true
      → any q xs ≡ true
  any-implies p q [] f h = absurd (cc)
  any-implies p q (x ∷ xs) f h = elim (Bool-cases (p x)) [
    | inl hit ↦ rw (f x hit)
    | inr miss ↦ elim (Bool-cases (q x)) [
      | inl now ↦ rw now
      | inr never ↦ rw never (any-implies p q xs f (rw miss at h))
    ]
  ]

  pub find_first-none : (p : A → Bool) (xs : List A) → find_first p xs ≡ none → any p xs ≡ false
  unfolding find_first
  find_first-none p [] h = refl
  find_first-none p (x ∷ xs) h = elim (Bool-cases (p x)) [
    | inl hit ↦ absurd (let e = rw hit at h in cc)
    | inr miss ↦ rw miss (find_first-none p xs (rw miss at h))
  ]
