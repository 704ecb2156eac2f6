-- ===== src/Base/Tables.antt =====
-- A database table as the list of its rows, and the statements that the program runs on it.
use Prim.Native.Nat.{ℕ, suc}
use mathlib.Core.Path.{◌≡◌, refl, sym, ap, ◌∙◌, subst}
use mathlib.Core.Logic.{◌⊎◌, inl, inr}
use mathlib.Core.Bool.{Bool, true, false}
use mathlib.Core.Option.{Option, none, some}
use mathlib.Core.List.{List, [], ◌∷◌, Memᴰ}
use native.Mathlib.Omega.{arith}
use package.sentriqora.Base.Tests.{if◌then◌else◌, Bool-cases}
use package.sentriqora.Base.Lists.{All}

module _ {ℓ} {A : Type ℓ} where
  -- SELECT … WHERE p LIMIT 1
  unfoldable pub find_first : (A → Bool) → List A → Option A
  find_first p [] = none
  find_first p (x ∷ xs) = if p x then some x else find_first p xs

  abbrev pub on_match : (A → Bool) → (A → A) → A → A
  on_match p f x = if p x then f x else x

  -- UPDATE … SET f WHERE p
  unfoldable pub update_where : (A → Bool) → (A → A) → List A → List A
  update_where p f [] = []
  update_where p f (x ∷ xs) = on_match p f x ∷ update_where p f xs

  -- the row count that the same statement reports
  unfoldable pub count_where : (A → Bool) → List A → ℕ
  count_where p [] = 0
  count_where p (x ∷ xs) = if p x then suc (count_where p xs) else count_where p xs

  -- What holds of the rows after the update, from what held of them before.
  pub update_where-All {κ μ} :
      (P : A → Type κ) (Q : A → Type μ) (p : A → Bool) (f : A → A) (xs : List A)
      → ((x : A) → p x ≡ true → P x → Q (f x))
      → ((x : A) → P x → Q x)
      → All P xs
      → All Q (update_where p f xs)
  unfolding update_where
  update_where-All P Q p f [] hit miss h = tt
  update_where-All P Q p f (x ∷ xs) hit miss (h, hs) =
      (at (p x) (hit x), update_where-All P Q p f xs hit miss hs)
    where
      at : (b : Bool) → (b ≡ true → P x → Q (f x)) → Q (if b then f x else x)
      at true k = k refl h
      at false k = miss x h

  -- A row that the statement does not match stays in the table.
  pub mem-update_where :
      (p : A → Bool) (f : A → A) (xs : List A) {x : A}
      → Memᴰ x xs
      → p x ≡ false
      → Memᴰ x (update_where p f xs)
  unfolding update_where
  mem-update_where p f [] m e = elim m [ ]
  mem-update_where p f (y ∷ ys) {x} (Memᴰ.head same) e =
      Memᴰ.head (subst (λ z. x ≡ on_match p f z) same (rw e))
  mem-update_where p f (y ∷ ys) (Memᴰ.tail m) e = Memᴰ.tail (mem-update_where p f ys m e)

  pub find_first-All {κ} :
      (P : A → Type κ) (p : A → Bool) (xs : List A) {x : A}
      → All P xs
      → find_first p xs ≡ some x
      → P x × (p x ≡ true)
  unfolding find_first
  find_first-All P p [] h e = cc
  find_first-All P p (y ∷ ys) (h, hs) e = elim (Bool-cases (p y)) [
    | inl hit ↦ ground (arith, hit)
    | inr miss ↦ find_first-All P p ys hs (rw miss at e)
  ]

  -- The first row after a statement that does not change what is looked for.
  pub find_first-update_where :
      (p q : A → Bool) (f : A → A) (xs : List A) {x : A}
      → ((y : A) → p (f y) ≡ p y)
      → find_first p xs ≡ some x
      → find_first p (update_where q f xs) ≡ some (on_match q f x)
  unfolding find_first update_where
  find_first-update_where p q f [] same h = absurd (cc)
  find_first-update_where p q f (y ∷ ys) {x} same h =
      let kept : p (on_match q f y) ≡ p y = elim (Bool-cases (q y)) [
        | inl e ↦ rw e (same y)
        | inr e ↦ rw e
      ] in
      elim (Bool-cases (p y)) [
        | inl hit ↦
            (let here : y ≡ x = ground (arith, hit, h) in
              rw (kept ∙ hit) (ap (λ z. some (on_match q f z)) here))
        | inr miss ↦ rw (kept ∙ miss) (find_first-update_where p q f ys same (rw miss at h))
      ]

  -- Rows that agree with a function of their key have distinct keys, up to copies; a statement that
  -- leaves the key alone keeps that.
  module _ (key : A → ℕ) where
    abbrev pub Agrees : (ℕ → A) → List A → Type ℓ
    Agrees g xs = All (λ x. x ≡ g (key x)) xs

    pub update_where-Agrees :
        (p : A → Bool) (f : A → A) (g : ℕ → A) (xs : List A)
        → ((x : A) → key (f x) ≡ key x)
        → Agrees g xs
        → Agrees (λ k. on_match p f (g k)) (update_where p f xs)
    unfolding update_where
    update_where-Agrees p f g [] same h = tt
    update_where-Agrees p f g (x ∷ xs) same (h, hs) = (
      ap (on_match p f) (h ∙ ap g (sym (key-on_match (Bool-cases (p x))))),
      update_where-Agrees p f g xs same hs,
    )
      where
        key-on_match : (p x ≡ true) ⊎ (p x ≡ false) → key (on_match p f x) ≡ key x
        key-on_match (inl e) = rw e (same x)
        key-on_match (inr e) = rw e
