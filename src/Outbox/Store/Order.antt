-- ===== src/Outbox/Store/Order.antt =====
-- The order in which `claim` takes events.
use mathlib.Core.List.{Memᴰ}
use sentriqora.Base.{
  ℕ, zero, suc, ◌≡◌, refl, ◌⊎◌, inl, inr, Bool, true, false, List, [], ◌∷◌, All, All-mem, All-map,
  Bool-cases, arith, length, take,
}
use sentriqora.Outbox.Store.{
  OutboxEvent, is_candidate, precedes, insert_ordered, ordered_candidates, candidates, batch_size,
}
use sentriqora.Outbox.Store.Candidates.{insert_ordered-All}

module _ {N : Type 0} where
  abbrev Before : OutboxEvent N → OutboxEvent N → Type 0
  Before a b = precedes a b ≡ true

  abbrev Sorted : List (OutboxEvent N) → Type 0
  Sorted [] = Unit
  Sorted (x ∷ xs) = All (Before x) xs × Sorted xs

  precedes_trans : (a b c : OutboxEvent N) → Before a b → Before b c → Before a c
  unfolding precedes
  precedes_trans a b c h k = ground arith

  precedes_total : (a b : OutboxEvent N) → precedes a b ≡ false → Before b a
  unfolding precedes
  precedes_total a b h = ground arith

  insert_ordered-Sorted :
      (e : OutboxEvent N) (xs : List (OutboxEvent N)) → Sorted xs → Sorted (insert_ordered e xs)
  unfolding insert_ordered
  insert_ordered-Sorted e [] h = (tt, tt)
  insert_ordered-Sorted e (x ∷ xs) (h, hs) = elim (Bool-cases (precedes e x)) [
    | inl first ↦ rw first ((first, All-map _ _ xs (λ y. precedes_trans e x y first) h), (h, hs))
    | inr later ↦ rw later (
      insert_ordered-All (Before x) e xs (precedes_total e x later) h,
      insert_ordered-Sorted e xs hs,
    )
  ]

  mem-insert_ordered_self :
      (e : OutboxEvent N) (xs : List (OutboxEvent N)) → Memᴰ e (insert_ordered e xs)
  unfolding insert_ordered
  mem-insert_ordered_self e [] = Memᴰ.head refl
  mem-insert_ordered_self e (x ∷ xs) = elim (Bool-cases (precedes e x)) [
    | inl first ↦ rw first (Memᴰ.head refl)
    | inr later ↦ rw later (Memᴰ.tail (mem-insert_ordered_self e xs))
  ]

  mem-insert_ordered :
      (e : OutboxEvent N) (xs : List (OutboxEvent N)) {y : OutboxEvent N}
      → Memᴰ y xs
      → Memᴰ y (insert_ordered e xs)
  unfolding insert_ordered
  mem-insert_ordered e [] m = elim m [ ]
  mem-insert_ordered e (x ∷ xs) (Memᴰ.head same) = elim (Bool-cases (precedes e x)) [
    | inl first ↦ rw first (Memᴰ.tail (Memᴰ.head same))
    | inr later ↦ rw later (Memᴰ.head same)
  ]
  mem-insert_ordered e (x ∷ xs) (Memᴰ.tail m) = elim (Bool-cases (precedes e x)) [
    | inl first ↦ rw first (Memᴰ.tail (Memᴰ.tail m))
    | inr later ↦ rw later (Memᴰ.tail (mem-insert_ordered e xs m))
  ]

  take_first :
      (n : ℕ) (xs : List (OutboxEvent N)) {e : OutboxEvent N}
      → Sorted xs
      → Memᴰ e xs
      → Memᴰ e (take n xs) ⊎ (length (take n xs) ≡ n) × All (λ c. Before c e) (take n xs)
  take_first zero xs h m = inr (refl, tt)
  take_first (suc n) [] h m = elim m [ ]
  take_first (suc n) (x ∷ xs) (h, hs) (Memᴰ.head same) = inl (Memᴰ.head same)
  take_first (suc n) (x ∷ xs) {e} (h, hs) (Memᴰ.tail m) = elim (take_first n xs hs m) [
    | inl early ↦ inl (Memᴰ.tail early)
    | inr (full, before) ↦ inr (omega (arith, full), (All-mem (Before x) xs h m, before))
  ]

  module _ (locked : ℕ → Bool) (now : ℕ) where
    ordered_candidates-Sorted :
        (es : List (OutboxEvent N)) → Sorted (ordered_candidates locked now es)
    unfolding ordered_candidates
    ordered_candidates-Sorted [] = tt
    ordered_candidates-Sorted (e ∷ es) = elim (Bool-cases (is_candidate locked now e)) [
      | inl hit ↦ rw hit (insert_ordered-Sorted e _ (ordered_candidates-Sorted es))
      | inr miss ↦ rw miss (ordered_candidates-Sorted es)
    ]

    mem-ordered_candidates :
        (es : List (OutboxEvent N)) {e : OutboxEvent N}
        → Memᴰ e es
        → is_candidate locked now e ≡ true
        → Memᴰ e (ordered_candidates locked now es)
    unfolding ordered_candidates
    mem-ordered_candidates [] m hit = elim m [ ]
    mem-ordered_candidates (x ∷ es) {e} (Memᴰ.head same) hit =
        rw (← same) (rw hit (mem-insert_ordered_self e _))
    mem-ordered_candidates (x ∷ es) (Memᴰ.tail m) hit =
        elim (Bool-cases (is_candidate locked now x)) [
          | inl took ↦ rw took (mem-insert_ordered x _ (mem-ordered_candidates es m hit))
          | inr left ↦ rw left (mem-ordered_candidates es m hit)
        ]

    -- Oldest first, with no candidate passed over: a row that satisfies the WHERE clause is chosen,
    -- or the batch is full and each of its rows precedes it by time of occurrence, then by id.
    pub candidates_oldest_first :
        (es : List (OutboxEvent N)) (e : OutboxEvent N)
        → Memᴰ e es
        → is_candidate locked now e ≡ true
        → Memᴰ e (candidates locked now es)
          ⊎ (length (candidates locked now es) ≡ batch_size)
            × All (λ c. precedes c e ≡ true) (candidates locked now es)
    unfolding candidates
    candidates_oldest_first es e m hit =
        take_first batch_size _ (ordered_candidates-Sorted es) (mem-ordered_candidates es m hit)
