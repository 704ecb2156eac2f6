-- ===== src/Outbox/Store/Candidates.antt =====
-- Which rows `claim` takes, and in which order.
use sentriqora.Base.{
  ℕ, ◌≤◌, ◌≡◌, Bool, true, List, [], ◌∷◌, All, All-take, any-eq-true, Bool-cases, inl, inr, ==→eq,
  length, length-take-le,
}
use sentriqora.Outbox.Store.{
  OutboxEvent, is_candidate, precedes, insert_ordered, ordered_candidates, candidates, is_one_of,
  batch_size,
}

module _ {N : Type 0} where
  pub insert_ordered-All :
      (P : OutboxEvent N → Type 0) (e : OutboxEvent N) (xs : List (OutboxEvent N))
      → P e
      → All P xs
      → All P (insert_ordered e xs)
  unfolding insert_ordered
  insert_ordered-All P e [] h hs = (h, tt)
  insert_ordered-All P e (x ∷ xs) h (k, ks) = elim (Bool-cases (precedes e x)) [
    | inl first ↦ rw first (h, (k, ks))
    | inr later ↦ rw later (k, insert_ordered-All P e xs h ks)
  ]

  module _ (P : OutboxEvent N → Type 0) (locked : ℕ → Bool) (now : ℕ) where
    abbrev Chosen : OutboxEvent N → Type 0
    Chosen c = P c × (is_candidate locked now c ≡ true)

    ordered_candidates-All :
        (es : List (OutboxEvent N)) → All P es → All Chosen (ordered_candidates locked now es)
    unfolding ordered_candidates
    ordered_candidates-All [] h = tt
    ordered_candidates-All (e ∷ es) (h, hs) = elim (Bool-cases (is_candidate locked now e)) [
      | inl hit ↦ rw hit (insert_ordered-All Chosen e _ (h, hit) (ordered_candidates-All es hs))
      | inr miss ↦ rw miss (ordered_candidates-All es hs)
    ]

    -- What is chosen comes from the table and passes the WHERE clause.
    pub candidates-All :
        (es : List (OutboxEvent N))
        → All P es
        → All (λ c. P c × (is_candidate locked now c ≡ true)) (candidates locked now es)
    unfolding candidates
    candidates-All es h = All-take Chosen batch_size _ (ordered_candidates-All es h)

  pub length-candidates :
      (locked : ℕ → Bool) (now : ℕ) (es : List (OutboxEvent N))
      → length (candidates locked now es) ≤ batch_size
  unfolding candidates
  length-candidates locked now es = length-take-le batch_size (ordered_candidates locked now es)

  -- In a table with one row to a key, a row that is updated is itself a candidate.
  pub is_candidate_of_is_one_of :
      (row : ℕ → OutboxEvent N) (locked : ℕ → Bool) (now : ℕ) (es : List (OutboxEvent N))
      (e : OutboxEvent N)
      → All (λ c. c ≡ row c.id) es
      → e ≡ row e.id
      → is_one_of (candidates locked now es) e ≡ true
      → is_candidate locked now e ≡ true
  is_candidate_of_is_one_of row locked now es e keyed here chosen =
      let (c, (there, hit), same) =
        any-eq-true _ _ (candidates locked now es) chosen (candidates-All _ locked now es keyed) in
      let at : c ≡ e = cc (==→eq c.id e.id same) in rw at at hit
