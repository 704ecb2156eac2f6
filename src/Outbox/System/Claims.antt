-- ===== src/Outbox/System/Claims.antt =====
-- The count of a row is the number of claims of it that dispatchers have been given.
use sentriqora.Base.{
  ℕ, suc, ◌+◌, ◌≤◌, ◌≡◌, ◌≢◌, inl, inr, refl, sym, ap, ◌∙◌, Bool, true, false, List, [], ◌∷◌, ◌++◌,
  Text, All, All-map, All-both, Option-cases, Bool-cases, ◌==◌, ==→eq, arith, count_where,
  count_where-none, one_if, update_where, update_where-All,
}
use sentriqora.Outbox.Jobs.{Zod, Queues, Route, route}
use sentriqora.Outbox.Store.{
  OutboxEvent, Claimed, failed, candidates, is_one_of, claim_row, returning, claim, is_held,
  failed_row, update_published, update_failed,
}
use sentriqora.Outbox.Dispatcher.{
  Answers, Worker, settle_failure, mark, enqueue, publish, schema_error,
}
use sentriqora.Outbox.System.{
  System, Step, insert, claim_batch, publish_claim, Reach, here, next, empty, worker_of,
}
use sentriqora.Outbox.System.Guarantees.{count_budget}

neq_false : (a b : ℕ) → a ≢ b → (a == b) ≡ false
neq_false a b other = elim (Bool-cases (a == b)) [
  | inl same ↦ absurd (other (==→eq a b same))
  | inr miss ↦ miss
]

module _ {N : Type 0} where
  -- How many claims of a row are in a list of claims.
  abbrev pub claims_of : ℕ → List (Claimed N) → ℕ
  claims_of id = count_where (λ c. c.id == id)

  -- Ids are distinct, and each count is the number of claims.
  abbrev pub IsCounted : List (Claimed N) → List (OutboxEvent N) → Type 0
  IsCounted flight [] = Unit {0}
  IsCounted flight (e ∷ es) =
      All (λ r. r.id ≢ e.id) es × (claims_of e.id flight ≡ e.retry_count) × IsCounted flight es

  claims_of-append :
      (id : ℕ) (xs ys : List (Claimed N))
      → claims_of id (xs ++ ys) ≡ claims_of id xs + claims_of id ys
  unfolding count_where
  claims_of-append id [] ys = omega arith
  claims_of-append id (x ∷ xs) ys = elim (Bool-cases (x.id == id)) [
    | inl hit ↦ rw hit (omega (arith, claims_of-append id xs ys))
    | inr miss ↦ rw miss (claims_of-append id xs ys)
  ]

  -- An update that leaves ids and counts.
  update-IsCounted :
      (flight : List (Claimed N)) (p : OutboxEvent N → Bool) (f : OutboxEvent N → OutboxEvent N)
      (es : List (OutboxEvent N))
      → ((e : OutboxEvent N) → ((f e).id ≡ e.id) × ((f e).retry_count ≡ e.retry_count))
      → IsCounted flight es
      → IsCounted flight (update_where p f es)
  unfolding update_where
  update-IsCounted flight p f [] same h = tt
  update-IsCounted flight p f (e ∷ es) same (fresh, count, hs) =
      let rest = update-IsCounted flight p f es same hs in
      let others : All (λ r. r.id ≢ e.id) (update_where p f es) =
        update_where-All (λ r. r.id ≢ e.id) (λ r. r.id ≢ e.id) p f es
          (λ r _ other equal. other (sym (same r).0 ∙ equal)) (λ r other. other) fresh in
      elim (Bool-cases (p e)) [
        | inr miss ↦ rw miss (others, count, rest)
        | inl hit ↦ rw hit (
          All-map _ _ (update_where p f es) (λ r other equal. other (equal ∙ (same e).0)) others,
          ap (λ id. claims_of id flight) (same e).0 ∙ (count ∙ sym (same e).1),
          rest,
        )
      ]

  module _ (chosen : List (OutboxEvent N)) (now : ℕ) where
    returning_none :
        (id : ℕ) (es : List (OutboxEvent N))
        → All (λ r. r.id ≢ id) es
        → claims_of id (returning chosen now es) ≡ 0
    unfolding returning count_where
    returning_none id [] h = refl
    returning_none id (e ∷ es) (other, hs) = elim (Bool-cases (is_one_of chosen e)) [
      | inr miss ↦ rw miss (returning_none id es hs)
      | inl hit ↦ rw hit (rw (neq_false e.id id other) (returning_none id es hs))
    ]

    returning_other :
        (id : ℕ) (e : OutboxEvent N) (es : List (OutboxEvent N))
        → e.id ≢ id
        → claims_of id (returning chosen now (e ∷ es)) ≡ claims_of id (returning chosen now es)
    unfolding returning count_where
    returning_other id e es other = elim (Bool-cases (is_one_of chosen e)) [
      | inr miss ↦ rw miss refl
      | inl hit ↦ rw hit (rw (neq_false e.id id other) refl)
    ]

    returning_head :
        (e : OutboxEvent N) (es : List (OutboxEvent N))
        → All (λ r. r.id ≢ e.id) es
        → claims_of e.id (returning chosen now (e ∷ es)) ≡ one_if (is_one_of chosen e)
    unfolding returning count_where
    returning_head e es fresh = elim (Bool-cases (is_one_of chosen e)) [
      | inr miss ↦ rw miss (returning_none e.id es fresh)
      | inl hit ↦
          (let mine : (e.id == e.id) ≡ true = ground arith in
            rw hit (rw mine (ap suc (returning_none e.id es fresh))))
    ]

    -- A claim is returned for each chosen row, and for no other.
    returning_once :
        (flight : List (Claimed N)) (es : List (OutboxEvent N))
        → IsCounted flight es
        → All (λ e. claims_of e.id (returning chosen now es) ≡ one_if (is_one_of chosen e)) es
    returning_once flight [] h = tt
    returning_once flight (e ∷ es) (fresh, _, hs) = (
      returning_head e es fresh,
      All-map _ _ es
          (λ r (other, once). returning_other r.id e es (λ equal. other (sym equal)) ∙ once)
          (All-both _ _ es fresh (returning_once flight es hs)),
    )

    claimed-IsCounted :
        (flight total : List (Claimed N)) (es : List (OutboxEvent N))
        → All (λ e. claims_of e.id total ≡ one_if (is_one_of chosen e) + claims_of e.id flight) es
        → IsCounted flight es
        → IsCounted total (update_where (is_one_of chosen) (claim_row now) es)
    unfolding update_where
    claimed-IsCounted flight total [] totals h = tt
    claimed-IsCounted flight total (e ∷ es) (sum, sums) (fresh, count, hs) =
        let rest = claimed-IsCounted flight total es sums hs in
        let others : All (λ r. r.id ≢ e.id) (update_where (is_one_of chosen) (claim_row now) es) =
          update_where-All (λ r. r.id ≢ e.id) (λ r. r.id ≢ e.id) (is_one_of chosen) (claim_row now)
            es (λ r _ other. other) (λ r other. other) fresh in
        elim (Bool-cases (is_one_of chosen e)) [
          | inr miss ↦
              (let none_ : claims_of e.id total ≡ 0 + claims_of e.id flight = rw miss at sum in
                rw miss (others, omega (arith, none_, count), rest))
          | inl hit ↦
              (let one : claims_of e.id total ≡ 1 + claims_of e.id flight = rw hit at sum in
                rw hit (others, omega (arith, one, count), rest))
        ]

  claim-IsCounted :
      (locked : ℕ → Bool) (now : ℕ) (flight : List (Claimed N)) (es : List (OutboxEvent N))
      → IsCounted flight es
      → IsCounted ((claim locked now es).0 ++ flight) (claim locked now es).1
  unfolding claim
  claim-IsCounted locked now flight es h =
      let chosen = candidates locked now es in
      claimed-IsCounted chosen now flight (returning chosen now es ++ flight) es
        (All-map _ _ es
          (λ e once.
            claims_of-append e.id (returning chosen now es) flight
            ∙ ap (λ n. n + claims_of e.id flight) once)
          (returning_once chosen now flight es h))
        h

module _ {N : Type 0} (zod : Zod N) (queues : Queues) where
  module _ (answers : Answers) (event : Claimed N) (flight : List (Claimed N)) where
    settle_failure-IsCounted :
        (code : Text) (w : Worker N)
        → IsCounted flight w.rows
        → IsCounted flight (settle_failure zod queues answers event code w).1.rows
    unfolding settle_failure update_failed
    settle_failure-IsCounted code w h = elim (Option-cases answers.fail_error) [
      | inr (e, failing) ↦ rw failing h
      | inl working ↦ rw working (
          update-IsCounted flight (is_held event.id) (failed_row event.retry_count code answers.at)
            w.rows (λ e. (refl, refl)) h)
    ]

    mark-IsCounted :
        (w : Worker N)
        → IsCounted flight w.rows
        → IsCounted flight (mark zod queues answers event w).1.rows
    unfolding mark update_published
    mark-IsCounted w h = elim (Option-cases answers.mark_error) [
      | inr (e, failing) ↦ rw failing (settle_failure-IsCounted e w h)
      | inl working ↦
          rw working (update-IsCounted flight (is_held event.id) _ w.rows (λ e. (refl, refl)) h)
    ]

    enqueue-IsCounted :
        (target : Route N) (w : Worker N)
        → IsCounted flight w.rows
        → IsCounted flight (enqueue zod queues answers event target w).1.rows
    unfolding enqueue
    enqueue-IsCounted target w h = elim (Option-cases answers.add_error) [
      | inr (e, failing) ↦ rw failing (settle_failure-IsCounted e w h)
      | inl working ↦ rw working (mark-IsCounted (record w { added = w.added ++ target ∷ [] }) h)
    ]

    publish-IsCounted :
        (w : Worker N)
        → IsCounted flight w.rows
        → IsCounted flight (publish zod queues answers event w).1.rows
    unfolding publish
    publish-IsCounted w h = elim (Option-cases (route zod queues event.event_type event.payload)) [
      | inl unfit ↦ rw (unfit, publish) (settle_failure-IsCounted schema_error w h)
      | inr (target, fits) ↦ rw (fits, publish) (enqueue-IsCounted target w h)
    ]

  Step-IsCounted :
      {s t : System N}
      → Step zod queues s t
      → IsCounted s.in_flight s.rows
      → IsCounted t.in_flight t.rows
  Step-IsCounted {s = s} (insert e new) h = (
    new.fresh_row,
    count_where-none (λ c. c.id == e.id) s.in_flight
          (All-map _ _ s.in_flight (λ c other. neq_false c.id e.id other) new.fresh_claim)
        ∙ sym new.count,
    h,
  )
  Step-IsCounted {s = s} (claim_batch locked now) h =
      claim-IsCounted locked now s.in_flight s.rows h
  Step-IsCounted {s = s} (publish_claim answers event m) h =
      publish-IsCounted answers event s.in_flight (worker_of zod queues s) h

  Reach-IsCounted :
      {s t : System N}
      → Reach zod queues s t
      → IsCounted s.in_flight s.rows
      → IsCounted t.in_flight t.rows
  Reach-IsCounted here h = h
  Reach-IsCounted (next r step) h = Step-IsCounted step (Reach-IsCounted r h)

  counts :
      (flight : List (Claimed N)) (es : List (OutboxEvent N))
      → IsCounted flight es
      → All (λ e. claims_of e.id flight ≡ e.retry_count) es
  counts flight [] h = tt
  counts flight (e ∷ es) (_, count, hs) = (count, counts flight es hs)

  -- In every reachable table no event has been claimed more than ten times by all dispatchers
  -- together, and an event that is FAILED has been claimed exactly ten times: it is given up only
  -- when its claims are spent.
  pub retry_budget :
      {s : System N}
      → Reach zod queues (empty N) s
      → All
          (λ e.
            (claims_of e.id s.in_flight ≤ 10)
            × (e.status ≡ failed → claims_of e.id s.in_flight ≡ 10))
          s.rows
  retry_budget {s = s} r =
      All-map _ _ s.rows (λ e (same, (few, spent)). (omega (arith, same, few), λ h. same ∙ spent h))
        (All-both _ _ s.rows (counts s.in_flight s.rows (Reach-IsCounted r tt))
          (count_budget zod queues r))
