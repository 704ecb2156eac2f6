-- ===== src/Outbox/System/Keeps.antt =====
-- Each transaction of a dispatcher keeps the invariant of the outbox.
use mathlib.Core.List.{Memᴰ}
use mathlib.Core.List.Memᴰ as Memᴰ
use sentriqora.Base.{
  ℕ, ◌≤◌, ◌≡◌, ◌≢◌, refl, sym, ap, ◌∙◌, Bool, true, none, some, List, [], ◌∷◌, ◌++◌, All, Agrees,
  All-append, All-both, All-map, All-mem, Bool-cases, Option-cases, inl, inr, arith, on_match,
  update_where, update_where-All, update_where-Agrees, tests, Text, Result, if◌then◌else◌, ◌==◌,
  ltb, leb, subst,
}
use sentriqora.Outbox.Jobs.{Zod, Queues, Route, route}
use sentriqora.Outbox.Store.{
  Status, pending, processing, published, failed, OutboxEvent, Claimed, max_claims, is_candidate,
  candidates, is_claimable, is_one_of, claim_row, claimed_row, returning, is_held, failed_row,
  update_published, update_failed, is_processing,
}
use sentriqora.Outbox.Store
use sentriqora.Outbox.Store.Candidates.{is_candidate_of_is_one_of}
use sentriqora.Outbox.Dispatcher.{
  Answers, Worker, settle_failure, mark, enqueue, publish, schema_error,
}
use sentriqora.Outbox.System.{
  System, IsNew, with_worker, worker_of, after_claim, after_publish, Step, insert, claim_batch,
  publish_claim, Reach, here, next,
}
use sentriqora.Outbox.System.Sound.{Fits, Row, IsClaim, IsSound}

claimable_of_processing : (at : Status) → is_processing at ≡ true → is_claimable at ≡ true
claimable_of_processing processing h = refl
claimable_of_processing _ h = cc

module _ {N : Type 0} (zod : Zod N) (queues : Queues) where
  abbrev RowFits : List (Route N) → OutboxEvent N → Type 0
  RowFits = Row zod queues

  -- The rows that the statements touch have not been published.
  unpublished :
      (added : List (Route N)) (e : OutboxEvent N) (at : Status)
      → is_claimable at ≡ true
      → Fits zod queues added e at
      → (e.published_at ≡ none) × (e.retry_count ≤ max_claims)
  unpublished added e pending open_row fits = fits
  unpublished added e processing open_row fits = fits
  unpublished added e published open_row fits = cc
  unpublished added e failed open_row fits = cc

  claim_row-Row :
      (added : List (Route N)) (locked : ℕ → Bool) (now : ℕ) (e : OutboxEvent N)
      → is_candidate locked now e ≡ true
      → RowFits added e
      → RowFits added (claim_row now e)
  unfolding is_candidate
  claim_row-Row added locked now e open_row fits =
      let facts : (is_claimable e.status ≡ true) × (ltb e.retry_count max_claims ≡ true) =
        (ground arith, ground arith) in
      ((unpublished added e e.status facts.0 fits).0, omega (tests, facts.1))

  failed_row-Row :
      (added : List (Route N)) (count : ℕ) (code : Text) (now : ℕ) (e : OutboxEvent N)
      → is_processing e.status ≡ true
      → count ≤ e.retry_count
      → RowFits added e
      → RowFits added (failed_row count code now e)
  failed_row-Row added count code now e held le fits =
      let (stamp, bound) =
        unpublished added e e.status (claimable_of_processing e.status held) fits in
      elim (Bool-cases (leb max_claims count)) [
        | inl spent ↦ rw spent (stamp, omega (tests, spent))
        | inr left ↦ rw left (stamp, bound)
      ]

  -- More jobs in the queues take nothing from what is delivered.
  Row_weaken :
      (added : List (Route N)) (t : Route N) (e : OutboxEvent N)
      → RowFits added e
      → RowFits (added ++ t ∷ []) e
  Row_weaken added t e fits = at e.status fits
    where
      at : (s : Status) → Fits zod queues added e s → Fits zod queues (added ++ t ∷ []) e s
      at pending h = h
      at processing h = h
      at published (stamp, bound, (u, routed, m)) =
          (stamp, bound, (u, routed, Memᴰ.append_left (t ∷ []) m))
      at failed h = h

  -- What `returning` yields are claims on the rows as updated.
  returning-IsClaim :
      (chosen es : List (OutboxEvent N)) (now : ℕ) (row : ℕ → OutboxEvent N)
      → Agrees (λ (e : OutboxEvent N). e.id) row es
      → All
          (IsClaim (λ k. on_match (is_one_of chosen) (claim_row now) (row k)))
          (returning chosen now es)
  unfolding returning
  returning-IsClaim chosen [] now row h = tt
  returning-IsClaim chosen (e ∷ es) now row (h, hs) = elim (Bool-cases (is_one_of chosen e)) [
    | inl hit ↦ rw hit (at hit, returning-IsClaim chosen es now row hs)
    | inr miss ↦ rw miss (returning-IsClaim chosen es now row hs)
  ]
    where
      at :
          is_one_of chosen e ≡ true
          → IsClaim
              (λ k. on_match (is_one_of chosen) (claim_row now) (row k))
              (claimed_row (claim_row now e))
      at hit =
          let same : claim_row now e ≡ on_match (is_one_of chosen) (claim_row now) (row e.id) =
            subst (λ r. claim_row now e ≡ on_match (is_one_of chosen) (claim_row now) r) h
              (rw hit refl) in
          record {
            event_type = ap (λ (r : OutboxEvent N). r.event_type) same;
            payload = ap (λ (r : OutboxEvent N). r.payload) same;
            count = omega (arith, ap (λ (r : OutboxEvent N). r.retry_count) same);
          }

  -- An update that keeps a row's type and payload, and takes nothing from its count, keeps claims.
  IsClaim-update :
      (p : OutboxEvent N → Bool) (f : OutboxEvent N → OutboxEvent N) (row : ℕ → OutboxEvent N)
      (c : Claimed N)
      → ((e : OutboxEvent N)
          → ((f e).event_type ≡ e.event_type)
            × ((f e).payload ≡ e.payload)
            × (e.retry_count ≤ (f e).retry_count))
      → IsClaim row c
      → IsClaim (λ k. on_match p f (row k)) c
  IsClaim-update p f row c same h = elim (Bool-cases (p (row c.id))) [
    | inl hit ↦
        (let (kind, load, grows) = same (row c.id) in
          record {
            event_type = rw hit (h.event_type ∙ sym kind);
            payload = rw hit (h.payload ∙ sym load);
            count = rw hit (omega (arith, h.count, grows));
          })
    | inr miss ↦ record {
      event_type = rw miss h.event_type;
      payload = rw miss h.payload;
      count = rw miss h.count;
    }
  ]

  after_claim-IsSound :
      (locked : ℕ → Bool) (now : ℕ) (s : System N)
      → IsSound zod queues s
      → IsSound zod queues (after_claim zod queues locked now s)
  unfolding Store.claim
  after_claim-IsSound locked now s h =
      let chosen = candidates locked now s.rows in
      record {
        row = λ k. on_match (is_one_of chosen) (claim_row now) (h.row k);
        keyed =
            update_where-Agrees (λ (e : OutboxEvent N). e.id) (is_one_of chosen) (claim_row now)
              h.row s.rows (λ e. refl) h.keyed;
        fits =
            update_where-All _ _ (is_one_of chosen) (claim_row now) s.rows
              (λ e hit both.
                claim_row-Row s.added locked now e
                  (is_candidate_of_is_one_of h.row locked now s.rows e h.keyed both.0 hit) both.1)
              (λ e both. both.1) (All-both _ _ s.rows h.keyed h.fits);
        claims =
            All-append _ (returning chosen now s.rows) s.in_flight
              (returning-IsClaim chosen s.rows now h.row h.keyed)
              (All-map _ _ s.in_flight
                (λ c.
                  IsClaim-update (is_one_of chosen) (claim_row now) h.row c
                    (λ e. (refl, refl, omega arith)))
                h.claims);
      }

  -- One statement about an event in flight.
  module _ (s : System N) (h : IsSound zod queues s) (c : Claimed N) (m : Memᴰ c s.in_flight) where
    claim : IsClaim h.row c
    claim = All-mem _ s.in_flight h.claims m

    held-IsSound :
        (f : OutboxEvent N → OutboxEvent N)
        → ((e : OutboxEvent N)
            → ((f e).id ≡ e.id)
              × ((f e).event_type ≡ e.event_type)
              × ((f e).payload ≡ e.payload)
              × (e.retry_count ≤ (f e).retry_count))
        → ((e : OutboxEvent N)
            → is_held c.id e ≡ true
            → e ≡ h.row e.id
            → RowFits s.added e
            → RowFits s.added (f e))
        → IsSound zod queues (record s { rows = update_where (is_held c.id) f s.rows })
    held-IsSound f same keep = record {
      row = λ k. on_match (is_held c.id) f (h.row k);
      keyed =
          update_where-Agrees (λ (e : OutboxEvent N). e.id) (is_held c.id) f h.row s.rows
            (λ e. (same e).0) h.keyed;
      fits =
          update_where-All _ _ (is_held c.id) f s.rows (λ e hit both. keep e hit both.0 both.1)
            (λ e both. both.1) (All-both _ _ s.rows h.keyed h.fits);
      claims =
          All-map _ _ s.in_flight
            (λ d.
              IsClaim-update (is_held c.id) f h.row d (λ e. ((same e).1, (same e).2, (same e).3)))
            h.claims;
    }

    held_facts :
        (e : OutboxEvent N)
        → is_held c.id e ≡ true
        → e ≡ h.row e.id
        → (h.row c.id ≡ e) × (is_processing e.status ≡ true)
    held_facts e held keyed =
        let (same, open_row) : (e.id ≡ c.id) × (is_processing e.status ≡ true) =
          (ground arith, ground arith) in
        (ap h.row (sym same) ∙ sym keyed, open_row)

    fail-IsSound :
        (code : Text) (now : ℕ)
        → IsSound zod queues (record s { rows = update_failed c.id c.retry_count code now s.rows })
    unfolding update_failed
    fail-IsSound code now =
        held-IsSound (failed_row c.retry_count code now) (λ e. (refl, refl, refl, omega arith))
          (λ e held keyed fits.
            let (at, open_row) = held_facts e held keyed in
            failed_row-Row s.added c.retry_count code now e open_row
              (omega (arith, claim.count, ap (λ (r : OutboxEvent N). r.retry_count) at)) fits)

    publish-IsSound :
        (now : ℕ) (t : Route N)
        → route zod queues c.event_type c.payload ≡ some t
        → Memᴰ t s.added
        → IsSound zod queues (record s { rows = update_published c.id now s.rows })
    unfolding update_published
    publish-IsSound now t routed there =
        held-IsSound _ (λ e. (refl, refl, refl, omega arith))
          (λ e held keyed fits.
            let (at, open_row) = held_facts e held keyed in
            (
              (now, refl),
              (unpublished s.added e e.status (claimable_of_processing e.status open_row) fits).1,
              (
                t,
                cc (
                  routed,
                  claim.event_type ∙ ap (λ (r : OutboxEvent N). r.event_type) at,
                  claim.payload ∙ ap (λ (r : OutboxEvent N). r.payload) at,
                ),
                there,
              ),
            ))

  add-IsSound :
      (s : System N) (t : Route N)
      → IsSound zod queues s
      → IsSound zod queues (record s { added = s.added ++ t ∷ [] })
  add-IsSound s t h = record {
    row = h.row;
    keyed = h.keyed;
    fits = All-map _ _ s.rows (Row_weaken s.added t) h.fits;
    claims = h.claims;
  }

  module _ (answers : Answers) (c : Claimed N) where
    abbrev After : (Worker N → Result Text (Unit {0}) × Worker N) → System N → Type 0
    After action s =
        IsSound zod queues (with_worker zod queues s (action (worker_of zod queues s)).1)

    settle-IsSound :
        (code : Text) (s : System N)
        → IsSound zod queues s
        → Memᴰ c s.in_flight
        → After (settle_failure zod queues answers c code) s
    unfolding settle_failure
    settle-IsSound code s h m = elim (Option-cases answers.fail_error) [
      | inl written ↦ rw written (fail-IsSound s h c m code answers.at)
      | inr (e, thrown) ↦ rw thrown h
    ]

    mark-IsSound :
        (t : Route N) (s : System N)
        → IsSound zod queues s
        → Memᴰ c s.in_flight
        → route zod queues c.event_type c.payload ≡ some t
        → Memᴰ t s.added
        → After (mark zod queues answers c) s
    unfolding mark
    mark-IsSound t s h m routed there = elim (Option-cases answers.mark_error) [
      | inl written ↦ rw written (publish-IsSound s h c m answers.at t routed there)
      | inr (e, thrown) ↦ rw thrown (settle-IsSound e s h m)
    ]

    enqueue-IsSound :
        (t : Route N) (s : System N)
        → IsSound zod queues s
        → Memᴰ c s.in_flight
        → route zod queues c.event_type c.payload ≡ some t
        → After (enqueue zod queues answers c t) s
    unfolding enqueue
    enqueue-IsSound t s h m routed = elim (Option-cases answers.add_error) [
      | inl done ↦ rw done (
          mark-IsSound t (record s { added = s.added ++ t ∷ [] }) (add-IsSound s t h) m routed
            (Memᴰ.append_right s.added (Memᴰ.head refl)))
      | inr (e, thrown) ↦ rw thrown (settle-IsSound e s h m)
    ]

    after_publish-IsSound :
        (s : System N)
        → IsSound zod queues s
        → Memᴰ c s.in_flight
        → IsSound zod queues (after_publish zod queues answers c s)
    unfolding publish
    after_publish-IsSound s h m = elim (Option-cases (route zod queues c.event_type c.payload)) [
      | inl unfit ↦ rw (unfit, publish) (settle-IsSound schema_error s h m)
      | inr (t, routed) ↦ rw (routed, publish) (enqueue-IsSound t s h m routed)
    ]

  insert-IsSound :
      (e : OutboxEvent N) (s : System N)
      → IsNew e s
      → IsSound zod queues s
      → IsSound zod queues (record s { rows = e ∷ s.rows })
  insert-IsSound e s new h = record {
    row = λ k. if k == e.id then e else h.row k;
    keyed = (
      ground arith,
      All-map _ _ s.rows (λ r both. subst (λ x. r ≡ x) (elsewhere r.id both.1) both.0)
          (All-both _ _ s.rows h.keyed new.fresh_row),
    );
    fits = (rw new.status (new.unpublished, omega (arith, new.count)), h.fits);
    claims =
        All-map _ _ s.in_flight
          (λ c both.
            let same = elsewhere c.id both.1 in
            record {
              event_type =
                  subst (λ (r : OutboxEvent N). c.event_type ≡ r.event_type) same both.0.event_type;
              payload = subst (λ (r : OutboxEvent N). c.payload ≡ r.payload) same both.0.payload;
              count =
                  subst (λ (r : OutboxEvent N). c.retry_count ≤ r.retry_count) same both.0.count;
            })
          (All-both _ _ s.in_flight h.claims new.fresh_claim);
  }
    where
      elsewhere : (k : ℕ) → k ≢ e.id → h.row k ≡ (if k == e.id then e else h.row k)
      elsewhere k ne = ground arith

  pub Step-IsSound :
      {s t : System N} → Step zod queues s t → IsSound zod queues s → IsSound zod queues t
  Step-IsSound {s} (insert e new) h = insert-IsSound e s new h
  Step-IsSound {s} (claim_batch locked now) h = after_claim-IsSound locked now s h
  Step-IsSound {s} (publish_claim answers event m) h = after_publish-IsSound answers event s h m

  pub Reach-IsSound :
      {s t : System N} → IsSound zod queues s → Reach zod queues s t → IsSound zod queues t
  Reach-IsSound h here = h
  Reach-IsSound h (next r st) = Step-IsSound st (Reach-IsSound h r)
