-- ===== src/Outbox/System/Guarantees.antt =====
-- What holds of the outbox table whatever the dispatchers and the services do.
use mathlib.Core.List.{Memᴰ}
use sentriqora.Base.{
  ℕ, ◌+◌, ◌<◌, any, str_eq, ◌≤◌, ◌≡◌, refl, Bool, true, false, none, some, List, [], ◌∷◌, All,
  All-map, All-mem, All-both, mem-update_where, Bool-cases, inl, inr, ◌⊎◌, arith,
}
use sentriqora.Base.Json.{null}
use sentriqora.Outbox.Jobs.{Zod, Queues, Route}
use sentriqora.Outbox.Store.{
  Status, pending, processing, published, failed, OutboxEvent, Claimed, max_claims,
  dispatched_types, is_claimable, is_candidate, candidates, is_one_of, claim_row, claimed_row,
  returning, claim,
}
use sentriqora.Outbox.Store.Candidates.{is_candidate_of_is_one_of}
use sentriqora.Outbox.System.{System, Reach, empty}
use sentriqora.Outbox.System.Sound.{IsDelivered, Fits, IsSound}
use sentriqora.Outbox.System.Keeps.{Reach-IsSound}

abbrev pub IsWithinBudget : {N : Type 0} → OutboxEvent N → Type 0
IsWithinBudget e = (e.retry_count ≤ max_claims) × (e.status ≡ failed → e.retry_count ≡ max_claims)

module _ {N : Type 0} (zod : Zod N) (queues : Queues) where
  abbrev blank : OutboxEvent N
  blank = record {
    id = 0;
    event_type = "";
    payload = null;
    status = pending;
    occurred_at = 0;
    available_at = 0;
    published_at = none;
    retry_count = 0;
    last_error_code = none;
  }

  empty-IsSound : IsSound zod queues (empty N)
  empty-IsSound = record { row = λ _. blank; keyed = tt; fits = tt; claims = tt }

  module _ (added : List (Route N)) (e : OutboxEvent N) where
    budget :
        (at : Status)
        → Fits zod queues added e at
        → (e.retry_count ≤ max_claims) × (at ≡ failed → e.retry_count ≡ max_claims)
    budget pending h = (h.1, λ p. cc)
    budget processing h = (h.1, λ p. cc)
    budget published h = (h.1, λ p. cc)
    budget failed h = (omega (arith, h.1), λ p. h.1)

    delivered :
        (at : Status) → Fits zod queues added e at → at ≡ published → IsDelivered zod queues added e
    delivered published h p = h.2
    delivered pending h p = cc
    delivered processing h p = cc
    delivered failed h p = cc

    has_stamp :
        (at : Status)
        → Fits zod queues added e at
        → at ≡ published
        → (t : ℕ) × (e.published_at ≡ some t)
    has_stamp published h p = h.0
    has_stamp pending h p = absurd (cc)
    has_stamp processing h p = absurd (cc)
    has_stamp failed h p = absurd (cc)

    stamped :
        (at : Status)
        → Fits zod queues added e at
        → (t : ℕ) → e.published_at ≡ some t
        → at ≡ published
    stamped published h t p = refl
    stamped pending h t p = cc (h.0)
    stamped processing h t p = cc (h.0)
    stamped failed h t p = cc (h.0)

  module _ {s : System N} (r : Reach zod queues (empty N) s) where
    sound : IsSound zod queues s
    sound = Reach-IsSound zod queues empty-IsSound r

    -- However the transactions of any number of dispatchers interleave, and whatever fails, an event
    -- that is PUBLISHED has a payload that fits its schema, and the route that `route` gives it has
    -- been handed to its queue.
    pub published-IsDelivered :
        All (λ e. e.status ≡ published → IsDelivered zod queues s.added e) s.rows
    published-IsDelivered =
        All-map _ _ s.rows (λ e h p. delivered s.added e e.status h p) sound.fits

    pub count_budget : All IsWithinBudget s.rows
    count_budget = All-map _ _ s.rows (λ e h. budget s.added e e.status h) sound.fits

    -- In every reachable table a row has a publication time exactly when it is PUBLISHED.
    pub published_at_iff :
        All
          (λ e.
            (e.status ≡ published → (t : ℕ) × (e.published_at ≡ some t))
            × ((t : ℕ) → e.published_at ≡ some t → e.status ≡ published))
          s.rows
    published_at_iff =
        All-map _ _ s.rows
          (λ e h. (has_stamp s.added e e.status h, λ t p. stamped s.added e e.status h t p))
          sound.fits

    module _ (locked : ℕ → Bool) (now : ℕ) where
      abbrev chosen : List (OutboxEvent N)
      chosen = candidates locked now s.rows

      -- A claim of a row that was due, with what it tells of the row.
      pub record IsFrom (rows : List (OutboxEvent N)) (c : Claimed N) : Type 0 where
        pub row : OutboxEvent N
        pub known : Memᴰ row rows
        pub dispatched : any (str_eq row.event_type) dispatched_types ≡ true
        pub open_ : (row.status ≡ pending) ⊎ (row.status ≡ processing)
        pub available : row.available_at ≤ now
        pub unspent : row.retry_count < 10
        pub unlocked : locked row.id ≡ false
        pub id : c.id ≡ row.id
        pub event_type : c.event_type ≡ row.event_type
        pub payload : c.payload ≡ row.payload
        pub count : c.retry_count ≡ row.retry_count + 1

      claimable_cases : (st : Status) → is_claimable st ≡ true → (st ≡ pending) ⊎ (st ≡ processing)
      claimable_cases pending h = inl refl
      claimable_cases processing h = inr refl
      claimable_cases published h = absurd (cc)
      claimable_cases failed h = absurd (cc)

      claim-IsFrom :
          (e : OutboxEvent N)
          → Memᴰ e s.rows
          → is_candidate locked now e ≡ true
          → IsFrom s.rows (claimed_row (claim_row now e))
      unfolding is_candidate
      claim-IsFrom e m h = record {
        row = e;
        known = m;
        dispatched = ground (arith, h);
        open_ = claimable_cases e.status (ground (arith, h));
        available = ground (arith, h);
        unspent = ground (arith, h);
        unlocked = ground (arith, h);
        id = refl;
        event_type = refl;
        payload = refl;
        count = refl;
      }

      returning-IsFrom :
          (es : List (OutboxEvent N))
          → All (λ e. Memᴰ e s.rows × (e ≡ sound.row e.id)) es
          → All (IsFrom s.rows) (returning chosen now es)
      unfolding returning
      returning-IsFrom [] h = tt
      returning-IsFrom (e ∷ es) (h, hs) = elim (Bool-cases (is_one_of chosen e)) [
        | inl hit ↦ rw hit (
          claim-IsFrom e h.0
              (is_candidate_of_is_one_of sound.row locked now s.rows e sound.keyed h.1 hit),
          returning-IsFrom es hs,
        )
        | inr miss ↦ rw miss (returning-IsFrom es hs)
      ]

      members : (es : List (OutboxEvent N)) → All (λ e. Memᴰ e es) es
      members [] = tt
      members (e ∷ es) = (Memᴰ.head refl, All-map _ _ es (λ x m. Memᴰ.tail m) (members es))

      -- In every reachable table, `claim` returns only events of rows that were due, unlocked, PENDING
      -- or PROCESSING, of a dispatched type and claimed less than ten times, each with the id,
      -- the type and the payload of its row, and with a count that is one higher.
      pub claim_sound : All (IsFrom s.rows) (claim locked now s.rows).0
      unfolding claim
      claim_sound = returning-IsFrom s.rows (All-both _ _ s.rows (members s.rows) sound.keyed)

      -- In every reachable table, `claim` leaves each row that fails its WHERE clause as it was, so
      -- PUBLISHED and FAILED rows, rows under a lease and rows with ten claims are not touched.
      pub claim_keeps_rest :
          (e : OutboxEvent N)
          → Memᴰ e s.rows
          → is_candidate locked now e ≡ false
          → Memᴰ e (claim locked now s.rows).1
      unfolding claim
      claim_keeps_rest e m rest =
          mem-update_where (is_one_of chosen) (claim_row now) s.rows m
            (other (Bool-cases (is_one_of chosen e)))
        where
          other :
              (is_one_of chosen e ≡ true) ⊎ (is_one_of chosen e ≡ false)
              → is_one_of chosen e ≡ false
          other (inr miss) = miss
          other (inl hit) = cc (
            rest,
            is_candidate_of_is_one_of sound.row locked now s.rows e sound.keyed
                (All-mem _ s.rows sound.keyed m) hit,
          )
