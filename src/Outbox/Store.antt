-- ===== src/Outbox/Store.antt =====
-- The statements that `OutboxDispatcher` runs on `outbox_events`
-- (apps/worker/src/outbox-dispatcher.ts, prisma/schema.prisma). A time is a number of milliseconds.
-- The columns that the dispatcher never reads or writes are left out.
pub mod Candidates
pub mod Order
use sentriqora.Base.{
  ℕ, ◌+◌, ◌*◌, ◌^◌, String, Bool, true, false, Option, none, some, List, [], ◌∷◌, Text, ltb, leb,
  min, ◌==◌, take, any, str_eq, ◌&&◌, ◌||◌, not, if◌then◌else◌, update_where,
}
use sentriqora.Base.Json.{Json}

pub data Status : Type 0 where
  pending processing published failed : Status

pub record OutboxEvent (N : Type 0) : Type 0 where
  pub id : ℕ
  pub event_type : String
  pub payload : Json N
  pub status : Status
  pub occurred_at : ℕ
  pub available_at : ℕ
  pub published_at : Option ℕ
  pub retry_count : ℕ
  pub last_error_code : Option Text

-- `ClaimedOutboxEvent`
pub record Claimed (N : Type 0) : Type 0 where
  pub id : ℕ
  pub event_type : String
  pub payload : Json N
  pub retry_count : ℕ

abbrev pub dispatched_types : List String
dispatched_types =
    "raw_event.received.v1" ∷ "normalized_event.batch_created.v1" ∷ "alert.created.v1"
    ∷ "incident.sla_due.v1" ∷ "notification.requested.v1" ∷ "knowledge.document_ready.v1" ∷ []

abbrev pub max_claims : ℕ
max_claims = 10

abbrev pub batch_size : ℕ
batch_size = 200

abbrev pub is_claimable : Status → Bool
is_claimable pending = true
is_claimable processing = true
is_claimable _ = false

abbrev pub is_processing : Status → Bool
is_processing processing = true
is_processing _ = false

-- LEAST(300, power(2, retry_count)) seconds
unfoldable pub retry_delay : ℕ → ℕ
retry_delay count = min 300 (2 ^ count) * 1000

module _ {N : Type 0} where
  -- The WHERE clause of the candidates. `locked` says which rows another transaction holds: they
  -- are skipped.
  unfoldable pub is_candidate : (ℕ → Bool) → ℕ → OutboxEvent N → Bool
  is_candidate locked now e =
      any (str_eq e.event_type) dispatched_types
      && is_claimable e.status
      && leb e.available_at now
      && ltb e.retry_count max_claims
      && not (locked e.id)

  -- ORDER BY occurred_at, id
  unfoldable pub precedes : OutboxEvent N → OutboxEvent N → Bool
  precedes a b =
      ltb a.occurred_at b.occurred_at || (a.occurred_at == b.occurred_at && leb a.id b.id)

  unfoldable pub insert_ordered : OutboxEvent N → List (OutboxEvent N) → List (OutboxEvent N)
  insert_ordered e [] = e ∷ []
  insert_ordered e (x ∷ xs) = if precedes e x then e ∷ x ∷ xs else x ∷ insert_ordered e xs

  unfoldable pub ordered_candidates : (ℕ → Bool) → ℕ → List (OutboxEvent N) → List (OutboxEvent N)
  ordered_candidates locked now [] = []
  ordered_candidates locked now (e ∷ es) =
      let rest = ordered_candidates locked now es in
      if is_candidate locked now e then insert_ordered e rest else rest

  unfoldable pub candidates : (ℕ → Bool) → ℕ → List (OutboxEvent N) → List (OutboxEvent N)
  candidates locked now es = take batch_size (ordered_candidates locked now es)

  abbrev pub claim_row : ℕ → OutboxEvent N → OutboxEvent N
  claim_row now e = record e {
    status = processing;
    retry_count = e.retry_count + 1;
    available_at = now + 60_000;
    last_error_code = none;
  }

  abbrev pub claimed_row : OutboxEvent N → Claimed N
  claimed_row e = record {
    id = e.id;
    event_type = e.event_type;
    payload = e.payload;
    retry_count = e.retry_count;
  }

  abbrev pub is_one_of : List (OutboxEvent N) → OutboxEvent N → Bool
  is_one_of chosen e = any (λ c. c.id == e.id) chosen

  -- RETURNING: the updated rows. PostgreSQL leaves their order open; here it is the table's.
  unfoldable pub returning : List (OutboxEvent N) → ℕ → List (OutboxEvent N) → List (Claimed N)
  returning chosen now [] = []
  returning chosen now (e ∷ es) =
      let rest = returning chosen now es in
      if is_one_of chosen e then claimed_row (claim_row now e) ∷ rest else rest

  -- `claim`
  unfoldable pub claim :
      (ℕ → Bool) → ℕ → List (OutboxEvent N) → List (Claimed N) × List (OutboxEvent N)
  claim locked now es =
      let chosen = candidates locked now es in
      (returning chosen now es, update_where (is_one_of chosen) (claim_row now) es)

  abbrev pub is_held : ℕ → OutboxEvent N → Bool
  is_held id e = e.id == id && is_processing e.status

  -- `updatePublished`
  unfoldable pub update_published : ℕ → ℕ → List (OutboxEvent N) → List (OutboxEvent N)
  update_published id now =
      update_where (is_held id)
        (λ e. record e { status = published; published_at = some now; last_error_code = none })

  abbrev pub failed_row : ℕ → Text → ℕ → OutboxEvent N → OutboxEvent N
  failed_row count code now e = record e {
    status = if leb max_claims count then failed else pending;
    available_at = now + retry_delay e.retry_count;
    last_error_code = some (take 100 code);
  }

  -- `updateFailed`
  unfoldable pub update_failed : ℕ → ℕ → Text → ℕ → List (OutboxEvent N) → List (OutboxEvent N)
  update_failed id count code now = update_where (is_held id) (failed_row count code now)
