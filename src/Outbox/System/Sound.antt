-- ===== src/Outbox/System/Sound.antt =====
-- The invariant of the outbox under every interleaving of dispatchers.
use mathlib.Core.List.{Memᴰ}
use sentriqora.Base.{ℕ, ◌≤◌, ◌≡◌, none, some, List, All, Agrees}
use sentriqora.Outbox.Jobs.{Zod, Queues, Route, route}
use sentriqora.Outbox.Store.{
  Status, pending, processing, published, failed, OutboxEvent, Claimed, max_claims,
}
use sentriqora.Outbox.System.{System}

-- A claim tells the type and the payload of its row, and a count that the row has reached.
pub record IsClaim {N : Type 0} (g : ℕ → OutboxEvent N) (c : Claimed N) : Type 0 where
  pub event_type : c.event_type ≡ (g c.id).event_type
  pub payload : c.payload ≡ (g c.id).payload
  pub count : c.retry_count ≤ (g c.id).retry_count

module _ {N : Type 0} (zod : Zod N) (queues : Queues) where
  abbrev pub IsDelivered : List (Route N) → OutboxEvent N → Type 0
  IsDelivered added e =
      (t : Route N) × (route zod queues e.event_type e.payload ≡ some t) × Memᴰ t added

  -- What a row may look like in each status.
  abbrev pub Fits : List (Route N) → OutboxEvent N → Status → Type 0
  Fits added e pending = (e.published_at ≡ none) × (e.retry_count ≤ max_claims)
  Fits added e processing = (e.published_at ≡ none) × (e.retry_count ≤ max_claims)
  Fits added e published =
      ((t : ℕ) × (e.published_at ≡ some t)) × (e.retry_count ≤ max_claims) × IsDelivered added e
  Fits added e failed = (e.published_at ≡ none) × (e.retry_count ≡ max_claims)

  abbrev pub Row : List (Route N) → OutboxEvent N → Type 0
  Row added e = Fits added e e.status

  -- `row` is the table as a function of the key.
  pub record IsSound (s : System N) : Type 0 where
    pub row : ℕ → OutboxEvent N
    pub keyed : Agrees (λ (e : OutboxEvent N). e.id) row s.rows
    pub fits : All (Row s.added) s.rows
    pub claims : All (IsClaim row) s.in_flight
