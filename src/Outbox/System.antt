-- ===== src/Outbox/System.antt =====
-- Several dispatchers on one `outbox_events` table, as interleavings of their transactions. A
-- dispatcher that stops between two of them just takes no further step.
pub mod Sound
pub mod Keeps
pub mod Guarantees
pub mod Claims
pub mod Polls
use sentriqora.Base.{ℕ, Bool, true, ◌≡◌, ◌≢◌, none, List, [], ◌∷◌, ◌++◌, All}
use mathlib.Core.List.{Memᴰ}
use sentriqora.Outbox.Jobs.{Zod, Queues, Route}
use sentriqora.Outbox.Store.{OutboxEvent, Claimed, pending, claim}
use sentriqora.Outbox.Dispatcher.{Answers, Worker, publish}

-- `in_flight` holds every claim that some dispatcher has been given.
pub record System (N : Type 0) : Type 0 where
  pub rows : List (OutboxEvent N)
  pub added : List (Route N)
  pub in_flight : List (Claimed N)

-- A row as the rest of the program inserts it.
pub record IsNew {N : Type 0} (e : OutboxEvent N) (s : System N) : Type 0 where
  pub status : e.status ≡ pending
  pub unpublished : e.published_at ≡ none
  pub count : e.retry_count ≡ 0
  pub fresh_row : All (λ r. r.id ≢ e.id) s.rows
  pub fresh_claim : All (λ c. c.id ≢ e.id) s.in_flight

module _ {N : Type 0} (zod : Zod N) (queues : Queues) where
  abbrev pub worker_of : System N → Worker N
  worker_of s = record { rows = s.rows; added = s.added; polling = true }

  abbrev pub with_worker : System N → Worker N → System N
  with_worker s w = record { rows = w.rows; added = w.added; in_flight = s.in_flight }

  abbrev pub after_claim : (ℕ → Bool) → ℕ → System N → System N
  after_claim locked now s = record s {
    rows = (claim locked now s.rows).1;
    in_flight = (claim locked now s.rows).0 ++ s.in_flight;
  }

  abbrev pub after_publish : Answers → Claimed N → System N → System N
  after_publish answers event s = with_worker s (publish zod queues answers event (worker_of s)).1

  pub data Step (s : System N) : System N → Type 0 where
    insert : (e : OutboxEvent N) → IsNew e s → Step s (record s { rows = e ∷ s.rows })
    claim_batch : (locked : ℕ → Bool) (now : ℕ) → Step s (after_claim locked now s)
    publish_claim :
        (answers : Answers) (event : Claimed N)
        → Memᴰ event s.in_flight
        → Step s (after_publish answers event s)

  pub data Reach (s : System N) : System N → Type 0 where
    here : Reach s s
    next : {t u : System N} → Reach s t → Step t u → Reach s u

abbrev pub empty : (N : Type 0) → System N
empty N = record { rows = []; added = []; in_flight = [] }
