-- ===== src/Outbox/Dispatcher.antt =====
-- `publish` and `poll` of `OutboxDispatcher` (apps/worker/src/outbox-dispatcher.ts).
use sentriqora.Base.{
  ℕ, Bool, true, false, Option, none, some, List, [], ◌∷◌, ◌++◌, Text, units, Result, ok, err,
  if◌then◌else◌,
}
use sentriqora.Outbox.Jobs.{Zod, Queues, Route, route}
use sentriqora.Outbox.Store.{OutboxEvent, Claimed, claim, update_published, update_failed}

-- What the services answer while one event is published: the time, and the name of the error that
-- `queue.add`, `updatePublished` or `updateFailed` throws.
pub record Answers : Type 0 where
  pub at : ℕ
  pub add_error : Option Text
  pub mark_error : Option Text
  pub fail_error : Option Text

-- The table, the routes whose `queue.add` has returned, and the flag that `poll` guards itself by.
pub record Worker (N : Type 0) : Type 0 where
  pub rows : List (OutboxEvent N)
  pub added : List (Route N)
  pub polling : Bool

-- `errorName` of what `route` throws when a payload fits no schema
abbrev pub schema_error : Text
schema_error = units "ZodError"

module _ {N : Type 0} (zod : Zod N) (queues : Queues) where
  -- `catch`: the failure is written, unless that throws too
  unfoldable pub settle_failure :
      Answers → Claimed N → Text → Worker N → Result Text (Unit {0}) × Worker N
  settle_failure answers event code w = elim answers.fail_error [
    | some e ↦ (err e, w)
    | none ↦
        (ok tt, record w { rows = update_failed event.id event.retry_count code answers.at w.rows })
  ]

  unfoldable pub mark : Answers → Claimed N → Worker N → Result Text (Unit {0}) × Worker N
  unfolding settle_failure
  mark answers event w = elim answers.mark_error [
    | some e ↦ settle_failure answers event e w
    | none ↦ (ok tt, record w { rows = update_published event.id answers.at w.rows })
  ]

  unfoldable pub enqueue :
      Answers → Claimed N → Route N → Worker N → Result Text (Unit {0}) × Worker N
  unfolding settle_failure mark
  enqueue answers event target w = elim answers.add_error [
    | some e ↦ settle_failure answers event e w
    | none ↦ mark answers event (record w { added = w.added ++ target ∷ [] })
  ]

  -- `publish`
  unfoldable pub publish : Answers → Claimed N → Worker N → Result Text (Unit {0}) × Worker N
  unfolding settle_failure enqueue
  publish answers event w = elim (route zod queues event.event_type event.payload) [
    | none ↦ settle_failure answers event schema_error w
    | some target ↦ enqueue answers event target w
  ]

  -- The statements after one that may throw.
  unfoldable pub go_on :
      Result Text (Unit {0}) × Worker N
      → (Worker N → Result Text (Unit {0}) × Worker N)
      → Result Text (Unit {0}) × Worker N
  go_on (ok _, w) next = next w
  go_on (err e, w) next = (err e, w)

  -- The loop of `poll`: what `publish` throws ends it.
  unfoldable pub publish_all :
      (ℕ → Answers) → List (Claimed N) → Worker N → Result Text (Unit {0}) × Worker N
  unfolding go_on
  publish_all answers [] w = (ok tt, w)
  publish_all answers (event ∷ events) w =
      go_on (publish (answers event.id) event w) (publish_all answers events)

  -- The statements under `try`. `claim_error` is what the claiming transaction throws: it rolls back.
  unfoldable pub dispatch :
      (ℕ → Answers) → Option Text → (ℕ → Bool) → ℕ → Worker N → Result Text (Unit {0}) × Worker N
  dispatch answers claim_error locked now w = elim claim_error [
    | some e ↦ (err e, w)
    | none ↦
        (let (events, rows) = claim locked now w.rows in
          publish_all answers events (record w { rows = rows }))
  ]

  -- `finally`, after the `catch` that logs an error
  unfoldable pub release : Result Text (Unit {0}) × Worker N → Worker N
  release (ok _, w) = record w { polling = false }
  release (err _, w) = record w { polling = false }

  -- `poll`
  unfoldable pub poll : (ℕ → Answers) → Option Text → (ℕ → Bool) → ℕ → Worker N → Worker N
  poll answers claim_error locked now w =
      if w.polling
      then w
      else release (dispatch answers claim_error locked now (record w { polling = true }))
