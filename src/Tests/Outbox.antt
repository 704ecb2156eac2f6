-- ===== src/Tests/Outbox.antt =====
-- The outbox dispatcher on a table with one notification event.
use mathlib.Core.List.{Memᴰ}
use sentriqora.Base.{
  ℕ, ◌≡◌, ◌≤◌, ◌⊎◌, refl, Bool, true, false, Option, none, some, List, [], ◌∷◌, All, Text, units,
  length, update_where,
}
use sentriqora.Base.Json.{Json, num, str, obj, field, end}
use sentriqora.Outbox.Jobs.{Zod, Queues, route, route_job, sla_incident, response}
use sentriqora.Outbox.Producers.{produced, producers_route}
use sentriqora.Outbox.Store.{
  Status, pending, processing, published, failed, OutboxEvent, Claimed, max_claims, batch_size,
  is_candidate, precedes, candidates, claim, update_published, update_failed,
}
use sentriqora.Outbox.Store
use sentriqora.Outbox.Store.Order.{candidates_oldest_first}
use sentriqora.Outbox.Dispatcher.{Answers, publish, go_on, publish_all, dispatch, release, poll}
use sentriqora.Outbox.System.{
  System, IsNew, Reach, insert, claim_batch, publish_claim, here, next, empty, after_claim,
  after_publish,
}
use sentriqora.Outbox.System.Sound.{IsDelivered}
use sentriqora.Outbox.System.Guarantees.{
  IsFrom, published-IsDelivered, published_at_iff, claim_sound, claim_keeps_rest,
}
use sentriqora.Outbox.System.Claims.{claims_of, retry_budget}
use sentriqora.Outbox.System.Polls.{idle, poll-Reach}

-- A stand-in for the validation library: a text names the UUID that is its first code unit.
first_unit : Text → Option ℕ
first_unit [] = none
first_unit (c ∷ _) = some c

one_unit : ℕ → Text
one_unit n = n ∷ []

same_number : Json ℕ → Option ℕ
same_number (num n) = some n
same_number _ = none

abbrev zod : Zod ℕ
zod = record { uuid = first_unit; positive_int = λ n. some n; percent = same_number }

abbrev queues : Queues
queues = record { detection = true; incident = true; notification = true; knowledge = false }

abbrev request : OutboxEvent ℕ
request = record {
  id = 7;
  event_type = "notification.requested.v1";
  payload = obj (
      field (units "notificationId") (str (units "n"))
        (field (units "organizationId") (str (units "o")) end));
  status = pending;
  occurred_at = 1000;
  available_at = 1000;
  published_at = none;
  retry_count = 0;
  last_error_code = none;
}

abbrev calm : Answers
calm = record { at = 2500; add_error = none; mark_error = none; fail_error = none }

abbrev broken : Answers
broken = record {
  at = 2500;
  add_error = some (units "Error");
  mark_error = none;
  fail_error = none;
}

abbrev free : ℕ → Bool
free _ = false

abbrev started : System ℕ
started = record (empty ℕ) { rows = request ∷ [] }

abbrev claimed : Claimed ℕ
claimed = record {
  id = 7;
  event_type = request.event_type;
  payload = request.payload;
  retry_count = 1;
}

claimed_once : (claim free 2000 (request ∷ [])).0 ≡ claimed ∷ []
unfolding claim Store.returning Store.candidates Store.ordered_candidates Store.is_candidate
    Store.insert_ordered
claimed_once = refl

abbrev after : System ℕ
after = after_publish zod queues calm claimed (after_claim zod queues free 2000 started)

IsNew-request : IsNew request (empty ℕ)
IsNew-request = record {
  status = refl;
  unpublished = refl;
  count = refl;
  fresh_row = tt;
  fresh_claim = tt;
}

claimed_there : Memᴰ claimed (after_claim zod queues free 2000 started).in_flight
claimed_there = rw claimed_once (Memᴰ.head refl)

reached : Reach zod queues (empty ℕ) after
reached =
    next (next (next here (insert request IsNew-request)) (claim_batch free 2000))
      (publish_claim calm claimed claimed_there)

started_reached : Reach zod queues (empty ℕ) started
started_reached = next here (insert request IsNew-request)

published-IsDelivered_example :
    All (λ e. e.status ≡ published → IsDelivered zod queues after.added e) after.rows
published-IsDelivered_example = published-IsDelivered zod queues reached

retry_budget_example :
    All
      (λ e.
        (claims_of e.id after.in_flight ≤ 10)
        × (e.status ≡ failed → claims_of e.id after.in_flight ≡ 10))
      after.rows
retry_budget_example = retry_budget zod queues reached

published_at_iff_example :
    All
      (λ e.
        (e.status ≡ published → (t : ℕ) × (e.published_at ≡ some t))
        × ((t : ℕ) → e.published_at ≡ some t → e.status ≡ published))
      after.rows
published_at_iff_example = published_at_iff zod queues reached

claim_sound_example :
    All (IsFrom zod queues started_reached free 2000 started.rows) (claim free 2000 started.rows).0
claim_sound_example = claim_sound zod queues started_reached free 2000

too_early : is_candidate free 500 request ≡ false
unfolding is_candidate
too_early = refl

claim_keeps_rest_example : Memᴰ request (claim free 500 started.rows).1
claim_keeps_rest_example =
    claim_keeps_rest zod queues started_reached free 500 request (Memᴰ.head refl) too_early

due : is_candidate free 2000 request ≡ true
unfolding is_candidate
due = refl

candidates_oldest_first_example :
    Memᴰ request (candidates free 2000 started.rows)
    ⊎ (length (candidates free 2000 started.rows) ≡ batch_size)
      × All (λ c. precedes c request ≡ true) (candidates free 2000 started.rows)
candidates_oldest_first_example =
    candidates_oldest_first free 2000 started.rows request (Memᴰ.head refl) due

poll-Reach_example :
    (flight : List (Claimed ℕ)) × Reach zod queues started (record {
      rows = (poll zod queues (λ _. broken) none free 2000 (idle started)).rows;
      added = (poll zod queues (λ _. broken) none free 2000 (idle started)).added;
      in_flight = flight;
    })
poll-Reach_example = poll-Reach zod queues (λ _. broken) none free 2000 started

-- A calm poll publishes the event, and one whose queue refuses it puts it back with a delay.
poll_runs :
    ((poll zod queues (λ _. calm) none free 2000 (idle started)).rows
      ≡ record request {
        status = published;
        retry_count = 1;
        available_at = 62000;
        published_at = some 2500;
      }
        ∷ [])
    × ((poll zod queues (λ _. broken) none free 2000 (idle started)).rows
        ≡ record request {
          retry_count = 1;
          available_at = 4500;
          last_error_code = some (units "Error");
        }
          ∷ [])
unfolding poll dispatch release go_on publish_all publish claim Store.returning Store.candidates
    Store.ordered_candidates Store.is_candidate Store.insert_ordered route update_published
    update_failed first_unit update_where Store.retry_delay
poll_runs = (refl, refl)

reads : (n : ℕ) → zod.uuid (one_unit n) ≡ some n
unfolding first_unit one_unit
reads n = refl

producers_route_example :
    route zod queues
      (produced one_unit zod queues reads 3 2000 2500 4 2 (sla_incident 9 response 1)).event_type
      (produced one_unit zod queues reads 3 2000 2500 4 2 (sla_incident 9 response 1)).payload
    ≡ some (route_job queues (sla_incident 9 response 1))
producers_route_example =
    producers_route one_unit zod queues reads 3 2000 2500 4 2 (sla_incident 9 response 1) tt
