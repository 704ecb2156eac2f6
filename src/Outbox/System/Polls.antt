-- ===== src/Outbox/System/Polls.antt =====
-- One call of `poll` as a run of the system.
use mathlib.Core.List.{Memᴰ}
use mathlib.Core.List.Memᴰ as Memᴰ
use sentriqora.Base.{
  ℕ, ◌≡◌, refl, sym, subst, Bool, true, false, List, [], ◌∷◌, All, All-map, Text, Result, ok, err,
  Option, none, some, arith, ◌∙◌,
}
use sentriqora.Outbox.Jobs.{Zod, Queues}
use sentriqora.Outbox.Store.{Claimed, claim}
use sentriqora.Outbox.Dispatcher.{
  Answers, Worker, publish, publish_all, go_on, dispatch, release, poll,
}
use sentriqora.Outbox.System.{
  System, with_worker, worker_of, after_claim, claim_batch, publish_claim, Reach, here, next,
}

members : {A : Type 0} (xs : List A) → All (λ x. Memᴰ x xs) xs
members [] = tt
members (x ∷ xs) = (Memᴰ.head refl, All-map _ _ xs (λ y m. Memᴰ.tail m) (members xs))

-- a dispatcher that is not polling
abbrev pub idle : {N : Type 0} → System N → Worker N
idle s = record { rows = s.rows; added = s.added; polling = false }

module _ {N : Type 0} (zod : Zod N) (queues : Queues) (answers : ℕ → Answers) where
  Reach_trans :
      {s t u : System N} → Reach zod queues s t → Reach zod queues t u → Reach zod queues s u
  Reach_trans r here = r
  Reach_trans r (next q st) = next (Reach_trans r q) st

  publish-polling :
      (a : Answers) (c : Claimed N) (w : Worker N)
      → (publish zod queues a c w).1.polling ≡ w.polling
  unfolding publish
  publish-polling a c w = ground arith

  abbrev Leads : System N → Worker N → Worker N → Type 0
  Leads s v w = Reach zod queues (with_worker zod queues s v) (with_worker zod queues s w)

  publish-Leads :
      (s : System N) (w : Worker N) (c : Claimed N)
      → w.polling ≡ true
      → Memᴰ c s.in_flight
      → Leads s w (publish zod queues (answers c.id) c w).1
  publish-Leads s w c on m =
      let same : worker_of zod queues (with_worker zod queues s w) ≡ w =
        λ i. record { rows = w.rows; added = w.added; polling = sym on i } in
      subst (λ v. Leads s w (publish zod queues (answers c.id) c v).1) same
        (next here (publish_claim (answers c.id) c m))

  go_on-Leads :
      (s : System N) (v : Worker N) (rest : Worker N → Result Text (Unit {0}) × Worker N)
      (r : Result Text (Unit {0}) × Worker N)
      → r.1.polling ≡ true
      → ((w : Worker N) → w.polling ≡ true → Leads s w (rest w).1)
      → Leads s v r.1
      → Leads s v (go_on zod queues r rest).1
  unfolding go_on
  go_on-Leads s v rest (ok u, w) on more first = Reach_trans first (more w on)
  go_on-Leads s v rest (err e, w) on more first = first

  publish_all-Leads :
      (events : List (Claimed N)) (s : System N) (w : Worker N)
      → w.polling ≡ true
      → All (λ c. Memᴰ c s.in_flight) events
      → Leads s w (publish_all zod queues answers events w).1
  unfolding publish_all
  publish_all-Leads [] s w on h = here
  publish_all-Leads (c ∷ cs) s w on (m, ms) =
      go_on-Leads s w (publish_all zod queues answers cs) (publish zod queues (answers c.id) c w)
        (publish-polling (answers c.id) c w ∙ on) (λ v on'. publish_all-Leads cs s v on' ms)
        (publish-Leads s w c on m)

  release-Leads :
      (s t : System N) (r : Result Text (Unit {0}) × Worker N)
      → Reach zod queues t (with_worker zod queues s r.1)
      → Reach zod queues t (with_worker zod queues s (release zod queues r))
  unfolding release
  release-Leads s t (ok u, w) h = h
  release-Leads s t (err e, w) h = h

  -- One call of `poll` is a run of the interleaved system: whatever fails in it, the table and the
  -- queues that it leaves are reached by a claim and by publishing events that it has claimed.
  pub poll-Reach :
      (claim_error : Option Text) (locked : ℕ → Bool) (now : ℕ) (s : System N)
      → (flight : List (Claimed N)) × Reach zod queues s (record {
        rows = (poll zod queues answers claim_error locked now (idle s)).rows;
        added = (poll zod queues answers claim_error locked now (idle s)).added;
        in_flight = flight;
      })
  unfolding poll dispatch release
  poll-Reach (some e) locked now s = (s.in_flight, here)
  poll-Reach none locked now s =
      let events = (claim locked now s.rows).0 in
      let claimed : System N = after_claim zod queues locked now s in
      let w : Worker N = record (idle s) { rows = claimed.rows; polling = true } in
      (
        claimed.in_flight,
        release-Leads claimed s (publish_all zod queues answers events w) (
            Reach_trans (next here (claim_batch locked now)) (
              publish_all-Leads events claimed w refl
                (All-map _ _ events (λ c m. Memᴰ.append_left s.in_flight m) (members events)))),
      )
