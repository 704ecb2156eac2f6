-- ===== src/Notifications/Attempts.antt =====
-- What histories of requests and deliveries leave in the table, and what a repeated request does.
use sentriqora.Base.{
  ℕ, ◌≡◌, ◌⊎◌, inl, inr, refl, sym, ap, subst, true, none, some, [], ◌∷◌, ◌++◌, Text, find_first,
  update_where-All, All, All-append, arith, Option-cases,
}
use sentriqora.Outbox.Producers.{notification_requested}
use sentriqora.Incidents.Store.{
  Db, Notification, NotificationKey, pending, sent, has_key, create_notification,
  request_notification,
}
use sentriqora.Notifications.Delivery.{Post, Answers, is_sent, is_notification, mark_sent, process}
use sentriqora.Notifications.Once.{is_unsent, IsRepeat, process_rows, process_sent}

-- Not tried, or delivered at the first attempt.
abbrev pub IsClean : Notification → Type 0
IsClean n =
    (n.status ≡ pending) × (n.attempt_count ≡ 0) × (n.sent_at ≡ none) × (n.last_error_code ≡ none)
    ⊎ (n.status ≡ sent)
      × (n.attempt_count ≡ 1)
      × ((t : ℕ) × (n.sent_at ≡ some t))
      × (n.last_error_code ≡ none)

mark_sent-IsClean :
    (now organization id : ℕ) (n : Notification)
    → is_unsent organization id n ≡ true
    → IsClean n
    → IsClean (mark_sent now n)
unfolding mark_sent
mark_sent-IsClean now organization id n hit (inl (_, zero, _, _)) =
    inr (refl, omega (arith, zero), (now, refl), refl)
mark_sent-IsClean now organization id n hit (inr (done, _, _, _)) =
    absurd (ground (arith, hit, done))

module _ {N : Type 0} (uuid_text : ℕ → Text) where
  -- Requests to notify and jobs that deliver, in any order and with any errors.
  pub data History : Post N → Type 0 where
    fresh : (p : Post N) → p.db.notifications ≡ [] → History p
    requested :
        {p : Post N} (now organization : ℕ) (title : Text) (key : NotificationKey)
        → History p
        → History (record p { db = create_notification uuid_text now organization title key p.db })
    processed :
        {p : Post N} (answers : Answers) (now organization id : ℕ)
        → History p
        → History (process answers now organization id p).1

  requested-IsClean :
      (now organization : ℕ) (title : Text) (key : NotificationKey) (db : Db N)
      → All IsClean db.notifications
      → All IsClean (create_notification uuid_text now organization title key db).notifications
  unfolding create_notification
  requested-IsClean now organization title key db h =
      elim (Option-cases (find_first (has_key organization key) db.notifications)) [
        | inl missing ↦
            rw (missing, create_notification)
              (All-append IsClean db.notifications _ h (inl (refl, refl, refl, refl), tt))
        | inr (n, found) ↦ rw (found, create_notification) h
      ]

  -- In every history of requests and deliveries, whatever fails in them, no notification is FAILED,
  -- none has an error code or more than one attempt, and the attempt is counted exactly when it is sent.
  pub History-IsClean : {p : Post N} → History p → All IsClean p.db.notifications
  History-IsClean (fresh p empty) = subst (All IsClean) (sym empty) tt
  History-IsClean (requested {p = p} now organization title key before) =
      requested-IsClean now organization title key p.db (History-IsClean before)
  History-IsClean (processed {p = p} answers now organization id before) =
      elim (process_rows organization id answers now p) [
        | inl same ↦ subst (All IsClean) (sym same) (History-IsClean before)
        | inr rows ↦ subst (All IsClean) (sym rows) (
            update_where-All IsClean IsClean (is_unsent organization id) (mark_sent now)
              p.db.notifications (λ n hit clean. mark_sent-IsClean now organization id n hit clean)
              (λ n clean. clean) (History-IsClean before))
      ]

  notifications-create_known :
      (now organization : ℕ) (title : Text) (key : NotificationKey) (db : Db N) (n : Notification)
      → find_first (has_key organization key) db.notifications ≡ some n
      → (create_notification uuid_text now organization title key db).notifications
        ≡ db.notifications
  unfolding create_notification
  notifications-create_known now organization title key db n known = rw (known, create_notification)

  outbox-create_known :
      (now organization : ℕ) (title : Text) (key : NotificationKey) (db : Db N) (n : Notification)
      → find_first (has_key organization key) db.notifications ≡ some n
      → (create_notification uuid_text now organization title key db).outbox
        ≡ db.outbox ++ notification_requested uuid_text db.next_id now n.id organization ∷ []
  unfolding create_notification request_notification
  outbox-create_known now organization title key db n known = rw (known, create_notification)

  -- A request with the key of a notification that is sent adds no notification and asks, with one row
  -- of the outbox, for a job that delivers the notification that is there; and that job sends and
  -- writes nothing, whatever calls fail in it. So of two requests with the same type, incident, member,
  -- channel and body only the first is delivered.
  pub repeat_undelivered :
      (answers : Answers) (now later organization : ℕ) (title : Text) (key : NotificationKey)
      (p : Post N) (n : Notification)
      → find_first (has_key organization key) p.db.notifications ≡ some n
      → find_first (is_notification organization n.id) p.db.notifications ≡ some n
      → n.status ≡ sent
      → ((create_notification uuid_text now organization title key p.db).outbox
          ≡ p.db.outbox ++ notification_requested uuid_text p.db.next_id now n.id organization ∷ [])
        × ((create_notification uuid_text now organization title key p.db).notifications
            ≡ p.db.notifications)
        × IsRepeat answers
            (process answers later organization n.id
              (record p { db = create_notification uuid_text now organization title key p.db }))
            (record p { db = create_notification uuid_text now organization title key p.db })
  repeat_undelivered answers now later organization title key p n known found done =
      let kept = notifications-create_known now organization title key p.db n known in
      (
        outbox-create_known now organization title key p.db n known,
        kept,
        process_sent organization n.id answers later
            (record p { db = create_notification uuid_text now organization title key p.db }) n
            (subst (λ rows. find_first (is_notification organization n.id) rows ≡ some n) (sym kept)
              found)
            (ap is_sent done),
      )
