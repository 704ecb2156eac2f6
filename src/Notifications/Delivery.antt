-- ===== src/Notifications/Delivery.antt =====
-- `NotificationProcessor.process` of apps/worker/src/notification.processor.ts inside
-- `withTenantTransaction` of apps/worker/src/database.ts. A rollback undoes what was written to the
-- database; a message that was sent stays sent. Errors are their names.
use sentriqora.Base.{
  ℕ, ◌+◌, Bool, true, false, Option, none, some, List, [], ◌∷◌, ◌++◌, String, Text, units, Result,
  ok, err, ◌==◌, ◌&&◌, not, take, find_first, update_where, if◌then◌else◌,
}
use sentriqora.Incidents.Store.{
  Db, Membership, Notification, NotificationStatus, sent, failed, Channel, internal, email,
  notification_sent, notification_key, add_timeline_once, is_channel,
}

-- What the adapter is asked to send.
pub record Mail : Type 0 where
  pub recipient : Text
  pub subject : Text
  pub text : Text

pub record Post (N : Type 0) : Type 0 where
  pub db : Db N
  pub mails : List Mail

-- The error that each call throws, if it throws: up to the first SELECT (begin_error), from the message
-- on, and in the COMMIT, which is then taken to have rolled back.
pub record Answers : Type 0 where
  pub begin_error : Option Text
  pub send_error : Option Text
  pub sent_error : Option Text
  pub timeline_error : Option Text
  pub failed_error : Option Text
  pub commit_error : Option Text

abbrev pub is_sent : NotificationStatus → Bool
is_sent sent = true
is_sent _ = false

abbrev pub channel_name : Channel → String
channel_name internal = "INTERNAL"
channel_name email = "EMAIL"

-- WHERE organization_id = … AND id = …
abbrev pub is_notification : ℕ → ℕ → Notification → Bool
is_notification organization id n = n.organization_id == organization && n.id == id

abbrev is_recipient : ℕ → ℕ → Membership → Bool
is_recipient organization id m = m.id == id && m.organization_id == organization

abbrev address : Option Membership → Option Text
address none = none
address (some m) = some m.email

-- The updates of the two outcomes.
unfoldable pub mark_sent : ℕ → Notification → Notification
mark_sent now n = record n {
  status = sent;
  attempt_count = n.attempt_count + 1;
  sent_at = some now;
  last_error_code = none;
}

unfoldable pub mark_failed : Text → Notification → Notification
mark_failed code n = record n {
  status = failed;
  attempt_count = n.attempt_count + 1;
  last_error_code = some (take 100 code);
}

missing_recipient : Text
missing_recipient = units "Error"

module _ {N : Type 0} where
  -- the LEFT JOINs
  unfoldable pub recipient_email : Notification → Db N → Option Text
  recipient_email n db = elim n.recipient_membership_id [
    | none ↦ none
    | some id ↦ address (find_first (is_recipient n.organization_id id) db.memberships)
  ]

  -- COMMIT
  unfoldable pub commit {ℓ} :
      {A : Type ℓ} → Answers → Result Text A × Post N → Result Text A × Post N
  commit answers (err e, p) = (err e, p)
  commit answers (ok result, p) = elim answers.commit_error [
    | some e ↦ (err e, p)
    | none ↦ (ok result, p)
  ]

  -- The statements under `try`.
  unfoldable pub attempt {ℓ} :
      {A : Type ℓ} → Answers → (Post N → Result Text A × Post N) → Post N → Result Text A × Post N
  attempt answers operation p = elim answers.begin_error [
    | some e ↦ (err e, p)
    | none ↦ commit answers (operation p)
  ]

  -- The result, or ROLLBACK and the same error
  unfoldable pub finish {ℓ} : {A : Type ℓ} → Db N → Result Text A × Post N → Result Text A × Post N
  finish before (ok result, p) = (ok result, p)
  finish before (err e, p) = (err e, record p { db = before })

  -- `withTenantTransaction`
  unfoldable pub with_tenant_transaction {ℓ} :
      {A : Type ℓ} → Answers → (Post N → Result Text A × Post N) → Post N → Result Text A × Post N
  with_tenant_transaction answers operation p = finish p.db (attempt answers operation p)

  unfoldable pub send : Answers → Notification → Text → Post N → Result Text (Unit {0}) × Post N
  send answers n recipient p = elim answers.send_error [
    | some e ↦ (err e, p)
    | none ↦ (
      ok tt,
      record p {
        mails = p.mails ++ record { recipient = recipient; subject = n.title; text = n.body } ∷ [];
      },
    )
  ]

  unfoldable pub send_on_channel : Answers → Notification → Post N → Result Text (Unit {0}) × Post N
  unfolding send missing_recipient recipient_email
  send_on_channel answers n p =
      if is_channel n.channel email
      then elim (recipient_email n p.db) [
        | none ↦ (err missing_recipient, p)
        | some recipient ↦ send answers n recipient p
      ]
      else (ok tt, p)

  note_delivery : Notification → ℕ → Db N → Db N
  note_delivery n organization db = elim n.incident_id [
    | none ↦ db
    | some incident ↦
        add_timeline_once (notification_key n.id)
          (record {
            organization_id = organization;
            incident_id = incident;
            actor_user_id = none;
            type = notification_sent;
            title = units "Notification delivered";
            detail = units (channel_name n.channel) ++ (units " " ++ units n.type);
            from_status = none;
            to_status = none;
            idempotency_key = none;
          })
          db
  ]

  -- The statements of the `try` after the message is sent.
  unfoldable pub record_sent :
      Answers → ℕ → ℕ → ℕ → Notification → Post N → Result Text Bool × Post N
  unfolding note_delivery
  record_sent answers now organization id n p = elim answers.sent_error [
    | some e ↦ (err e, p)
    | none ↦
        (let marked : Db N = record p.db {
          notifications =
              update_where (λ m. is_notification organization id m && not (is_sent m.status))
                (mark_sent now) p.db.notifications;
        } in
          elim answers.timeline_error [
            | some e ↦ (err e, record p { db = marked })
            | none ↦ (ok true, record p { db = note_delivery n organization marked })
          ])
  ]

  -- The `catch`, which throws again.
  unfoldable pub record_failed : Answers → ℕ → ℕ → Text → Post N → Result Text Bool × Post N
  record_failed answers organization id code p = elim answers.failed_error [
    | some e ↦ (err e, p)
    | none ↦ (
      err code,
      record p {
        db = record p.db {
          notifications =
              update_where (is_notification organization id) (mark_failed code) p.db.notifications;
        };
      },
    )
  ]

  unfoldable pub or_record_failed :
      Answers → ℕ → ℕ → Result Text Bool × Post N → Result Text Bool × Post N
  unfolding record_failed
  or_record_failed answers organization id (ok result, p) = (ok result, p)
  or_record_failed answers organization id (err e, p) = record_failed answers organization id e p

  unfoldable pub and_record_sent :
      Answers
      → ℕ
      → ℕ
      → ℕ
      → Notification
      → Result Text (Unit {0}) × Post N
      → Result Text Bool × Post N
  unfolding record_sent
  and_record_sent answers now organization id n (ok _, p) =
      record_sent answers now organization id n p
  and_record_sent answers now organization id n (err e, p) = (err e, p)

  -- The body of the transaction.
  unfoldable pub deliver : Answers → (now organization id : ℕ) → Post N → Result Text Bool × Post N
  deliver answers now organization id p =
      elim (find_first (is_notification organization id) p.db.notifications) [
        | none ↦ (ok false, p)
        | some n ↦
            (if is_sent n.status
              then (ok true, p)
              else or_record_failed answers organization id
                  (and_record_sent answers now organization id n (send_on_channel answers n p)))
      ]

  -- `process`: the flag is `delivered`
  unfoldable pub process : Answers → (now organization id : ℕ) → Post N → Result Text Bool × Post N
  process answers now organization id p =
      with_tenant_transaction answers (deliver answers now organization id) p
