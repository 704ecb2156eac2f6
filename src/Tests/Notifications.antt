-- ===== src/Tests/Notifications.antt =====
-- Deliveries of one message.
use sentriqora.Base.{
  ℕ, ◌≡◌, refl, true, none, some, [], ◌∷◌, ◌++◌, Text, units, ok, find_first, update_where, All,
  text_eq,
}
use sentriqora.Outbox.Producers.{notification_requested}
use sentriqora.Incidents.Store.{
  Membership, active, Notification, NotificationKey, sent, email, has_key, create_notification,
  add_timeline_once,
}
use sentriqora.Notifications.Delivery.{
  Post, Answers, is_notification, mark_sent, process, deliver, with_tenant_transaction, attempt,
  commit, finish, send_on_channel, or_record_failed, and_record_sent,
}
use sentriqora.Notifications.Once.{IsRepeat, process_once}
use sentriqora.Notifications.Attempts.{
  IsClean, History, fresh, requested, processed, History-IsClean, repeat_undelivered,
}

abbrev member : Membership
member = record { id = 5; organization_id = 1; status = active; email = units "a@b.c" }

abbrev post : Post ℕ
post = record {
  db = record {
    incidents = [];
    memberships = member ∷ [];
    timeline = [];
    notifications = [];
    outbox = [];
    audits = [];
    next_id = 10;
  };
  mails = [];
}

abbrev key : NotificationKey
key = record {
  type = "INCIDENT_ASSIGNED";
  incident_id = 4;
  recipient_membership_id = some 5;
  channel = email;
  body = units "INC-1: Leak";
}

abbrev uuid_text : ℕ → Text
uuid_text n = n ∷ []

abbrev asked : Post ℕ
asked = record post {
  db = create_notification uuid_text 100 1 (units "Incident assigned to you") key post.db;
}

abbrev calm : Answers
calm = record {
  begin_error = none;
  send_error = none;
  sent_error = none;
  timeline_error = none;
  failed_error = none;
  commit_error = none;
}

abbrev broken : Answers
broken = record calm { send_error = some (units "TimeoutError") }

abbrev told : Post ℕ
told = (process calm 200 1 10 asked).1

abbrev untold : Post ℕ
untold = (process broken 200 1 10 asked).1

delivers : process calm 200 1 10 asked ≡ (ok true, told)
unfolding process with_tenant_transaction attempt commit deliver finish send_on_channel
    or_record_failed and_record_sent create_notification find_first update_where add_timeline_once
delivers = refl

process_once_example : IsRepeat broken (process broken 300 1 10 told) told
process_once_example = process_once 1 10 calm 200 asked told delivers broken 300

history : History uuid_text untold
history =
    processed broken 200 1 10
      (requested 100 1 (units "Incident assigned to you") key (fresh post refl))

History-IsClean_example : All IsClean untold.db.notifications
History-IsClean_example = History-IsClean uuid_text history

abbrev row : Notification
row = record {
  id = 10;
  organization_id = 1;
  incident_id = some 4;
  recipient_membership_id = some 5;
  channel = email;
  type = "INCIDENT_ASSIGNED";
  title = units "Incident assigned to you";
  body = units "INC-1: Leak";
  idempotency_key = key;
  status = sent;
  attempt_count = 1;
  sent_at = some 200;
  last_error_code = none;
}

known : find_first (has_key 1 key) told.db.notifications ≡ some row
unfolding process with_tenant_transaction attempt commit deliver finish send_on_channel
    or_record_failed and_record_sent create_notification find_first update_where add_timeline_once
    text_eq mark_sent
known = refl

by_id : find_first (is_notification 1 10) told.db.notifications ≡ some row
unfolding process with_tenant_transaction attempt commit deliver finish send_on_channel
    or_record_failed and_record_sent create_notification find_first update_where add_timeline_once
    mark_sent
by_id = refl

abbrev asked_again : Post ℕ
asked_again = record told {
  db = create_notification uuid_text 900 1 (units "Incident assigned to you") key told.db;
}

repeat_undelivered_example :
    (asked_again.db.outbox
      ≡ told.db.outbox ++ notification_requested uuid_text told.db.next_id 900 10 1 ∷ [])
    × (asked_again.db.notifications ≡ told.db.notifications)
    × IsRepeat calm (process calm 950 1 10 asked_again) asked_again
repeat_undelivered_example =
    repeat_undelivered uuid_text calm 900 950 1 (units "Incident assigned to you") key told row
      known by_id refl
