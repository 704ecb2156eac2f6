-- ===== src/Incidents/Store/Frames.antt =====
-- What the helpers leave alone: the incidents and the members.
use sentriqora.Base.{ℕ, ◌≡◌, refl, Text, arith}
use sentriqora.Incidents.Store.{
  Db, NotificationKey, TimelineKey, TimelineEntry, Audit, add_timeline, add_timeline_once,
  add_audit, create_notification,
}

module _ {N : Type 0} where
  pub incidents-add_timeline :
      (e : TimelineEntry) (db : Db N) → (add_timeline e db).incidents ≡ db.incidents
  unfolding add_timeline
  incidents-add_timeline e db = refl

  pub incidents-add_audit : (a : Audit) (db : Db N) → (add_audit a db).incidents ≡ db.incidents
  unfolding add_audit
  incidents-add_audit a db = refl

  pub incidents-add_timeline_once :
      (k : TimelineKey) (e : TimelineEntry) (db : Db N)
      → (add_timeline_once k e db).incidents ≡ db.incidents
  unfolding add_timeline_once
  incidents-add_timeline_once k e db = ground arith

  pub incidents-create_notification :
      (uuid_text : ℕ → Text) (now organization : ℕ) (title : Text) (key : NotificationKey)
      (db : Db N)
      → (create_notification uuid_text now organization title key db).incidents ≡ db.incidents
  unfolding create_notification
  incidents-create_notification uuid_text now organization title key db = ground arith

pub ruleset frames = (
  incidents-add_timeline, incidents-add_audit, incidents-add_timeline_once,
  incidents-create_notification,
)
