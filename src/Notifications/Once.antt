-- ===== src/Notifications/Once.antt =====
-- A notification is delivered once, and what a failed delivery leaves.
use sentriqora.Base.{
  ℕ, ◌≡◌, ◌⊎◌, inl, inr, refl, sym, ap, ◌∙◌, subst, Bool, true, false, Option, none, some, List, [],
  ◌∷◌, ◌++◌, Text, Result, ok, err, find_first, find_first-All, find_first-update_where,
  update_where, on_match, All, arith, ◌&&◌, not, Option-cases, Bool-cases,
}
use sentriqora.Incidents.Store.{Db, Notification, email, is_channel, add_timeline_once}
use sentriqora.Notifications.Delivery.{
  Mail, Post, Answers, is_sent, is_notification, mark_sent, recipient_email, finish,
  send_on_channel, record_sent, or_record_failed, and_record_sent, deliver, process, commit,
  attempt, with_tenant_transaction,
}

All-Unit : (rows : List Notification) → All (λ _. Unit {0}) rows
All-Unit [] = tt
All-Unit (n ∷ rows) = (tt, All-Unit rows)

abbrev mail_of : Notification → Text → Mail
mail_of n recipient = record { recipient = recipient; subject = n.title; text = n.body }

abbrev pub is_unsent : ℕ → ℕ → Notification → Bool
is_unsent organization id n = is_notification organization id n && not (is_sent n.status)

module _ {N : Type 0} (organization id : ℕ) where
  module _ (now : ℕ) where
    -- What a delivery that was not done before has done.
    pub record IsDelivery (p p' : Post N) (n : Notification) : Type 0 where
      pub found : find_first (is_notification organization id) p.db.notifications ≡ some n
      pub unsent : is_sent n.status ≡ false
      pub rows :
          p'.db.notifications
          ≡ update_where (is_unsent organization id) (mark_sent now) p.db.notifications
      pub mails :
          (is_channel n.channel email ≡ false) × (p'.mails ≡ p.mails)
          ⊎ (is_channel n.channel email ≡ true)
            × ((recipient : Text) × (recipient_email n p.db ≡ some recipient)
                × (p'.mails ≡ p.mails ++ mail_of n recipient ∷ []))

    sent_cases :
        (answers : Answers) (n : Notification) (p p' : Post N)
        → send_on_channel answers n p ≡ (ok tt, p')
        → (p'.db ≡ p.db)
          × ((is_channel n.channel email ≡ false) × (p'.mails ≡ p.mails)
              ⊎ (is_channel n.channel email ≡ true)
                × ((recipient : Text) × (recipient_email n p.db ≡ some recipient)
                    × (p'.mails ≡ p.mails ++ mail_of n recipient ∷ [])))
    unfolding send_on_channel
    sent_cases answers n p p' h = (ground arith, ground arith)

    recorded_cases :
        (answers : Answers) (n : Notification) (p p' : Post N)
        → record_sent answers now organization id n p ≡ (ok true, p')
        → (p'.db.notifications
            ≡ update_where (is_unsent organization id) (mark_sent now) p.db.notifications)
          × (p'.mails ≡ p.mails)
    unfolding record_sent add_timeline_once
    recorded_cases answers n p p' h = (ground arith, ground arith)

    not_failed :
        (answers : Answers) (out : Result Text Bool × Post N) (b : Bool) (p' : Post N)
        → or_record_failed answers organization id out ≡ (ok b, p')
        → out ≡ (ok b, p')
    unfolding or_record_failed
    not_failed answers (ok result, p) b p' h = h
    not_failed answers (err e, p) b p' h = absurd (ground arith)

    after_send :
        (answers : Answers) (n : Notification) (out : Result Text (Unit {0}) × Post N) (b : Bool)
        (p' : Post N)
        → and_record_sent answers now organization id n out ≡ (ok b, p')
        → (q : Post N) × (out ≡ (ok tt, q))
          × (record_sent answers now organization id n q ≡ (ok b, p'))
    unfolding and_record_sent
    after_send answers n (ok _, q) b p' h = (q, refl, h)
    after_send answers n (err e, q) b p' h = absurd (cc)

    delivered :
        (answers : Answers) (n : Notification) (p p' : Post N)
        → find_first (is_notification organization id) p.db.notifications ≡ some n
        → is_sent n.status ≡ false
        → or_record_failed answers organization id
            (and_record_sent answers now organization id n (send_on_channel answers n p))
          ≡ (ok true, p')
        → IsDelivery p p' n
    delivered answers n p p' found unsent h =
        let (q, sending, recording) =
          after_send answers n (send_on_channel answers n p) true p'
            (not_failed answers _ true p' h) in
        let (kept, mails) = sent_cases answers n p q sending in
        let (rows, same) = recorded_cases answers n q p' recording in
        record {
          found = found;
          unsent = unsent;
          rows =
              rows
              ∙ ap
                  (λ (d : Db N).
                    update_where (is_unsent organization id) (mark_sent now) d.notifications)
                  kept;
          mails = rw same mails;
        }

    deliver_unsent :
        (answers : Answers) (n : Notification) (p : Post N)
        → find_first (is_notification organization id) p.db.notifications ≡ some n
        → is_sent n.status ≡ false
        → deliver answers now organization id p
          ≡ or_record_failed answers organization id
              (and_record_sent answers now organization id n (send_on_channel answers n p))
    unfolding deliver
    deliver_unsent answers n p found unsent = rw (found, deliver) (rw unsent)

    pub deliver_cases :
        (answers : Answers) (p p' : Post N)
        → deliver answers now organization id p ≡ (ok true, p')
        → (p' ≡ p)
            × ((n : Notification) × (find_first (is_notification organization id) p.db.notifications
                  ≡ some n)
                × (is_sent n.status ≡ true))
          ⊎ ((n : Notification) × IsDelivery p p' n)
    unfolding deliver
    deliver_cases answers p p' h =
        elim (Option-cases (find_first (is_notification organization id) p.db.notifications)) [
          | inl missing ↦ absurd (ground arith)
          | inr (n, found) ↦ elim (Bool-cases (is_sent n.status)) [
            | inl done ↦ inl (ground arith, (n, found, done))
            | inr unsent ↦ inr (
              n,
              delivered answers n p p' found unsent
                  (sym (deliver_unsent answers n p found unsent) ∙ h),
            )
          ]
        ]

    not_false :
        (answers : Answers) (n : Notification) (q p' : Post N)
        → ¬ (record_sent answers now organization id n q ≡ (ok false, p'))
    unfolding record_sent
    not_false answers n q p' h = ground arith

    pub deliver_nothing :
        (answers : Answers) (p p' : Post N)
        → deliver answers now organization id p ≡ (ok false, p')
        → p' ≡ p
    unfolding deliver
    deliver_nothing answers p p' h =
        elim (Option-cases (find_first (is_notification organization id) p.db.notifications)) [
          | inl missing ↦ ground arith
          | inr (n, found) ↦ elim (Bool-cases (is_sent n.status)) [
            | inl done ↦ absurd (ground arith)
            | inr unsent ↦
                (let (q, _, recording) =
                    after_send answers n (send_on_channel answers n p) false p' (
                      not_failed answers _ false p'
                        (sym (deliver_unsent answers n p found unsent) ∙ h)) in
                  absurd (not_false answers n q p' recording))
          ]
        ]

is_notification-mark_sent :
    (organization id now : ℕ) (n : Notification)
    → is_notification organization id (mark_sent now n) ≡ is_notification organization id n
unfolding mark_sent
is_notification-mark_sent organization id now n = refl

is_sent-mark_sent : (now : ℕ) (n : Notification) → is_sent (mark_sent now n).status ≡ true
unfolding mark_sent
is_sent-mark_sent now n = refl

module _ {N : Type 0} where
  finished :
      (before : Db N) {A : Type 0} (out : Result Text A × Post N) (a : A) (p' : Post N)
      → finish before out ≡ (ok a, p')
      → out ≡ (ok a, p')
  unfolding finish
  finished before (ok b, p) a p' h = h
  finished before (err e, p) a p' h = absurd (cc)

  committed :
      (answers : Answers) {A : Type 0} (out : Result Text A × Post N) (a : A) (p' : Post N)
      → commit answers out ≡ (ok a, p')
      → out ≡ (ok a, p')
  unfolding commit
  committed answers (ok b, p) a p' h = elim (Option-cases answers.commit_error) [
    | inl done ↦ rw done at h
    | inr (e, failing) ↦ absurd (let x = rw failing at h in cc)
  ]
  committed answers (err e, p) a p' h = absurd (cc)

  attempted :
      (answers : Answers) {A : Type 0} (operation : Post N → Result Text A × Post N) (a : A)
      (p p' : Post N)
      → attempt answers operation p ≡ (ok a, p')
      → operation p ≡ (ok a, p')
  unfolding attempt commit
  attempted answers operation a p p' h = elim (Option-cases answers.begin_error) [
    | inl begun ↦ committed answers (operation p) a p' (rw begun at h)
    | inr (e, failing) ↦ absurd (let x = rw failing at h in cc)
  ]

  thrown :
      (before : Db N) {A : Type 0} (out : Result Text A × Post N) (e : Text) (p' : Post N)
      → finish before out ≡ (err e, p')
      → p'.db ≡ before
  unfolding finish
  thrown before (ok b, p) e p' h = absurd (cc)
  thrown before (err f, p) e p' h = cc

  -- What a job answers and leaves that has nothing left to do: its notification is delivered, or an
  -- error of its transaction is thrown; and it changes nothing.
  abbrev pub IsRepeat : Answers → Result Text Bool × Post N → Post N → Type 0
  IsRepeat answers out p =
      (out ≡ (ok true, p))
      ⊎ ((e : Text) × ((answers.begin_error ≡ some e) ⊎ (answers.commit_error ≡ some e))
          × (out ≡ (err e, p)))

  repeated :
      (answers : Answers) (operation : Post N → Result Text Bool × Post N) (p : Post N)
      → operation p ≡ (ok true, p)
      → IsRepeat answers (with_tenant_transaction answers operation p) p
  unfolding with_tenant_transaction finish attempt commit
  repeated answers operation p same =
      subst
        (λ (out : Result Text Bool × Post N).
          IsRepeat answers (with_tenant_transaction answers (λ _. out) p) p)
        (sym same) (ends answers.begin_error answers.commit_error refl refl)
    where
      ends :
          (start end : Option Text)
          → answers.begin_error ≡ start
          → answers.commit_error ≡ end
          → IsRepeat answers
              (finish p.db (elim start [
                | some e ↦ (err e, p)
                | none ↦ elim end [ some e ↦ (err e, p) | none ↦ (ok true, p) ]
              ]))
              p
      ends (some e) end failing _ = inr (e, inl failing, refl)
      ends none (some e) _ failing = inr (e, inr failing, refl)
      ends none none _ _ = inl refl

  module _ (organization id : ℕ) where
    deliver_sent :
        (answers : Answers) (now : ℕ) (p : Post N) (n : Notification)
        → find_first (is_notification organization id) p.db.notifications ≡ some n
        → is_sent n.status ≡ true
        → deliver answers now organization id p ≡ (ok true, p)
    unfolding deliver
    deliver_sent answers now p n found done = rw (found, deliver) (rw done)

    pub process_sent :
        (answers : Answers) (now : ℕ) (p : Post N) (n : Notification)
        → find_first (is_notification organization id) p.db.notifications ≡ some n
        → is_sent n.status ≡ true
        → IsRepeat answers (process answers now organization id p) p
    unfolding process
    process_sent answers now p n found done =
        repeated answers (deliver answers now organization id) p
          (deliver_sent answers now p n found done)

    delivery_found :
        (now : ℕ) (p p' : Post N) (n : Notification)
        → IsDelivery organization id now p p' n
        → (m : Notification) × (find_first (is_notification organization id) p'.db.notifications
            ≡ some m)
          × (is_sent m.status ≡ true)
    delivery_found now p p' n d =
        let q = is_unsent organization id in
        let (_, mine) =
          find_first-All (λ _. Unit {0}) _ p.db.notifications (All-Unit p.db.notifications)
            d.found in
        let hit : q n ≡ true = ground (arith, mine, d.unsent) in
        (
          on_match q (mark_sent now) n,
          subst
              (λ rows.
                find_first (is_notification organization id) rows
                ≡ some (on_match q (mark_sent now) n))
              (sym d.rows)
              (find_first-update_where (is_notification organization id) q (mark_sent now)
                p.db.notifications (is_notification-mark_sent organization id now) d.found),
          rw hit (is_sent-mark_sent now n),
        )

    pub process-IsDelivery :
        (answers : Answers) (now : ℕ) (p p' : Post N)
        → process answers now organization id p ≡ (ok true, p')
        → (p' ≡ p)
            × ((n : Notification) × (find_first (is_notification organization id) p.db.notifications
                  ≡ some n)
                × (is_sent n.status ≡ true))
          ⊎ ((n : Notification) × IsDelivery organization id now p p' n)
    unfolding process with_tenant_transaction
    process-IsDelivery answers now p p' h = deliver_cases organization id now answers p p' (
        attempted answers (deliver answers now organization id) true p p'
          (finished p.db (attempt answers (deliver answers now organization id) p) true p' h))

    -- A delivery that has succeeded is not done again: each further job for the same notification
    -- sends no message and writes nothing, whatever calls fail in it, and answers that it is
    -- delivered, unless its transaction cannot begin or be committed: then that error is thrown.
    pub process_once :
        (answers : Answers) (now : ℕ) (p p' : Post N)
        → process answers now organization id p ≡ (ok true, p')
        → (again : Answers) (later : ℕ) → IsRepeat again (process again later organization id p') p'
    process_once answers now p p' h again later = elim (process-IsDelivery answers now p p' h) [
      | inl (same, (n, found, done)) ↦
          process_sent again later p' n
            (subst
              (λ (q : Post N).
                find_first (is_notification organization id) q.db.notifications ≡ some n)
              (sym same) found)
            done
      | inr (n, d) ↦
          (let (m, found, done) = delivery_found now p p' n d in
            process_sent again later p' m found done)
    ]

    process_failed :
        (answers : Answers) (now : ℕ) (p p' : Post N) (e : Text)
        → process answers now organization id p ≡ (err e, p')
        → p'.db ≡ p.db
    unfolding process with_tenant_transaction
    process_failed answers now p p' e h =
        thrown p.db (attempt answers (deliver answers now organization id) p) e p' h

    process_nothing :
        (answers : Answers) (now : ℕ) (p p' : Post N)
        → process answers now organization id p ≡ (ok false, p')
        → p' ≡ p
    unfolding process with_tenant_transaction
    process_nothing answers now p p' h = deliver_nothing organization id now answers p p' (
        attempted answers (deliver answers now organization id) false p p'
          (finished p.db (attempt answers (deliver answers now organization id) p) false p' h))

    -- The rows after a job, whatever it answers.
    pub process_rows :
        (answers : Answers) (now : ℕ) (p : Post N)
        → ((process answers now organization id p).1.db.notifications ≡ p.db.notifications)
          ⊎ ((process answers now organization id p).1.db.notifications
              ≡ update_where (is_unsent organization id) (mark_sent now) p.db.notifications)
    process_rows answers now p = go (process answers now organization id p) refl
      where
        go :
            (out : Result Text Bool × Post N)
            → process answers now organization id p ≡ out
            → (out.1.db.notifications ≡ p.db.notifications)
              ⊎ (out.1.db.notifications
                  ≡ update_where (is_unsent organization id) (mark_sent now) p.db.notifications)
        go (err e, p') h =
            inl (ap (λ (d : Db N). d.notifications) (process_failed answers now p p' e h))
        go (ok false, p') h =
            inl (ap (λ (q : Post N). q.db.notifications) (process_nothing answers now p p' h))
        go (ok true, p') h = elim (process-IsDelivery answers now p p' h) [
          | inl (same, _) ↦ inl (ap (λ (q : Post N). q.db.notifications) same)
          | inr (_, d) ↦ inr d.rows
        ]
