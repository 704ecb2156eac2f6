-- ===== src/Incidents/Alerts/Once.antt =====
-- An alert has one incident.
use sentriqora.Base.{
  ℕ, ◌<◌, ◌≡◌, ◌⊎◌, inl, inr, refl, sym, ap, ◌∙◌, Bool, true, false, Option, none, some, List, [],
  ◌∷◌, ◌++◌, Text, ok, ok_of_bind, ok-injective, find_first, find_first-All, All, Option-cases,
  Bool-cases, arith, if◌then◌else◌,
}
use sentriqora.Incidents.Policy.{opened, SlaTarget, sla_target, should_create_automatically}
use sentriqora.Incidents.Policy.Laws.{sla_target_ordered}
use sentriqora.Incidents.Store.{
  Incident, add_timeline, add_audit, create_notification, schedule_sla,
}
use sentriqora.Incidents.Invariant.{IsWellFormed}
use sentriqora.Incidents.Alerts.{
  Alert, Link, SlaPolicy, Alarms, Answer, is_link, is_alert, new_incident, record_incident,
  create_incident, from_alert, sla_minutes, is_policy, incident_key,
}

-- The first match in a longer table, where there was none before.
find_first-append :
    {A : Type 0} (p : A → Bool) (xs : List A) (x : A)
    → find_first p xs ≡ none
    → p x ≡ true
    → find_first p (xs ++ x ∷ []) ≡ some x
unfolding find_first
find_first-append p [] x h hit = rw hit
find_first-append p (y ∷ ys) x h hit = elim (Bool-cases (p y)) [
  | inl e ↦ absurd (ground (arith, h, e))
  | inr e ↦ rw e (find_first-append p ys x (rw e at h) hit)
]

new_incident-IsWellFormed :
    (now organization n : ℕ) (key : Text) (policy : Option SlaPolicy) (alert : Alert)
    (sla : SlaTarget)
    → IsWellFormed (new_incident now organization n key policy alert sla)
unfolding new_incident
new_incident-IsWellFormed now organization n key policy alert sla = record {
  analysis = tt;
  stamped = (refl, refl, refl);
}

All-Unit : (rows : List Alert) → All (λ _. Unit {0}) rows
All-Unit [] = tt
All-Unit (a ∷ rows) = (tt, All-Unit rows)

module _ {N : Type 0} (uuid_text : ℕ → Text) (now organization id : ℕ) where
  -- What the creation of an incident has done.
  pub record IsCreated (s : Alarms N) (answer : Answer) (s' : Alarms N) : Type 0 where
    pub alert : Alert
    pub incident : Incident
    pub found : find_first (is_alert organization id) s.alerts ≡ some alert
    pub severe : should_create_automatically alert.severity alert.risk_score ≡ true
    pub answered : answer ≡ record { created = true; incident_id = some incident.id }
    pub unlinked : find_first (is_link organization id) s.links ≡ none
    pub linked :
        s'.links
        ≡ s.links
          ++ record { organization_id = organization; incident_id = incident.id; alert_id = id }
            ∷ []
    pub incidents : s'.db.incidents ≡ s.db.incidents ++ incident ∷ []
    pub fresh : incident.id ≡ s.db.next_id
    pub status : incident.status ≡ opened
    pub formed : IsWellFormed incident
    pub due :
        (alert.first_seen_at < incident.response_due_at)
        × (incident.response_due_at < incident.resolution_due_at)

  record_incident-frame :
      (alert : Alert) (incident : Incident) (s : Alarms N)
      → ((record_incident uuid_text now organization alert incident s).links
          ≡ s.links
            ++ record {
              organization_id = organization;
              incident_id = incident.id;
              alert_id = alert.id;
            }
              ∷ [])
        × ((record_incident uuid_text now organization alert incident s).db.incidents
            ≡ s.db.incidents ++ incident ∷ [])
  unfolding record_incident add_audit add_timeline create_notification schedule_sla
  record_incident-frame alert incident s = (refl, ground arith)

  created_cases :
      (alert : Alert) (s : Alarms N) (answer : Answer) (s' : Alarms N)
      → create_incident uuid_text now organization alert s ≡ ok (answer, s')
      → (key : Text) × (policy : Option SlaPolicy) × (sla : SlaTarget) × (sla_target
            alert.first_seen_at
            (sla_minutes policy alert.severity).0
            (sla_minutes policy alert.severity).1
          ≡ ok sla)
        × (answer ≡ record { created = true; incident_id = some s.db.next_id })
        × (s'
            ≡ record_incident uuid_text now organization alert
                (new_incident now organization s.db.next_id key policy alert sla)
                s)
  unfolding create_incident
  created_cases alert s answer s' h =
      let policy = find_first (is_policy organization alert.severity) s.policies in
      let (sla, target, after) =
        ok_of_bind
          (sla_target alert.first_seen_at (sla_minutes policy alert.severity).0
            (sla_minutes policy alert.severity).1)
          _ h in
      let both = ok-injective after in
      (
        incident_key (uuid_text s.db.next_id),
        policy,
        sla,
        target,
        sym (ap (λ p. p.0) both),
        sym (ap (λ p. p.1) both),
      )

  pub create_incident-IsCreated :
      (alert : Alert) (s : Alarms N) (answer : Answer) (s' : Alarms N)
      → find_first (is_link organization id) s.links ≡ none
      → find_first (is_alert organization id) s.alerts ≡ some alert
      → should_create_automatically alert.severity alert.risk_score ≡ true
      → create_incident uuid_text now organization alert s ≡ ok (answer, s')
      → IsCreated s answer s'
  unfolding new_incident
  create_incident-IsCreated alert s answer s' unlinked found severe h =
      let (key, policy, sla, target, answered, state) = created_cases alert s answer s' h in
      let i = new_incident now organization s.db.next_id key policy alert sla in
      let (links, incidents) = record_incident-frame alert i s in
      let (_, mine) = find_first-All (λ _. Unit {0}) _ s.alerts (All-Unit s.alerts) found in
      let ids : alert.id ≡ id = ground (arith, mine) in
      let (ordered, _) =
        sla_target_ordered alert.first_seen_at (sla_minutes policy alert.severity).0
          (sla_minutes policy alert.severity).1 in
      record {
        alert = alert;
        incident = i;
        found = found;
        severe = severe;
        answered = answered;
        unlinked = unlinked;
        linked =
            ap (λ (t : Alarms N). t.links) state
            ∙ (links
                ∙ ap
                    (λ n.
                      s.links
                      ++ record {
                        organization_id = organization;
                        incident_id = s.db.next_id;
                        alert_id = n;
                      }
                        ∷ [])
                    ids);
        incidents = ap (λ (t : Alarms N). t.db.incidents) state ∙ incidents;
        fresh = refl;
        status = refl;
        formed = new_incident-IsWellFormed now organization s.db.next_id key policy alert sla;
        due = ordered sla target;
      }

  pub from_linked :
      (s : Alarms N) (link : Link)
      → find_first (is_link organization id) s.links ≡ some link
      → from_alert uuid_text now organization id s
        ≡ ok (record { created = false; incident_id = some link.incident_id }, s)
  unfolding from_alert
  from_linked s link linked = rw (linked, from_alert)

  pub from_missing :
      (s : Alarms N)
      → find_first (is_link organization id) s.links ≡ none
      → find_first (is_alert organization id) s.alerts ≡ none
      → from_alert uuid_text now organization id s
        ≡ ok (record { created = false; incident_id = none }, s)
  unfolding from_alert
  from_missing s unlinked missing = rw (unlinked, from_alert) (rw missing)

  pub from_found :
      (s : Alarms N) (alert : Alert) (severe : Bool)
      → find_first (is_link organization id) s.links ≡ none
      → find_first (is_alert organization id) s.alerts ≡ some alert
      → should_create_automatically alert.severity alert.risk_score ≡ severe
      → from_alert uuid_text now organization id s ≡ (
          if severe
          then create_incident uuid_text now organization alert s
          else ok (record { created = false; incident_id = none }, s))
  unfolding from_alert
  from_found s alert severe unlinked found test = rw (unlinked, from_alert) (rw found (rw test))

  pub from_alert_effect :
      (s : Alarms N) (answer : Answer) (s' : Alarms N)
      → from_alert uuid_text now organization id s ≡ ok (answer, s')
      → (s' ≡ s)
          × ((answer ≡ record { created = false; incident_id = none })
              ⊎ ((link : Link) × (find_first (is_link organization id) s.links ≡ some link)
                  × (answer ≡ record { created = false; incident_id = some link.incident_id })))
        ⊎ IsCreated s answer s'
  from_alert_effect s answer s' h =
      elim (Option-cases (find_first (is_link organization id) s.links)) [
        | inr (link, linked) ↦
            (let both = ok-injective (sym (from_linked s link linked) ∙ h) in
              inl (sym (ap (λ p. p.1) both), inr (link, linked, sym (ap (λ p. p.0) both))))
        | inl unlinked ↦ elim (Option-cases (find_first (is_alert organization id) s.alerts)) [
          | inl missing ↦
              (let both = ok-injective (sym (from_missing s unlinked missing) ∙ h) in
                inl (sym (ap (λ p. p.1) both), inl (sym (ap (λ p. p.0) both))))
          | inr (alert, found) ↦
              elim (Bool-cases (should_create_automatically alert.severity alert.risk_score)) [
                | inl severe ↦ inr (
                    create_incident-IsCreated alert s answer s' unlinked found severe
                      (sym (from_found s alert true unlinked found severe) ∙ h))
                | inr mild ↦
                    (let both =
                        ok-injective (sym (from_found s alert false unlinked found mild) ∙ h) in
                      inl (sym (ap (λ p. p.1) both), inl (sym (ap (λ p. p.0) both))))
              ]
        ]
      ]

module _ {N : Type 0} (uuid_text : ℕ → Text) (organization id : ℕ) where
  created_link :
      (now : ℕ) (s : Alarms N) (answer : Answer) (s' : Alarms N)
      (c : IsCreated uuid_text now organization id s answer s')
      → find_first (is_link organization id) s'.links
        ≡ some
            (record { organization_id = organization; incident_id = c.incident.id; alert_id = id })
  created_link now s answer s' c =
      ap (find_first (is_link organization id)) c.linked
      ∙ find_first-append (is_link organization id) s.links _ c.unlinked (ground arith)

  -- An alert has at most one incident: once the job for it has named one, created or found, each
  -- further job for it creates none, names the same, and changes nothing.
  pub from_alert_once :
      (now : ℕ) (s : Alarms N) (answer : Answer) (s' : Alarms N) (n : ℕ)
      → from_alert uuid_text now organization id s ≡ ok (answer, s')
      → answer.incident_id ≡ some n
      → (later : ℕ)
      → from_alert uuid_text later organization id s'
        ≡ ok (record { created = false; incident_id = some n }, s')
  from_alert_once now s answer s' n h named later =
      elim (from_alert_effect uuid_text now organization id s answer s' h) [
        | inl (same, inl nothing) ↦ absurd (cc)
        | inl (same, inr (link, linked, answered)) ↦
            (let id_of : some link.incident_id ≡ some n =
                sym (ap (λ (a : Answer). a.incident_id) answered) ∙ named in
              from_linked uuid_text later organization id s' link
                (ap (λ (t : Alarms N). find_first (is_link organization id) t.links) same ∙ linked)
              ∙ ap (λ o. ok (record { created = false; incident_id = o }, s')) id_of)
        | inr c ↦
            (let id_of : some c.incident.id ≡ some n =
                sym (ap (λ (a : Answer). a.incident_id) c.answered) ∙ named in
              from_linked uuid_text later organization id s' _ (created_link now s answer s' c)
              ∙ ap (λ o. ok (record { created = false; incident_id = o }, s')) id_of)
      ]
