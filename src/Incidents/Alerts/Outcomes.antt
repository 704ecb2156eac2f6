-- ===== src/Incidents/Alerts/Outcomes.antt =====
-- What the job for an alert does, on every branch and said without the policy's code.
use sentriqora.Base.{
  ℕ, ◌≤◌, ◌<◌, ◌≡◌, ◌⊎◌, inl, inr, refl, sym, ap, ◌∙◌, subst, true, false, none, some, Text, Result,
  ok, err, find_first, Option-cases, Bool-cases, arith, Result-cases,
}
use sentriqora.Severity.{Severity, info, low, medium, high, critical}
use sentriqora.Incidents.Policy.{
  PolicyError, invalid_sla, SlaTarget, sla_target, should_create_automatically, is_critical,
}
use sentriqora.Incidents.Policy.Laws.{sla_target_ordered}
use sentriqora.Incidents.Alerts.{
  Alert, Link, Alarms, Answer, is_link, is_alert, is_policy, create_incident, from_alert,
  sla_minutes,
}
use sentriqora.Incidents.Alerts.Once.{
  IsCreated, create_incident-IsCreated, from_linked, from_missing, from_found,
}

-- Critical, or a risk of 90 or more: risks are in thousandths.
abbrev pub IsSevere : Alert → Type 0
IsSevere a = (a.severity ≡ critical) ⊎ (90_000 ≤ a.risk_score)

critical_of : (s : Severity) → is_critical s ≡ true → s ≡ critical
critical_of critical h = refl
critical_of high h = absurd (cc)
critical_of medium h = absurd (cc)
critical_of low h = absurd (cc)
critical_of info h = absurd (cc)

IsSevere-of : (a : Alert) → should_create_automatically a.severity a.risk_score ≡ true → IsSevere a
unfolding should_create_automatically
IsSevere-of a h = elim (Bool-cases (is_critical a.severity)) [
  | inl hit ↦ inl (critical_of a.severity hit)
  | inr miss ↦ inr (ground (arith, h, miss))
]

not-IsSevere :
    (a : Alert) → should_create_automatically a.severity a.risk_score ≡ false → ¬ IsSevere a
unfolding should_create_automatically
not-IsSevere a h (inl same) = absurd (
    let e : is_critical a.severity ≡ true = ap is_critical same in
    let d : is_critical a.severity ≡ false = ground (arith, h) in cc)
not-IsSevere a h (inr risky) = absurd (ground (arith, h, risky))

sla_error :
    (detected response resolution : ℕ)
    → (e : PolicyError) → sla_target detected response resolution ≡ err e
    → e ≡ invalid_sla
unfolding sla_target
sla_error detected response resolution e h = ground arith

module _ {N : Type 0} (uuid_text : ℕ → Text) (now organization id : ℕ) where
  abbrev pub minutes_for : Alarms N → Alert → ℕ × ℕ
  minutes_for s a =
      sla_minutes (find_first (is_policy organization a.severity) s.policies) a.severity

  abbrev nothing : Alarms N → Result PolicyError (Answer × Alarms N)
  nothing s = ok (record { created = false; incident_id = none }, s)

  -- What a job answers and leaves, and when.
  pub data IsOutcome (s : Alarms N) : Result PolicyError (Answer × Alarms N) → Type 0 where
    linked :
        (link : Link)
        → find_first (is_link organization id) s.links ≡ some link
        → IsOutcome s (ok (record { created = false; incident_id = some link.incident_id }, s))
    absent :
        find_first (is_link organization id) s.links ≡ none
        → find_first (is_alert organization id) s.alerts ≡ none
        → IsOutcome s (nothing s)
    mild :
        (alert : Alert)
        → find_first (is_link organization id) s.links ≡ none
        → find_first (is_alert organization id) s.alerts ≡ some alert
        → ¬ IsSevere alert
        → IsOutcome s (nothing s)
    created :
        (alert : Alert) {answer : Answer} {s' : Alarms N}
        → find_first (is_link organization id) s.links ≡ none
        → find_first (is_alert organization id) s.alerts ≡ some alert
        → IsSevere alert
        → IsCreated uuid_text now organization id s answer s'
        → IsOutcome s (ok (answer, s'))
    refused :
        (alert : Alert)
        → find_first (is_link organization id) s.links ≡ none
        → find_first (is_alert organization id) s.alerts ≡ some alert
        → IsSevere alert
        → ((minutes_for s alert).0 < 1) ⊎ ((minutes_for s alert).1 ≤ (minutes_for s alert).0)
        → IsOutcome s (err invalid_sla)

  create_refused :
      (alert : Alert) (s : Alarms N)
      → sla_target alert.first_seen_at (minutes_for s alert).0 (minutes_for s alert).1
        ≡ err invalid_sla
      → create_incident uuid_text now organization alert s ≡ err invalid_sla
  unfolding create_incident
  create_refused alert s h = rw h refl

  create_made :
      (alert : Alert) (s : Alarms N) (t : SlaTarget)
      → sla_target alert.first_seen_at (minutes_for s alert).0 (minutes_for s alert).1 ≡ ok t
      → (answer : Answer) × (s' : Alarms N) × (create_incident uuid_text now organization alert s
          ≡ ok (answer, s'))
  unfolding create_incident
  create_made alert s t h =
      elim (Result-cases (create_incident uuid_text now organization alert s)) [
        | inl (e, failed) ↦ absurd (let x = rw h at failed in cc)
        | inr ((answer, s'), same) ↦ (answer, s', same)
      ]

  severe-IsOutcome :
      (s : Alarms N) (alert : Alert)
      → find_first (is_link organization id) s.links ≡ none
      → find_first (is_alert organization id) s.alerts ≡ some alert
      → should_create_automatically alert.severity alert.risk_score ≡ true
      → IsOutcome s (create_incident uuid_text now organization alert s)
  severe-IsOutcome s alert unlinked found severe =
      let target = sla_target alert.first_seen_at (minutes_for s alert).0 (minutes_for s alert).1 in
      let (_, exact) =
        sla_target_ordered alert.first_seen_at (minutes_for s alert).0 (minutes_for s alert).1 in
      elim (Result-cases target) [
        | inl (e, failing) ↦
            (let failing' : target ≡ err invalid_sla =
                failing
                ∙ ap err (
                    sla_error alert.first_seen_at (minutes_for s alert).0 (minutes_for s alert).1 e
                      failing) in
              subst (IsOutcome s) (sym (create_refused alert s failing'))
                (refused alert unlinked found (IsSevere-of alert severe) (exact.0 failing')))
        | inr (t, made) ↦
            (let (answer, s', same) = create_made alert s t made in
              subst (IsOutcome s) (sym same) (
                created alert unlinked found (IsSevere-of alert severe) (
                  create_incident-IsCreated uuid_text now organization id alert s answer s' unlinked
                    found severe same)))
      ]

  -- What the job for an alert does: it names the incident that the alert is linked to, if there is
  -- one; it does nothing when there is no such alert, or when that is neither critical nor has a risk
  -- of 90 or more; otherwise it creates an incident, open, well formed, due to be answered after the
  -- alert and to be resolved after that, or fails when the policy gives no minute to the response or
  -- no more minutes to the resolution.
  pub from_alert_cases : (s : Alarms N) → IsOutcome s (from_alert uuid_text now organization id s)
  from_alert_cases s = elim (Option-cases (find_first (is_link organization id) s.links)) [
    | inr (link, at) ↦
        subst (IsOutcome s) (sym (from_linked uuid_text now organization id s link at))
          (linked link at)
    | inl unlinked ↦ elim (Option-cases (find_first (is_alert organization id) s.alerts)) [
      | inl missing ↦
          subst (IsOutcome s) (sym (from_missing uuid_text now organization id s unlinked missing))
            (absent unlinked missing)
      | inr (alert, found) ↦
          elim (Bool-cases (should_create_automatically alert.severity alert.risk_score)) [
            | inl severe ↦
                subst (IsOutcome s)
                  (sym
                    (from_found uuid_text now organization id s alert true unlinked found severe))
                  (severe-IsOutcome s alert unlinked found severe)
            | inr calm ↦
                subst (IsOutcome s)
                  (sym (from_found uuid_text now organization id s alert false unlinked found calm))
                  (mild alert unlinked found (not-IsSevere alert calm))
          ]
    ]
  ]
