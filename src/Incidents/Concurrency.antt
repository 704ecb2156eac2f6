-- ===== src/Incidents/Concurrency.antt =====
-- Breaches that are recorded once.
use sentriqora.Base.{
  ℕ, ◌≡◌, ◌≤◌, inl, inr, refl, sym, ap, ◌∙◌, subst, Bool, true, false, none, some, Text, find_first,
  find_first-All, find_first-update_where, arith, on_match, All, List, [], ◌∷◌,
}
use sentriqora.Outbox.Jobs.{SlaKind, response, resolution}
use sentriqora.Incidents.Store.{Incident, Db, is_incident}
use sentriqora.Incidents.Policy.{is_breached}
use sentriqora.Incidents.Sla.{
  is_new_breach, set_breached, is_unbreached, evaluate_sla, is_none, breached_at, due_at, done_at,
}
use sentriqora.Incidents.Effects.{IsBreached, evaluate_sla_effect}

All-Unit : (rows : List Incident) → All (λ _. Unit {0}) rows
All-Unit [] = tt
All-Unit (i ∷ rows) = (tt, All-Unit rows)

is_incident-set_breached :
    (organization id : ℕ) (kind : SlaKind) (now : ℕ) (i : Incident)
    → is_incident organization id (set_breached kind now i) ≡ is_incident organization id i
unfolding set_breached
is_incident-set_breached organization id response now i = refl
is_incident-set_breached organization id resolution now i = refl

is_new_breach-set_breached :
    (kind : SlaKind) (later now : ℕ) (i : Incident)
    → is_new_breach kind later (set_breached kind now i) ≡ false
unfolding is_new_breach set_breached
is_new_breach-set_breached response later now i = refl
is_new_breach-set_breached resolution later now i = refl

new_breach_cases :
    (kind : SlaKind) (now : ℕ) (i : Incident)
    → is_new_breach kind now i ≡ true
    → (is_none (breached_at kind i) ≡ true) × (due_at kind i ≤ now) × (done_at kind i ≡ none)
unfolding is_new_breach is_breached
new_breach_cases response now i h = (ground (arith, h), ground (arith, h), ground (arith, h))
new_breach_cases resolution now i h = (ground (arith, h), ground (arith, h), ground (arith, h))

module _ {N : Type 0} (uuid_text : ℕ → Text) (organization id : ℕ) (kind : SlaKind) where
  evaluate_sla_done :
      (now : ℕ) (db : Db N) (j : Incident)
      → find_first (is_incident organization id) db.incidents ≡ some j
      → is_new_breach kind now j ≡ false
      → evaluate_sla uuid_text now organization id kind db ≡ (false, db)
  unfolding evaluate_sla
  evaluate_sla_done now db j found not_due = rw (found, evaluate_sla) (rw not_due)

  breached_found :
      (now : ℕ) (db db' : Db N)
      → IsBreached uuid_text now organization kind id db db'
      → (j : Incident) × (find_first (is_incident organization id) db'.incidents ≡ some j)
        × ((later : ℕ) → is_new_breach kind later j ≡ false)
  breached_found now db db' b =
      let f = set_breached kind now in
      let p = is_unbreached organization b.incident.id kind in
      let (_, mine) =
        find_first-All (λ _. Unit {0}) _ db.incidents (All-Unit db.incidents) b.found in
      let (unbreached, _, _) = new_breach_cases kind now b.incident b.due in
      let hit : p b.incident ≡ true = ground (arith, mine, unbreached) in
      (
        on_match p f b.incident,
        subst
            (λ rows. find_first (is_incident organization id) rows ≡ some (on_match p f b.incident))
            (sym b.rows)
            (find_first-update_where (is_incident organization id) p f db.incidents
              (is_incident-set_breached organization id kind now) b.found),
        λ later. rw hit (is_new_breach-set_breached kind later now b.incident),
      )

  -- A target of an incident is recorded as missed only when it is due and not reached, and at most
  -- once: after an evaluation that has recorded it, each later one of the same kind records none and
  -- changes nothing. An evaluation that records none changes nothing either.
  pub evaluate_sla_once :
      (now : ℕ) (db db' : Db N) (recorded : Bool)
      → evaluate_sla uuid_text now organization id kind db ≡ (recorded, db')
      → (recorded ≡ false → db' ≡ db)
        × (recorded ≡ true
            → ((i : Incident) × (find_first (is_incident organization id) db.incidents ≡ some i)
                × (due_at kind i ≤ now)
                × (done_at kind i ≡ none))
              × ((later : ℕ)
                  → evaluate_sla uuid_text later organization id kind db' ≡ (false, db')))
  evaluate_sla_once now db db' recorded h =
      elim (evaluate_sla_effect uuid_text now organization kind id db) [
        | inl same ↦ (λ _. ap (λ p. p.1) (sym h ∙ same), λ yes. absurd (cc))
        | inr (flag, b) ↦ (
          λ no. absurd (cc),
          λ _.
              let b' =
                subst (λ (d : Db N). IsBreached uuid_text now organization kind id db d)
                  (ap (λ p. p.1) h) b in
              let (j, found, over) = breached_found now db db' b' in
              let (_, due, undone) = new_breach_cases kind now b.incident b.due in
              (
                (b.incident, b.found, due, undone),
                λ later. evaluate_sla_done later db' j found (over later),
              ),
        )
      ]
