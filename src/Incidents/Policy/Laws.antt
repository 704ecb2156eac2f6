-- ===== src/Incidents/Policy/Laws.antt =====
-- What the life cycle allows.
use sentriqora.Base.{
  ℕ, ◌≤◌, ◌<◌, ◌≡◌, ◌↔◌, ◌⊎◌, inl, inr, refl, true, Option, none, some, Text, ok, err, length, trim,
  arith, tests, le→leb,
}
use sentriqora.Incidents.Policy.{
  Status, opened, triaged, investigating, contained, resolved, closed, Analysis, invalid_sla,
  assert_transition, has_meaningful_text, SlaTarget, sla_target,
}

-- The life cycle as a relation.
pub data Edge : Status → Status → Type 0 where
  triage : Edge opened triaged
  dismiss : Edge opened closed
  start : Edge triaged investigating
  dismiss_triaged : Edge triaged closed
  contain : Edge investigating contained
  resolve : Edge investigating resolved
  resume : Edge contained investigating
  resolve_contained : Edge contained resolved
  finish : Edge resolved closed
  reopen_resolved : Edge resolved investigating
  reopen : Edge closed investigating

-- A text of ten code units or more between its white space.
pub record IsMeaningful (value : Option Text) : Type 0 where
  pub text : Text
  pub given : value ≡ some text
  pub long : 10 ≤ length (trim text)

meaningful : (value : Option Text) → has_meaningful_text value ≡ true → IsMeaningful value
unfolding has_meaningful_text
meaningful none h = absurd (cc)
meaningful (some t) h = record { text = t; given = refl; long = omega (tests, h) }

abbrev pub Requires : Status → Analysis → Type 0
Requires resolved a = IsMeaningful a.root_cause
Requires closed a = IsMeaningful a.root_cause × IsMeaningful a.lessons_learned
Requires _ a = Unit

Edge-of_ok :
    (current target : Status) (a : Analysis)
    → assert_transition current target a ≡ ok tt
    → Edge current target
unfolding assert_transition
Edge-of_ok opened triaged a h = triage
Edge-of_ok opened closed a h = dismiss
Edge-of_ok triaged investigating a h = start
Edge-of_ok triaged closed a h = dismiss_triaged
Edge-of_ok investigating contained a h = contain
Edge-of_ok investigating resolved a h = resolve
Edge-of_ok contained investigating a h = resume
Edge-of_ok contained resolved a h = resolve_contained
Edge-of_ok resolved closed a h = finish
Edge-of_ok resolved investigating a h = reopen_resolved
Edge-of_ok closed investigating a h = reopen
Edge-of_ok _ _ a h = absurd (cc)

is_meaningful : (value : Option Text) → IsMeaningful value → has_meaningful_text value ≡ true
unfolding has_meaningful_text
is_meaningful value h = rw h.given (le→leb 10 _ h.long)

-- The tests on the analysis, apart from the transition.
analysis_of_ok :
    (current target : Status) (a : Analysis)
    → assert_transition current target a ≡ ok tt
    → ((target ≡ resolved) ⊎ (target ≡ closed) → has_meaningful_text a.root_cause ≡ true)
      × (target ≡ closed → has_meaningful_text a.lessons_learned ≡ true)
unfolding assert_transition
analysis_of_ok current target a h = (λ p. ground arith, λ p. ground arith)

Requires-of_ok :
    (current target : Status) (a : Analysis)
    → assert_transition current target a ≡ ok tt
    → Requires target a
Requires-of_ok current resolved a h =
    meaningful a.root_cause ((analysis_of_ok current resolved a h).0 (inl refl))
Requires-of_ok current closed a h = (
  meaningful a.root_cause ((analysis_of_ok current closed a h).0 (inr refl)),
  meaningful a.lessons_learned ((analysis_of_ok current closed a h).1 refl),
)
Requires-of_ok current _ a h = tt

ok_of_Edge :
    {current target : Status} (a : Analysis)
    → Edge current target
    → Requires target a
    → assert_transition current target a ≡ ok tt
unfolding assert_transition
ok_of_Edge a triage h = refl
ok_of_Edge a dismiss (r, l) = rw (is_meaningful _ r, is_meaningful _ l)
ok_of_Edge a start h = refl
ok_of_Edge a dismiss_triaged (r, l) = rw (is_meaningful _ r, is_meaningful _ l)
ok_of_Edge a contain h = refl
ok_of_Edge a resolve r = rw (is_meaningful _ r)
ok_of_Edge a resume h = refl
ok_of_Edge a resolve_contained r = rw (is_meaningful _ r)
ok_of_Edge a finish (r, l) = rw (is_meaningful _ r, is_meaningful _ l)
ok_of_Edge a reopen_resolved h = refl
ok_of_Edge a reopen h = refl

-- `assertTransition` accepts exactly the moves of the life cycle, if a resolution has a root cause
-- of ten characters or more and a closure also lessons learned of that length.
pub assert_transition_iff :
    (current target : Status) (a : Analysis)
    → (assert_transition current target a ≡ ok tt) ↔ Edge current target × Requires target a
assert_transition_iff current target a = (
  λ h. (Edge-of_ok current target a h, Requires-of_ok current target a h),
  λ h. ok_of_Edge a h.0 h.1,
)

-- Targets are in order and after the detection, or the minutes are refused: the response is due
-- after the detection and before the resolution, and the error is raised exactly when the response
-- has no minute or the resolution no more minutes than it.
pub sla_target_ordered :
    (detected response resolution : ℕ)
    → ((t : SlaTarget)
        → sla_target detected response resolution ≡ ok t
        → (detected < t.response_due_at) × (t.response_due_at < t.resolution_due_at))
      × ((sla_target detected response resolution ≡ err invalid_sla)
          ↔ (response < 1) ⊎ (resolution ≤ response))
unfolding sla_target
sla_target_ordered detected response resolution =
    (λ t h. (ground arith, ground arith), (λ h. ground arith, λ h. ground arith))
