-- ===== src/Incidents/Policy.antt =====
-- `IncidentLifecyclePolicy` (packages/domain/src/incidents/incident-policy.ts). A `Date` is a number
-- of milliseconds; minutes are the integers that the database holds; a risk score counts
-- thousandths, which is what its column holds.
pub mod Laws
use sentriqora.Base.{
  ℕ, ◌+◌, ◌*◌, Bool, true, false, Option, none, some, List, [], ◌∷◌, Text, Result, ok, err, ◌>>=◌,
  ensure, leb, ltb, ◌==◌, any, length, trim, ◌&&◌, ◌||◌, not, if◌then◌else◌,
}
use sentriqora.Severity.{Severity, info, low, medium, high, critical}

-- `OPEN` is `opened`: `open` is a word of the language.
pub data Status : Type 0 where
  opened triaged investigating contained resolved closed : Status

pub data Priority : Type 0 where
  p1 p2 p3 p4 : Priority

pub record Analysis : Type 0 where
  pub lessons_learned : Option Text
  pub root_cause : Option Text

-- `IncidentPolicyError`, a constructor for each message.
pub data PolicyError : Type 0 where
  transition_not_allowed : Status → Status → PolicyError
  root_cause_required lessons_required invalid_sla : PolicyError

-- `===` on the status strings
abbrev pub number : Status → ℕ
number opened = 0
number triaged = 1
number investigating = 2
number contained = 3
number resolved = 4
number closed = 5

abbrev pub is_status : Status → Status → Bool
is_status a b = number a == number b

-- `TRANSITIONS`
abbrev pub transitions : Status → List Status
transitions closed = investigating ∷ []
transitions contained = investigating ∷ resolved ∷ []
transitions investigating = contained ∷ resolved ∷ []
transitions opened = triaged ∷ closed ∷ []
transitions resolved = closed ∷ investigating ∷ []
transitions triaged = investigating ∷ closed ∷ []

-- `PRIORITY` and `priorityFor`
unfoldable pub priority_for : Severity → Priority
priority_for critical = p1
priority_for high = p2
priority_for info = p4
priority_for low = p4
priority_for medium = p3

unfoldable pub has_meaningful_text : Option Text → Bool
has_meaningful_text none = false
has_meaningful_text (some value) = leb 10 (length (trim value))

unfoldable pub assert_transition : Status → Status → Analysis → Result PolicyError (Unit {0})
assert_transition current target analysis =
    if not (any (is_status target) (transitions current))
    then err (transition_not_allowed current target)
    else if (is_status target resolved || is_status target closed)
        && not (has_meaningful_text analysis.root_cause)
    then err root_cause_required
    else if is_status target closed && not (has_meaningful_text analysis.lessons_learned)
    then err lessons_required
    else ok tt

abbrev pub is_critical : Severity → Bool
is_critical critical = true
is_critical _ = false

unfoldable pub should_create_automatically : Severity → ℕ → Bool
should_create_automatically severity risk = is_critical severity || leb 90_000 risk

pub record SlaTarget : Type 0 where
  pub resolution_due_at : ℕ
  pub response_due_at : ℕ

unfoldable pub sla_target :
    (detected_at response_minutes resolution_minutes : ℕ) → Result PolicyError SlaTarget
sla_target detected_at response_minutes resolution_minutes =
    if ltb response_minutes 1 || leb resolution_minutes response_minutes
    then err invalid_sla
    else ok (record {
      resolution_due_at = detected_at + resolution_minutes * 60_000;
      response_due_at = detected_at + response_minutes * 60_000;
    })

-- `isResponseBreached` and `isResolutionBreached`: not done when due
unfoldable pub is_breached : (now due_at : ℕ) → Option ℕ → Bool
is_breached now due_at none = leb due_at now
is_breached now due_at (some _) = false
