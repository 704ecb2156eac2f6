-- ===== src/Incidents/UseCases.antt =====
-- `transition`, `updateAnalysis` and `assign` of `IncidentUseCases`
-- (apps/api/src/incidents/application/incident.use-cases.ts) with the request schemas of
-- packages/contracts/src/incidents.ts. A candidate has the properties of the right types.
pub mod Safety
pub mod Writes
use sentriqora.Base.{
  ℕ, Bool, true, false, Option, none, some, Text, trim, length, leb, Result, ok, err, ◌>>=◌, ensure,
  ◌==◌, find_first, ◌&&◌, if◌then◌else◌,
}
use sentriqora.Incidents.Policy.{Status, Analysis, PolicyError, assert_transition}
use sentriqora.Incidents.Store.{Incident, Db, is_incident}
use sentriqora.Incidents.Repository.{
  TransitionInput, MutationResult, success, not_found, conflict, Failure, Outcome, if_given,
  transition,
}
use sentriqora.Incidents.Mutations.{
  Change, left_out, clear, to, AnalysisInput, AssignInput, update_analysis, assign,
}

-- `AuthPrincipal`, as far as the use cases read it
pub record Principal : Type 0 where
  pub organization_id : ℕ
  pub user_id : ℕ
  pub mfa_verified : Bool

-- `ApplicationError`, a constructor for each code and message, and what else is thrown.
pub data AppError : Type 0 where
  forbidden mfa_required invalid_request missing modified : AppError
  refused : PolicyError → AppError
  failed : Failure → AppError

pub record TransitionCandidate : Type 0 where
  pub lessons_learned : Option Text
  pub reason : Text
  pub root_cause : Option Text
  pub status : Status
  pub version : ℕ

pub record AnalysisCandidate : Type 0 where
  pub lessons_learned : Change
  pub root_cause : Change
  pub version : ℕ

pub record AssignCandidate : Type 0 where
  pub assigned_membership_id : Option ℕ
  pub version : ℕ

-- `z.string().trim().min(low).max(high)`
unfoldable pub bounded : ℕ → ℕ → Text → Result AppError Text
bounded low high value =
    if leb low (length (trim value)) && leb (length (trim value)) high
    then ok (trim value)
    else err invalid_request

-- `.optional()`
unfoldable pub optional : ℕ → ℕ → Option Text → Result AppError (Option Text)
unfolding bounded
optional low high none = ok none
optional low high (some value) = do v ← bounded low high value; ok (some v)

-- `.nullable().optional()`
unfoldable pub nullable : ℕ → ℕ → Change → Result AppError Change
unfolding bounded
nullable low high left_out = ok left_out
nullable low high clear = ok clear
nullable low high (to value) = do v ← bounded low high value; ok (to v)

-- `z.number().int().min(1)`
unfoldable pub positive : ℕ → Result AppError ℕ
positive n = if leb 1 n then ok n else err invalid_request

unfoldable pub parse_transition : TransitionCandidate → Result AppError TransitionCandidate
unfolding optional positive
parse_transition c = do
  lessons ← optional 10 5000 c.lessons_learned
  reason ← bounded 5 1000 c.reason
  cause ← optional 10 5000 c.root_cause
  version ← positive c.version
  ok (record {
    lessons_learned = lessons;
    reason = reason;
    root_cause = cause;
    status = c.status;
    version = version;
  })

abbrev is_left_out : Change → Bool
is_left_out left_out = true
is_left_out _ = false

-- the `refine`: at least one of the two must be there
unfoldable pub parse_analysis : AnalysisCandidate → Result AppError AnalysisCandidate
unfolding nullable positive
parse_analysis c = do
  lessons ← nullable 10 5000 c.lessons_learned
  cause ← nullable 10 5000 c.root_cause
  version ← positive c.version
  (if is_left_out lessons && is_left_out cause
      then err invalid_request
      else ok (record { lessons_learned = lessons; root_cause = cause; version = version }))

-- `assertTenant`
unfoldable pub assert_tenant : Principal → ℕ → Result AppError (Unit {0})
assert_tenant principal organization = ensure (principal.organization_id == organization) forbidden

-- `assertMfa`
unfoldable pub assert_mfa : Principal → Result AppError (Unit {0})
assert_mfa principal = ensure principal.mfa_verified mfa_required

or_missing : Option Incident → Result AppError Incident
or_missing none = err missing
or_missing (some i) = ok i

-- `catch`: an `IncidentPolicyError` becomes a conflict
as_conflict : Result PolicyError (Unit {0}) → Result AppError (Unit {0})
as_conflict (ok _) = ok tt
as_conflict (err e) = err (refused e)

-- What a repository's method answers, with the state that it leaves.
unfoldable pub unwrap {ℓ κ} :
    {A : Type ℓ} {S : Type κ} → Result Failure (MutationResult A × S) → Result AppError (A × S)
unwrap (ok (success value, s)) = ok (value, s)
unwrap (ok (not_found, s)) = err missing
unwrap (ok (conflict, s)) = err modified
unwrap (err e) = err (failed e)

module _ {N : Type 0} where
  -- The first part of `transition`, up to the call of the repository: the transaction of
  -- `findIncident` reads `db`.
  unfoldable pub plan_transition :
      Principal → ℕ → ℕ → TransitionCandidate → Db N → Result AppError TransitionInput
  unfolding parse_transition assert_tenant assert_mfa or_missing as_conflict
  plan_transition principal organization id candidate db = do
    _ ← assert_tenant principal organization
    _ ← assert_mfa principal
    input ← parse_transition candidate
    current ← or_missing (find_first (is_incident organization id) db.incidents)
    _ ← as_conflict (
        assert_transition current.status input.status (record {
          lessons_learned = if_given input.lessons_learned current.lessons_learned;
          root_cause = if_given input.root_cause current.root_cause;
        }))
    ok (record {
      current_status = current.status;
      incident_id = id;
      organization_id = organization;
      reason = input.reason;
      status = input.status;
      user_id = principal.user_id;
      version = input.version;
      lessons_learned = input.lessons_learned;
      root_cause = input.root_cause;
    })

-- What `updateAnalysis` and `assign` pass to the repository.
abbrev pub analysis_input : Principal → ℕ → ℕ → AnalysisCandidate → AnalysisInput
analysis_input principal organization id input = record {
  incident_id = id;
  organization_id = organization;
  user_id = principal.user_id;
  version = input.version;
  lessons_learned = input.lessons_learned;
  root_cause = input.root_cause;
}

abbrev pub assign_input : Principal → ℕ → ℕ → Option ℕ → ℕ → AssignInput
assign_input principal organization id member version = record {
  assigned_membership_id = member;
  incident_id = id;
  organization_id = organization;
  user_id = principal.user_id;
  version = version;
}

module _ {N : Type 0} (uuid_text : ℕ → Text) where
  -- `transition`: `seen` is the database as `findIncident` reads it, `db` the one that the
  -- repository's own transaction finds, in which others may have written since.
  unfoldable pub transition_incident :
      ℕ
      → Principal
      → ℕ
      → ℕ
      → TransitionCandidate
      → (seen db : Db N) → Result AppError (Incident × Db N)
  transition_incident now principal organization id candidate seen db = do
    input ← plan_transition principal organization id candidate seen
    unwrap (transition uuid_text now input db)

  -- `updateAnalysis`
  unfoldable pub update_incident_analysis :
      ℕ → Principal → ℕ → ℕ → AnalysisCandidate → Db N → Result AppError (Incident × Db N)
  update_incident_analysis now principal organization id candidate db = do
    _ ← assert_tenant principal organization
    input ← parse_analysis candidate
    unwrap (update_analysis uuid_text now (analysis_input principal organization id input) db)

  -- `assign`
  unfoldable pub assign_incident :
      ℕ → Principal → ℕ → ℕ → AssignCandidate → Db N → Result AppError (Incident × Db N)
  assign_incident now principal organization id candidate db = do
    _ ← assert_tenant principal organization
    _ ← assert_mfa principal
    version ← positive candidate.version
    unwrap (
        assign uuid_text now
          (assign_input principal organization id candidate.assigned_membership_id version) db)
