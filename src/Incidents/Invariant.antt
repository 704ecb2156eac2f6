-- ===== src/Incidents/Invariant.antt =====
-- The invariant of the incidents: what the columns of a row say agrees with its status.
use sentriqora.Base.{
  ℕ, ◌≡◌, refl, subst, Bool, true, false, Option, none, some, List, All, All-both, Agrees,
  update_where, update_where-All, update_where-Agrees, on_match,
}
use sentriqora.Incidents.Policy.{
  Status, opened, triaged, investigating, contained, resolved, closed, Analysis, is_status,
}
use sentriqora.Incidents.Policy.Laws.{
  Requires, Edge, triage, dismiss, start, dismiss_triaged, contain, resolve, resume,
  resolve_contained, finish, reopen_resolved, reopen,
}
use sentriqora.Incidents.Store.{Incident}
use sentriqora.Incidents.Repository.{
  TransitionInput, set_status, next_responded, next_resolved, next_closed, if_given, or_now,
}

abbrev pub Present : Option ℕ → Type 0
Present o = (t : ℕ) × (o ≡ some t)

abbrev pub analysis_of : Incident → Analysis
analysis_of i = record { lessons_learned = i.lessons_learned; root_cause = i.root_cause }

-- Which of the times of response, resolution and closure are set in each status.
abbrev pub TimesOf : Status → Option ℕ → Option ℕ → Option ℕ → Type 0
TimesOf opened r s c = (r ≡ none) × (s ≡ none) × (c ≡ none)
TimesOf triaged r s c = Present r × (s ≡ none) × (c ≡ none)
TimesOf investigating r s c = Present r × (s ≡ none) × (c ≡ none)
TimesOf contained r s c = Present r × (s ≡ none) × (c ≡ none)
TimesOf resolved r s c = Present r × Present s × (c ≡ none)
TimesOf closed r s c = Present r × Present s × Present c

abbrev pub Stamped : Status → Incident → Type 0
Stamped at i = TimesOf at i.first_responded_at i.resolved_at i.closed_at

-- A solved incident has its root cause, a closed one its lessons, and the times fit the status.
pub record IsWellFormed (i : Incident) : Type 0 where
  pub analysis : Requires i.status (analysis_of i)
  pub stamped : Stamped i.status i

-- One row to a key, each of them well formed.
pub record IsSound (rows : List Incident) : Type 0 where
  pub row : ℕ → Incident
  pub keyed : Agrees (λ (i : Incident). i.id) row rows
  pub formed : All IsWellFormed rows

-- An update that keeps the key.
pub update-IsSound :
    (p : Incident → Bool) (f : Incident → Incident) (rows : List Incident) (h : IsSound rows)
    → ((i : Incident) → (f i).id ≡ i.id)
    → ((i : Incident) → p i ≡ true → i ≡ h.row i.id → IsWellFormed i → IsWellFormed (f i))
    → IsSound (update_where p f rows)
update-IsSound p f rows h same keep = record {
  row = λ k. on_match p f (h.row k);
  keyed = update_where-Agrees (λ (i : Incident). i.id) p f h.row rows same h.keyed;
  formed =
      update_where-All _ _ p f rows (λ i hit both. keep i hit both.0 both.1) (λ i both. both.1)
        (All-both _ _ rows h.keyed h.formed);
}

Present-or_now : (o : Option ℕ) (now : ℕ) → Present (or_now o now)
Present-or_now none now = (now, refl)
Present-or_now (some t) now = (t, refl)

Present-next :
    (o : Option ℕ) (now : ℕ) (target : Status)
    → is_status target opened ≡ false
    → Present (next_responded target now o o)
Present-next none now target h = (now, rw h)
Present-next (some t) now target h = (t, refl)

-- The times after a move of the life cycle.
TimesOf-next :
    {from target : Status} (now : ℕ) (r s c : Option ℕ)
    → Edge from target
    → TimesOf from r s c
    → TimesOf target
        (next_responded target now r r)
        (next_resolved from target now s s)
        (next_closed from target now c)
TimesOf-next now r s c triage h = (Present-next r now triaged refl, h.1, h.2)
TimesOf-next now r s c dismiss h =
    (Present-next r now closed refl, Present-or_now s now, (now, refl))
TimesOf-next now r s c start h = (Present-next r now investigating refl, h.1, h.2)
TimesOf-next now r s c dismiss_triaged h =
    (Present-next r now closed refl, Present-or_now s now, (now, refl))
TimesOf-next now r s c contain h = (Present-next r now contained refl, h.1, h.2)
TimesOf-next now r s c resolve h = (Present-next r now resolved refl, (now, refl), h.2)
TimesOf-next now r s c resume h = (Present-next r now investigating refl, h.1, h.2)
TimesOf-next now r s c resolve_contained h = (Present-next r now resolved refl, (now, refl), h.2)
TimesOf-next now r s c finish h =
    (Present-next r now closed refl, Present-or_now s now, (now, refl))
TimesOf-next now r s c reopen_resolved h = (Present-next r now investigating refl, refl, refl)
TimesOf-next now r s c reopen h = (Present-next r now investigating refl, refl, refl)

pub set_status-IsWellFormed :
    (now : ℕ) (input : TransitionInput) (i : Incident)
    → i.status ≡ input.current_status
    → Edge i.status input.status
    → Requires input.status (record {
      lessons_learned = if_given input.lessons_learned i.lessons_learned;
      root_cause = if_given input.root_cause i.root_cause;
    })
    → IsWellFormed i
    → IsWellFormed (set_status now input i i)
unfolding set_status
set_status-IsWellFormed now input i at move needs h = record {
  analysis = needs;
  stamped =
      subst
        (λ from.
          TimesOf input.status
            (next_responded input.status now i.first_responded_at i.first_responded_at)
            (next_resolved from input.status now i.resolved_at i.resolved_at)
            (next_closed from input.status now i.closed_at))
        at (TimesOf-next now i.first_responded_at i.resolved_at i.closed_at move h.stamped);
}

pub id-set_status :
    (now : ℕ) (input : TransitionInput) (existing i : Incident)
    → (set_status now input existing i).id ≡ i.id
unfolding set_status
id-set_status now input existing i = refl
