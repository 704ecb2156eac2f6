-- ===== src/Identity/Mfa/Once.antt =====
-- A challenge is completed once, and no factor is good twice.
use sentriqora.Base.{
  ℕ, ◌≤◌, ◌≡◌, inl, inr, refl, Bool, true, false, List, ◌∷◌, any, any-eq-true, All, All-map, arith,
  count_where, count_where-none, Bool-cases,
}
use sentriqora.Identity.Store.{Accounts}
use sentriqora.Identity.Mfa.{is_unverified_of, accepts_counter}
use sentriqora.Identity.Mfa.Rows.{IsConsumed, HasReached, IsReached, IsUsed}
use sentriqora.Identity.Mfa.Operations.{IsConsistent}
use sentriqora.Identity.Mfa.Completing.{IsKeeping}
use sentriqora.Identity.Mfa.Histories.{Event, answers, uses_code, reaches, replays, is_increasing}

-- What an event has used up.
abbrev pub Traced : Accounts → Event → Type 0
Traced s e =
    ((challenge : ℕ) → answers challenge e ≡ true → IsConsumed s challenge)
    × ((user hash : ℕ) → uses_code user hash e ≡ true → IsUsed s user hash)
    × ((user counter : ℕ) → reaches user counter e ≡ true → IsReached s user counter)

pub record Holds (log : List Event) (s : Accounts) : Type 0 where
  pub consistent : IsConsistent s
  pub traced : All (Traced s) log
  pub once : (challenge : ℕ) → count_where (answers challenge) log ≤ 1
  pub codes : (user hash : ℕ) → count_where (uses_code user hash) log ≤ 1
  pub increasing : (user : ℕ) → is_increasing user log ≡ true

pub advance : (log : List Event) (s s' : Accounts) → IsKeeping s s' → Holds log s → Holds log s'
advance log s s' (keeps, consistent) h = record {
  consistent = consistent h.consistent;
  traced =
      All-map (Traced s) (Traced s') log
        (λ e (answered, used, reached). (
          λ challenge hit. keeps.consumed challenge (answered challenge hit),
          λ user hash hit. keeps.used user hash (used user hash hit),
          λ user counter hit. keeps.reached user counter (reached user counter hit),
        ))
        h.traced;
  once = h.once;
  codes = h.codes;
  increasing = h.increasing;
}

-- No event has a property that the state refutes.
pub unseen :
    (P : Type 0) (p : Event → Bool) (s : Accounts) (log : List Event)
    → ((e : Event) → Traced s e → p e ≡ true → P)
    → (P → ⊥)
    → All (Traced s) log
    → All (λ e. p e ≡ false) log
unseen P p s log means never traced =
    All-map (Traced s) (λ e. p e ≡ false) log
      (λ e trace. elim (Bool-cases (p e)) [
        | inl hit ↦ absurd (never (means e trace hit))
        | inr miss ↦ miss
      ])
      traced

-- A counter that is accepted is above those that were.
pub good_counter_new :
    (s : Accounts) (user counter : ℕ)
    → any (accepts_counter user counter) s.mfa_methods ≡ true
    → IsReached s user counter
    → ⊥
good_counter_new s user counter good k =
    let (m, reached, hit) =
      any-eq-true (HasReached user counter) (accepts_counter user counter) s.mfa_methods good
        k.rows in
    ground (arith, hit, reached (ground (arith, hit)))

pub unverified_new :
    (s : Accounts) (user counter : ℕ)
    → any (is_unverified_of user) s.mfa_methods ≡ true
    → IsReached s user counter
    → ⊥
unverified_new s user counter single k =
    let (m, reached, hit) =
      any-eq-true (HasReached user counter) (is_unverified_of user) s.mfa_methods single k.rows in
    ground (arith, hit, reached (ground (arith, hit)))

-- A counter that is reached was reached at each lower one.
pub lower-IsReached :
    (s : Accounts) (user counter lower : ℕ)
    → lower ≤ counter
    → IsReached s user counter
    → IsReached s user lower
lower-IsReached s user counter lower le k = record {
  present = k.present;
  rows =
      All-map (HasReached user counter) (HasReached user lower) s.mfa_methods
        (λ m h mine. ground (arith, le, h mine)) k.rows;
}

-- A step that adds an event: `s` is the state before it, and `s'` the one after it.
pub log_event :
    (log : List Event) (s s' : Accounts) (e : Event)
    → IsKeeping s s'
    → Traced s' e
    → ((challenge : ℕ) → answers challenge e ≡ true → IsConsumed s challenge → ⊥)
    → ((user hash : ℕ) → uses_code user hash e ≡ true → IsUsed s user hash → ⊥)
    → ((user : ℕ) → replays user log e ≡ false)
    → Holds log s
    → Holds (e ∷ log) s'
unfolding count_where is_increasing
log_event log s s' e keeping trace new_challenge new_code new_counter h =
    let after = advance log s s' keeping h in
    record {
      consistent = after.consistent;
      traced = (trace, after.traced);
      once = λ challenge. elim (Bool-cases (answers challenge e)) [
        | inl hit ↦ rw hit (
            omega (
              arith,
              count_where-none (answers challenge) log (
                  unseen (IsConsumed s challenge) (answers challenge) s log
                    (λ e trace hit. trace.0 challenge hit) (new_challenge challenge hit) h.traced),
            ))
        | inr miss ↦ rw miss (h.once challenge)
      ];
      codes = λ user hash. elim (Bool-cases (uses_code user hash e)) [
        | inl hit ↦ rw hit (
            omega (
              arith,
              count_where-none (uses_code user hash) log (
                  unseen (IsUsed s user hash) (uses_code user hash) s log
                    (λ e trace hit. trace.1 user hash hit) (new_code user hash hit) h.traced),
            ))
        | inr miss ↦ rw miss (h.codes user hash)
      ];
      increasing = λ user. rw (h.increasing user, new_counter user) refl;
    }
