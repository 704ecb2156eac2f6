-- ===== src/Identity/Mfa/Guarantees.antt =====
-- Every history of second factors has the invariant, and what follows.
use sentriqora.Base.{
  ℕ, ◌≤◌, ◌≡◌, inl, inr, refl, sym, ap, subst, Bool, true, false, ◌==◌, ==→eq, some, List, [], ◌∷◌,
  ok, ok_of_bind, ok-injective, ok_of_transaction, any, any-false, arith, count_where,
  count_where-any, count_where-update_where-le, update_where, Bool-cases,
}
use sentriqora.Identity.Store.{RecoveryCode, Accounts}
use sentriqora.Identity.Mfa.{
  Completion, is_method_of, is_unverified_of, accepts_counter, is_unused_code, is_open_challenge,
  consume_mfa_challenge, activate_mfa, activate_body, insert_codes, verify,
}
use sentriqora.Identity.Mfa.Rows.{IsConsumed, IsReached, IsUsed, codes-Keeps, verify-Keeps}
use sentriqora.Identity.Mfa.Operations.{IsConsistent, insert_codes-used, verified-IsReached}
use sentriqora.Identity.Mfa.Factors.{Factor, totp, recovery, factor_of, IsFactorSpent, IsFactorGood}
use sentriqora.Identity.Mfa.Completing.{
  IsKeeping, IsCompleted, CompletionCases, IsKeeping-trans, same-IsKeeping, event-IsKeeping,
  consume_cases,
}
use sentriqora.Identity.Mfa.Enrolling.{challenge-IsKeeping, enroll-IsKeeping}
use sentriqora.Identity.Mfa.Histories.{
  Event, completed, activated, History, start, challenges, completes, fails, enrolls, activates,
  changes, answers, uses_code, reaches, replays, is_increasing,
}
use sentriqora.Identity.Mfa.Once.{
  Traced, Holds, advance, log_event, unseen, good_counter_new, unverified_new, lower-IsReached,
}

-- An activation that does not throw: it verifies a method that was not, and reaches its counter.
pub record IsActivated (user counter : ℕ) (s s' : Accounts) : Type 0 where
  pub unverified : any (is_unverified_of user) s.mfa_methods ≡ true
  pub reached : IsReached s' user counter
  pub keeping : IsKeeping s s'

module _ (now organization user : ℕ) (hashes : List ℕ) (counter : ℕ) (s : Accounts) where
  abbrev verified : Accounts
  verified = record s {
    mfa_methods = update_where (is_unverified_of user) (verify now counter) s.mfa_methods;
  }

  verified-IsKeeping : IsKeeping s verified
  verified-IsKeeping = (
    verify-Keeps s now user counter,
    λ k. record {
      one_method = λ owner. omega (
        arith,
        k.one_method owner,
        count_where-update_where-le (is_method_of owner) (is_unverified_of user)
            (verify now counter) s.mfa_methods (λ m h. h),
      );
      one_open = k.one_open;
      bounded = k.bounded;
    },
  )

  codes-IsKeeping :
      (codes : List RecoveryCode)
      → insert_codes user hashes s.recovery_codes ≡ ok codes
      → IsKeeping verified (record verified { recovery_codes = codes })
  codes-IsKeeping codes inserted = (
    codes-Keeps verified codes λ owner hash k.
        (let (present, used) =
            insert_codes-used user hashes s.recovery_codes codes owner hash inserted k.present
              k.used in
          record { present = present; used = used }),
    λ k. record { one_method = k.one_method; one_open = k.one_open; bounded = k.bounded },
  )

  pub activate-IsActivated :
      (s' : Accounts)
      → IsConsistent s
      → activate_mfa now organization user hashes counter s ≡ (ok true, s')
      → IsActivated user counter s s'
  unfolding activate_mfa activate_body
  activate-IsActivated s' k h =
      let done = ok_of_transaction (activate_body now organization user hashes counter) s h in
      elim (Bool-cases (count_where (is_unverified_of user) s.mfa_methods == 1)) [
        | inr none_left ↦ absurd (let e = ok-injective (rw none_left at done) in cc)
        | inl single ↦
            (let (codes, inserted, returned) =
                ok_of_bind (insert_codes user hashes s.recovery_codes) _ (rw single at done) in
              let after = ap (λ p. p.1) (ok-injective returned) in
              let one = ==→eq (count_where (is_unverified_of user) s.mfa_methods) 1 single in
              let with_codes = codes-IsKeeping codes inserted in
              let event = event-IsKeeping (record verified { recovery_codes = codes }) _ in
              let rest =
                IsKeeping-trans verified (record verified { recovery_codes = codes }) s' with_codes
                  (subst (IsKeeping (record verified { recovery_codes = codes })) after event) in
              record {
                unverified = count_where-any (is_unverified_of user) s.mfa_methods 0 one;
                reached = rest.0.reached user counter (verified-IsReached s user counter k now one);
                keeping = IsKeeping-trans s verified s' verified-IsKeeping rest;
              })
      ]

-- What a completion is to the log.
module _ (log : List Event) (now : ℕ) (i : Completion) (s s' : Accounts) (h : Holds log s)
    (done : IsCompleted now i s s') where
  abbrev event : Event
  event = completed i.challenge_id i.user_id (factor_of i)

  completed_challenge :
      (challenge : ℕ) → answers challenge event ≡ true → i.challenge_id ≡ challenge
  completed_challenge challenge hit = ==→eq i.challenge_id challenge hit

  completed_trace :
      (f : Factor)
      → IsFactorSpent s' i.user_id f
      → Traced s' (completed i.challenge_id i.user_id (some f))
  completed_trace (totp n) spent = (
    λ challenge hit. subst (IsConsumed s') (==→eq i.challenge_id challenge hit) done.consumed,
    λ user hash hit. absurd (cc),
    λ user counter hit.
        lower-IsReached s' user n counter (ground (arith, hit))
          (subst (λ u. IsReached s' u n) (==→eq i.user_id user (ground (arith, hit))) spent),
  )
  completed_trace (recovery n) spent = (
    λ challenge hit. subst (IsConsumed s') (==→eq i.challenge_id challenge hit) done.consumed,
    λ user hash hit.
        subst (λ u. IsUsed s' u hash) (==→eq i.user_id user (ground (arith, hit)))
          (subst (IsUsed s' i.user_id) (==→eq n hash (ground (arith, hit))) spent),
    λ user counter hit. absurd (cc),
  )

  new_code :
      (f : Factor)
      → IsFactorGood s i.user_id f
      → (user hash : ℕ) → uses_code user hash (completed i.challenge_id i.user_id (some f)) ≡ true
      → IsUsed s user hash
      → ⊥
  new_code (totp n) good user hash hit used = cc
  new_code (recovery n) good user hash hit used =
      let good' =
        subst (λ u. any (is_unused_code u hash) s.recovery_codes ≡ true)
          (==→eq i.user_id user (ground (arith, hit)))
          (subst (λ m. any (is_unused_code i.user_id m) s.recovery_codes ≡ true)
            (==→eq n hash (ground (arith, hit))) good) in
      ground (arith, good', used.used)

  new_counter :
      (f : Factor)
      → IsFactorGood s i.user_id f
      → (user : ℕ) → replays user log (completed i.challenge_id i.user_id (some f)) ≡ false
  new_counter (recovery n) good user = refl
  new_counter (totp n) good user = elim (Bool-cases (i.user_id == user)) [
    | inr other ↦ rw other refl
    | inl same ↦ rw same (
        any-false (reaches user n) log (
          unseen (IsReached s user n) (reaches user n) s log (λ e trace hit. trace.2 user n hit)
            (good_counter_new s user n (
              subst (λ u. any (accepts_counter u n) s.mfa_methods ≡ true)
                (==→eq i.user_id user same) good))
            h.traced))
  ]

  pub completed-Holds : IsKeeping s s' → Holds (event ∷ log) s'
  completed-Holds keeping =
      subst (λ f. Holds (completed i.challenge_id i.user_id f ∷ log) s') (sym done.given)
        (log_event log s s' _ keeping (completed_trace done.factor done.spent)
          (λ challenge hit k.
            let open_before =
              subst (λ c. any (is_open_challenge c) s.mfa_challenges ≡ true)
                (==→eq i.challenge_id challenge hit) done.open_before in
            ground (arith, open_before, k.consumed))
          (new_code done.factor done.good) (new_counter done.factor done.good) h)

activated-Holds :
    (log : List Event) (user counter : ℕ) (s s' : Accounts)
    → IsActivated user counter s s'
    → Holds log s
    → Holds (activated user counter ∷ log) s'
activated-Holds log user counter s s' done h =
    log_event log s s' (activated user counter) done.keeping
      (
        λ challenge hit. absurd (cc),
        λ owner hash hit. absurd (cc),
        λ owner lower hit. lower-IsReached s' owner counter lower (ground (arith, hit)) (
            subst (λ u. IsReached s' u counter) (==→eq user owner (ground (arith, hit)))
              done.reached),
      )
      (λ challenge hit k. absurd (cc)) (λ owner hash hit k. absurd (cc))
      (λ owner. elim (Bool-cases (user == owner)) [
        | inr other ↦ rw other refl
        | inl same ↦ rw same (
            any-false (reaches owner counter) log (
              unseen (IsReached s owner counter) (reaches owner counter) s log
                (λ e trace hit. trace.2 owner counter hit)
                (unverified_new s owner counter (
                  subst (λ u. any (is_unverified_of u) s.mfa_methods ≡ true) (==→eq user owner same)
                    done.unverified))
                h.traced))
      ])
      h

start-Holds : (s : Accounts) → s.mfa_methods ≡ [] → s.mfa_challenges ≡ [] → Holds [] s
unfolding count_where is_increasing
start-Holds s no_methods no_challenges = record {
  consistent = record {
    one_method = λ user. rw no_methods (omega arith);
    one_open = λ id. rw no_challenges (omega arith);
    bounded = rw no_challenges tt;
  };
  traced = tt;
  once = λ challenge. omega arith;
  codes = λ user hash. omega arith;
  increasing = λ user. refl;
}

-- A completion is what `consume_cases` says, with its answer and state named.
completion_cases :
    (now : ℕ) (i : Completion) (seen s s' : Accounts) (answer : Bool)
    → consume_mfa_challenge now i seen s ≡ (answer, s')
    → CompletionCases now i s answer s'
completion_cases now i seen s s' answer done =
    subst (λ p. CompletionCases now i s p.0 p.1) done (consume_cases now i seen s)

History-Holds :
    {past : List Accounts} {log : List Event} {s : Accounts} → History past log s → Holds log s
History-Holds (start s no_methods no_challenges) = start-Holds s no_methods no_challenges
History-Holds (challenges organization user expires h) =
    advance _ _ _ (challenge-IsKeeping organization user expires _) (History-Holds h)
History-Holds (completes now i seen s' h earlier done) =
    let held = History-Holds h in
    let (keeping, completed_by) = completion_cases now i seen _ s' true done in
    completed-Holds _ now i _ s' held (completed_by held.consistent refl) keeping
History-Holds (fails now i seen s' h earlier done) =
    advance _ _ s' (completion_cases now i seen _ s' false done).0 (History-Holds h)
History-Holds (enrolls i h) = advance _ _ _ (enroll-IsKeeping i _) (History-Holds h)
History-Holds (activates now organization user hashes counter s' h done) =
    let held = History-Holds h in
    activated-Holds _ user counter _ s'
      (activate-IsActivated now organization user hashes counter _ s' held.consistent done) held
History-Holds (changes s' h same) = advance _ _ s' (same-IsKeeping _ s' same) (History-Holds h)

-- In every history in which no enrolment is raced, whatever earlier state each completion has read, a
-- challenge is completed at most once.
pub challenge_once :
    {past : List Accounts} {log : List Event} {s : Accounts}
    → History past log s
    → (challenge : ℕ) → count_where (answers challenge) log ≤ 1
challenge_once h challenge = (History-Holds h).once challenge

-- In every history of the operations on second factors in which no enrolment is raced, no factor is
-- good twice: a recovery code of a user is accepted at most once, and the counters of the accepted
-- TOTP codes of a user, that of the activation included, only increase.
pub factors_once :
    {past : List Accounts} {log : List Event} {s : Accounts}
    → History past log s
    → (user : ℕ)
    → (is_increasing user log ≡ true) × ((hash : ℕ) → count_where (uses_code user hash) log ≤ 1)
factors_once h user = ((History-Holds h).increasing user, λ hash. (History-Holds h).codes user hash)
