-- ===== src/Identity/Mfa/Completing.antt =====
-- The completion of a challenge: what it keeps, and what it uses up.
use sentriqora.Base.{
  ℕ, ◌≤◌, ◌<◌, ◌≡◌, refl, sym, subst, Bool, true, false, ◌==◌, ==→eq, some, any, All, All-map,
  any-implies, any-eq-true, find_first, find_first-All, update_where, update_where-All, count_where,
  count_where-any, count_where-zero, count_where-update_where, count_where-update_where-le,
  All-unit, arith, Bool-cases, Option-cases, inl, inr,
}
use sentriqora.Identity.Store.{MfaChallenge, Accounts, is_none, EventRecord, record_event}
use sentriqora.Identity.Mfa.{
  count_attempt, consume_challenge, Completion, is_method_of, is_open_challenge, is_same_challenge,
  is_answerable, consume_factor, miss_challenge, close_challenge, finish_challenge,
  consume_mfa_challenge, completed_event,
}
use sentriqora.Identity.Mfa.Rows.{
  IsConsumed, Keeps, Keeps-trans, IsSame, same-Keeps, challenges-Keeps,
}
use sentriqora.Identity.Mfa.Operations.{IsConsistent}
use sentriqora.Identity.Mfa.Factors.{
  Factor, totp, recovery, factor_of, IsFactorSpent, IsFactorGood, IsFactorUse, factor_use,
}

close_shut :
    (now id : ℕ) (c : MfaChallenge)
    → is_open_challenge id c ≡ false
    → is_open_challenge id (consume_challenge now c) ≡ false
close_shut now id c h = ground arith

-- A challenge that was answered is open no more.
closed-IsConsumed :
    (now : ℕ) (c : MfaChallenge) (s : Accounts)
    → IsConsistent s
    → count_where (is_same_challenge c.attempts c.id) s.mfa_challenges ≡ 1
    → IsConsumed (close_challenge now c s) c.id
unfolding close_challenge
closed-IsConsumed now c s k single = record {
  below =
      let (d, below, hit) =
        any-eq-true (λ d. d.id < s.next_id) (is_same_challenge c.attempts c.id) s.mfa_challenges
          (count_where-any (is_same_challenge c.attempts c.id) s.mfa_challenges 0 single)
          k.bounded in
      ground (arith, below, hit);
  consumed = count_where-zero (is_open_challenge c.id) _ (
      omega (
        arith,
        single,
        k.one_open c.id,
        count_where-update_where (is_open_challenge c.id) (is_same_challenge c.attempts c.id)
            (consume_challenge now) s.mfa_challenges (λ d. ground arith)
            (All-map (λ _. Unit {0})
              (λ d. is_same_challenge c.attempts c.id d ≡ true → is_open_challenge c.id d ≡ true)
              s.mfa_challenges (λ d _ hit. ground (arith, hit)) (All-unit s.mfa_challenges)),
      ));
}

-- An update of challenges that opens none keeps the invariant.
pub challenges-IsConsistent :
    (s : Accounts) (q : MfaChallenge → Bool) (f : MfaChallenge → MfaChallenge)
    → ((c : MfaChallenge) → (f c).id ≡ c.id)
    → ((c : MfaChallenge) → is_none (f c).consumed_at ≡ true → is_none c.consumed_at ≡ true)
    → IsConsistent s
    → IsConsistent (record s { mfa_challenges = update_where q f s.mfa_challenges })
challenges-IsConsistent s q f same_id shut k = record {
  one_method = k.one_method;
  one_open = λ id. omega (
    arith,
    k.one_open id,
    count_where-update_where-le (is_open_challenge id) q f s.mfa_challenges
        (λ c now. ground (arith, same_id c, shut c, now)),
  );
  bounded =
      update_where-All (λ c. c.id < s.next_id) (λ c. c.id < s.next_id) q f s.mfa_challenges
        (λ c _ h. omega (arith, h, same_id c)) (λ c h. h) k.bounded;
}

-- What keeps the invariant and what was used up.
abbrev pub IsKeeping : Accounts → Accounts → Type 0
IsKeeping s s' = Keeps s s' × (IsConsistent s → IsConsistent s')

pub IsKeeping-trans : (s s' s'' : Accounts) → IsKeeping s s' → IsKeeping s' s'' → IsKeeping s s''
IsKeeping-trans s s' s'' (keeps, consistent) (keeps', consistent') =
    (Keeps-trans s s' s'' keeps keeps', λ c. consistent' (consistent c))

pub same-IsConsistent : (s s' : Accounts) → IsSame s s' → IsConsistent s → IsConsistent s'
same-IsConsistent s s' e k = record {
  one_method = λ user.
      subst (λ ms. count_where (is_method_of user) ms ≤ 1) (sym e.mfa_methods) (k.one_method user);
  one_open = λ id.
      subst (λ cs. count_where (is_open_challenge id) cs ≤ 1) (sym e.mfa_challenges)
        (k.one_open id);
  bounded = subst (All (λ c. c.id < s'.next_id)) (sym e.mfa_challenges) (
      All-map (λ c. c.id < s.next_id) (λ c. c.id < s'.next_id) s.mfa_challenges
        (λ c h. omega (arith, h, e.next_id)) k.bounded);
}

pub same-IsKeeping : (s s' : Accounts) → IsSame s s' → IsKeeping s s'
same-IsKeeping s s' e = (same-Keeps s s' e, same-IsConsistent s s' e)

miss-IsKeeping : (c : MfaChallenge) (s : Accounts) → IsKeeping s (miss_challenge c s)
unfolding miss_challenge
miss-IsKeeping c s = (
  challenges-Keeps s _ count_attempt (λ id d h. h),
  challenges-IsConsistent s _ count_attempt (λ d. refl) (λ d h. h),
)

close-IsKeeping :
    (now : ℕ) (c : MfaChallenge) (s : Accounts) → IsKeeping s (close_challenge now c s)
unfolding close_challenge
close-IsKeeping now c s = (
  challenges-Keeps s _ (consume_challenge now) (close_shut now),
  challenges-IsConsistent s _ (consume_challenge now) (λ d. refl) (λ d h. absurd (cc)),
)

-- A completion that succeeds: its factor was good, and the factor and the challenge are used up.
pub record IsCompleted (now : ℕ) (i : Completion) (s s' : Accounts) : Type 0 where
  pub factor : Factor
  pub given : factor_of i ≡ some factor
  pub good : IsFactorGood s i.user_id factor
  pub open_before : any (is_open_challenge i.challenge_id) s.mfa_challenges ≡ true
  pub spent : IsFactorSpent s' i.user_id factor
  pub consumed : IsConsumed s' i.challenge_id

pub IsFactorSpent-kept :
    (s s' : Accounts) (user : ℕ) (f : Factor)
    → Keeps s s'
    → IsFactorSpent s user f
    → IsFactorSpent s' user f
IsFactorSpent-kept s s' user (totp counter) keeps k = keeps.reached user counter k
IsFactorSpent-kept s s' user (recovery hash) keeps k = keeps.used user hash k

-- What `consumeMfaChallenge` does, in either case.
abbrev pub CompletionCases : ℕ → Completion → Accounts → Bool → Accounts → Type 0
CompletionCases now i s answer s' =
    IsKeeping s s' × (IsConsistent s → answer ≡ true → IsCompleted now i s s')

pub event-IsKeeping : (s : Accounts) (e : EventRecord) → IsKeeping s (record_event e s)
unfolding record_event
event-IsKeeping s e = same-IsKeeping s _ (record {
  mfa_challenges = refl;
  mfa_methods = refl;
  recovery_codes = refl;
  next_id = omega arith;
})

module _ (now : ℕ) (i : Completion) (c : MfaChallenge) (s : Accounts)
    (mine : c.id ≡ i.challenge_id) where
  finish_cases :
      (good : Bool) (s₁ : Accounts)
      → IsFactorUse i s good s₁
      → CompletionCases now i s
          (finish_challenge now i c (good, s₁)).0
          (finish_challenge now i c (good, s₁)).1
  unfolding finish_challenge
  finish_cases false s₁ spending = (
    IsKeeping-trans s s₁ _ (spending.keeps, spending.consistent) (miss-IsKeeping c s₁),
    λ k answer. absurd (cc),
  )
  finish_cases true s₁ spending =
      elim (Bool-cases (count_where (is_same_challenge c.attempts c.id) s₁.mfa_challenges == 1)) [
        | inr gone ↦ rw gone (
          IsKeeping-trans s s₁ _ (spending.keeps, spending.consistent) (close-IsKeeping now c s₁),
          λ k answer. absurd (cc),
        )
        | inl single ↦ rw single (
          IsKeeping-trans s s₁ _ (spending.keeps, spending.consistent) last,
          λ k _. completed (==→eq _ 1 single) k,
        )
      ]
    where
      last : IsKeeping s₁ (record_event (completed_event i c) (close_challenge now c s₁))
      last =
          IsKeeping-trans s₁ (close_challenge now c s₁) _ (close-IsKeeping now c s₁)
            (event-IsKeeping (close_challenge now c s₁) (completed_event i c))

      completed :
          count_where (is_same_challenge c.attempts c.id) s₁.mfa_challenges ≡ 1
          → IsConsistent s
          → IsCompleted now i s (record_event (completed_event i c) (close_challenge now c s₁))
      completed single k =
          let (f, given, good, spent) = spending.spent k refl in
          record {
            factor = f;
            given = given;
            good = good;
            open_before =
                subst (λ j. any (is_open_challenge j) s.mfa_challenges ≡ true) mine
                  (subst (λ cs. any (is_open_challenge c.id) cs ≡ true) spending.mfa_challenges
                    (any-implies (is_same_challenge c.attempts c.id) (is_open_challenge c.id)
                      s₁.mfa_challenges (λ d hit. ground (arith, hit))
                      (count_where-any (is_same_challenge c.attempts c.id) s₁.mfa_challenges 0
                        single)));
            spent = IsFactorSpent-kept s₁ _ i.user_id f last.0 spent;
            consumed =
                (event-IsKeeping (close_challenge now c s₁) (completed_event i c)).0.consumed
                  i.challenge_id
                  (subst (IsConsumed (close_challenge now c s₁)) mine
                    (closed-IsConsumed now c s₁ (spending.consistent k) single));
          }

  pub finished :
      CompletionCases now i s
        (finish_challenge now i c (consume_factor now i s)).0
        (finish_challenge now i c (consume_factor now i s)).1
  finished = finish_cases _ _ (factor_use now i s)

pub self-IsKeeping : (s : Accounts) → IsKeeping s s
self-IsKeeping s = same-IsKeeping s s (record {
  mfa_challenges = refl;
  mfa_methods = refl;
  recovery_codes = refl;
  next_id = omega arith;
})

-- What a completion does, whatever it has read.
pub consume_cases :
    (now : ℕ) (i : Completion) (seen s : Accounts)
    → CompletionCases now i s
        (consume_mfa_challenge now i seen s).0
        (consume_mfa_challenge now i seen s).1
unfolding consume_mfa_challenge
consume_cases now i seen s =
    elim (Option-cases (find_first (is_answerable now i) seen.mfa_challenges)) [
      | inl missing ↦
          rw (missing, consume_mfa_challenge) (self-IsKeeping s, λ k answer. absurd (cc))
      | inr (c, found) ↦
          (let (_, hit) =
              find_first-All (λ _. Unit {0}) (is_answerable now i) seen.mfa_challenges
                (All-unit seen.mfa_challenges) found in
            rw (found, consume_mfa_challenge)
              (finished now i c s (==→eq c.id i.challenge_id (ground (arith, hit)))))
    ]
