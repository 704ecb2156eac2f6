-- ===== src/Identity/Mfa/Factors.antt =====
-- The factor of a completion: a TOTP counter or a recovery code.
use sentriqora.Base.{
  ℕ, ◌≡◌, refl, sym, ◌∙◌, subst, Bool, true, false, ==→eq, Option, none, some, any, any-false,
  any-update_where, any-implies, update_where, update_where-All_split, count_where, count_where-any,
  count_where-update_where-le, All-unit, arith, Option-cases, inl, inr,
}
use sentriqora.Identity.Store.{Accounts}
use sentriqora.Identity.Mfa.{
  use_code, Completion, is_method_of, accepts_counter, is_code, is_unused_code, use_counter,
  consume_counter, consume_code, consume_factor,
}
use sentriqora.Identity.Mfa.Rows.{
  IsReached, IsUsed, Keeps, same-Keeps, use_counter-Keeps, use_code-Keeps,
}
use sentriqora.Identity.Mfa.Operations.{IsConsistent, used_counter-IsReached}

-- The factor of a completion.
pub data Factor : Type 0 where
  totp recovery : ℕ → Factor

abbrev pub factor_of : Completion → Option Factor
factor_of i = elim i.totp_counter [
  | some counter ↦ some (totp counter)
  | none ↦ elim i.recovery_code_hash [ some hash ↦ some (recovery hash) | none ↦ none ]
]

-- The factor is used up.
abbrev pub IsFactorSpent : Accounts → ℕ → Factor → Type 0
IsFactorSpent s user (totp counter) = IsReached s user counter
IsFactorSpent s user (recovery hash) = IsUsed s user hash

-- The factor was good.
abbrev pub IsFactorGood : Accounts → ℕ → Factor → Type 0
IsFactorGood s user (totp counter) = any (accepts_counter user counter) s.mfa_methods ≡ true
IsFactorGood s user (recovery hash) = any (is_unused_code user hash) s.recovery_codes ≡ true

code-IsUsed :
    (now : ℕ) (s : Accounts) (user hash : ℕ)
    → count_where (is_unused_code user hash) s.recovery_codes ≡ 1
    → IsUsed
        (record s {
          recovery_codes = update_where (is_unused_code user hash) (use_code now) s.recovery_codes;
        })
        user
        hash
code-IsUsed now s user hash single = record {
  present =
      any-update_where (is_code user hash) (is_unused_code user hash) (use_code now)
        s.recovery_codes (λ c _. refl)
      ∙ any-implies (is_unused_code user hash) (is_code user hash) s.recovery_codes
          (λ c hit. ground (arith, hit))
          (count_where-any (is_unused_code user hash) s.recovery_codes 0 single);
  used = any-false (is_unused_code user hash) _ (
      update_where-All_split (λ _. Unit {0}) (λ c. is_unused_code user hash c ≡ false)
        (is_unused_code user hash) (use_code now) s.recovery_codes (λ c _ _. ground arith)
        (λ c miss _. miss) (All-unit s.recovery_codes));
}

-- What the use of a factor does, good or not.
pub record IsFactorUse (i : Completion) (s : Accounts) (good : Bool) (s₁ : Accounts) : Type 0 where
  pub keeps : Keeps s s₁
  pub mfa_challenges : s₁.mfa_challenges ≡ s.mfa_challenges
  pub next_id : s₁.next_id ≡ s.next_id
  pub consistent : IsConsistent s → IsConsistent s₁
  pub spent :
      IsConsistent s
      → good ≡ true
      → (f : Factor) × (factor_of i ≡ some f)
        × IsFactorGood s i.user_id f
        × IsFactorSpent s₁ i.user_id f

counter_use :
    (i : Completion) (s : Accounts) (counter : ℕ)
    → i.totp_counter ≡ some counter
    → IsFactorUse i s
        (consume_counter i.user_id counter s).0
        (consume_counter i.user_id counter s).1
unfolding consume_counter
counter_use i s counter given = record {
  keeps = use_counter-Keeps s i.user_id counter;
  mfa_challenges = refl;
  next_id = refl;
  consistent = λ c. record {
    one_method = λ user. omega (
      arith,
      c.one_method user,
      count_where-update_where-le (is_method_of user) (accepts_counter i.user_id counter)
          (use_counter counter) s.mfa_methods (λ m h. h),
    );
    one_open = c.one_open;
    bounded = c.bounded;
  };
  spent = λ c good.
      let single = ==→eq (count_where (accepts_counter i.user_id counter) s.mfa_methods) 1 good in
      (
        totp counter,
        rw given refl,
        count_where-any (accepts_counter i.user_id counter) s.mfa_methods 0 single,
        used_counter-IsReached s i.user_id counter c single,
      );
}

code_use :
    (now : ℕ) (i : Completion) (s : Accounts) (hash : ℕ)
    → i.totp_counter ≡ none
    → i.recovery_code_hash ≡ some hash
    → IsFactorUse i s (consume_code now i.user_id hash s).0 (consume_code now i.user_id hash s).1
unfolding consume_code
code_use now i s hash no_counter given = record {
  keeps = use_code-Keeps s now i.user_id hash;
  mfa_challenges = refl;
  next_id = refl;
  consistent =
      λ c. record { one_method = c.one_method; one_open = c.one_open; bounded = c.bounded };
  spent = λ c good.
      let single = ==→eq (count_where (is_unused_code i.user_id hash) s.recovery_codes) 1 good in
      (
        recovery hash,
        rw (no_counter, given) refl,
        count_where-any (is_unused_code i.user_id hash) s.recovery_codes 0 single,
        code-IsUsed now s i.user_id hash single,
      );
}

no_use : (i : Completion) (s : Accounts) → IsFactorUse i s false s
no_use i s = record {
  keeps = same-Keeps s s (record {
    mfa_challenges = refl;
    mfa_methods = refl;
    recovery_codes = refl;
    next_id = omega arith;
  });
  mfa_challenges = refl;
  next_id = refl;
  consistent = λ c. c;
  spent = λ c good. absurd (cc);
}

pub factor_use :
    (now : ℕ) (i : Completion) (s : Accounts)
    → IsFactorUse i s (consume_factor now i s).0 (consume_factor now i s).1
unfolding consume_factor
factor_use now i s = elim (Option-cases i.totp_counter) [
  | inr (counter, given) ↦
      used_as _ (rw (given, consume_factor) refl) (counter_use i s counter given)
  | inl no_counter ↦ elim (Option-cases i.recovery_code_hash) [
    | inr (hash, given) ↦
        used_as _ (rw (no_counter, consume_factor) (rw given refl))
          (code_use now i s hash no_counter given)
    | inl no_code ↦
        used_as (false, s) (rw (no_counter, consume_factor) (rw no_code refl)) (no_use i s)
  ]
]
  where
    used_as :
        (p : Bool × Accounts)
        → consume_factor now i s ≡ p
        → IsFactorUse i s p.0 p.1
        → IsFactorUse i s (consume_factor now i s).0 (consume_factor now i s).1
    used_as p same = subst (λ p. IsFactorUse i s p.0 p.1) (sym same)
