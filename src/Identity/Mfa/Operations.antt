-- ===== src/Identity/Mfa/Operations.antt =====
-- The operations on second factors keep what was used up, and what each of them uses up.
use sentriqora.Base.{
  ℕ, ◌≤◌, ◌<◌, ◌≡◌, refl, ap, ◌∙◌, subst, Bool, true, false, ◌==◌, ◌&&◌, ==→eq, none, List, [], ◌∷◌,
  ok, ok-injective, any, All, All-map, any-append, any-append-last, any-update_where, any-implies,
  update_where, update_where-All_split, count_where, count_where-any, count_where-same, All-unit,
  arith, Bool-cases, inl, inr,
}
use sentriqora.Identity.Store.{MfaMethod, RecoveryCode, Accounts}
use sentriqora.Identity.Mfa.{
  verify, is_method_of, is_unverified_of, accepts_counter, is_code, is_unused_code,
  is_open_challenge, use_counter, insert_codes,
}
use sentriqora.Identity.Mfa.Rows.{HasReached, IsReached}

-- A user has one method, and a challenge that is open stands once.
pub record IsConsistent (s : Accounts) : Type 0 where
  pub one_method : (user : ℕ) → count_where (is_method_of user) s.mfa_methods ≤ 1
  pub one_open : (id : ℕ) → count_where (is_open_challenge id) s.mfa_challenges ≤ 1
  pub bounded : All (λ c. c.id < s.next_id) s.mfa_challenges

-- The codes that are inserted are new.
pub insert_codes-used :
    (user : ℕ) (hashes : List ℕ) (codes codes' : List RecoveryCode) (owner hash : ℕ)
    → insert_codes user hashes codes ≡ ok codes'
    → any (is_code owner hash) codes ≡ true
    → any (is_unused_code owner hash) codes ≡ false
    → (any (is_code owner hash) codes' ≡ true) × (any (is_unused_code owner hash) codes' ≡ false)
unfolding insert_codes
insert_codes-used user [] codes codes' owner hash h present used =
    let same = ok-injective h in
    (
      subst (λ cs. any (is_code owner hash) cs ≡ true) same present,
      subst (λ cs. any (is_unused_code owner hash) cs ≡ false) same used,
    )
insert_codes-used user (new ∷ hashes) codes codes' owner hash h present used =
    elim (Bool-cases (any (is_code user new) codes)) [
      | inl taken ↦ absurd (let e = rw taken at h in cc)
      | inr free ↦
          insert_codes-used user hashes _ codes' owner hash (rw free at h)
            (any-append (is_code owner hash) codes _ present)
            (any-append-last (is_unused_code owner hash) codes _ ∙ rw used (other free))
    ]
  where
    other :
        any (is_code user new) codes ≡ false
        → is_unused_code owner hash (record { user_id = user; code_hash = new; used_at = none })
          ≡ false
    other free = elim (Bool-cases (user == owner && new == hash)) [
      | inl same ↦ absurd (
          ground (
            arith,
            same,
            present,
            free,
            ap (λ u. any (is_code u new) codes) (==→eq user owner (ground (arith, same))),
            ap (λ n. any (is_code owner n) codes) (==→eq new hash (ground (arith, same))),
          ))
      | inr differ ↦ ground (arith, differ)
    ]

-- A method whose row the update matches is the user's only one.
only_method :
    (s : Accounts) (user : ℕ) (q : MfaMethod → Bool)
    → IsConsistent s
    → ((m : MfaMethod) → q m ≡ true → is_method_of user m ≡ true)
    → count_where q s.mfa_methods ≡ 1
    → All (λ m. is_method_of user m ≡ true → q m ≡ true) s.mfa_methods
only_method s user q c inside single =
    count_where-same (is_method_of user) q s.mfa_methods
      (All-map (λ _. Unit {0}) (λ m. q m ≡ true → is_method_of user m ≡ true) s.mfa_methods
        (λ m _ hit. inside m hit) (All-unit s.mfa_methods))
      (omega (arith, c.one_method user, single))

module _ (s : Accounts) (user counter : ℕ) (c : IsConsistent s) where
  -- The method that takes the counter has reached it then.
  pub used_counter-IsReached :
      count_where (accepts_counter user counter) s.mfa_methods ≡ 1
      → IsReached
          (record s {
            mfa_methods =
                update_where (accepts_counter user counter) (use_counter counter) s.mfa_methods;
          })
          user
          counter
  used_counter-IsReached single = record {
    present =
        any-update_where (is_method_of user) (accepts_counter user counter) (use_counter counter)
          s.mfa_methods (λ m _. refl)
        ∙ is_present;
    rows =
        update_where-All_split
          (λ m. is_method_of user m ≡ true → accepts_counter user counter m ≡ true)
          (HasReached user counter) (accepts_counter user counter) (use_counter counter)
          s.mfa_methods (λ m hit _ mine. ground (arith, hit))
          (λ m miss only mine. absurd (ground (arith, miss, only (ground (arith, mine))))) only;
  }
    where
      only :
          All
            (λ m. is_method_of user m ≡ true → accepts_counter user counter m ≡ true)
            s.mfa_methods
      only =
          only_method s user (accepts_counter user counter) c (λ m hit. ground (arith, hit)) single

      is_present : any (is_method_of user) s.mfa_methods ≡ true
      is_present =
          any-implies (accepts_counter user counter) (is_method_of user) s.mfa_methods
            (λ m hit. ground (arith, hit))
            (count_where-any (accepts_counter user counter) s.mfa_methods 0 single)

  pub verified-IsReached :
      (now : ℕ)
      → count_where (is_unverified_of user) s.mfa_methods ≡ 1
      → IsReached
          (record s {
            mfa_methods = update_where (is_unverified_of user) (verify now counter) s.mfa_methods;
          })
          user
          counter
  verified-IsReached now single = record {
    present =
        any-update_where (is_method_of user) (is_unverified_of user) (verify now counter)
          s.mfa_methods (λ m _. refl)
        ∙ is_present;
    rows =
        update_where-All_split (λ m. is_method_of user m ≡ true → is_unverified_of user m ≡ true)
          (HasReached user counter) (is_unverified_of user) (verify now counter) s.mfa_methods
          (λ m hit _ mine. ground (arith, hit))
          (λ m miss only mine. absurd (ground (arith, miss, only (ground (arith, mine))))) only;
  }
    where
      only : All (λ m. is_method_of user m ≡ true → is_unverified_of user m ≡ true) s.mfa_methods
      only = only_method s user (is_unverified_of user) c (λ m hit. ground (arith, hit)) single

      is_present : any (is_method_of user) s.mfa_methods ≡ true
      is_present =
          any-implies (is_unverified_of user) (is_method_of user) s.mfa_methods
            (λ m hit. ground (arith, hit))
            (count_where-any (is_unverified_of user) s.mfa_methods 0 single)
