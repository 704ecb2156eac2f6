-- ===== src/Identity/Mfa/Enrolling.antt =====
-- Enrolment, activation and new challenges: what they keep, and what an activation uses up.
use sentriqora.Base.{
  ℕ, suc, ◌≤◌, ◌<◌, ◌≡◌, refl, ap, ◌∙◌, subst, false, ◌==◌, ==→eq, [], ◌∷◌, ◌++◌, any, All-append,
  All-map, any-append, any-update_where, find_first, find_first-All, find_first-none,
  update_where-All, count_where, count_where-none, one_if-le, any-count_where, count_where-append,
  count_where-update_where-le, arith, Bool-cases, Option-cases, inl, inr,
}
use sentriqora.Identity.Store.{MfaChallenge, Accounts}
use sentriqora.Identity.Mfa.{
  renew, save_mfa_enrollment, upsert_method, Enrollment, is_method_of, is_open_challenge,
  is_verified_method, new_method, create_mfa_challenge,
}
use sentriqora.Identity.Mfa.Rows.{HasReached, IsReached, Keeps, methods-Keeps, new_challenge-Keeps}
use sentriqora.Identity.Mfa.Operations.{IsConsistent}
use sentriqora.Identity.Mfa.Completing.{IsKeeping, IsKeeping-trans, self-IsKeeping, event-IsKeeping}

-- A challenge whose id is the next one.
new_challenge-IsConsistent :
    (s : Accounts) (c : MfaChallenge)
    → c.id ≡ s.next_id
    → IsConsistent s
    → IsConsistent
        (record s { mfa_challenges = s.mfa_challenges ++ c ∷ []; next_id = suc s.next_id })
new_challenge-IsConsistent s c fresh k = record {
  one_method = k.one_method;
  one_open = one_more;
  bounded =
      All-append (λ d. d.id < suc s.next_id) s.mfa_challenges (c ∷ [])
        (All-map (λ d. d.id < s.next_id) (λ d. d.id < suc s.next_id) s.mfa_challenges
          (λ d h. omega (arith, h)) k.bounded)
        (omega (arith, fresh), tt);
}
  where
    one_more : (id : ℕ) → count_where (is_open_challenge id) (s.mfa_challenges ++ c ∷ []) ≤ 1
    one_more id =
        let counted = count_where-append (is_open_challenge id) s.mfa_challenges c in
        elim (Bool-cases (c.id == id)) [
          | inl same ↦
              (let empty : count_where (is_open_challenge id) s.mfa_challenges ≡ 0 =
                  count_where-none (is_open_challenge id) s.mfa_challenges (
                    All-map (λ d. d.id < s.next_id) (λ d. is_open_challenge id d ≡ false)
                      s.mfa_challenges (λ d h. ground (arith, h, same, fresh)) k.bounded) in
                omega (arith, empty, counted, one_if-le (is_open_challenge id c)))
          | inr other ↦ omega (arith, k.one_open id, rw other at counted)
        ]

pub challenge-IsKeeping :
    (organization user expires : ℕ) (s : Accounts)
    → IsKeeping s (create_mfa_challenge organization user expires s).1
unfolding create_mfa_challenge
challenge-IsKeeping organization user expires s =
    (new_challenge-Keeps s _ refl, new_challenge-IsConsistent s _ refl)

-- An enrolment that nobody comes between leaves a verified method as it is.
module _ (i : Enrollment) (s : Accounts)
    (unverified : is_verified_method (find_first (is_method_of i.user_id) s.mfa_methods)
      ≡ false) where
  other_user : (user counter : ℕ) → IsReached s user counter → (i.user_id == user) ≡ false
  other_user user counter k = elim (Bool-cases (i.user_id == user)) [
    | inr other ↦ other
    | inl same ↦ elim (Option-cases (find_first (is_method_of i.user_id) s.mfa_methods)) [
      | inl missing ↦ absurd (
          ground (
            arith,
            k.present,
            same,
            ap (λ u. any (is_method_of u) s.mfa_methods) (==→eq i.user_id user same),
            find_first-none (is_method_of i.user_id) s.mfa_methods missing,
          ))
      | inr (m, found) ↦
          (let (reached, mine) =
              find_first-All (HasReached user counter) (is_method_of i.user_id) s.mfa_methods k.rows
                found in
            absurd (ground (arith, rw found at unverified, reached (ground (arith, mine, same)))))
    ]
  ]

  upsert-Keeps : Keeps s (upsert_method i s)
  unfolding upsert_method
  upsert-Keeps = elim (Bool-cases (any (is_method_of i.user_id) s.mfa_methods)) [
    | inl there ↦ rw there (
        methods-Keeps s _ λ user counter k. record {
          present =
              any-update_where (is_method_of user) (is_method_of i.user_id) (renew i) s.mfa_methods
                (λ m _. refl)
              ∙ k.present;
          rows =
              update_where-All (HasReached user counter) (HasReached user counter)
                (is_method_of i.user_id) (renew i) s.mfa_methods
                (λ m hit h mine. absurd (ground (arith, hit, mine, other_user user counter k)))
                (λ m h. h) k.rows;
        })
    | inr missing ↦ rw missing (
        methods-Keeps s _ λ user counter k. record {
          present = any-append (is_method_of user) s.mfa_methods _ k.present;
          rows =
              All-append (HasReached user counter) s.mfa_methods _ k.rows
                (λ mine. absurd (ground (arith, mine, other_user user counter k)), tt);
        })
  ]

  upsert-IsConsistent : IsConsistent s → IsConsistent (upsert_method i s)
  unfolding upsert_method
  upsert-IsConsistent k = elim (Bool-cases (any (is_method_of i.user_id) s.mfa_methods)) [
    | inl there ↦ rw there (record {
      one_method = λ user. omega (
        arith,
        k.one_method user,
        count_where-update_where-le (is_method_of user) (is_method_of i.user_id) (renew i)
            s.mfa_methods (λ m h. h),
      );
      one_open = k.one_open;
      bounded = k.bounded;
    })
    | inr missing ↦ rw missing (record {
      one_method = λ user. one_more missing user;
      one_open = k.one_open;
      bounded = k.bounded;
    })
  ]
    where
      one_more :
          any (is_method_of i.user_id) s.mfa_methods ≡ false
          → (user : ℕ) → count_where (is_method_of user) (s.mfa_methods ++ new_method i ∷ []) ≤ 1
      one_more missing user =
          let counted = count_where-append (is_method_of user) s.mfa_methods (new_method i) in
          elim (Bool-cases (i.user_id == user)) [
            | inr other ↦ omega (arith, rw other at counted, k.one_method user)
            | inl same ↦
                (let empty =
                    subst (λ u. count_where (is_method_of u) s.mfa_methods ≡ 0)
                      (==→eq i.user_id user same)
                      (any-count_where (is_method_of i.user_id) s.mfa_methods missing) in
                  omega (arith, counted, empty, one_if-le _))
          ]

pub enroll-IsKeeping : (i : Enrollment) (s : Accounts) → IsKeeping s (save_mfa_enrollment i s s).1
unfolding save_mfa_enrollment
enroll-IsKeeping i s =
    elim (Bool-cases (is_verified_method (find_first (is_method_of i.user_id) s.mfa_methods))) [
      | inl verified ↦ rw verified (self-IsKeeping s)
      | inr unverified ↦ rw unverified (
          IsKeeping-trans s (upsert_method i s) _
            (upsert-Keeps i s unverified, upsert-IsConsistent i s unverified)
            (event-IsKeeping (upsert_method i s) _))
    ]
