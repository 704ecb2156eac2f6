-- ===== src/Identity/Members/Laws.antt =====
-- An invitation is accepted once; a replacement of roles stays inside its organization.
use sentriqora.Base.{
  ℕ, ◌≡◌, refl, sym, ap, ◌∙◌, subst, true, false, some, ok, ok-injective, ok_of_transaction,
  transaction_of_ok, any, any-append-last, All-unit, find_first, update_where-All_split,
  count_where, count_where-none, text_eq, arith, Bool-cases, Option-cases, inl, inr,
}
use sentriqora.Identity.Store.{User, Invitation, Accounts, is_user, is_membership, record_event}
use sentriqora.Identity.Members.{insert_membership, add_role}
use sentriqora.Identity.Members.Invitations.{
  Acceptance, is_invitation, is_pending_invitation, accept, mark_accepted, join, accept_found,
  accept_body, accept_invitation,
}

-- A joined member: the invitations are as they were, and the membership is there.
join_effect :
    (a : Acceptance) (i : Invitation) (s s' : Accounts)
    → join a i s ≡ ok (true, s')
    → (s'.invitations ≡ s.invitations)
      × (any (is_membership a.organization_id a.user_id) s'.memberships ≡ true)
unfolding join insert_membership add_role record_event
join_effect a i s s' h =
    elim (Bool-cases (any (is_membership a.organization_id a.user_id) s.memberships)) [
      | inl taken ↦ absurd (let e = rw taken at h in cc)
      | inr free ↦
          (let after = ap (λ p. p.1) (ok-injective (rw free at h)) in
            (
              ap (λ (t : Accounts). t.invitations) (sym after),
              subst
                  (λ (t : Accounts).
                    any (is_membership a.organization_id a.user_id) t.memberships ≡ true)
                  after
                  (any-append-last (is_membership a.organization_id a.user_id) s.memberships _
                    ∙ rw free (ground arith)),
            ))
    ]

none_pending :
    (now id user : ℕ) (s : Accounts)
    → count_where (is_pending_invitation id) (mark_accepted now id user s).invitations ≡ 0
unfolding mark_accepted
none_pending now id user s = count_where-none (is_pending_invitation id) _ (
    update_where-All_split (λ _. Unit {0}) (λ j. is_pending_invitation id j ≡ false)
      (is_pending_invitation id) (accept now user) s.invitations (λ j _ _. ground arith)
      (λ j miss _. miss) (All-unit s.invitations))

accept_found_cases :
    (now : ℕ) (a : Acceptance) (i : Invitation) (u : User) (seen s s' : Accounts)
    → accept_found now a i u seen s ≡ ok (true, s')
    → join a i (mark_accepted now i.id a.user_id s) ≡ ok (true, s')
unfolding accept_found
accept_found_cases now a i u seen s s' h = ground (arith, h)

accept_cases :
    (now : ℕ) (a : Acceptance) (i : Invitation) (seen s s' : Accounts)
    → find_first (is_invitation now a) seen.invitations ≡ some i
    → accept_body now a seen s ≡ ok (true, s')
    → join a i (mark_accepted now i.id a.user_id s) ≡ ok (true, s')
unfolding accept_body
accept_cases now a i seen s s' found h =
    let h₁ = rw (found, accept_body) at h in
    elim (Option-cases (find_first (is_user a.user_id) seen.users)) [
      | inl missing ↦ absurd (let e = rw missing at h₁ in cc)
      | inr (u, user_found) ↦ accept_found_cases now a i u seen s s' (rw user_found at h₁)
    ]

-- An acceptance of an invitation that is pending no more.
accept_gone :
    (now : ℕ) (b : Acceptance) (j : Invitation) (seen s : Accounts)
    → find_first (is_invitation now b) seen.invitations ≡ some j
    → count_where (is_pending_invitation j.id) s.invitations ≡ 0
    → (s' : Accounts) × (accept_body now b seen s ≡ ok (false, s'))
unfolding accept_body accept_found
accept_gone now b j seen s found gone =
    elim (Option-cases (find_first (is_user b.user_id) seen.users)) [
      | inl missing ↦ (s, rw (found, accept_body) (rw missing refl))
      | inr (u, user_found) ↦ elim (Bool-cases (text_eq j.normalized_email u.normalized_email)) [
        | inr other ↦ (s, rw (found, accept_body) (rw user_found (rw other refl)))
        | inl own ↦
            elim (Bool-cases (any (is_membership b.organization_id b.user_id) seen.memberships)) [
              | inl member ↦ (s, rw (found, accept_body) (rw user_found (rw (own, member) refl)))
              | inr free ↦ (
                mark_accepted now j.id b.user_id s,
                rw (found, accept_body) (rw user_found (rw (own, free, gone) refl)),
              )
            ]
      ]
    ]

-- An invitation is accepted once. After an acceptance the user is a member, and each further one of
-- the same invitation, whoever asks and whatever they have read before, answers that it is not.
pub accept_once :
    (now : ℕ) (a : Acceptance) (i : Invitation) (seen s s' : Accounts)
    → find_first (is_invitation now a) seen.invitations ≡ some i
    → accept_invitation now a seen s ≡ (ok true, s')
    → (any (is_membership a.organization_id a.user_id) s'.memberships ≡ true)
      × ((later : ℕ) (b : Acceptance) (j : Invitation) (seen' : Accounts)
          → find_first (is_invitation later b) seen'.invitations ≡ some j
          → j.id ≡ i.id
          → (accept_invitation later b seen' s').0 ≡ ok false)
unfolding accept_invitation
accept_once now a i seen s s' found done =
    let joined =
      accept_cases now a i seen s s' found (ok_of_transaction (accept_body now a seen) s done) in
    let (same, member) = join_effect a i (mark_accepted now i.id a.user_id s) s' joined in
    (
      member,
      λ later b j seen' found' twin.
          let gone =
            ap (λ k. count_where (is_pending_invitation k) s'.invitations) twin
            ∙ (ap (count_where (is_pending_invitation i.id)) same
                ∙ none_pending now i.id a.user_id s) in
          let (t, refused) = accept_gone later b j seen' s' found' gone in
          ap (λ p. p.0) (transaction_of_ok (accept_body later b seen') s' refused),
    )
