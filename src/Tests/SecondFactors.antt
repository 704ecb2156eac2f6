-- ===== src/Tests/SecondFactors.antt =====
-- A second factor that is enrolled and activated, and a challenge that is completed with it.
use sentriqora.Base.{
  update_where, find_first, ℕ, ◌≤◌, ◌≡◌, refl, true, none, some, List, [], ◌∷◌, units, ok, Memᴰ,
  count_where,
}
use sentriqora.Identity.Store.{Accounts, record_event}
use sentriqora.Identity.Mfa.{
  consume_counter, consume_factor, finish_challenge, insert_codes, upsert_method, activate_body,
  Completion, Enrollment, create_mfa_challenge, consume_mfa_challenge, save_mfa_enrollment,
  activate_mfa,
}
use sentriqora.Identity.Mfa.Factors.{totp}
use sentriqora.Identity.Mfa.Histories.{
  Event, completed, activated, History, start, challenges, completes, enrolls, activates, answers,
  uses_code, is_increasing,
}
use sentriqora.Identity.Mfa.Guarantees.{challenge_once, factors_once}
use sentriqora.Tests.Sessions.{blank}

abbrev enrollment : Enrollment
enrollment = record {
  organization_id = 1;
  user_id = 2;
  label = units "AegisFlow TOTP";
  secret = record { ciphertext = units "c"; iv = units "i"; auth_tag = units "t" };
}

abbrev enrolled_state : Accounts
enrolled_state = (save_mfa_enrollment enrollment blank blank).1

abbrev active_state : Accounts
active_state = (activate_mfa 100 1 2 (71 ∷ 72 ∷ []) 40 enrolled_state).1

abbrev challenged : Accounts
challenged = (create_mfa_challenge 1 2 900 active_state).1

abbrev completion : Completion
completion = record {
  challenge_id = 10;
  organization_id = 1;
  user_id = 2;
  recovery_code_hash = none;
  totp_counter = some 41;
}

abbrev done : Accounts
done = (consume_mfa_challenge 200 completion challenged challenged).1

activating : activate_mfa 100 1 2 (71 ∷ 72 ∷ []) 40 enrolled_state ≡ (ok true, active_state)
unfolding activate_mfa activate_body count_where save_mfa_enrollment find_first record_event
    upsert_method insert_codes
activating = refl

completing : consume_mfa_challenge 200 completion challenged challenged ≡ (true, done)
unfolding consume_mfa_challenge find_first create_mfa_challenge activate_mfa activate_body
    count_where save_mfa_enrollment record_event upsert_method insert_codes finish_challenge
    consume_factor consume_counter update_where
completing = refl

abbrev log : List Event
log = completed 10 2 (some (totp 41)) ∷ activated 2 40 ∷ []

history : History (done ∷ challenged ∷ active_state ∷ enrolled_state ∷ blank ∷ []) log done
history =
    completes 200 completion challenged done
      (challenges 1 2 900 (
        activates 100 1 2 (71 ∷ 72 ∷ []) 40 active_state
          (enrolls enrollment (start blank refl refl)) activating))
      (Memᴰ.head refl) completing

challenge_once_example : count_where (answers 10) log ≤ 1
challenge_once_example = challenge_once history 10

factors_once_example :
    (is_increasing 2 log ≡ true) × ((hash : ℕ) → count_where (uses_code 2 hash) log ≤ 1)
factors_once_example = factors_once history 2
