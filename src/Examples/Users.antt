-- ===== src/Examples/Users.antt =====
-- The form of a system user at concrete inputs.
use identity_vault.Common.{ℕ, ◌+◌, true, false, ◌≡◌, refl, ◌↔◌, ◌⊎◌}
use identity_vault.Common.Text.{codes}
use identity_vault.Common.Number.{pos}
use identity_vault.Common.Value.{number}
use identity_vault.SystemUser.{Moment, State, initial}
use identity_vault.SystemUser.Email.{is_email}
use identity_vault.SystemUser.Email.Grammar.{IsEmail, is_email_iff}
use identity_vault.SystemUser.Submission.{IsComplete, IsSent, IsHeld, submit_cases}

email_example :
    (is_email "jo.smith+snap@mail.example" ≡ true) ↔ IsEmail (codes "jo.smith+snap@mail.example")
email_example = is_email_iff "jo.smith+snap@mail.example"

email_taken : is_email "jo.smith+snap@mail.example" ≡ true
unfolding is_email
email_taken = refl

email_refused : is_email "jo@mail..example" ≡ false
unfolding is_email
email_refused = refl

-- Dates that are printed years.
abbrev years : Moment ℕ
years = record {
  hours = λ m. number (pos 0);
  minutes = λ m. number (pos 0);
  seconds = λ m. number (pos 0);
  set_hours = λ v m. m;
  set_minutes = λ v m. m;
  set_seconds = λ v m. m;
  add_year = λ m. m + 1;
  format = λ f m. "2019-01-01T00:00:00";
}

abbrev filled_form : State ℕ
filled_form = record (initial years 2019) {
  email = "jo@mail.example";
  username = "jo";
  password = "secret";
  name = "Jo Smith";
  model = pos 3;
}

submit_example :
    (IsComplete filled_form × IsSent years filled_form)
    ⊎ ((IsComplete filled_form → ⊥) × IsHeld years filled_form)
submit_example = submit_cases years filled_form
