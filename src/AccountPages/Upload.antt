-- ===== src/AccountPages/Upload.antt =====
-- webapp-admin/src/components/AccountForm.js: the form to upload an account assertion.
use identity_vault.Common.{String, Option, [], ◌∷◌, if◌then◌else◌}
use identity_vault.Common.Value.{Value, null}
use identity_vault.Http.{JsonParse, Response}
use identity_vault.Messages.{Locale}
use identity_vault.Utils.{Token, format_error, is_user_superuser}
use identity_vault.Page.{
  ask, go_to, Result, stopped, refused, accepted, outcome_of_response, Shown, denied, shown,
  uploaded,
}
use identity_vault.Resources.Accounts

pub record State : Type 0 where
  pub assertion : Value
  pub error : Value

abbrev pub initial : State
initial = record { assertion = null; error = null }

-- The reader's `onload`, with the data URL of the file.
unfoldable pub on_file_upload : String → State → State
unfolding uploaded
on_file_upload result s = record s { assertion = uploaded result }

unfoldable pub handle_save_click : State → Result State
unfolding Accounts.upload
handle_save_click s = (s, ask (Accounts.upload s.assertion) ∷ [])

unfoldable pub on_saved : Locale → JsonParse → Response → State → Result State
unfolding outcome_of_response format_error
on_saved lang parse response s = elim (outcome_of_response parse response) [
  | stopped ↦ (s, [])
  | refused data' ↦ (record s { error = format_error lang data' }, [])
  | accepted data' ↦ (s, go_to "/accounts" ∷ [])
]

unfoldable pub render : Option Token → State → Shown Value
unfolding is_user_superuser
render token s = if is_user_superuser token then shown s.error else denied
