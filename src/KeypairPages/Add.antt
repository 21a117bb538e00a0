-- ===== src/KeypairPages/Add.antt =====
-- webapp-admin/src/components/KeypairAdd.js: the form to import a signing key.
use identity_vault.Common.{String, Option, List, [], ◌∷◌, map, if◌then◌else◌}
use identity_vault.Common.Value.{Value, null, str, truthy, prop}
use identity_vault.Http.{JsonParse, Response}
use identity_vault.Messages.{Locale}
use identity_vault.Utils.{Token, translate, with_cause, is_user_admin}
use identity_vault.Page.{
  ask, go_to, Result, stopped, refused, accepted, outcome_of_success, Shown, denied, shown,
  uploaded, selected_accounts,
}
use identity_vault.Resources.Keypairs

pub record State : Type 0 where
  pub name : Value
  pub key : Value
  pub error : Value
  pub authority_id : Value

-- The constructor, with the error of the properties; `authorityId` is unset.
abbrev pub initial : Value → State
initial error = record { name = null; key = null; error = error; authority_id = null }

unfoldable pub handle_change_authority_id : String → State → State
handle_change_authority_id value s = record s { authority_id = str value }

unfoldable pub handle_change_key_name : String → State → State
handle_change_key_name value s = record s { name = str value }

unfoldable pub handle_change_key : String → State → State
handle_change_key value s = record s { key = str value }

-- The reader's `onload`, with the data URL of the file.
unfoldable pub on_file_upload : String → State → State
unfolding uploaded
on_file_upload result s = record s { key = uploaded result }

-- `handleSaveClick`, with the selected account of the properties.
unfoldable pub handle_save_click : Value → State → Result State
unfolding Keypairs.create prop
handle_save_click account s =
    (s, ask (Keypairs.create (prop "AuthorityID" account) s.key s.name) ∷ [])

unfoldable pub format_error : Locale → Value → Value
unfolding prop translate
format_error lang data' =
    let message = translate lang (prop "error_code" data') in
    if truthy (prop "error_subcode" data')
    then with_cause message (translate lang (prop "error_subcode" data'))
    else if truthy (prop "message" data')
    then with_cause message (prop "message" data')
    else message

unfoldable pub on_saved : Locale → JsonParse → Response → State → Result State
unfolding outcome_of_success format_error
on_saved lang parse response s = elim (outcome_of_success parse response) [
  | stopped ↦ (s, [])
  | refused data' ↦ (record s { error = format_error lang data' }, [])
  | accepted data' ↦ (s, go_to "/signing-keys" ∷ [])
]

-- The fields of the form.
pub record Form : Type 0 where
  pub error : Value
  pub name : Value
  pub authority_id : Value
  pub authorities : List Value
  pub key : Value

unfoldable pub render : Option Token → Value → State → Shown Form
unfolding is_user_admin selected_accounts prop
render token account s =
    if is_user_admin token
    then shown (record {
      error = s.error;
      name = s.name;
      authority_id = prop "AuthorityID" account;
      authorities = map (λ a. prop "AuthorityID" a) (selected_accounts account);
      key = s.key;
    })
    else denied
