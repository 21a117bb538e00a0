-- ===== src/KeypairPages/Generate.antt =====
-- webapp-admin/src/components/KeypairGenerate.js: the form to generate a signing key.
use identity_vault.Common.{String, Option, List, [], ◌∷◌, map, if◌then◌else◌}
use identity_vault.Common.Value.{Value, null, str, truthy, prop}
use identity_vault.Http.{JsonParse, Response}
use identity_vault.Messages.{Locale}
use identity_vault.Utils.{Token, translate, with_cause, is_user_admin}
use identity_vault.Page.{
  ask, go_to, Result, stopped, refused, accepted, outcome_of_success, Shown, denied, shown,
  selected_accounts,
}
use identity_vault.Resources.Keypairs

pub record State : Type 0 where
  pub key_name : Value
  pub error : Value
  pub authority_id : Value

abbrev pub initial : Value → State
initial error = record { key_name = null; error = error; authority_id = null }

unfoldable pub handle_change_authority_id : String → State → State
handle_change_authority_id value s = record s { authority_id = str value }

unfoldable pub handle_change_key_name : String → State → State
handle_change_key_name value s = record s { key_name = str value }

unfoldable pub handle_save_click : Value → State → Result State
unfolding Keypairs.generate prop
handle_save_click account s =
    (s, ask (Keypairs.generate (prop "AuthorityID" account) s.key_name) ∷ [])

unfoldable pub format_error : Locale → Value → Value
unfolding prop translate
format_error lang data' =
    let message = translate lang (prop "error_code" data') in
    if truthy (prop "error_subcode" data')
    then with_cause message (translate lang (prop "error_subcode" data'))
    else if truthy (prop "message" data')
    then with_cause message (prop "message" data')
    else message

unfoldable pub on_saved : Locale → JsonParse → Response → State → Result State
unfolding outcome_of_success format_error
on_saved lang parse response s = elim (outcome_of_success parse response) [
  | stopped ↦ (s, [])
  | refused data' ↦ (record s { error = format_error lang data' }, [])
  | accepted data' ↦ (s, go_to "/signing-keys" ∷ [])
]

-- The fields of the form; the name's input starts empty and is not bound to the state.
pub record Form : Type 0 where
  pub error : Value
  pub authority_id : Value
  pub authorities : List Value

unfoldable pub render : Option Token → Value → State → Shown Form
unfolding is_user_admin selected_accounts prop
render token account s =
    if is_user_admin token
    then shown (record {
      error = s.error;
      authority_id = prop "AuthorityID" account;
      authorities = map (λ a. prop "AuthorityID" a) (selected_accounts account);
    })
    else denied
