-- ===== src/AccountPages/KeyUpload.antt =====
-- webapp-admin/src/components/AccountKeyForm.js: the form to upload the assertion of an account key.
use identity_vault.Common.{String, Option, none, some, List, [], ◌∷◌, map, if◌then◌else◌}
use identity_vault.Common.Number.{Number, pos, parse_int}
use identity_vault.Common.Value.{Value, null, undefined, number, str, array, nil, prop, as_array}
use identity_vault.Http.{JsonParse, Response, parsed}
use identity_vault.Messages.{Locale}
use identity_vault.Utils.{Token, format_error, is_user_superuser}
use identity_vault.Page.{
  ask, go_to, Result, stopped, refused, accepted, outcome_of_response, Shown, denied, shown,
  uploaded, message_or, Choice,
}
use identity_vault.Resources.Keypairs
use identity_vault.KeypairPages.Store.{key_choice}

-- `message` is unset by the constructor, and shown nowhere.
pub record State : Type 0 where
  pub keypairs : Value
  pub keypair_id : Number
  pub assertion : Value
  pub error : Value
  pub message : Value

-- The constructor, without keys in the properties: `App` hands none down.
unfoldable pub opened : Result State
unfolding Keypairs.list
opened = (
  record {
    keypairs = array nil;
    keypair_id = pos 0;
    assertion = null;
    error = null;
    message = undefined;
  },
  ask Keypairs.list ∷ [],
)

unfoldable pub on_keypairs : JsonParse → Response → State → State
unfolding parsed prop
on_keypairs parse response s = elim (parsed parse response) [
  | none ↦ s
  | some data' ↦ record s { keypairs = prop "keypairs" data'; message = message_or (str "") data' }
]

unfoldable pub handle_change_keypair : String → State → State
handle_change_keypair value s = record s { keypair_id = parse_int value }

unfoldable pub on_file_upload : String → State → State
unfolding uploaded
on_file_upload result s = record s { assertion = uploaded result }

unfoldable pub handle_save_click : State → Result State
unfolding Keypairs.assertion
handle_save_click s = (s, ask (Keypairs.assertion (number s.keypair_id) s.assertion) ∷ [])

unfoldable pub on_saved : Locale → JsonParse → Response → State → Result State
unfolding outcome_of_response format_error
on_saved lang parse response s = elim (outcome_of_response parse response) [
  | stopped ↦ (s, [])
  | refused data' ↦ (record s { error = format_error lang data' }, [])
  | accepted data' ↦ (s, go_to "/accounts" ∷ [])
]

abbrev choices_of : Locale → Option (List Value) → Option (List Choice)
choices_of lang none = none
choices_of lang (some ks) = some (map (key_choice lang) ks)

-- The error, the chosen key and the choices; `none` in place of these where `keypairs` is no array,
-- which the rendering throws on.
unfoldable pub render :
    Locale → Option Token → State → Shown (Value × Number × Option (List Choice))
unfolding is_user_superuser key_choice
render lang token s =
    if is_user_superuser token
    then shown (s.error, s.keypair_id, choices_of lang (as_array s.keypairs))
    else denied
