-- ===== src/KeypairPages/Store.antt =====
-- webapp-admin/src/components/KeypairStore.js: the form to register a signing key with the store.
use identity_vault.Common.{String, Option, none, some, List, [], ◌∷◌, map, filter, if◌then◌else◌}
use identity_vault.Common.Text.{◌<>◌}
use identity_vault.Common.Number.{parse_int}
use identity_vault.Common.Value.{
  Value, undefined, number, str, object, end, fields, truthy, same_value, prop, to_text,
}
use identity_vault.Http.{JsonParse, Response}
use identity_vault.Messages.{Locale}
use identity_vault.Utils.{Token, translated, translate, format_error, is_user_admin}
use identity_vault.Page.{
  ask, go_to, Result, set_prop, stopped, refused, accepted, outcome_of_success, Shown, denied,
  shown, Choice,
}
use identity_vault.Resources.Keypairs

-- `error` is unset by the constructor.
pub record State : Type 0 where
  pub keypair : Value
  pub error : Value

unfoldable pub key_from_keypair : Value → Value
unfolding prop
key_from_keypair keypair = object (
    fields
      (("authority-id", prop "AuthorityID" keypair) ∷ ("key-name", prop "KeyName" keypair) ∷ []))

abbrev first_key : List Value → Value
first_key [] = object end
first_key (k ∷ ks) = key_from_keypair k

-- The constructor, with the keys of the properties.
unfoldable pub opened : List Value → State
unfolding key_from_keypair
opened keypairs = record { keypair = first_key keypairs; error = undefined }

abbrev chosen : List Value → State → State
chosen [] s = s
chosen (k ∷ ks) s = record s { keypair = key_from_keypair k }

unfoldable pub handle_change_key : List Value → String → State → State
unfolding key_from_keypair same_value prop
handle_change_key keypairs value s =
    chosen (filter (λ k. same_value (prop "ID" k) (number (parse_int value))) keypairs) s

-- `keypair[k] = v` and `setState({keypair: keypair})`
unfoldable pub change : String → String → State → State
unfolding set_prop
change k value s = elim (set_prop k (str value) s.keypair) [
  | none ↦ s
  | some keypair ↦ record s { keypair = keypair }
]

unfoldable pub handle_change_name : String → State → State
unfolding change
handle_change_name value s = change "KeyName" value s

unfoldable pub handle_change_email : String → State → State
unfolding change
handle_change_email value s = change "email" value s

unfoldable pub handle_change_password : String → State → State
unfolding change
handle_change_password value s = change "password" value s

unfoldable pub handle_change_otp : String → State → State
unfolding change
handle_change_otp value s = change "otp" value s

unfoldable pub handle_save_click : State → Result State
unfolding Keypairs.register
handle_save_click s = (s, ask (Keypairs.register s.keypair) ∷ [])

unfoldable pub on_saved : Locale → JsonParse → Response → State → Result State
unfolding outcome_of_success format_error
on_saved lang parse response s = elim (outcome_of_success parse response) [
  | stopped ↦ (s, [])
  | refused data' ↦ (record s { error = format_error lang data' }, [])
  | accepted data' ↦ (s, go_to "/signing-keys" ∷ [])
]

-- A choice of the list of keys.
unfoldable pub key_choice : Locale → Value → Choice
unfolding prop to_text translate
key_choice lang kpr =
    let name = to_text (prop "AuthorityID" kpr) <> "/" <> to_text (prop "KeyID" kpr) in
    (
      prop "ID" kpr,
      if truthy (prop "Active" kpr)
          then name
          else name <> " (" <> to_text (translated lang "inactive") <> ")",
    )

-- The fields of the form.
pub record Form : Type 0 where
  pub error : Value
  pub selected : Value
  pub choices : List Choice
  pub key_name : Value
  pub email : Value
  pub password : Value
  pub otp : Value

unfoldable pub render : Locale → Option Token → List Value → State → Shown Form
unfolding is_user_admin key_choice prop
render lang token keypairs s =
    if is_user_admin token
    then shown (record {
      error = s.error;
      selected = prop "ID" s.keypair;
      choices = map (key_choice lang) keypairs;
      key_name = prop "key-name" s.keypair;
      email = prop "email" s.keypair;
      password = prop "password" s.keypair;
      otp = prop "otp" s.keypair;
    })
    else denied
