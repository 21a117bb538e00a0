-- ===== src/ModelPages/Edit.antt =====
-- webapp-admin/src/components/ModelEdit.js: the form of one model.
use identity_vault.Common.{
  String, Bool, true, false, Option, none, some, List, [], ◌∷◌, map, if◌then◌else◌,
}
use identity_vault.Common.Text.{◌<>◌}
use identity_vault.Common.Number.{parse_int}
use identity_vault.Common.Value.{Value, null, number, str, object, fields, truthy, prop, to_text}
use identity_vault.Http.{JsonParse, Response, parsed, failed}
use identity_vault.Messages.{Locale}
use identity_vault.Utils.{Token, translated, translate, with_cause, is_user_admin}
use identity_vault.Page.{
  ask, go_to, Result, set_prop, stopped, refused, accepted, outcome, Shown, denied, failure, shown,
  Choice,
}
use identity_vault.Resources.Models

pub record State : Type 0 where
  pub title : Value
  pub model : Value
  pub error : Value
  pub hide_form : Bool

-- The constructor, with the selected account of the properties.
unfoldable pub initial : Value → State
unfolding prop
initial account = record {
  title = null;
  model = object (fields (("brand-id", prop "AuthorityID" account) ∷ []));
  error = null;
  hide_form = false;
}

-- `componentDidMount`, with the identifier of the properties.
unfoldable pub component_did_mount : Locale → Value → State → Result State
unfolding translate Models.get
component_did_mount lang id s =
    if truthy id
    then (record s { title = translated lang "edit-model" }, ask (Models.get id) ∷ [])
    else (record s { title = translated lang "new-model" }, [])

-- The component's own `formatError`, which adds the message behind a subcode too.
unfoldable pub format_error : Locale → Value → Value
unfolding prop translate
format_error lang data' =
    let message = translate lang (prop "error_code" data') in
    let with_sub =
      if truthy (prop "error_subcode" data')
      then with_cause message (translate lang (prop "error_subcode" data'))
      else message in
    if truthy (prop "message" data') then with_cause with_sub (prop "message" data') else with_sub

unfoldable pub on_model : Locale → JsonParse → Response → State → State
unfolding parsed prop format_error
on_model lang parse response s = elim (parsed parse response) [
  | none ↦ s
  | some data' ↦
      if failed response
      then record s { error = format_error lang data'; hide_form = true }
      else record s { model = prop "model" data'; hide_form = false }
]

-- `model[k] = v` and `setState({model: model})`
unfoldable pub change : String → Value → State → State
unfolding set_prop
change k v s = elim (set_prop k v s.model) [ none ↦ s | some m ↦ record s { model = m } ]

unfoldable pub handle_change_brand : String → State → State
unfolding change
handle_change_brand value s = change "brand-id" (str value) s

unfoldable pub handle_change_model : String → State → State
unfolding change
handle_change_model value s = change "model" (str value) s

unfoldable pub handle_change_api_key : String → State → State
unfolding change
handle_change_api_key value s = change "api-key" (str value) s

unfoldable pub handle_change_private_key : String → State → State
unfolding change
handle_change_private_key value s = change "keypair-id" (number (parse_int value)) s

unfoldable pub handle_change_private_key_user : String → State → State
unfolding change
handle_change_private_key_user value s = change "keypair-id-user" (number (parse_int value)) s

unfoldable pub handle_save_click : State → Result State
unfolding prop Models.update Models.create
handle_save_click s =
    if truthy (prop "id" s.model)
    then (s, ask (Models.update s.model) ∷ [])
    else (s, ask (Models.create s.model) ∷ [])

-- The callback of both requests.
unfoldable pub on_saved : Locale → JsonParse → Response → State → Result State
unfolding outcome format_error
on_saved lang parse response s = elim (outcome parse response) [
  | stopped ↦ (s, [])
  | refused data' ↦ (record s { error = format_error lang data' }, [])
  | accepted data' ↦ (s, go_to "/models" ∷ [])
]

-- A choice of the two lists of keys.
unfoldable pub key_choice : Locale → Value → Choice
unfolding prop to_text translate
key_choice lang kpr =
    let name = to_text (prop "KeyName" kpr) <> " - " <> to_text (prop "KeyID" kpr) in
    (
      prop "ID" kpr,
      if truthy (prop "Active" kpr)
          then name
          else name <> " (" <> to_text (translated lang "inactive") <> ")",
    )

-- The fields of the form.
pub record Form : Type 0 where
  pub title : Value
  pub error : Value
  pub brand_id : Value
  pub model : Value
  pub api_key : Value
  pub keypair_id : Value
  pub keypair_id_user : Value
  pub choices : List Choice

unfoldable pub render : Locale → Option Token → List Value → State → Shown Form
unfolding is_user_admin prop key_choice
render lang token keypairs s =
    if is_user_admin token
    then if s.hide_form
      then failure s.error
      else shown (record {
        title = s.title;
        error = s.error;
        brand_id = prop "brand-id" s.model;
        model = prop "model" s.model;
        api_key = prop "api-key" s.model;
        keypair_id = prop "keypair-id" s.model;
        keypair_id_user = prop "keypair-id-user" s.model;
        choices = map (key_choice lang) keypairs;
      })
    else denied
