-- ===== src/ModelPages/Overview.antt =====
-- webapp-admin/src/components/ModelList.js and ModelRow.js: the models of the selected account.
use identity_vault.Common.{
  String, Bool, false, not, Option, List, [], ◌∷◌, map, filter, if◌then◌else◌, ◌&&◌,
}
use identity_vault.Common.Text.{◌<>◌}
use identity_vault.Common.Number
use identity_vault.Common.Number.{Number, nan, pos, negsuc}
use identity_vault.Common.Value.{
  Value, null, number, str, truthy, same_value, prop, to_text, parse_value,
}
use identity_vault.Http.{JsonParse, Response}
use identity_vault.Messages.{Locale}
use identity_vault.Utils.{Token, translate, with_cause, is_user_admin}
use identity_vault.Page.{
  Effect, ask, go_to, Result, stopped, refused, accepted, outcome_of_success, Shown, denied, shown,
}
use identity_vault.Resources.Models

pub record State : Type 0 where
  pub confirm_delete : Value
  pub message : Value
  pub show_assert : Value

abbrev pub initial : State
initial = record { confirm_delete = null; message = null; show_assert = null }

-- `componentDidMount` and `refresh`, whose body is empty.
unfoldable pub refresh_page : State → Result State
refresh_page s = (s, [])

unfoldable pub format_error : Locale → Value → Value
unfolding prop translate
format_error lang data' =
    let message = translate lang (prop "error_code" data') in
    if truthy (prop "error_subcode" data')
    then with_cause message (translate lang (prop "error_subcode" data'))
    else if truthy (prop "message" data')
    then with_cause message (prop "message" data')
    else message

-- `handleShowAssert`, with the attribute `data-key` of what was clicked.
unfoldable pub handle_show_assert : Value → State → State
unfolding same_value parse_value
handle_show_assert data_key s =
    let assert_id = number (parse_value data_key) in
    if same_value s.show_assert assert_id
    then record s { show_assert = null }
    else record s { show_assert = assert_id }

unfoldable pub handle_delete : Value → State → State
unfolding parse_value
handle_delete data_key s = record s { confirm_delete = number (parse_value data_key) }

abbrev delete_first : List Value → List Effect
delete_first [] = []
delete_first (m ∷ ms) = ask (Models.delete m) ∷ []

-- `handleDeleteModel`, over the models of the properties.
unfoldable pub handle_delete_model : List Value → State → Result State
unfolding same_value prop Models.delete
handle_delete_model models s =
    (s, delete_first (filter (λ m. same_value (prop "id" m) s.confirm_delete) models))

unfoldable pub on_deleted : Locale → JsonParse → Response → State → Result State
unfolding outcome_of_success format_error
on_deleted lang parse response s = elim (outcome_of_success parse response) [
  | stopped ↦ (s, [])
  | refused data' ↦ (record s { message = format_error lang data' }, [])
  | accepted data' ↦ (s, go_to "/models" ∷ [])
]

unfoldable pub handle_delete_model_cancel : State → State
handle_delete_model_cancel s = record s { confirm_delete = null }

-- What ModelRow's `renderActions` shows: the link to the form, or the question before a deletion.
pub data Actions : Type 0 where
  edit_link : String → Actions
  confirm : Actions

unfoldable pub render_actions : Value → Value → Actions
unfolding same_value prop to_text
render_actions confirm_delete model =
    if not (same_value (prop "id" model) confirm_delete)
    then edit_link ("/models/" <> to_text (prop "id" model) <> "/edit")
    else confirm

-- `v > 0` of the identifier of a key, a number where the server sends one.
abbrev is_positive : Value → Bool
is_positive (number (pos n)) = not (Number.same (pos n) (pos 0))
is_positive _ = false

-- The cells of ModelRow.
pub record Row : Type 0 where
  pub actions : Actions
  pub model : Value
  pub api_key : Value
  pub fingerprint : Value
  pub fingerprint_user : Value
  pub active : Bool
  pub fingerprint_model : Value

unfoldable pub render_row : Value → Value → Row
unfolding render_actions prop
render_row confirm_delete model = record {
  actions = render_actions confirm_delete model;
  model = prop "model" model;
  api_key = prop "api-key" model;
  fingerprint = prop "key-id" model;
  fingerprint_user = prop "key-id-user" model;
  active = truthy (prop "key-active" model) && truthy (prop "key-active-user" model);
  fingerprint_model =
      if is_positive (prop "keypair-id-model" model) then prop "key-id-model" model else str "";
}

-- A row, and whether the form of its assertion stands under it.
unfoldable pub render : Option Token → List Value → State → Shown (Value × List (Row × Bool))
unfolding is_user_admin render_row same_value prop
render token models s =
    if is_user_admin token
    then shown (
      s.message,
      map (λ m. (render_row s.confirm_delete m, same_value s.show_assert (prop "id" m))) models,
    )
    else denied
