-- ===== src/UserList.antt =====
-- webapp-admin/src/components/UserList.js and UserRow.js: the list of the users.
pub mod Deletion
use identity_vault.Common.{
  ℕ, String, Bool, true, false, not, Option, none, some, List, [], ◌∷◌, map, filter, if◌then◌else◌,
}
use identity_vault.Common.Text.{◌<>◌}
use identity_vault.Common.Number.{pos}
use identity_vault.Common.Value.{
  Value, array, nil, null, number, str, truthy, same_value, prop, to_text, parse_value, as_array,
}
use identity_vault.Http.{JsonParse, Response, parsed}
use identity_vault.Messages.{Locale}
use identity_vault.Utils.{Token, translate, with_cause, is_user_superuser, role_as_string}
use identity_vault.Page.{
  Effect, ask, go_to, Result, stopped, refused, accepted, outcome_of_success, message_or, Shown,
  denied, shown,
}
use identity_vault.Resources.Users

pub record State : Type 0 where
  pub users : Value
  pub confirm_delete : Value
  pub message : Value

-- The constructor, without users in the properties: `App` hands none down.
abbrev pub initial : State
initial = record { users = array nil; confirm_delete = null; message = null }

-- `componentDidMount`, `refresh` and `handleRefresh` ask for the users.
unfoldable pub refresh_page : State → Result State
unfolding Users.list
refresh_page s = (s, ask Users.list ∷ [])

unfoldable pub on_users : JsonParse → Response → State → State
unfolding parsed prop
on_users parse response s = elim (parsed parse response) [
  | none ↦ s
  | some data' ↦ record s { users = prop "users" data'; message = message_or (str "") data' }
]

unfoldable pub format_error : Locale → Value → Value
unfolding prop translate
format_error lang data' =
    let message = translate lang (prop "error_code" data') in
    if truthy (prop "error_subcode" data')
    then with_cause message (translate lang (prop "error_subcode" data'))
    else if truthy (prop "message" data')
    then with_cause message (prop "message" data')
    else message

unfoldable pub handle_delete : Value → State → State
unfolding parse_value
handle_delete data_key s = record s { confirm_delete = number (parse_value data_key) }

abbrev delete_first : List Value → List Effect
delete_first [] = []
delete_first (u ∷ us) = ask (Users.delete u) ∷ []

abbrev delete_chosen : Value → Option (List Value) → List Effect
delete_chosen id none = []
delete_chosen id (some users) = delete_first (filter (λ u. same_value (prop "ID" u) id) users)

-- `handleDeleteUser`; it throws where the users are no array.
unfoldable pub handle_delete_user : State → Result State
unfolding same_value prop Users.delete
handle_delete_user s = (s, delete_chosen s.confirm_delete (as_array s.users))

unfoldable pub on_deleted : Locale → JsonParse → Response → State → Result State
unfolding outcome_of_success format_error
on_deleted lang parse response s = elim (outcome_of_success parse response) [
  | stopped ↦ (s, [])
  | refused data' ↦ (record s { message = format_error lang data' }, [])
  | accepted data' ↦ (s, go_to "/users" ∷ [])
]

unfoldable pub handle_delete_user_cancel : State → State
handle_delete_user_cancel s = record s { confirm_delete = null }

-- What UserRow's `renderActions` shows: the link to the form, or the question before a deletion.
pub data Actions : Type 0 where
  edit_link : String → Actions
  confirm : Actions

unfoldable pub render_actions : Value → Value → Actions
unfolding same_value prop to_text
render_actions confirm_delete user =
    if not (same_value (prop "ID" user) confirm_delete)
    then edit_link ("/users/" <> to_text (prop "ID" user) <> "/edit")
    else confirm

-- `roleAsString` of a user's role.
abbrev role_text : Value → String
role_text (number (pos n)) = role_as_string n
role_text _ = "invalid role"

-- The cells of UserRow.
pub record Row : Type 0 where
  pub actions : Actions
  pub username : Value
  pub name : Value
  pub email : Value
  pub role : String
  pub api_key : Value

unfoldable pub render_row : Value → Value → Row
unfolding render_actions prop role_as_string
render_row confirm_delete user = record {
  actions = render_actions confirm_delete user;
  username = prop "Username" user;
  name = prop "Name" user;
  email = prop "Email" user;
  role = role_text (prop "Role" user);
  api_key = prop "APIKey" user;
}

abbrev rows : Value → Option (List Value) → Option (List Row)
rows confirm_delete none = none
rows confirm_delete (some users) = some (map (render_row confirm_delete) users)

-- The message and the rows; `none` where the users are no array, which the rendering throws on.
unfoldable pub render : Option Token → State → Shown (Value × Option (List Row))
unfolding is_user_superuser render_row
render token s =
    if is_user_superuser token
    then shown (s.message, rows s.confirm_delete (as_array s.users))
    else denied
