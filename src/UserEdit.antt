-- ===== src/UserEdit.antt =====
-- webapp-admin/src/components/UserEdit.js: the form of one user. A handler or callback that throws
-- leaves the state as it was.
pub mod Assignment
use identity_vault.Common.{
  String, Bool, true, false, Option, none, some, List, [], ◌∷◌, ◌++◌, map, if◌then◌else◌, str_eq,
}
use identity_vault.Common.Value.{
  Value, undefined, null, number, str, object, array, Fields, fields, truthy, same_value, prop, put,
  as_array, items, parse_value,
}
use identity_vault.Http.{JsonParse, Response, parsed, failed}
use identity_vault.Messages.{Locale}
use identity_vault.Utils.{Token, translated, translate, with_cause, is_user_superuser}
use identity_vault.Page.{
  Effect, ask, go_to, Result, set_prop, list_of, outcome, stopped, refused, accepted,
}
use identity_vault.Resources.Users
use identity_vault.Resources.Accounts

pub record State : Type 0 where
  pub title : Value
  pub user : Value
  pub error : Value
  pub hide_form : Bool
  pub assigned_accounts : List Value
  pub available_accounts : List Value

abbrev pub initial : State
initial = record {
  title = null;
  user = object (fields []);
  error = null;
  hide_form = false;
  assigned_accounts = [];
  available_accounts = [];
}

-- `componentDidMount`, with the identifier of the properties.
unfoldable pub component_did_mount : Locale → Value → State → Result State
unfolding translate Users.get Accounts.list
component_did_mount lang id s =
    if truthy id
    then (
      record s { title = translated lang "edit-user" },
      ask (Users.get id) ∷ ask Accounts.list ∷ [],
    )
    else (record s { title = translated lang "new-user" }, ask Accounts.list ∷ [])

unfoldable pub accounts_to_authority_ids : List Value → List Value
unfolding prop
accounts_to_authority_ids accounts = map (λ a. prop "AuthorityID" a) accounts

-- The component's own copy of `formatError`.
unfoldable pub format_error : Locale → Value → Value
unfolding prop translate
format_error lang data' =
    let message = translate lang (prop "error_code" data') in
    if truthy (prop "error_subcode" data')
    then with_cause message (translate lang (prop "error_subcode" data'))
    else if truthy (prop "message" data')
    then with_cause message (prop "message" data')
    else message

-- The callback of `getUser`; reading the accounts of an answer without a user throws.
unfoldable pub on_user : Locale → JsonParse → Response → State → State
unfolding parsed format_error accounts_to_authority_ids list_of
on_user lang parse response s = elim (parsed parse response) [
  | none ↦ s
  | some data' ↦
      if failed response
      then record s { error = format_error lang data'; hide_form = true }
      else elim (list_of "Accounts" (prop "user" data')) [
        | none ↦ s
        | some accounts ↦ record s {
          user = prop "user" data';
          assigned_accounts = accounts_to_authority_ids accounts;
          hide_form = false;
        }
      ]
]

-- The callback of `getAllAccounts`.
unfoldable pub on_all_accounts : JsonParse → Response → State → State
unfolding parsed list_of accounts_to_authority_ids
on_all_accounts parse response s = elim (parsed parse response) [
  | none ↦ s
  | some data' ↦ elim (list_of "accounts" data') [
    | none ↦ s
    | some accounts ↦ record s { available_accounts = accounts_to_authority_ids accounts }
  ]
]

-- `user.k = v` and `setState({user: user})`
unfoldable pub change_user : String → Value → State → State
unfolding set_prop
change_user k v s = elim (set_prop k v s.user) [ none ↦ s | some user ↦ record s { user = user } ]

unfoldable pub handle_change_username : String → State → State
unfolding change_user
handle_change_username value s = change_user "Username" (str value) s

unfoldable pub handle_change_name : String → State → State
unfolding change_user
handle_change_name value s = change_user "Name" (str value) s

unfoldable pub handle_change_email : String → State → State
unfolding change_user
handle_change_email value s = change_user "Email" (str value) s

unfoldable pub handle_change_role : String → State → State
unfolding change_user parse_value
handle_change_role value s = change_user "Role" (number (parse_value (str value))) s

unfoldable pub build_request_data : State → Value
unfolding prop
build_request_data s = object (
    fields (
      ("id", prop "ID" s.user)
      ∷ ("username", prop "Username" s.user)
      ∷ ("name", prop "Name" s.user)
      ∷ ("email", prop "Email" s.user)
      ∷ ("role", prop "Role" s.user)
      ∷ ("api_key", prop "APIKey" s.user)
      ∷ ("accounts", array (items s.assigned_accounts))
      ∷ []))

unfoldable pub handle_save_click : State → Result State
unfolding build_request_data Users.update Users.create
handle_save_click s =
    let request_data = build_request_data s in
    if truthy (prop "id" request_data)
    then (s, ask (Users.update request_data) ∷ [])
    else (s, ask (Users.create request_data) ∷ [])

-- The callback of both requests.
unfoldable pub on_saved : Locale → JsonParse → Response → State → Result State
unfolding outcome format_error
on_saved lang parse response s = elim (outcome parse response) [
  | stopped ↦ (s, [])
  | refused data' ↦ (record s { error = format_error lang data' }, [])
  | accepted data' ↦ (s, go_to "/users" ∷ [])
]

-- `accounts.indexOf(acc) >= 0`
unfoldable pub is_assigned : Value → List Value → Bool
unfolding same_value
is_assigned acc [] = false
is_assigned acc (x ∷ xs) = let rest = is_assigned acc xs in if same_value x acc then true else rest

-- `accounts.splice(accounts.indexOf(acc), 1)`, for an account that is there.
unfoldable pub remove_account : Value → List Value → List Value
unfolding same_value
remove_account acc [] = []
remove_account acc (x ∷ xs) =
    let rest = remove_account acc xs in if same_value x acc then xs else x ∷ rest

unfoldable pub toggle_account : Value → List Value → List Value
unfolding is_assigned remove_account
toggle_account acc xs = if is_assigned acc xs then remove_account acc xs else xs ++ acc ∷ []

unfoldable pub handle_click_account : String → State → State
unfolding toggle_account
handle_click_account acc s = record s {
  assigned_accounts = toggle_account (str acc) s.assigned_accounts;
}

-- `renderAccountSelect`: the class of an account's button.
unfoldable pub account_style : Value → State → String
account_style acc s =
    if is_assigned acc s.assigned_accounts then "p-button--brand" else "p-button--neutral"

-- What `render` shows.
pub data View : Type 0 where
  denied : View
  failure : Value → View
  form : (title error user : Value) → List (Value × String) → View

unfoldable pub render : Option Token → State → View
unfolding is_user_superuser account_style
render token s =
    if is_user_superuser token
    then if s.hide_form
      then failure s.error
      else form s.title s.error s.user
          (map (λ acc. (acc, account_style acc s)) s.available_accounts)
    else denied
