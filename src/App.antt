-- ===== src/App.antt =====
-- webapp-admin/src/App.js: the state of the application and the data that it asks for; its child Pages
-- has what each path shows. The path of the window and the session storage stand beside the component's
-- state. A request without an answer is a `Pending`, whose answer may come at any time.
pub mod Pages
pub mod Routes
pub mod Selection
pub mod Session
pub mod Races
use identity_vault.Common.{
  ℕ, String, Bool, true, false, not, ◌&&◌, ◌||◌, Option, none, some, List, [], ◌∷◌, ◌++◌, filter,
  str_eq, if◌then◌else◌,
}
use identity_vault.Common.Value.{
  Value, undefined, null, str, array, nil, object, end, truthy, same_value, prop, as_array,
}
use identity_vault.Http.{JsonParse, Response, parsed, failed}
use identity_vault.Messages.{Locale}
use identity_vault.Utils.{
  Token, SessionStorage, section_from_path, section_id_from_path, sub_section_id_from_path,
  is_logged_in, is_user_admin, is_user_superuser, get_account, save_account, format_error,
}
use identity_vault.Ajax.{Call}
use identity_vault.Page.{Effect, ask, message_or, list_of}
use identity_vault.Resources.Accounts
use identity_vault.Resources.Keypairs
use identity_vault.Resources.Models

-- `token` and `location` of the state are set and not read; `message` and `hideForm` are set by the
-- callbacks and shown nowhere.
pub record State : Type 0 where
  pub models : List Value
  pub accounts : List Value
  pub keypairs : List Value
  pub substores : Value
  pub selected_account : Value
  pub message : Value

-- The requests of the application, each with what its callback keeps.
pub data Pending : Type 0 where
  accounts_list : Pending
  keypairs_of models_of substores_of : Value → Pending

pub record World : Type 0 where
  pub state : State
  pub session : SessionStorage
  pub path : String

unfoldable pub call_of : Pending → Call
unfolding Accounts.list Keypairs.list Models.list Accounts.stores
call_of accounts_list = Accounts.list
call_of (keypairs_of authority) = Keypairs.list
call_of (models_of authority) = Models.list
call_of (substores_of account) = Accounts.stores account

abbrev pub initial : SessionStorage → State
initial session = record {
  models = [];
  accounts = [];
  keypairs = [];
  substores = array nil;
  selected_account = get_account session;
  message = undefined;
}

-- The constructor: `getAccounts` asks only for a token that is logged in.
unfoldable pub opened : Option Token → SessionStorage → String → World × List Pending
unfolding is_logged_in get_account
opened token session path = (
  record { state = initial session; session = session; path = path },
  if is_logged_in token then accounts_list ∷ [] else [],
)

-- `updateDataForRoute(selectedAccount)`, for the current path.
unfoldable pub update_data_for_route : String → Value → List Pending
unfolding section_from_path prop
update_data_for_route path account =
    let current = section_from_path path in
    (if str_eq current "accounts" then keypairs_of (prop "AuthorityID" account) ∷ [] else [])
    ++ (if str_eq current "signing-keys" then keypairs_of (prop "AuthorityID" account) ∷ [] else [])
    ++ (if str_eq current "models"
        then models_of (prop "AuthorityID" account) ∷ keypairs_of (prop "AuthorityID" account) ∷ []
        else [])
    ++ (if str_eq current "substores"
        then (if truthy (prop "ID" account) then substores_of (prop "ID" account) ∷ [] else [])
          ++ models_of (prop "AuthorityID" account) ∷ []
        else [])
    ++ (if str_eq current "systemuser" then models_of (prop "AuthorityID" account) ∷ [] else [])

abbrev saved : Value → SessionStorage → Option (Value × SessionStorage)
saved account session = elim (save_account account session) [
  | none ↦ none
  | some session' ↦ some (account, session')
]

-- The account of a list that is taken, and saved, where there is one.
abbrev take_first : Value → SessionStorage → List Value → Option (Value × SessionStorage)
take_first selected session [] = some (selected, session)
take_first selected session (a ∷ as') = saved a session

-- The choice in the callback of `getAccounts`: the first account where none is selected and none is in
-- the session, else the one of the list with the selected identifier, else the selected one as it is.
unfoldable pub pick_account : Value → SessionStorage → List Value → Option (Value × SessionStorage)
unfolding get_account save_account same_value prop
pick_account selected session accounts =
    if not (truthy (prop "ID" selected)) && not (truthy (prop "AuthorityID" (get_account session)))
    then take_first selected session accounts
    else take_first selected session
        (filter (λ a. same_value (prop "ID" selected) (prop "ID" a)) accounts)

-- The callback of `getAccounts`.
unfoldable pub on_accounts : JsonParse → Response → World → World × List Pending
unfolding parsed list_of pick_account update_data_for_route
on_accounts parse response w = elim (parsed parse response) [
  | none ↦ (w, [])
  | some data' ↦ elim (list_of "accounts" data') [
    | none ↦ (w, [])
    | some accounts ↦ elim (pick_account w.state.selected_account w.session accounts) [
      | none ↦ (w, [])
      | some (selected, session) ↦ (
        record w {
          session = session;
          state = record (w.state) {
            accounts = accounts;
            selected_account = selected;
            message = message_or (str "") data';
          };
        },
        update_data_for_route w.path selected,
      )
    ]
  ]
]

-- The callback of `getKeypairs(authorityID)`.
unfoldable pub on_keypairs : JsonParse → Value → Response → World → World
unfolding parsed list_of same_value prop
on_keypairs parse authority response w = elim (parsed parse response) [
  | none ↦ w
  | some data' ↦ elim (list_of "keypairs" data') [
    | none ↦ w
    | some ks ↦ record w {
      state = record (w.state) {
        keypairs = filter (λ k. same_value (prop "AuthorityID" k) authority) ks;
        message = message_or (str "") data';
      };
    }
  ]
]

-- The callback of `getModels(authorityID)`.
unfoldable pub on_models : JsonParse → Value → Response → World → World
unfolding parsed list_of same_value prop
on_models parse authority response w = elim (parsed parse response) [
  | none ↦ w
  | some data' ↦ elim (list_of "models" data') [
    | none ↦ w
    | some ms ↦ record w {
      state = record (w.state) {
        models = filter (λ m. same_value (prop "brand-id" m) authority) ms;
        message = message_or (str "") data';
      };
    }
  ]
]

-- The callback of `getSubstores`.
unfoldable pub on_substores : Locale → JsonParse → Response → World → World
unfolding parsed format_error prop
on_substores lang parse response w = elim (parsed parse response) [
  | none ↦ w
  | some data' ↦
      if failed response
      then record w { state = record (w.state) { message = format_error lang data' } }
      else record w {
        state = record (w.state) { substores = prop "substores" data'; message = null };
      }
]

-- The answer to a request.
unfoldable pub deliver : Locale → JsonParse → Pending → Response → World → World × List Pending
deliver lang parse accounts_list response w = on_accounts parse response w
deliver lang parse (keypairs_of authority) response w = (on_keypairs parse authority response w, [])
deliver lang parse (models_of authority) response w = (on_models parse authority response w, [])
deliver lang parse (substores_of account) response w = (on_substores lang parse response w, [])

-- `handleAccountChange(account)`; an account that is not there throws at once.
unfoldable pub handle_account_change : Value → World → World × List Pending
unfolding save_account update_data_for_route
handle_account_change account w = elim (save_account account w.session) [
  | none ↦ (w, [])
  | some session ↦ (
    record w { session = session; state = record (w.state) { selected_account = account } },
    update_data_for_route w.path account,
  )
]
