-- ===== src/AccountPages/Edit.antt =====
-- webapp-admin/src/components/AccountEdit.js: the form of one account.
use identity_vault.Common.{String, Bool, Option, none, some, [], ◌∷◌, if◌then◌else◌}
use identity_vault.Common.Value.{Value, null, flag, str, object, end, truthy, prop}
use identity_vault.Http.{JsonParse, Response, parsed, failed}
use identity_vault.Messages.{Locale}
use identity_vault.Utils.{Token, format_error, is_user_superuser}
use identity_vault.Page.{
  ask, go_to, Result, set_prop, stopped, refused, accepted, outcome_of_response, Shown, denied,
  shown,
}
use identity_vault.Resources.Accounts

-- `hideForm` is set and never read.
pub record State : Type 0 where
  pub account : Value
  pub error : Value

-- The constructor, with the identifier of the properties.
unfoldable pub opened : Value → Result State
unfolding Accounts.get
opened id = (
  record { account = object end; error = null },
  if truthy id then ask (Accounts.get id) ∷ [] else [],
)

-- The callback of `getAccount`. It calls `this.formatError`, which the component does not have: for an
-- answer with an error it throws, and the state stays.
unfoldable pub on_account : JsonParse → Response → State → State
unfolding parsed prop
on_account parse response s = elim (parsed parse response) [
  | none ↦ s
  | some data' ↦ if failed response then s else record s { account = prop "account" data' }
]

-- `a[k] = v` and `setState({account: a})`
unfoldable pub change : String → Value → State → State
unfolding set_prop
change k v s = elim (set_prop k v s.account) [ none ↦ s | some a ↦ record s { account = a } ]

unfoldable pub handle_change_account : String → State → State
unfolding change
handle_change_account value s = change "AuthorityID" (str value) s

unfoldable pub handle_change_reseller : Bool → State → State
unfolding change
handle_change_reseller checked s = change "ResellerAPI" (flag checked) s

unfoldable pub handle_save_click : State → Result State
unfolding prop Accounts.update Accounts.create
handle_save_click s =
    if truthy (prop "ID" s.account)
    then (s, ask (Accounts.update s.account) ∷ [])
    else (s, ask (Accounts.create s.account) ∷ [])

-- The callback of both requests.
unfoldable pub on_saved : Locale → JsonParse → Response → State → Result State
unfolding outcome_of_response format_error
on_saved lang parse response s = elim (outcome_of_response parse response) [
  | stopped ↦ (s, [])
  | refused data' ↦ (record s { error = format_error lang data' }, [])
  | accepted data' ↦ (s, go_to "/accounts" ∷ [])
]

-- The fields of the form; the assertion is shown for an account with an identifier in the path.
pub record Form : Type 0 where
  pub error : Value
  pub authority_id : Value
  pub reseller_api : Value
  pub assertion : Option Value

unfoldable pub render : Option Token → Value → State → Shown Form
unfolding is_user_superuser prop
render token id s =
    if is_user_superuser token
    then shown (record {
      error = s.error;
      authority_id = prop "AuthorityID" s.account;
      reseller_api = prop "ResellerAPI" s.account;
      assertion = if truthy id then some (prop "Assertion" s.account) else none;
    })
    else denied
