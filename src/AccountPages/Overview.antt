-- ===== src/AccountPages/Overview.antt =====
-- webapp-admin/src/components/AccountList.js: the selected account, and its keys with their state.
use identity_vault.Common.{
  String, Bool, true, false, Option, none, some, List, [], ◌∷◌, map, find, ◌&&◌, if◌then◌else◌,
}
use identity_vault.Common.Text.{◌<>◌}
use identity_vault.Common.Value.{
  Value, array, nil, str, truthy, same_value, prop, to_text, as_array,
}
use identity_vault.Http.{JsonParse, Response, parsed}
use identity_vault.Utils.{Token, is_user_superuser}
use identity_vault.Page.{ask, Result, Shown, denied, shown, message_or, selected_accounts}
use identity_vault.Resources.Models

pub record State : Type 0 where
  pub models : Value
  pub message : Value

-- The constructor; `App` hands no models down. `componentDidMount` asks for them.
unfoldable pub opened : Result State
unfolding Models.list
opened = (record { models = array nil; message = str "" }, ask Models.list ∷ [])

unfoldable pub on_models : JsonParse → Response → State → State
unfolding parsed prop
on_models parse response s = elim (parsed parse response) [
  | none ↦ s
  | some data' ↦ record s { models = prop "models" data'; message = message_or (str "") data' }
]

-- What `renderKeyStatus` shows for a key.
pub data KeyStatus : Type 0 where
  not_used : KeyStatus
  complete : KeyStatus
  lacks : List String → KeyStatus

abbrev is_found : Option Value → Bool
is_found none = false
is_found (some v) = true

-- The two messages, `no-assertion` and `no-assertion-key`, before they are translated.
abbrev missing_parts : Bool → Bool → List String
missing_parts true true = []
missing_parts true false = "no-assertion-key" ∷ []
missing_parts false true = "no-assertion" ∷ []
missing_parts false false = "no-assertion" ∷ "no-assertion-key" ∷ []

abbrev complete_or : List String → KeyStatus
complete_or [] = complete
complete_or (m ∷ ms) = lacks (m ∷ ms)

-- `renderKeyStatus(acc)`, over the models and the account that the page shows. A text of length 0 is
-- falsy, so that the second half of the source's last test adds nothing for texts.
unfoldable pub key_status : List Value → Value → Value → KeyStatus
unfolding same_value prop selected_accounts
key_status models account acc =
    let used = is_found (
      find
        (λ m.
          same_value (prop "authority-id-user" m) (prop "AuthorityID" acc)
          && same_value (prop "key-id-user" m) (prop "KeyID" acc))
        models) in
    let owned = is_found (
      find (λ a. same_value (prop "AuthorityID" a) (prop "AuthorityID" acc))
        (selected_accounts account)) in
    if used then complete_or (missing_parts owned (truthy (prop "Assertion" acc))) else not_used

-- A row of `renderAccounts`: the link to its form, its code and whether it is a reseller's.
abbrev pub AccountRow : Type 0
AccountRow = String × Value × Bool

unfoldable pub account_row : Value → AccountRow
unfolding prop to_text
account_row acc = (
  "/accounts/account/" <> to_text (prop "ID" acc),
  prop "AuthorityID" acc,
  truthy (prop "ResellerAPI" acc),
)

-- A row of `renderAccountKeys`.
abbrev pub KeyRow : Type 0
KeyRow = Value × Value × KeyStatus × Bool

unfoldable pub key_row : List Value → Value → Value → KeyRow
unfolding key_status prop
key_row models account acc = (
  prop "AuthorityID" acc,
  prop "KeyID" acc,
  key_status models account acc,
  truthy (prop "ResellerAPI" acc),
)

abbrev rows : Option (List Value) → Value → List Value → Option (List AccountRow × List KeyRow)
rows none account [] = some (map account_row (selected_accounts account), [])
rows none account (k ∷ ks) = none
rows (some models) account keypairs =
    some (map account_row (selected_accounts account), map (key_row models account) keypairs)

-- `none` where there are keys and the models are no array, which the rendering of a key throws on.
unfoldable pub render :
    Option Token → Value → List Value → State → Shown (Option (List AccountRow × List KeyRow))
unfolding is_user_superuser account_row key_row selected_accounts
render token account keypairs s =
    if is_user_superuser token then shown (rows (as_array s.models) account keypairs) else denied
