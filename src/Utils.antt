-- ===== src/Utils.antt =====
-- webapp-admin/src/components/Utils.js and Constants.js: sections of a path, translation, error
-- texts, roles, and the account kept in the browser's session. The session and local storage are
-- explicit values; `JSON.parse` is a parameter of the functions that call it.
pub mod Paths
pub mod Roles
pub mod Accounts
pub mod Errors
use identity_vault.Common.{
  ℕ, String, Bool, true, false, Option, none, some, List, [], ◌∷◌, str_eq, if◌then◌else◌, leb, ◌==◌,
  get_elem?, find,
}
use identity_vault.Common.Text.{◌<>◌, split, starts_with, includes}
use identity_vault.Common.Number.{pos}
use identity_vault.Common.Value.{
  Value, undefined, null, flag, number, str, object, truthy, same_value, prop, to_text, parse_value,
  nullable, fields,
}
use identity_vault.Http.{Response, JsonParse, parsed}
use identity_vault.Messages.{Table, Locale, messages}

-- Constants.js

pub data Role : Type 0 where
  standard sync_user admin superuser : Role

abbrev pub level : Role → ℕ
level standard = 100
level sync_user = 150
level admin = 200
level superuser = 300

-- The fields of a decoded token that the pages read; `{}` has neither.
pub record Token : Type 0 where
  pub role : Option ℕ
  pub name : Option String

-- `!!s` for a text that may be undefined or null.
abbrev pub is_set : Option String → Bool
is_set none = false
is_set (some s) = if str_eq s "" then false else true

abbrev pub sections : List String
sections =
    "signing-keys" ∷ "models" ∷ "keypairs" ∷ "accounts" ∷ "signinglog" ∷ "substores" ∷ "systemuser"
    ∷ "users" ∷ "notfound" ∷ []

abbrev pub or_empty : Option String → String
or_empty none = ""
or_empty (some s) = s

unfoldable pub section_from_path : String → String
section_from_path path =
    if str_eq path "/"
    then "home"
    else or_empty (find (λ section. starts_with path ("/" <> section)) sections)

-- `parts = path.split('/').slice(1)`
abbrev pub parts_of : String → List String
parts_of path = elim (split b'/' path) [ [] ↦ [] | p ∷ ps ↦ ps ]

-- `(parts[0] === section && parts[i]) || ''`
abbrev pub part_under : List String → String → ℕ → String
part_under [] section i = ""
part_under (p ∷ ps) section i = if str_eq p section then or_empty (get_elem? (p ∷ ps) i) else ""

unfoldable pub section_id_from_path : String → String → String
section_id_from_path path section = part_under (parts_of path) section 1

unfoldable pub sub_section_id_from_path : String → String → String
sub_section_id_from_path path section = part_under (parts_of path) section 2

-- A text of a table, if the key is there.
unfoldable pub lookup : String → Table → Option String
lookup k [] = none
lookup k ((j, v) ∷ m) = let rest = lookup k m in if str_eq j k then some v else rest

-- `T(message)`: the message itself where the table has no text, or an empty one.
unfoldable pub translate : Locale → Value → Value
unfolding lookup
translate lang message =
    let found = lookup (to_text message) (messages lang) in
    if is_set found then str (or_empty found) else message

-- `T('key')`
abbrev pub translated : Locale → String → Value
translated lang key = translate lang (str key)

-- `message + ': ' + cause`
abbrev pub with_cause : Value → Value → Value
with_cause message cause = str (to_text message <> ": " <> to_text cause)

unfoldable pub format_error : Locale → Value → Value
unfolding prop to_text
format_error lang data' =
    let message = translate lang (prop "error_code" data') in
    if truthy (prop "error_subcode" data')
    then with_cause message (translate lang (prop "error_subcode" data'))
    else if truthy (prop "message" data')
    then with_cause message (prop "message" data')
    else message

-- `parseResponse`; `none` stands for an exception.
unfoldable pub parse_response : JsonParse → Response → Option Value
unfolding includes
parse_response parse response = elim response.content_type [
  | none ↦ none
  | some kind ↦
      if includes kind "json"
      then parse response.body
      else some (
          object (
            fields (
              ("error_code", number (pos response.status_code))
              ∷ ("message", str response.body)
              ∷ [])))
]

-- `authToken()` reads the item of the local storage; `none` stands for an exception.
unfoldable pub auth_token : JsonParse → Option String → Option Value
auth_token parse item = if is_set item then parse (or_empty item) else some (object (fields []))

-- `isUser(role, token)`
abbrev pub has_level : ℕ → Option ℕ → Bool
has_level l none = false
has_level l (some r) = if r == 0 then false else leb l r

unfoldable pub is_user : Role → Option Token → Bool
is_user role none = false
is_user role (some token) = has_level (level role) token.role

unfoldable pub is_user_standard : Option Token → Bool
unfolding is_user
is_user_standard token = is_user standard token

unfoldable pub is_user_admin : Option Token → Bool
unfolding is_user
is_user_admin token = is_user admin token

unfoldable pub is_user_superuser : Option Token → Bool
unfolding is_user
is_user_superuser token = is_user superuser token

unfoldable pub is_logged_in : Option Token → Bool
unfolding is_user_standard
is_logged_in token = is_user_standard token

unfoldable pub role_as_string : ℕ → String
role_as_string role =
    if role == level standard
    then "Standard"
    else if role == level sync_user
    then "Sync API"
    else if role == level admin
    then "Admin"
    else if role == level superuser
    then "Superuser"
    else "invalid role"

-- `getAuthToken(callback)`: what the callback is given, for the body and the header of the answer.
-- `jwtDecode` is a library's; it may throw (`none`) or give nothing (`some none`). After an exception
-- the callback is not called.
unfoldable pub get_auth_token :
    (String → Option (Option Token)) → JsonParse → Response → Option Token
unfolding prop parsed
get_auth_token jwt_decode parse response = elim (parsed parse response) [
  | none ↦ none
  | some data' ↦
      if truthy (prop "enableUserAuth" data')
      then if is_set response.authorization
        then elim (jwt_decode (or_empty response.authorization)) [
          | none ↦ none
          | some none ↦ some (record { role = none; name = none })
          | some (some token) ↦ some token
        ]
        else some (record { role = none; name = none })
      else some (record { role = some (level admin); name = none })
]

-- The four keys of the session storage that the pages use.
pub record SessionStorage : Type 0 where
  pub account_id : Option String
  pub account_code : Option String
  pub account_assertion : Option String
  pub account_reseller : Option String

abbrev pub empty_session : SessionStorage
empty_session = record {
  account_id = none;
  account_code = none;
  account_assertion = none;
  account_reseller = none;
}

-- `saveAccount(account)`; `setItem` turns each value into a text. An undefined account throws
-- (`none`).
unfoldable pub save_account : Value → SessionStorage → Option SessionStorage
unfolding prop to_text
save_account undefined session = none
save_account null session = none
save_account account session = some (record {
  account_id = some (to_text (prop "ID" account));
  account_code = some (to_text (prop "AuthorityID" account));
  account_assertion = some (to_text (prop "Assertion" account));
  account_reseller = some (to_text (prop "ResellerAPI" account));
})

-- `getAccount()`; a missing item is null, which `parseInt` reads as `NaN`.
unfoldable pub get_account : SessionStorage → Value
unfolding same_value parse_value
get_account session = object (
    fields (
      ("ID", number (parse_value (nullable session.account_id)))
      ∷ ("AuthorityID", nullable session.account_code)
      ∷ ("Assertion", nullable session.account_assertion)
      ∷ ("ResellerAPI", flag (same_value (nullable session.account_reseller) (str "true")))
      ∷ []))
