-- ===== src/Server/Accounts.antt =====
-- service/account: the list of the accounts, with datastore/accountadapter.go.
use identity_vault.Common.{String, true, false, List, [], ◌∷◌, map, if◌then◌else◌, ◌==◌, ◌||◌}
use identity_vault.Common.Number.{pos}
use identity_vault.Common.Value.{Value, flag, number, str, object, fields, array, items}
use identity_vault.Datastore.{Account, Tables}
use identity_vault.Datastore.Users.{accounts_of}
use identity_vault.Server.Auth.{
  Gate, Caller, User, unknown, known, invalid, sync_user, admin, superuser, jwt_check, with_bearer,
  get_user_from_jwt, check_user_permissions,
}
use identity_vault.Server.Reply.{
  Writer, new_writer, as_json, write_header, encode_to, format_standard,
}

-- `ListAllowedAccounts`
unfoldable pub list_allowed_accounts : Caller → Tables → List Account
unfolding accounts_of
list_allowed_accounts user t =
    if user.role == invalid || user.role == superuser
    then accounts_of "" t
    else if user.role == sync_user || user.role == admin
    then accounts_of user.username t
    else []

abbrev pub account_value : Account → Value
account_value a = object (
    fields (
      ("ID", number (pos a.id))
      ∷ ("AuthorityID", str a.authority_id)
      ∷ ("Assertion", str a.assertion)
      ∷ ("ResellerAPI", flag a.reseller_api)
      ∷ []))

-- `ListResponse` of a success.
abbrev pub list_response : List Account → Value
list_response accounts = object (
    fields (
      ("success", flag true)
      ∷ ("error_code", str "")
      ∷ ("error_subcode", str "")
      ∷ ("message", str "")
      ∷ ("accounts", array (items (map account_value accounts)))
      ∷ []))

-- `listHandler`
unfoldable pub list_handler : (Value → String) → Gate → Caller → Tables → Writer → Writer
unfolding check_user_permissions format_standard list_allowed_accounts
list_handler encode g user t w =
    if check_user_permissions g user sync_user false
    then encode_to encode (list_response (list_allowed_accounts user t))
        (write_header 200 (as_json w))
    else format_standard encode false "error-auth" "" "" (as_json w)

abbrev listed : (Value → String) → Gate → User → Tables → Writer → Writer
listed encode g (unknown e) t w = format_standard encode false "error-auth" "" e w
listed encode g (known user) t w = list_handler encode g user t w

-- `List`
unfoldable pub list : (Value → String) → Gate → Tables → Writer
unfolding list_handler format_standard jwt_check with_bearer get_user_from_jwt
list encode g t =
    let checked = jwt_check g in
    listed encode g (get_user_from_jwt checked) t (with_bearer checked new_writer)
