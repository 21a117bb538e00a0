-- ===== src/Server/Users/Views.antt =====
-- service/user: the handlers that read users and accounts.
use identity_vault.Common.{ℕ, String, true, false, ◌⊎◌, inl, inr, [], ◌∷◌, map, if◌then◌else◌}
use identity_vault.Common.Number.{pos}
use identity_vault.Common.Value.{Value, flag, number, str, object, fields, array, items}
use identity_vault.Datastore.{Account, Row, Tables, Try, done, failed, Error, Wire}
use identity_vault.Datastore
use identity_vault.Datastore.Users.{get_user, list_users, other_accounts}
use identity_vault.Server.Auth.{
  Caller, superuser, jwt_check, with_bearer, get_user_from_jwt, check_user_permissions,
}
use identity_vault.Server.Reply.{
  Writer, new_writer, as_json, write_header, encode_to, format_standard,
}
use identity_vault.Server.Accounts.{account_value}
use identity_vault.Server.Users.{Env, refused, for_user, for_number}

-- The answers that read.
abbrev pub user_value : Datastore.User → Value
user_value u = object (
    fields (
      ("ID", number (pos u.row.id))
      ∷ ("Username", str u.row.username)
      ∷ ("Name", str u.row.name)
      ∷ ("Email", str u.row.email)
      ∷ ("APIKey", str u.row.api_key)
      ∷ ("Role", number u.row.role)
      ∷ ("Accounts", array (items (map account_value u.accounts)))
      ∷ []))

abbrev pub success_with : String → Value → Value
success_with k v = object (
    fields (
      ("success", flag true)
      ∷ ("error_code", str "")
      ∷ ("error_subcode", str "")
      ∷ ("message", str "")
      ∷ (k, v)
      ∷ []))

abbrev pub answered : Env → Value → Writer → Writer
answered env v w = encode_to env.encode v (write_header 200 w)

-- `listHandler`, `getHandler` and `getOtherAccountsHandler`
unfoldable pub list_handler : Env → Caller → Tables → Writer → Writer
unfolding check_user_permissions format_standard list_users
list_handler env caller t w =
    if check_user_permissions env.gate caller superuser false
    then answered env (success_with "users" (array (items (map user_value (list_users t)))))
        (as_json w)
    else refused env "error-auth" "" (as_json w)

unfoldable pub get_handler : Env → Caller → ℕ → Tables → Writer → Writer
unfolding check_user_permissions format_standard get_user
get_handler env caller id t w =
    if check_user_permissions env.gate caller superuser false
    then elim (get_user id t) [
      | failed e ↦ refused env "error-fetch-users" (env.text e) (as_json w)
      | done u ↦ answered env (success_with "user" (user_value u)) (as_json w)
    ]
    else refused env "error-auth" "" (as_json w)

unfoldable pub get_other_accounts_handler : Env → Caller → ℕ → Tables → Writer → Writer
unfolding check_user_permissions format_standard get_user other_accounts
get_other_accounts_handler env caller id t w =
    if check_user_permissions env.gate caller superuser false
    then elim (get_user id t) [
      | failed e ↦ refused env "error-get-user" (env.text e) (as_json w)
      | done u ↦
          answered env
            (success_with "accounts"
              (array (items (map account_value (other_accounts u.row.username t)))))
            (as_json w)
    ]
    else refused env "error-auth2" "" (as_json w)

-- `List`, `Get` and `GetOtherAccounts`, which change no table.
unfoldable pub list : Env → Tables → Writer × Tables
unfolding list_handler format_standard jwt_check with_bearer get_user_from_jwt
list env t = for_user env t new_writer (λ caller w. (list_handler env caller t w, t))

unfoldable pub get : Env → String ⊎ ℕ → Tables → Writer × Tables
unfolding get_handler format_standard jwt_check with_bearer get_user_from_jwt
get env path_id t = for_user env t new_writer (λ caller w.
    for_number env "error-invalid-user" path_id t w (λ id. (get_handler env caller id t w, t)))

abbrev or_not_found : String ⊎ ℕ → Writer → Writer
or_not_found (inl e) w = write_header 404 w
or_not_found (inr id) w = w

unfoldable pub get_other_accounts : Env → String ⊎ ℕ → Tables → Writer × Tables
unfolding get_other_accounts_handler format_standard jwt_check with_bearer get_user_from_jwt
get_other_accounts env path_id t = for_user env t (as_json new_writer) (λ caller w.
    for_number env "error-invalid-user" path_id t (or_not_found path_id w)
      (λ id. (get_other_accounts_handler env caller id t w, t)))
