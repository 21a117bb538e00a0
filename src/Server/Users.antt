-- ===== src/Server/Users.antt =====
-- service/user: the handlers on users, handlers_users.go and actions.go.
pub mod Views
pub mod Answers
pub mod Told
pub mod Decoding
pub mod Editing
use identity_vault.Common.{
  ℕ, String, Bool, true, false, ◌⊎◌, inl, inr, List, [], ◌∷◌, map, if◌then◌else◌,
}
use identity_vault.Common.Number.{Number, pos}
use identity_vault.Common.Value.{Value, flag, number, str, object, fields, array, items}
use identity_vault.Datastore.{Account, Row, Tables, Try, done, failed, Error, Wire}
use identity_vault.Datastore
use identity_vault.Datastore.Users.{
  create_user, update_user, delete_user, get_user, list_users, other_accounts,
}
use identity_vault.Server.Auth.{
  Gate, Caller, User, unknown, known, superuser, jwt_check, with_bearer, get_user_from_jwt,
  check_user_permissions,
}
use identity_vault.Server.Reply.{
  Writer, new_writer, as_json, write_header, encode_to, format_standard,
}
use identity_vault.Server.Accounts.{account_value}

-- What a request runs with: the caller, the database, the libraries, and the texts of the errors of the
-- database.
pub record Env : Type 0 where
  pub gate : Gate
  pub wire : Wire
  pub encode : Value → String
  pub to_lower : String → String
  pub random : String
  pub text : Error → String

-- `Request`
pub record Request : Type 0 where
  pub username : String
  pub name : String
  pub email : String
  pub api_key : String
  pub role : Number
  pub accounts : List String

-- What the library makes of a body: nothing there, an error with its text, or a request.
pub data Decoded : Type 0 where
  empty : Decoded
  malformed : String → Decoded
  request : Request → Decoded

-- `BuildAccountsFromAuthorityIDs`
abbrev pub build_account : String → Account
build_account a = record { id = 0; authority_id = a; assertion = ""; reseller_api = false }

abbrev pub build_accounts : List String → List Account
build_accounts ids = map build_account ids

-- The record of the database.
abbrev pub user_of : ℕ → Request → Datastore.User
user_of id r = record {
  row = record {
    id = id;
    username = r.username;
    name = r.name;
    email = r.email;
    role = r.role;
    api_key = r.api_key;
  };
  accounts = build_accounts r.accounts;
}

abbrev pub refused : Env → String → String → Writer → Writer
refused env code message w = format_standard env.encode false code "" message w

abbrev pub succeeded : Env → Writer → Writer
succeeded env w = format_standard env.encode true "" "" "" (write_header 200 w)

-- What a handler answers where the database is done, and where it is not.
abbrev pub told_by :
    {A : Type 0} → Env → (Error → Writer → Writer) → Try A × Tables → Writer → Writer × Tables
told_by env on_error (done a, t) w = (succeeded env w, t)
told_by env on_error (failed e, t) w = (on_error e w, t)

-- `createHandler`, `updateHandler` and `deleteHandler`
unfoldable pub create_handler : Env → Caller → Datastore.User → Tables → Writer → Writer × Tables
unfolding check_user_permissions format_standard create_user
create_handler env caller u t w =
    if check_user_permissions env.gate caller superuser false
    then told_by env (λ e. refused env "error-creating-user" (env.text e))
        (create_user env.to_lower env.random env.wire u t) (as_json w)
    else (refused env "error-auth" "" (as_json w), t)

unfoldable pub update_handler : Env → Caller → Datastore.User → Tables → Writer → Writer × Tables
unfolding check_user_permissions format_standard update_user
update_handler env caller u t w =
    if check_user_permissions env.gate caller superuser false
    then told_by env (λ e. refused env "error-stores-substore" "Error updating the store")
        (update_user env.to_lower env.random env.wire u t) (as_json w)
    else (refused env "error-auth" "" (as_json w), t)

unfoldable pub delete_handler : Env → Caller → ℕ → Tables → Writer → Writer × Tables
unfolding check_user_permissions format_standard delete_user
delete_handler env caller id t w =
    if check_user_permissions env.gate caller superuser false
    then told_by env (λ e. refused env "error-deleting-user" (env.text e))
        (delete_user env.wire id t) (as_json w)
    else (refused env "error-auth" "" (as_json w), t)

-- What a handler does behind the test of the token.
abbrev pub when_known : Env → User → Tables → Writer → (Caller → Writer × Tables) → Writer × Tables
when_known env (unknown e) t w k = (refused env "error-auth" e w, t)
when_known env (known caller) t w k = k caller

abbrev pub for_user : Env → Tables → Writer → (Caller → Writer → Writer × Tables) → Writer × Tables
for_user env t w k =
    let checked = jwt_check env.gate in
    let w' = with_bearer checked w in
    when_known env (get_user_from_jwt checked) t w' (λ caller. k caller w')

-- The body, and the number in the path: `strconv.Atoi` gives it or an error with its text.
abbrev pub for_request :
    Env → Decoded → Tables → Writer → (Request → Writer × Tables) → Writer × Tables
for_request env empty t w k = (refused env "error-user-data" "No user data supplied." w, t)
for_request env (malformed e) t w k = (refused env "error-decode-json" e w, t)
for_request env (request r) t w k = k r

abbrev pub for_number :
    Env → String → String ⊎ ℕ → Tables → Writer → (ℕ → Writer × Tables) → Writer × Tables
for_number env code (inl e) t w k = (refused env code e w, t)
for_number env code (inr id) t w k = k id

-- `Create`, `Update` and `Delete`
unfoldable pub create : Env → Decoded → Tables → Writer × Tables
unfolding create_handler format_standard jwt_check with_bearer get_user_from_jwt
create env body t =
    for_user env t new_writer
      (λ caller w. for_request env body t w (λ r. create_handler env caller (user_of 0 r) t w))

unfoldable pub update : Env → String ⊎ ℕ → Decoded → Tables → Writer × Tables
unfolding update_handler format_standard jwt_check with_bearer get_user_from_jwt
update env path_id body t = for_user env t (as_json new_writer) (λ caller w.
    for_number env "error-invalid-account" path_id t w
      (λ id. for_request env body t w (λ r. update_handler env caller (user_of id r) t w)))

unfoldable pub delete : Env → String ⊎ ℕ → Tables → Writer × Tables
unfolding delete_handler format_standard jwt_check with_bearer get_user_from_jwt
delete env path_id t = for_user env t (as_json new_writer) (λ caller w.
    for_number env "error-invalid-user" path_id t w (λ id. delete_handler env caller id t w))
