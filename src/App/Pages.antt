-- ===== src/App/Pages.antt =====
-- webapp-admin/src/App.js: the page that each path shows.
use identity_vault.Common.{
  String, Bool, true, false, ◌&&◌, ◌||◌, Option, List, [], ◌∷◌, str_eq, if◌then◌else◌,
}
use identity_vault.Utils.{
  Token, section_from_path, section_id_from_path, sub_section_id_from_path, is_user_admin,
  is_user_superuser,
}

abbrev pub submenu_models : List String
submenu_models = "models" ∷ "substores" ∷ "systemuser" ∷ []

-- What the middle of the application shows, by path.
pub data Route : Type 0 where
  home : Bool → Route
  keypair_generate keypair_add keypair_list keypair_store : Route
  keypair_edit : String → Route
  model_new model_list : Route
  model_edit : String → Route
  account_upload account_new account_key account_list : Route
  account_edit : String → Route
  signing_log substore_list system_user : Route
  user_new user_list : Route
  user_edit : String → Route
  blank : Route

unfoldable pub render_models : String → Route
unfolding section_id_from_path
render_models path =
    let id = section_id_from_path path "models" in
    if str_eq id "new" then model_new else if str_eq id "" then model_list else model_edit id

unfoldable pub render_accounts : String → Route
unfolding section_id_from_path sub_section_id_from_path
render_accounts path =
    let id = section_id_from_path path "accounts" in
    let sub = sub_section_id_from_path path "accounts" in
    if str_eq id "upload"
    then account_upload
    else if str_eq id "new"
    then account_new
    else if str_eq id "account"
    then account_edit sub
    else if str_eq id "key-assertion"
    then account_key
    else account_list

unfoldable pub render_users : String → Route
unfolding section_id_from_path
render_users path =
    let id = section_id_from_path path "users" in
    if str_eq id "new" then user_new else if str_eq id "" then user_list else user_edit id

unfoldable pub render_keypairs : String → Route
unfolding section_id_from_path
render_keypairs path =
    let id = section_id_from_path path "signing-keys" in
    if str_eq id "generate"
    then keypair_generate
    else if str_eq id "new"
    then keypair_add
    else if str_eq id ""
    then keypair_list
    else if str_eq id "store"
    then keypair_store
    else keypair_edit id

-- The part of `render` behind the header; the tests exclude one another.
unfoldable pub route : String → Route
route path =
    let current = section_from_path path in
    if str_eq current "home"
    then home false
    else if str_eq current "notfound"
    then home true
    else if str_eq current "signing-keys"
    then render_keypairs path
    else if str_eq current "models"
    then render_models path
    else if str_eq current "accounts"
    then render_accounts path
    else if str_eq current "signinglog"
    then signing_log
    else if str_eq current "substores"
    then substore_list
    else if str_eq current "systemuser"
    then system_user
    else if str_eq current "users"
    then render_users path
    else blank

-- Whether `render` shows the submenu of the models.
unfoldable pub has_submenu : Option Token → String → Bool
unfolding is_user_admin is_user_superuser section_from_path
has_submenu token path =
    let current = section_from_path path in
    (is_user_admin token || is_user_superuser token)
    && (str_eq current "models" || str_eq current "substores" || str_eq current "systemuser")
