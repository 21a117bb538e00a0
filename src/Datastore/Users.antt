-- ===== src/Datastore/Users.antt =====
-- The operations of datastore/usermanager.go and useradapter.go on users and their accounts. The random
-- text of `GenerateRandomString` is a parameter.
pub mod Integrity
pub mod Atomic
pub mod Removal
pub mod Given
pub mod Reading
use identity_vault.Common.{
  ℕ, suc, ◌+◌, String, Bool, true, false, not, ◌&&◌, ◌||◌, Option, none, some, List, [], ◌∷◌, ◌++◌,
  map, filter, find, if◌then◌else◌, str_eq, ltb, ◌==◌, code,
}
use identity_vault.Common.Number.{Number}
use identity_vault.Common.Text.{codes, ◌<>◌}
use identity_vault.Datastore.{
  Error, Try, done, failed, Account, Row, User, Tables, Step, Wire, transaction, then_do,
  insert_user, update_row, delete_row, delete_links, link_account, get_account, or_no_rows, any,
  max_int,
}
use identity_vault.Datastore.Validation.{validate_user, is_alnum}

-- `strings.Replace(s, " ", "", -1)`
abbrev pub without_spaces : String → String
without_spaces String.[] = ""
without_spaces (String.◌∷◌ c s) =
    let rest = without_spaces s in if code c == 32 then rest else String.◌∷◌ c rest

-- `[^A-Za-z0-9]+` replaced by nothing.
abbrev pub only_alnum : String → String
only_alnum String.[] = ""
only_alnum (String.◌∷◌ c s) =
    let rest = only_alnum s in if is_alnum (code c) then String.◌∷◌ c rest else rest

-- `len(s)`, in bytes.
abbrev byte_count : ℕ → ℕ
byte_count c = if ltb c 128 then 1 else if ltb c 2048 then 2 else if ltb c 65536 then 3 else 4

abbrev pub bytes : List ℕ → ℕ
bytes [] = 0
bytes (c ∷ cs) = byte_count c + bytes cs

-- `buildValidOrDefaultAPIKey`; a longer key than the minimum of ten is kept.
unfoldable pub valid_or_default : String → String → String
valid_or_default random key =
    let k = without_spaces key in if ltb 10 (bytes (codes k)) then k else only_alnum random

-- What comes behind a value that may fail to be found.
abbrev pub or_fail : {A B : Type 0} → Try A → (A → Step B) → Step B
or_fail (done a) k = k a
or_fail (failed e) k = λ t. (failed e, t)

-- `putUserAccounts`, its loop.
unfoldable pub link_all : ℕ → List Account → Step Unit
unfolding link_account get_account
link_all user [] = λ t. (done tt, t)
link_all user (a ∷ as') = λ t.
    or_fail (if a.id == 0 then get_account a.authority_id t else done a)
      (λ b s. then_do (link_account user b.id s) (λ _. link_all user as')) t

unfoldable pub put_user_accounts : ℕ → List Account → Step Unit
unfolding delete_links
put_user_accounts user accounts t = then_do (delete_links user t) (λ _. link_all user accounts)

-- What `createUser`, `updateUser` and `DeleteUser` run in a transaction.
unfoldable pub create_all : User → Step ℕ
unfolding insert_user put_user_accounts
create_all u t =
    then_do (insert_user u.row t)
      (λ id t'. then_do (put_user_accounts id u.accounts t') (λ _ t''. (done id, t'')))

unfoldable pub update_all : User → Step Unit
unfolding update_row put_user_accounts
update_all u t = then_do (update_row u.row t) (λ _. put_user_accounts u.row.id u.accounts)

unfoldable pub delete_all : ℕ → Step Unit
unfolding delete_row delete_links
delete_all id t = then_do (delete_row id t) (λ _. delete_links id)

-- The user with the key that is kept or made.
abbrev pub with_key : String → User → User
with_key random u = record {
  row = record (u.row) { api_key = valid_or_default random u.row.api_key };
  accounts = u.accounts;
}

abbrev pub unless_invalid : {A : Type 0} → Option Error → Step A → Step A
unless_invalid none body = body
unless_invalid (some e) body = λ t. (failed e, t)

-- `CreateUser`, `UpdateUser` and `DeleteUser`
unfoldable pub create_user : (String → String) → String → Wire → User → Step ℕ
unfolding validate_user transaction create_all valid_or_default
create_user to_lower random wire u =
    unless_invalid (validate_user to_lower (with_key random u).row)
      (transaction wire (create_all (with_key random u)))

unfoldable pub update_user : (String → String) → String → Wire → User → Step Unit
unfolding validate_user transaction update_all valid_or_default
update_user to_lower random wire u =
    unless_invalid (validate_user to_lower (with_key random u).row)
      (transaction wire (update_all (with_key random u)))

unfoldable pub delete_user : Wire → ℕ → Step Unit
unfolding transaction delete_all
delete_user wire id = transaction wire (delete_all id)

-- `listUserAccountsSQL`: the accounts of the links of the users that the test takes, in their order.
abbrev pub linked : (ℕ → Bool) → List (ℕ × ℕ) → List Account → List Account
linked is_theirs [] accounts = []
linked is_theirs ((u, a) ∷ ls) accounts =
    let rest = linked is_theirs ls accounts in
    if is_theirs u then filter (λ b. b.id == a) accounts ++ rest else rest

-- `listAccountsFilteredByUser`: without a name, all accounts.
unfoldable pub accounts_of : String → Tables → List Account
accounts_of username t =
    if str_eq username ""
    then t.accounts
    else linked (λ id. any (λ v. v.id == id && str_eq v.username username) t.users) t.links
        t.accounts

-- `rowToUser`
abbrev pub row_to_user : Tables → Option Row → Try User
row_to_user t none = failed Error.no_rows
row_to_user t (some v) = done (record { row = v; accounts = accounts_of v.username t })

-- `GetUser`
unfoldable pub get_user : ℕ → Tables → Try User
unfolding accounts_of
get_user id t =
    if ltb max_int id
    then failed Error.out_of_range
    else row_to_user t (find (λ v. v.id == id) t.users)

-- `ListUsers`, but for the order of the rows.
unfoldable pub list_users : Tables → List User
unfolding accounts_of
list_users t = map (λ v. record { row = v; accounts = accounts_of v.username t }) t.users

-- `ListNotUserAccounts`
unfoldable pub other_accounts : String → Tables → List Account
other_accounts username t =
    filter
      (λ a. not (
        any (λ l. l.1 == a.id && any (λ v. v.id == l.0 && str_eq v.username username) t.users)
          t.links))
      t.accounts
