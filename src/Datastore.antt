-- ===== src/Datastore.antt =====
-- The tables of users, accounts and the links between them, datastore/usermanager.go and
-- accountmanager.go: each statement in SQL as a function of the tables, and the transactions of
-- datastore/database.go that run them. The database is PostgreSQL.
pub mod Validation
pub mod Soundness
pub mod Statements
pub mod Deletions
pub mod Users
use identity_vault.Common.{
  ℕ, suc, ◌+◌, String, Bool, true, false, not, ◌&&◌, ◌||◌, Option, none, some, List, [], ◌∷◌, ◌++◌,
  map, filter, find, if◌then◌else◌, str_eq, leb, ◌==◌, ltb, all, zero,
}
use identity_vault.Common.Number.{Number}
use identity_vault.Common.Text.{codes, slice_to}

-- Why a statement fails, or what a function of the datastore says itself.
pub data Error : Type 0 where
  duplicate_key foreign_key too_long out_of_range no_rows : Error
  no_connection : Error
  invalid : String → Error

pub data Try {ℓ} (A : Type ℓ) : Type ℓ where
  done : A → Try A
  failed : Error → Try A

pub record Account : Type 0 where
  pub id : ℕ
  pub authority_id : String
  pub assertion : String
  pub reseller_api : Bool

-- A row of `userinfo`.
pub record Row : Type 0 where
  pub id : ℕ
  pub username : String
  pub name : String
  pub email : String
  pub role : Number
  pub api_key : String

-- `User`
pub record User : Type 0 where
  pub row : Row
  pub open row use *
  pub accounts : List Account

-- `next_id` is the sequence of the serial column, which no transaction takes back.
pub record Tables : Type 0 where
  pub users : List Row
  pub links : List (ℕ × ℕ)
  pub accounts : List Account
  pub next_id : ℕ

abbrev pub Step : Type 0 → Type 0
Step A = Tables → Try A × Tables

abbrev pub any : {A : Type 0} → (A → Bool) → List A → Bool
any p [] = false
any p (x ∷ xs) = let rest = any p xs in if p x then true else rest

-- A text fits a column of type `varchar(n)` if only spaces stand behind its first n characters, which
-- are what is stored.
abbrev pub fits_column : ℕ → String → Bool
fits_column zero s = all (λ c. c == 32) (codes s)
fits_column (suc n) String.[] = true
fits_column (suc n) (String.◌∷◌ c s) = fits_column n s

-- `varchar(200)` and `varchar(255)`
unfoldable pub fits : Row → Bool
fits u =
    fits_column 200 u.username
    && fits_column 200 u.name
    && fits_column 255 u.email
    && fits_column 200 u.api_key

unfoldable pub stored : Row → Row
unfolding slice_to
stored u = record {
  id = u.id;
  username = slice_to 200 u.username;
  name = slice_to 200 u.name;
  email = slice_to 255 u.email;
  role = u.role;
  api_key = slice_to 200 u.api_key;
}

-- The greatest `int` and number of a `serial` column.
abbrev pub max_int : ℕ
max_int = 2147483647

-- `createUserSQL`; the sequence gives no number above the greatest.
unfoldable pub insert_user : Row → Step ℕ
unfolding fits stored
insert_user u t =
    let taken = record t { next_id = suc t.next_id } in
    if ltb max_int t.next_id
    then (failed out_of_range, t)
    else if not (fits u)
    then (failed too_long, taken)
    else if any (λ v. str_eq v.username (stored u).username) t.users
    then (failed duplicate_key, taken)
    else (
      done t.next_id,
      record taken { users = t.users ++ record (stored u) { id = t.next_id } ∷ [] },
    )

-- `updateUserSQL`; it changes no row where there is none.
unfoldable pub update_row : Row → Step Unit
unfolding fits stored
update_row u t =
    if ltb max_int u.id
    then (failed out_of_range, t)
    else if not (any (λ v. v.id == u.id) t.users)
    then (done tt, t)
    else if not (fits u)
    then (failed too_long, t)
    else if any (λ v. str_eq v.username (stored u).username && not (v.id == u.id)) t.users
    then (failed duplicate_key, t)
    else (done tt, record t { users = map (λ v. if v.id == u.id then stored u else v) t.users })

-- `deleteUserSQL`; a row that another table refers to cannot be deleted.
unfoldable pub delete_row : ℕ → Step Unit
delete_row id t =
    if ltb max_int id
    then (failed out_of_range, t)
    else if any (λ v. v.id == id) t.users && any (λ l. l.0 == id) t.links
    then (failed foreign_key, t)
    else (done tt, record t { users = filter (λ v. not (v.id == id)) t.users })

-- `deleteUserAccountsSQL`
unfoldable pub delete_links : ℕ → Step Unit
delete_links id t = (done tt, record t { links = filter (λ l. not (l.0 == id)) t.links })

-- `linkAccountToUserSQL`; both ends must be rows.
unfoldable pub link_account : ℕ → ℕ → Step Unit
link_account user account t =
    if any (λ v. v.id == user) t.users && any (λ a. a.id == account) t.accounts
    then (done tt, record t { links = t.links ++ (user, account) ∷ [] })
    else (failed foreign_key, t)

abbrev pub or_no_rows : {A : Type 0} → Option A → Try A
or_no_rows none = failed no_rows
or_no_rows (some a) = done a

-- `GetAccount`
unfoldable pub get_account : String → Tables → Try Account
get_account authority_id t = or_no_rows (find (λ a. str_eq a.authority_id authority_id) t.accounts)

-- What comes behind a statement, if it does not fail.
abbrev pub then_do : {A B : Type 0} → Try A × Tables → (A → Step B) → Try B × Tables
then_do (done a, t) k = k a t
then_do (failed e, t) k = (failed e, t)

-- The tables as they were, but for the sequence.
abbrev pub rolled_back : Tables → Tables → Tables
rolled_back before after = record before { next_id = after.next_id }

-- Whether the database begins a transaction, and whether the changes of one last that is to be
-- committed: a commit that fails may have been done or not.
pub record Wire : Type 0 where
  pub begins : Bool
  pub commits : Bool

abbrev pub ended : {A : Type 0} → Bool → Tables → Try A × Tables → Try A × Tables
ended commits before (failed e, t) = (failed e, rolled_back before t)
ended true before (done a, t) = (done a, t)
ended false before (done a, t) = (done a, rolled_back before t)

-- `transaction`: the error of the commit is assigned behind the result, which has no name, so that the
-- caller does not see it.
unfoldable pub transaction : {A : Type 0} → Wire → Step A → Step A
transaction wire body t =
    if wire.begins then ended wire.commits t (body t) else (failed no_connection, t)
