-- ===== src/Examples/Store.antt =====
-- The theorems of the database at concrete inputs: users created, updated and deleted.
use identity_vault.Common.{All, true, String, false, ◌≡◌, refl, [], ◌∷◌, arith}
use identity_vault.Common.Number.{pos}
use identity_vault.Common.Text.{slice_to}
use identity_vault.Datastore.{
  stored, any, Account, Row, User, Tables, done, failed, foreign_key, transaction, insert_user,
  delete_row, delete_links, link_account, get_account, fits,
}
use identity_vault.Datastore.Validation.{validate_user}
use identity_vault.Datastore.Soundness.{IsSound}
use identity_vault.Datastore.Users.{
  create_user, delete_user, create_all, delete_all, put_user_accounts, link_all, get_user,
  accounts_of, valid_or_default, with_key,
}
use identity_vault.Datastore.Users.Atomic.{create, remove, run, SameRows, all_or_nothing, committed}
use identity_vault.Datastore.Users.Integrity.{run-IsSound}
use identity_vault.Datastore.Users.Removal.{created_stays}
use identity_vault.Datastore.Users.Reading.{created_read}
use identity_vault.Datastore.Users.Given.{is_given}

abbrev as_it_is : String → String
as_it_is s = s

abbrev canonical : Account
canonical = record { id = 1; authority_id = "canonical"; assertion = ""; reseller_api = false }

abbrev ada : Row
ada = record {
  id = 1;
  username = "ada";
  name = "Ada Lovelace";
  email = "ada@example.com";
  role = pos 200;
  api_key = "0123456789abc";
}

abbrev bob : User
bob = record {
  row = record {
    id = 0;
    username = "bob";
    name = "Bob Noyce";
    email = "bob@example.com";
    role = pos 100;
    api_key = "0123456789xyz";
  };
  accounts = canonical ∷ [];
}

-- Ada has the account.
abbrev tables : Tables
tables = record { users = ada ∷ []; links = (1, 1) ∷ []; accounts = canonical ∷ []; next_id = 2 }

abbrev with_bob : Tables
with_bob = record {
  users = ada ∷ record (bob.row) { id = 2 } ∷ [];
  links = (1, 1) ∷ (2, 1) ∷ [];
  accounts = canonical ∷ [];
  next_id = 3;
}

created : create_user as_it_is "" committed bob tables ≡ (done 2, with_bob)
unfolding stored slice_to create_user validate_user transaction create_all insert_user fits
    put_user_accounts delete_links link_all link_account get_account valid_or_default
created = refl

tables-IsSound : IsSound tables
tables-IsSound = record {
  drawn = (omega arith, tt);
  named = ((refl, tt), tt);
  referred = ((refl, refl), tt);
}

run-IsSound_example : IsSound (run as_it_is "" committed (create bob) tables).1
run-IsSound_example = run-IsSound as_it_is "" committed (create bob) tables tables-IsSound

all_or_nothing_example : SameRows tables (run as_it_is "" committed (remove 1) tables).1
unfolding run delete_user transaction delete_all delete_row
all_or_nothing_example = all_or_nothing as_it_is "" committed (remove 1) tables foreign_key refl

created_stays_example : delete_user committed 2 with_bob ≡ (failed foreign_key, with_bob)
created_stays_example =
    created_stays as_it_is "" committed bob canonical [] 2 tables with_bob committed refl refl
      created refl

created_read_example :
    let r : Row = record (stored (with_key "" bob).row) { id = 2 } in
    (get_user 2 with_bob ≡ done (record { row = r; accounts = accounts_of r.username with_bob }))
    × All (λ a. any (is_given a) (accounts_of r.username with_bob) ≡ true) bob.accounts
created_read_example =
    created_read as_it_is "" committed bob 2 tables with_bob tables-IsSound refl created
