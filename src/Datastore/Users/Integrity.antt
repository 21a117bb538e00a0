-- ===== src/Datastore/Users/Integrity.antt =====
-- The changes that the server makes to its users keep the tables sound, datastore/useradapter.go and
-- usermanager.go.
use identity_vault.Common.{
  ℕ, String, Bool, true, false, Option, none, some, List, [], ◌∷◌, arith, ◌==◌, if◌then◌else◌,
  Bool-cases, inl, inr,
}
use identity_vault.Datastore.{
  Error, User, Tables, Account, Try, done, failed, Step, then_do, Wire, transaction, ended,
  insert_user, update_row, delete_row, delete_links, link_account, get_account,
}
use identity_vault.Datastore.Soundness.{IsSound}
use identity_vault.Datastore.Statements.{Keeps, later-IsSound, insert_user-Keeps, update_row-Keeps}
use identity_vault.Datastore.Deletions.{delete_row-Keeps, delete_links-Keeps, link_account-Keeps}
use identity_vault.Datastore.Users.{
  create_user, update_user, delete_user, unless_invalid, with_key, create_all, update_all,
  delete_all, link_all, put_user_accounts, or_fail,
}
use identity_vault.Datastore.Users.Atomic.{Change, create, update, remove, run, told}
use identity_vault.Datastore.Validation.{validate_user}

unchanged : (t : Tables) → IsSound t → Keeps t t
unchanged t s = record { sound = s; onward = omega arith }

Keeps-trans : (t t' t'' : Tables) → Keeps t t' → Keeps t' t'' → Keeps t t''
Keeps-trans t t' t'' h k = record { sound = k.sound; onward = omega (arith, h.onward, k.onward) }

-- One statement behind another.
then_do-Keeps :
    {A B : Type 0} (t : Tables) (r : Try A × Tables) (k : A → Step B)
    → Keeps t r.1
    → ((a : A) (s : Tables) → IsSound s → Keeps s (k a s).1)
    → Keeps t (then_do r k).1
then_do-Keeps t (done a, s) k h f = Keeps-trans t s (k a s).1 h (f a s h.sound)
then_do-Keeps t (failed e, s) k h f = h

or_fail-Keeps :
    {A B : Type 0} (r : Try A) (k : A → Step B) (t : Tables)
    → IsSound t
    → ((a : A) → Keeps t (k a t).1)
    → Keeps t (or_fail r k t).1
or_fail-Keeps (done a) k t s f = f a
or_fail-Keeps (failed e) k t s f = unchanged t s

link_all-Keeps :
    (user : ℕ) (as' : List Account) (t : Tables) → IsSound t → Keeps t (link_all user as' t).1
unfolding link_all
link_all-Keeps user [] t s = unchanged t s
link_all-Keeps user (a ∷ as') t s =
    or_fail-Keeps (if a.id == 0 then get_account a.authority_id t else done a)
      (λ b s. then_do (link_account user b.id s) (λ _. link_all user as')) t s
      (λ b.
        then_do-Keeps t (link_account user b.id t) (λ _. link_all user as')
          (link_account-Keeps user b.id t s) (λ _. link_all-Keeps user as'))

put_user_accounts-Keeps :
    (user : ℕ) (as' : List Account) (t : Tables)
    → IsSound t
    → Keeps t (put_user_accounts user as' t).1
unfolding put_user_accounts
put_user_accounts-Keeps user as' t s =
    then_do-Keeps t (delete_links user t) (λ _. link_all user as') (delete_links-Keeps user t s)
      (λ _. link_all-Keeps user as')

create_all-Keeps : (u : User) (t : Tables) → IsSound t → Keeps t (create_all u t).1
unfolding create_all
create_all-Keeps u t s =
    then_do-Keeps t (insert_user u.row t)
      (λ id t'. then_do (put_user_accounts id u.accounts t') (λ _ t''. (done id, t'')))
      (insert_user-Keeps u.row t s)
      (λ id t' s'.
        then_do-Keeps t' (put_user_accounts id u.accounts t') (λ _ t''. (done id, t''))
          (put_user_accounts-Keeps id u.accounts t' s') (λ _. unchanged))

update_all-Keeps : (u : User) (t : Tables) → IsSound t → Keeps t (update_all u t).1
unfolding update_all
update_all-Keeps u t s =
    then_do-Keeps t (update_row u.row t) (λ _. put_user_accounts u.row.id u.accounts)
      (update_row-Keeps u.row t s) (λ _. put_user_accounts-Keeps u.row.id u.accounts)

delete_all-Keeps : (id : ℕ) (t : Tables) → IsSound t → Keeps t (delete_all id t).1
unfolding delete_all
delete_all-Keeps id t s =
    then_do-Keeps t (delete_row id t) (λ _. delete_links id) (delete_row-Keeps id t s)
      (λ _. delete_links-Keeps id)

ended-IsSound :
    {A : Type 0} (commits : Bool) (t : Tables) (r : Try A × Tables)
    → IsSound t
    → Keeps t r.1
    → IsSound (told (ended commits t r)).1
ended-IsSound commits t (failed e, t') s h = later-IsSound t t'.next_id s h.onward
ended-IsSound true t (done a, t') s h = h.sound
ended-IsSound false t (done a, t') s h = later-IsSound t t'.next_id s h.onward

transaction-IsSound :
    {A : Type 0} (error : Option Error) (wire : Wire) (body : Step A) (t : Tables)
    → IsSound t
    → Keeps t (body t).1
    → IsSound (told (unless_invalid error (transaction wire body) t)).1
unfolding transaction
transaction-IsSound none wire body t s h = elim (Bool-cases wire.begins) [
  | inl b ↦ rw b (ended-IsSound wire.commits t (body t) s h)
  | inr b ↦ rw b s
]
transaction-IsSound (some e) wire body t s h = s

-- Each change to the users, whether it succeeds, fails at any of its statements or is not committed,
-- keeps the tables sound: their numbers are below the one to be drawn next, two of them have one
-- number exactly where they have one name, and each link refers to a user and an account that exist.
pub run-IsSound :
    (to_lower : String → String) (random : String) (wire : Wire) (c : Change) (t : Tables)
    → IsSound t
    → IsSound (run to_lower random wire c t).1
unfolding run create_user update_user delete_user
run-IsSound to_lower random wire (create u) t s =
    transaction-IsSound (validate_user to_lower (with_key random u).row) wire
      (create_all (with_key random u)) t s (create_all-Keeps (with_key random u) t s)
run-IsSound to_lower random wire (update u) t s =
    transaction-IsSound (validate_user to_lower (with_key random u).row) wire
      (update_all (with_key random u)) t s (update_all-Keeps (with_key random u) t s)
run-IsSound to_lower random wire (remove id) t s =
    transaction-IsSound none wire (delete_all id) t s (delete_all-Keeps id t s)
