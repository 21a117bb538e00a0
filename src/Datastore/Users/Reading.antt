-- ===== src/Datastore/Users/Reading.antt =====
-- `GetUser` behind `CreateUser`, datastore/usermanager.go.
use identity_vault.Common.{
  str_eq, ◌&&◌, ℕ, String, true, ◌≡◌, refl, sym, ap, subst, ◌∙◌, some, List, [], ◌∷◌, ◌++◌, arith,
  ◌==◌, ◌<◌, find, All,
}
use identity_vault.Datastore.{
  any, stored, Row, User, Tables, Account, done, then_do, Wire, insert_user, delete_links,
  link_account,
}
use identity_vault.Datastore.Soundness.{IsSound}
use identity_vault.Datastore.Users.{
  create_user, with_key, create_all, link_all, put_user_accounts, get_user, row_to_user,
  accounts_of,
}
use identity_vault.Datastore.Users.Removal.{id_of, then_do-done, created-done, link_all-turn}
use identity_vault.Datastore.Validation.{validate_user}
use identity_vault.Datastore.Users.Given.{is_given, create_all-HasLink, given-read, named-there}

find-snoc :
    (n : ℕ) (us : List Row) (r : Row)
    → All (λ v. v.id < n) us
    → r.id ≡ n
    → find (λ v. v.id == n) (us ++ r ∷ []) ≡ some r
find-snoc n [] r h e = ground (arith, e)
find-snoc n (v ∷ us) r (h, t) e = ground (arith, h, find-snoc n us r t e)

link_account-users :
    (user account : ℕ) (t : Tables) → (link_account user account t).1.users ≡ t.users
unfolding link_account
link_account-users user account t = ground arith

link_all-users :
    (user : ℕ) (as' : List Account) (t t' : Tables)
    → link_all user as' t ≡ (done tt, t')
    → t'.users ≡ t.users
unfolding link_all
link_all-users user [] t t' e = ap (λ r. r.1.users) (sym e)
link_all-users user (a ∷ as') t t' e =
    let (account, s, h, rest) = link_all-turn user a as' t t' e in
    link_all-users user as' s t' rest
    ∙ ap (λ r. r.1.users) (sym h)
    ∙ link_account-users user account t

put_user_accounts-users :
    (user : ℕ) (as' : List Account) (t t' : Tables)
    → put_user_accounts user as' t ≡ (done tt, t')
    → t'.users ≡ t.users
unfolding put_user_accounts delete_links
put_user_accounts-users user as' t t' e =
    let (_, s, h, rest) = then_do-done (delete_links user t) (λ _. link_all user as') tt t' e in
    link_all-users user as' s t' rest ∙ ap (λ r. r.1.users) (sym h)

insert_user-done :
    (u : Row) (t s : Tables) (id : ℕ)
    → insert_user u t ≡ (done id, s)
    → (id ≡ t.next_id)
      × (s.users ≡ t.users ++ record (stored u) { id = t.next_id } ∷ [])
      × (s.accounts ≡ t.accounts)
unfolding insert_user
insert_user-done u t s id e = ground (arith, e)

create_all-users :
    (u : User) (id : ℕ) (t t' : Tables)
    → create_all u t ≡ (done id, t')
    → (id ≡ t.next_id) × (t'.users ≡ t.users ++ record (stored u.row) { id = t.next_id } ∷ [])
unfolding create_all
create_all-users u id t t' e =
    let (id', s, i, h) =
      then_do-done (insert_user u.row t)
        (λ id s. then_do (put_user_accounts id u.accounts s) (λ _ s'. (done id, s'))) id t' e in
    let (_, s', h', last) =
      then_do-done (put_user_accounts id' u.accounts s) (λ _ s'. (done id', s')) id t' h in
    let (n, us, _) = insert_user-done u.row t s id' i in
    let same : id' ≡ id = ap (λ r. id_of r.0) last in
    (
      sym same ∙ n,
      ap (λ r. r.1.users) (sym last) ∙ put_user_accounts-users id' u.accounts s s' h' ∙ us,
    )

-- In sound tables, a user whose creation is reported and committed is read back under the number that
-- was told: the row holds what was given, with the key that was kept or made, but for spaces behind the
-- length of a column, and each account that was given, by its number or by its code, is among those
-- that are read.
pub created_read :
    (to_lower : String → String) (random : String) (wire : Wire) (u : User) (id : ℕ) (t t' : Tables)
    → IsSound t
    → wire.commits ≡ true
    → create_user to_lower random wire u t ≡ (done id, t')
    → let r : Row = record (stored (with_key random u).row) { id = id } in
      (get_user id t' ≡ done (record { row = r; accounts = accounts_of r.username t' }))
      × All (λ a. any (is_given a) (accounts_of r.username t') ≡ true) u.accounts
unfolding create_user get_user stored
created_read to_lower random wire u id t t' s c e =
    let v = with_key random u in
    let made = created-done (validate_user to_lower v.row) wire (create_all v) t id t' c e in
    let (n, us) = create_all-users v id t t' made in
    let (small, ls) = create_all-HasLink v id t t' made in
    let r : Row = record (stored v.row) { id = id } in
    let us' : t'.users ≡ t.users ++ r ∷ [] =
      us ∙ ap (λ m. t.users ++ record (stored v.row) { id = m } ∷ []) (sym n) in
    let there : find (λ v. v.id == id) t'.users ≡ some r =
      subst (λ us. find (λ v. v.id == id) us ≡ some r) (sym us')
        (find-snoc id t.users r (subst (λ m. All (λ v. v.id < m) t.users) (sym n) s.drawn) refl) in
    let named : any (λ v. v.id == id && str_eq v.username r.username) t'.users ≡ true =
      subst (λ us. any (λ v. v.id == id && str_eq v.username r.username) us ≡ true) (sym us')
        (named-there id r.username t.users r refl refl) in
    (rw small (ap (row_to_user t') there), given-read u.accounts id r.username t' named ls)
