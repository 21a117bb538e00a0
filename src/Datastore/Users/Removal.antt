-- ===== src/Datastore/Users/Removal.antt =====
-- `DeleteUser` of datastore/usermanager.go on a user to whom accounts are linked.
use identity_vault.Common.{
  ltb, false, ℕ, String, Bool, true, ◌||◌, ◌≡◌, refl, ap, Option, none, some, List, [], ◌∷◌, ◌++◌,
  arith, ◌==◌, if◌then◌else◌, subst, Bool-cases, inl, inr,
}
use identity_vault.Datastore.{
  Row, max_int, Error, Try, done, failed, foreign_key, Account, User, Tables, Step, Wire,
  transaction, ended, then_do, any, delete_row, delete_links, link_account, get_account,
  insert_user,
}
use identity_vault.Datastore.Users.{
  create_user, delete_user, unless_invalid, with_key, create_all, delete_all, link_all, or_fail,
  put_user_accounts,
}
use identity_vault.Datastore.Validation.{validate_user}

-- There is the user, and an account is linked to it.
abbrev pub IsLinked : ℕ → Tables → Type 0
IsLinked id t = (any (λ v. v.id == id) t.users ≡ true) × (any (λ l. l.0 == id) t.links ≡ true)

pub any-append :
    {A : Type 0} (p : A → Bool) (xs ys : List A) → any p (xs ++ ys) ≡ (any p xs || any p ys)
any-append p [] ys = refl
any-append p (x ∷ xs) ys = ground (arith, any-append p xs ys)

-- What went before a success.
pub then_do-done :
    {A B : Type 0} (r : Try A × Tables) (k : A → Step B) (b : B) (t : Tables)
    → then_do r k ≡ (done b, t)
    → (a : A) × (s : Tables) × (r ≡ (done a, s)) × (k a s ≡ (done b, t))
then_do-done (done a, s) k b t e = (a, s, refl, e)
then_do-done (failed e, s) k b t h = ground arith

pub or_fail-done :
    {A B : Type 0} (r : Try A) (k : A → Step B) (b : B) (t t' : Tables)
    → or_fail r k t ≡ (done b, t')
    → (a : A) × (r ≡ done a) × (k a t ≡ (done b, t'))
or_fail-done (done a) k b t t' e = (a, refl, e)
or_fail-done (failed x) k b t t' e = ground arith

-- A link that is made is there.
link_account-IsLinked :
    (user account : ℕ) (t t' : Tables)
    → link_account user account t ≡ (done tt, t')
    → IsLinked user t'
unfolding link_account
link_account-IsLinked user account t t' e = grind (arith, any-append)

link_account_mono :
    (user account id : ℕ) (t t' : Tables)
    → link_account user account t ≡ (done tt, t')
    → IsLinked id t
    → IsLinked id t'
unfolding link_account
link_account_mono user account id t t' e l = grind (arith, any-append)

-- Each turn of the loop of the links.
pub link_all-turn :
    (user : ℕ) (a : Account) (as' : List Account) (t t' : Tables)
    → link_all user (a ∷ as') t ≡ (done tt, t')
    → (account : ℕ) × (s : Tables) × (link_account user account t ≡ (done tt, s))
      × (link_all user as' s ≡ (done tt, t'))
unfolding link_all
link_all-turn user a as' t t' e =
    let (b, _, h) =
      or_fail-done (if a.id == 0 then get_account a.authority_id t else done a)
        (λ b s. then_do (link_account user b.id s) (λ _. link_all user as')) tt t t' e in
    let (_, s, h', rest) =
      then_do-done (link_account user b.id t) (λ _. link_all user as') tt t' h in
    (b.id, s, h', rest)

link_all_mono :
    (user id : ℕ) (as' : List Account) (t t' : Tables)
    → link_all user as' t ≡ (done tt, t')
    → IsLinked id t
    → IsLinked id t'
unfolding link_all
link_all_mono user id [] t t' e l = subst (IsLinked id) (ap (λ r. r.1) e) l
link_all_mono user id (a ∷ as') t t' e l =
    let (account, s, h, rest) = link_all-turn user a as' t t' e in
    link_all_mono user id as' s t' rest (link_account_mono user account id t s h l)

put_user_accounts-IsLinked :
    (user : ℕ) (a : Account) (as' : List Account) (t t' : Tables)
    → put_user_accounts user (a ∷ as') t ≡ (done tt, t')
    → IsLinked user t'
unfolding put_user_accounts delete_links
put_user_accounts-IsLinked user a as' t t' e =
    let (_, s, _, rest) =
      then_do-done (delete_links user t) (λ _. link_all user (a ∷ as')) tt t' e in
    let (account, s', h, rest') = link_all-turn user a as' s t' rest in
    link_all_mono user user as' s' t' rest' (link_account-IsLinked user account s s' h)

-- What was run where a user is created.
ended-done :
    {A : Type 0} (t : Tables) (r : Try A × Tables) (a : A) (t' : Tables)
    → ended true t r ≡ (done a, t')
    → r ≡ (done a, t')
ended-done t (done b, s) a t' e = e
ended-done t (failed x, s) a t' e = ground arith

pub created-done :
    {A : Type 0} (error : Option Error) (wire : Wire) (body : Step A) (t : Tables) (a : A)
    (t' : Tables)
    → wire.commits ≡ true
    → unless_invalid error (transaction wire body) t ≡ (done a, t')
    → body t ≡ (done a, t')
unfolding transaction
created-done none wire body t a t' c e = elim (Bool-cases wire.begins) [
  | inl b ↦ ended-done t (body t) a t' (rw (b, c) at e)
  | inr b ↦ ground arith
]
created-done (some x) wire body t a t' c e = ground arith

-- A number that was given is in the range of the column.
pub insert_user-small :
    (u : Row) (t s : Tables) (id : ℕ) → insert_user u t ≡ (done id, s) → ltb max_int id ≡ false
unfolding insert_user
insert_user-small u t s id e = ground (arith, e)

abbrev pub id_of : Try ℕ → ℕ
id_of (done n) = n
id_of (failed e) = 0

create_all-IsLinked :
    (u : User) (a : Account) (as' : List Account) (id : ℕ) (t t' : Tables)
    → u.accounts ≡ a ∷ as'
    → create_all u t ≡ (done id, t')
    → (ltb max_int id ≡ false) × (IsLinked id t')
unfolding create_all
create_all-IsLinked u a as' id t t' n e =
    let (id', s, i, h) =
      then_do-done (insert_user u.row t)
        (λ id s. then_do (put_user_accounts id u.accounts s) (λ _ s'. (done id, s'))) id t' e in
    let (_, s', h', last) =
      then_do-done (put_user_accounts id' u.accounts s) (λ _ s'. (done id', s')) id t' h in
    let l : IsLinked id' s' =
      put_user_accounts-IsLinked id' a as' s s'
        (subst (λ l. put_user_accounts id' l s ≡ (done tt, s')) n h') in
    subst (λ r. (ltb max_int (id_of r.0) ≡ false) × IsLinked (id_of r.0) r.1) last
      (insert_user-small u.row t s id' i, l)

-- A user that is created with an account, and whose creation is committed, cannot be deleted after it: a
-- deletion whose transaction begins runs into the reference that the link to the account keeps, fails,
-- and changes nothing.
pub created_stays :
    (to_lower : String → String) (random : String) (wire : Wire) (u : User) (a : Account)
    (as' : List Account) (id : ℕ) (t t' : Tables) (later : Wire)
    → wire.commits ≡ true
    → u.accounts ≡ a ∷ as'
    → create_user to_lower random wire u t ≡ (done id, t')
    → later.begins ≡ true
    → delete_user later id t' ≡ (failed foreign_key, t')
unfolding create_user delete_user transaction delete_all delete_row
created_stays to_lower random wire u a as' id t t' later c n e b =
    let (m, (v, l)) = create_all-IsLinked (with_key random u) a as' id t t' n (
      created-done (validate_user to_lower (with_key random u).row) wire
        (create_all (with_key random u)) t id t' c e) in
    rw (b, m, v, l) refl
