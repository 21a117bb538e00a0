-- ===== src/Datastore/Users/Given.antt =====
-- The accounts that a user is given, and those that are read, datastore/usermanager.go and
-- accountmanager.go.
use identity_vault.Common.{
  false, filter, if◌then◌else◌, str_eq, Bool-cases, inl, inr, eq_iff, Bool, ltb, ◌&&◌, ℕ, String,
  true, ◌≡◌, sym, ap, subst, ◌∙◌, List, [], ◌∷◌, ◌++◌, arith, ◌==◌, find, All,
}
use identity_vault.Datastore.{
  get_account, failed, Try, any, or_no_rows, max_int, Row, User, Tables, Account, done, then_do,
  insert_user, delete_links, link_account,
}
use identity_vault.Datastore.Users.{create_all, link_all, put_user_accounts, accounts_of, linked}
use identity_vault.Datastore.Users.Removal.{
  or_fail-done, any-append, insert_user-small, id_of, then_do-done,
}

-- An account is the one that was given: by its number, or by its code where it has none.
abbrev pub is_given : Account → Account → Bool
is_given a b = if a.id == 0 then str_eq b.authority_id a.authority_id else b.id == a.id

-- A link of the user to the account that was given.
abbrev pub HasLink : ℕ → Account → Tables → Type 0
HasLink user a t =
    (k : ℕ) × (any (λ l. l.0 == user && l.1 == k) t.links ≡ true)
    × (any (λ b. b.id == k && is_given a b) t.accounts ≡ true)

found-here :
    (a b : Account) (bs : List Account)
    → or_no_rows (find (λ c. str_eq c.authority_id a.authority_id) bs) ≡ done b
    → any (λ c. c.id == b.id && str_eq c.authority_id a.authority_id) bs ≡ true
found-here a b [] e = ground arith
found-here a b (c ∷ bs) e = elim (Bool-cases (str_eq c.authority_id a.authority_id)) [
  | inl m ↦ let same : c ≡ b = ground (arith, m, e) in ground (arith, m, ap (λ x. x.id) same)
  | inr m ↦ ground (arith, found-here a b bs (rw m at e))
]

link_account-HasLink :
    (user : ℕ) (a : Account) (k : ℕ) (t t' : Tables)
    → link_account user k t ≡ (done tt, t')
    → any (λ b. b.id == k && is_given a b) t.accounts ≡ true
    → HasLink user a t'
unfolding link_account
link_account-HasLink user a k t t' e h = (k, grind (arith, any-append, e), grind (arith, e, h))

link_account-HasLink_mono :
    (user k : ℕ) (a : Account) (t t' : Tables)
    → link_account user k t ≡ (done tt, t')
    → HasLink user a t
    → HasLink user a t'
unfolding link_account
link_account-HasLink_mono user k a t t' e (j, l, h) =
    (j, grind (arith, any-append, e, l), grind (arith, e, h))

any-twice :
    (m k : ℕ) (bs : List Account)
    → m ≡ k
    → any (λ c. c.id == k) bs ≡ true
    → any (λ c. c.id == k && c.id == m) bs ≡ true
any-twice m k [] e h = h
any-twice m k (b ∷ bs) e h = ground (arith, h, e, any-twice m k bs e)

-- What a turn of the loop links.
abbrev id_in : Try Account → ℕ
id_in (done a) = a.id
id_in (failed e) = 0

found-given :
    (a b : Account) (t : Tables)
    → (if a.id == 0 then get_account a.authority_id t else done a) ≡ done b
    → any (λ c. c.id == b.id) t.accounts ≡ true
    → any (λ c. c.id == b.id && is_given a c) t.accounts ≡ true
unfolding get_account
found-given a b t e h = elim (Bool-cases (a.id == 0)) [
  | inl z ↦ rw z (found-here a b t.accounts (rw z at e))
  | inr z ↦
      let same : done a ≡ done b = rw z at e in
      rw z (any-twice a.id b.id t.accounts (ap id_in same) h)
]

link_account-there :
    (user k : ℕ) (t s : Tables)
    → link_account user k t ≡ (done tt, s)
    → any (λ c. c.id == k) t.accounts ≡ true
unfolding link_account
link_account-there user k t s e = ground (arith, e)

given-turn :
    (user : ℕ) (a : Account) (as' : List Account) (t t' : Tables)
    → link_all user (a ∷ as') t ≡ (done tt, t')
    → (k : ℕ) × (s : Tables) × (link_account user k t ≡ (done tt, s))
      × (link_all user as' s ≡ (done tt, t'))
      × (any (λ c. c.id == k && is_given a c) t.accounts ≡ true)
unfolding link_all
given-turn user a as' t t' e =
    let (b, found, h) =
      or_fail-done (if a.id == 0 then get_account a.authority_id t else done a)
        (λ b s. then_do (link_account user b.id s) (λ _. link_all user as')) tt t t' e in
    let (_, s, h', rest) =
      then_do-done (link_account user b.id t) (λ _. link_all user as') tt t' h in
    (b.id, s, h', rest, found-given a b t found (link_account-there user b.id t s h'))

link_all-HasLink_mono :
    (user : ℕ) (a : Account) (as' : List Account) (t t' : Tables)
    → link_all user as' t ≡ (done tt, t')
    → HasLink user a t
    → HasLink user a t'
unfolding link_all
link_all-HasLink_mono user a [] t t' e l = subst (HasLink user a) (ap (λ r. r.1) e) l
link_all-HasLink_mono user a (b ∷ as') t t' e l =
    let (k, s, h, rest, _) = given-turn user b as' t t' e in
    link_all-HasLink_mono user a as' s t' rest (link_account-HasLink_mono user k a t s h l)

link_all-HasLink :
    (user : ℕ) (as' : List Account) (t t' : Tables)
    → link_all user as' t ≡ (done tt, t')
    → All (λ a. HasLink user a t') as'
link_all-HasLink user [] t t' e = tt
link_all-HasLink user (a ∷ as') t t' e =
    let (k, s, h, rest, g) = given-turn user a as' t t' e in
    (
      link_all-HasLink_mono user a as' s t' rest (link_account-HasLink user a k t s h g),
      link_all-HasLink user as' s t' rest,
    )

-- A linked account is among those that are read.
filter-given :
    (a : Account) (k : ℕ) (bs : List Account)
    → any (λ b. b.id == k && is_given a b) bs ≡ true
    → any (is_given a) (filter (λ b. b.id == k) bs) ≡ true
filter-given a k [] h = h
filter-given a k (b ∷ bs) h = ground (arith, h, filter-given a k bs)

linked-given :
    (theirs : ℕ → Bool) (user k : ℕ) (a : Account) (ls : List (ℕ × ℕ)) (bs : List Account)
    → theirs user ≡ true
    → any (λ l. l.0 == user && l.1 == k) ls ≡ true
    → any (λ b. b.id == k && is_given a b) bs ≡ true
    → any (is_given a) (linked theirs ls bs) ≡ true
linked-given theirs user k a [] bs t l g = ground arith
linked-given theirs user k a ((u, m) ∷ ls) bs t l g = elim (Bool-cases (u == user && m == k)) [
  | inl h ↦
      let e : user ≡ u = ground (arith, h) in
      let f : k ≡ m = ground (arith, h) in
      let w : theirs u ≡ true = ap theirs (sym e) ∙ t in
      let g' = subst (λ j. any (λ b. b.id == j && is_given a b) bs ≡ true) f g in
      rw w (
        any-append (is_given a) (filter (λ b. b.id == m) bs) (linked theirs ls bs)
        ∙ ground (arith, filter-given a m bs g'))
  | inr h ↦
      let rest = linked-given theirs user k a ls bs t (ground (arith, h, l)) g in
      elim (Bool-cases (theirs u)) [
        | inl w ↦ rw w (
            any-append (is_given a) (filter (λ b. b.id == m) bs) (linked theirs ls bs)
            ∙ ground (arith, rest))
        | inr w ↦ rw w rest
      ]
]

put_user_accounts-HasLink :
    (user : ℕ) (as' : List Account) (t t' : Tables)
    → put_user_accounts user as' t ≡ (done tt, t')
    → All (λ a. HasLink user a t') as'
unfolding put_user_accounts delete_links
put_user_accounts-HasLink user as' t t' e =
    let (_, s, _, rest) = then_do-done (delete_links user t) (λ _. link_all user as') tt t' e in
    link_all-HasLink user as' s t' rest

pub create_all-HasLink :
    (u : User) (id : ℕ) (t t' : Tables)
    → create_all u t ≡ (done id, t')
    → (ltb max_int id ≡ false) × All (λ a. HasLink id a t') u.accounts
unfolding create_all
create_all-HasLink u id t t' e =
    let (id', s, i, h) =
      then_do-done (insert_user u.row t)
        (λ id s. then_do (put_user_accounts id u.accounts s) (λ _ s'. (done id, s'))) id t' e in
    let (_, s', h', last) =
      then_do-done (put_user_accounts id' u.accounts s) (λ _ s'. (done id', s')) id t' h in
    subst (λ r. (ltb max_int (id_of r.0) ≡ false) × All (λ a. HasLink (id_of r.0) a r.1) u.accounts)
      last (insert_user-small u.row t s id' i, put_user_accounts-HasLink id' u.accounts s s' h')

-- The user's name finds its row.
pub named-there :
    (id : ℕ) (name : String) (us : List Row) (r : Row)
    → r.id ≡ id
    → r.username ≡ name
    → any (λ v. v.id == id && str_eq v.username name) (us ++ r ∷ []) ≡ true
named-there id name [] r e f = ground (arith, e, f, eq_iff r.username name)
named-there id name (v ∷ us) r e f = ground (arith, named-there id name us r e f)

any-second :
    (k : ℕ) (a : Account) (bs : List Account)
    → any (λ b. b.id == k && is_given a b) bs ≡ true
    → any (is_given a) bs ≡ true
any-second k a [] h = h
any-second k a (b ∷ bs) h = ground (arith, h, any-second k a bs)

pub given-read :
    (as' : List Account) (id : ℕ) (name : String) (t : Tables)
    → any (λ v. v.id == id && str_eq v.username name) t.users ≡ true
    → All (λ a. HasLink id a t) as'
    → All (λ a. any (is_given a) (accounts_of name t) ≡ true) as'
unfolding accounts_of
given-read [] id name t h ls = tt
given-read (a ∷ as') id name t h ((k, l, g), ls) = (one, given-read as' id name t h ls)
  where
    one : any (is_given a) (accounts_of name t) ≡ true
    one = elim (Bool-cases (str_eq name "")) [
      | inl e ↦ rw (accounts_of, e) (any-second k a t.accounts g)
      | inr e ↦
          rw (accounts_of, e)
            (linked-given (λ id. any (λ v. v.id == id && str_eq v.username name) t.users) id k a
              t.links t.accounts h l g)
    ]
