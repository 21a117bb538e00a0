-- ===== src/Server/Users/Editing.antt =====
-- The form of a user, webapp-admin/src/components/UserEdit.js, filled with the answer of service/user.
use identity_vault.Common.{
  ℕ, String, true, false, ◌≡◌, refl, ap, ◌∙◌, inr, some, List, [], ◌∷◌, map, ◌≤◌, arith, ltb,
}
use identity_vault.Common.Number.{pos}
use identity_vault.Common.Text.{◌<>◌}
use identity_vault.Common.Value.{Value, number, str, items, elements, prop, get, truthy}
use identity_vault.Http.{JsonParse, Response, parsed}
use identity_vault.Messages.{Locale}
use identity_vault.Page.{ask, list_of}
use identity_vault.UserEdit
use identity_vault.UserEdit.{
  on_user, build_request_data, handle_save_click, accounts_to_authority_ids,
}
use identity_vault.Resources.Users
use identity_vault.Datastore.{Account, Tables, done}
use identity_vault.Datastore
use identity_vault.Datastore.Users.{get_user}
use identity_vault.Server.Auth.{
  Caller, superuser, check_user_permissions, jwt_check, claims, get_user_from_jwt, with_bearer,
}
use identity_vault.Server.Accounts.{account_value}
use identity_vault.Server.Reply.{Writer, new_writer, as_json, or_status, answer}
use identity_vault.Server.Users.{Env, Request, request, when_known}
use identity_vault.Server.Users.Answers.{IsFresh, with_bearer-IsFresh}
use identity_vault.Server.Users.Views
use identity_vault.Server.Users.Views.{answered, user_value, success_with, get_handler}
use identity_vault.Server.Users.Decoding.{decode, items_of-items}
use text.Mathlib.TextLemmas.{nil-append}

-- The request that asks for the user as it is stored.
abbrev pub request_of : Datastore.User → Request
request_of u = record {
  username = u.row.username;
  name = u.row.name;
  email = u.row.email;
  api_key = u.row.api_key;
  role = u.row.role;
  accounts = map (λ a. a.authority_id) u.accounts;
}

elements-items : (vs : List Value) → elements (items vs) ≡ vs
elements-items [] = refl
elements-items (v ∷ vs) = rw (elements-items vs) refl

ids-of-accounts :
    (as' : List Account)
    → accounts_to_authority_ids (map account_value as') ≡ map str (map (λ a. a.authority_id) as')
unfolding accounts_to_authority_ids prop
ids-of-accounts [] = refl
ids-of-accounts (a ∷ as') = ap (λ l. str a.authority_id ∷ l) (ids-of-accounts as')

-- The answer with the user.
shown :
    (env : Env) (caller : Caller) (id : ℕ) (u : Datastore.User) (t : Tables) (w : Writer)
    → env.gate.enable_user_auth ≡ true
    → superuser ≤ caller.role
    → get_user id t ≡ done u
    → IsFresh w
    → ((answer (get_handler env caller id t w)).body
        ≡ env.encode (success_with "user" (user_value u)))
      × ((answer (get_handler env caller id t w)).status_code ≡ 200)
unfolding get_handler check_user_permissions
shown env caller id u t w on role got (st, bd) =
    let high : ltb caller.role superuser ≡ false = ground arith in
    let v = env.encode (success_with "user" (user_value u)) in
    let e : get_handler env caller id t w
        ≡ answered env (success_with "user" (user_value u)) (as_json w) =
      rw (get_handler, on, high, got) refl in
    (
      ap (λ x. (answer x).body) e ∙ ap (λ b. b <> v) bd ∙ nil-append v,
      ap (λ x. (answer x).status_code) e ∙ ap (λ o. or_status (some (or_status o 200)) 200) st,
    )

-- The handler behind the token.
reached :
    (env : Env) (jwt : String) (caller : Caller) (id : ℕ) (t : Tables)
    → env.gate.enable_user_auth ≡ true
    → env.gate.jwt ≡ some jwt
    → env.gate.verify jwt ≡ some caller
    → (Views.get env (inr id) t).0
      ≡ get_handler env caller id t (with_bearer (claims jwt caller) new_writer)
unfolding Views.get jwt_check get_user_from_jwt
reached env jwt caller id t on has genuine =
    let c : jwt_check env.gate ≡ claims jwt caller = rw (on, has, genuine) refl in
    ap
      (λ c.
        (when_known env (get_user_from_jwt c) t (with_bearer c new_writer)
          (λ caller. (get_handler env caller id t (with_bearer c new_writer), t))).0)
      c

-- What the form holds once it is filled.
filled :
    (lang : Locale) (parse : JsonParse) (u : Datastore.User) (r : Response) (s : UserEdit.State)
    → parse r.body ≡ some (success_with "user" (user_value u))
    → r.status_code ≡ 200
    → on_user lang parse r s ≡ record s {
      user = user_value u;
      assigned_accounts = map str (map (λ a. a.authority_id) u.accounts);
      hide_form = false;
    }
unfolding on_user parsed list_of prop
filled lang parse u r s e st =
    rw
      (
        on_user,
        parsed,
        e,
        st,
        list_of,
        elements-items (map account_value u.accounts),
        ids-of-accounts u.accounts,
      )
      refl

-- The request of the form.
resent :
    (u : Datastore.User) (n : ℕ) (error : String) (s : UserEdit.State)
    → u.row.role ≡ pos n
    → s.user ≡ user_value u
    → s.assigned_accounts ≡ map str (map (λ a. a.authority_id) u.accounts)
    → decode error (build_request_data s) ≡ request (request_of u)
unfolding decode build_request_data prop get
resent u n error s role e a =
    rw (e, a, role, items_of-items (map (λ a. a.authority_id) u.accounts)) refl

saved :
    (u : Datastore.User) (s : UserEdit.State)
    → 1 ≤ u.row.id
    → s.user ≡ user_value u
    → (handle_save_click s ≡ (s, ask (Users.update (build_request_data s)) ∷ []))
      × (prop "id" (build_request_data s) ≡ number (pos u.row.id))
unfolding handle_save_click build_request_data prop get
saved u s positive e =
    let id : prop "id" (build_request_data s) ≡ number (pos u.row.id) = rw e refl in
    let set : truthy (prop "id" (build_request_data s)) ≡ true = ap truthy id ∙ ground arith in
    (rw (handle_save_click, set) refl, id)

-- A superuser opens the form of a user, with user authentication on, and saves it as it is: the form asks
-- for the address of this user, and the server decodes the request to the user as it is stored, its
-- accounts by their codes. The answer with the user is read back; the number of the user is not 0, and
-- its role is a number.
pub reopened :
    (env : Env) (jwt : String) (caller : Caller) (id n : ℕ) (u : Datastore.User) (t : Tables)
    (lang : Locale) (parse : JsonParse) (error : String) (s : UserEdit.State)
    → env.gate.enable_user_auth ≡ true
    → env.gate.jwt ≡ some jwt
    → env.gate.verify jwt ≡ some caller
    → superuser ≤ caller.role
    → get_user id t ≡ done u
    → u.row.role ≡ pos n
    → 1 ≤ u.row.id
    → parse (env.encode (success_with "user" (user_value u)))
      ≡ some (success_with "user" (user_value u))
    → let opened = on_user lang parse (answer (Views.get env (inr id) t).0) s in
      (handle_save_click opened ≡ (opened, ask (Users.update (build_request_data opened)) ∷ []))
      × (prop "id" (build_request_data opened) ≡ number (pos u.row.id))
      × (decode error (build_request_data opened) ≡ request (request_of u))
unfolding handle_save_click build_request_data prop
reopened env jwt caller id n u t lang parse error s on has genuine role got number_role positive
      back =
    let w = with_bearer (claims jwt caller) new_writer in
    let r = reached env jwt caller id t on has genuine in
    let (body, status) =
      shown env caller id u t w on role got
        (with_bearer-IsFresh (claims jwt caller) new_writer (refl, refl)) in
    let e =
      filled lang parse u (answer (Views.get env (inr id) t).0) s
        (ap (λ x. parse (answer x).body) r ∙ ap parse body ∙ back)
        (ap (λ x. (answer x).status_code) r ∙ status) in
    let (click, number_sent) =
      saved u (on_user lang parse (answer (Views.get env (inr id) t).0) s) positive
        (ap (λ x. x.user) e) in
    (
      click,
      number_sent,
      resent u n error (on_user lang parse (answer (Views.get env (inr id) t).0) s) number_role
          (ap (λ x. x.user) e) (ap (λ x. x.assigned_accounts) e),
    )
