-- ===== src/Server/Standard.antt =====
-- The standard user of the pages, webapp-admin/src/App.js, and the list of accounts, service/account.
use identity_vault.Common.{String, true, false, ◌≡◌, refl, some, [], ◌∷◌, arith, ltb, ◌<◌}
use identity_vault.Common.Value.{Value, undefined, prop}
use identity_vault.Http.{JsonParse, parsed}
use identity_vault.Messages.{Locale}
use identity_vault.Page.{list_of}
use identity_vault.Utils.{Token, SessionStorage, is_logged_in}
use identity_vault.App.{World, Pending, opened, deliver, on_accounts}
use identity_vault.Datastore.{Tables}
use identity_vault.Server.Auth.{
  Gate, Caller, sync_user, jwt_check, with_bearer, get_user_from_jwt, check_user_permissions,
}
use identity_vault.Server.Reply.{answer, format_standard}
use identity_vault.Server.Reply
use identity_vault.Server.Accounts
use text.Mathlib.TextLemmas.{nil-append}

-- The refusal for want of permission, as the pages read it.
abbrev pub refusal : Value
refusal = Reply.standard false "error-auth" "" ""

refused_body :
    (encode : Value → String) (parse : JsonParse) (g : Gate) (jwt : String) (user : Caller)
    (t : Tables)
    → parse (encode refusal) ≡ some refusal
    → g.enable_user_auth ≡ true
    → g.jwt ≡ some jwt
    → g.verify jwt ≡ some user
    → user.role < sync_user
    → parse (answer (Accounts.list encode g t)).body ≡ some refusal
unfolding Accounts.list Accounts.list_handler jwt_check get_user_from_jwt with_bearer
    check_user_permissions format_standard
refused_body encode parse g jwt user t back on has genuine low =
    let below : ltb user.role sync_user ≡ true = ground arith in
    rw (on, has, genuine, Accounts.list_handler, below, nil-append (encode refusal), back) refl

module _ (encode : Value → String) (parse : JsonParse) (g : Gate) (jwt : String) (user : Caller)
    (t : Tables) where
  ignored :
      (lang : Locale) (w : World)
      → parse (answer (Accounts.list encode g t)).body ≡ some refusal
      → deliver lang parse Pending.accounts_list (answer (Accounts.list encode g t)) w ≡ (w, [])
  unfolding deliver on_accounts parsed list_of prop
  ignored lang w e = rw (on_accounts, parsed, e) refl

-- With user authentication on, the application that a user opens whose role is below that of the
-- synchronisation, as the standard users are, asks for the accounts only, which the server refuses. The
-- callback of the refusal throws, so that it leaves everything as it was and asks for nothing more: there
-- are no models, which the form for a system user offers, and no message. The text of the refusal is
-- read back.
pub no_models :
    (encode : Value → String) (parse : JsonParse) (g : Gate) (jwt : String) (user : Caller)
    (t : Tables) (lang : Locale) (token : Token) (session : SessionStorage) (path : String)
    → parse (encode refusal) ≡ some refusal
    → g.enable_user_auth ≡ true
    → g.jwt ≡ some jwt
    → g.verify jwt ≡ some user
    → user.role < sync_user
    → is_logged_in (some token) ≡ true
    → let (w, asked) = opened (some token) session path in
      (asked ≡ Pending.accounts_list ∷ [])
      × (deliver lang parse Pending.accounts_list (answer (Accounts.list encode g t)) w ≡ (w, []))
      × (w.state.models ≡ [])
      × (w.state.message ≡ undefined)
unfolding opened
no_models encode parse g jwt user t lang token session path back on has genuine low logged = (
  rw logged refl,
  ignored encode parse g jwt user t lang (opened (some token) session path).0
      (refused_body encode parse g jwt user t back on has genuine low),
  refl,
  refl,
)
