-- ===== src/Server.antt =====
-- service/router.go, `AdminRouter`: the routes of the server that the pages talk to, in their order, but
-- for those that `status.AddStatusEndpoints` adds behind them. The middleware around a handler is not
-- part of its route here.
pub mod Reply
pub mod Auth
pub mod Permissions
pub mod Menu
pub mod Accounts
pub mod Standard
pub mod Users
pub mod Matching
pub mod Calls
pub mod Addresses
pub mod Served
pub mod Pages
use identity_vault.Common.{String, Option, none, some, List, [], ◌∷◌}
use identity_vault.Http.{Method, get, post, put, delete}

-- A part of a template: a word, `{id:[0-9]+}`, or `{name}`.
pub data Segment : Type 0 where
  lit : String → Segment
  digits any : Segment

-- `Handle(template)`, or `PathPrefix(text)`.
pub data Pattern : Type 0 where
  path : List Segment → Pattern
  prefix : String → Pattern

-- A route without methods takes all of them. The handler is named as in the source.
pub record Route : Type 0 where
  pub method : Option Method
  pub pattern : Pattern
  pub handler : String

abbrev route : Option Method → Pattern → String → Route
route method pattern handler = record { method = method; pattern = pattern; handler = handler }

unfoldable pub admin_routes : List Route
admin_routes =
    route (some get) (path (lit "v1" ∷ lit "version" ∷ [])) "core.Version"
    ∷ route (some get) (path (lit "v1" ∷ lit "health" ∷ [])) "core.Health"
    ∷ route (some get) (path (lit "v1" ∷ lit "token" ∷ [])) "core.Token"
    ∷ route (some get) (path (lit "v1" ∷ lit "authtoken" ∷ [])) "core.Token"
    ∷ route (some get) (path (lit "v1" ∷ lit "models" ∷ [])) "model.List"
    ∷ route (some post) (path (lit "v1" ∷ lit "models" ∷ lit "assertion" ∷ []))
        "model.AssertionHeaders"
    ∷ route (some post) (path (lit "v1" ∷ lit "models" ∷ [])) "model.Create"
    ∷ route (some get) (path (lit "v1" ∷ lit "models" ∷ digits ∷ [])) "model.Get"
    ∷ route (some put) (path (lit "v1" ∷ lit "models" ∷ digits ∷ [])) "model.Update"
    ∷ route (some delete) (path (lit "v1" ∷ lit "models" ∷ digits ∷ [])) "model.Delete"
    ∷ route (some get) (path (lit "v1" ∷ lit "keypairs" ∷ [])) "keypair.List"
    ∷ route (some post) (path (lit "v1" ∷ lit "keypairs" ∷ [])) "keypair.Create"
    ∷ route (some get) (path (lit "v1" ∷ lit "keypairs" ∷ digits ∷ [])) "keypair.Get"
    ∷ route (some put) (path (lit "v1" ∷ lit "keypairs" ∷ digits ∷ [])) "keypair.Update"
    ∷ route (some post) (path (lit "v1" ∷ lit "keypairs" ∷ digits ∷ lit "disable" ∷ []))
        "keypair.Disable"
    ∷ route (some post) (path (lit "v1" ∷ lit "keypairs" ∷ digits ∷ lit "enable" ∷ []))
        "keypair.Enable"
    ∷ route (some post) (path (lit "v1" ∷ lit "keypairs" ∷ lit "assertion" ∷ []))
        "keypair.Assertion"
    ∷ route (some post) (path (lit "v1" ∷ lit "keypairs" ∷ lit "generate" ∷ [])) "keypair.Generate"
    ∷ route (some get) (path (lit "v1" ∷ lit "keypairs" ∷ lit "status" ∷ any ∷ any ∷ []))
        "keypair.Status"
    ∷ route (some get) (path (lit "v1" ∷ lit "keypairs" ∷ lit "status" ∷ [])) "keypair.Progress"
    ∷ route (some post) (path (lit "v1" ∷ lit "keypairs" ∷ lit "register" ∷ [])) "store.KeyRegister"
    ∷ route (some get) (path (lit "v1" ∷ lit "signinglog" ∷ [])) "signinglog.List"
    ∷ route (some get) (path (lit "v1" ∷ lit "signinglog" ∷ lit "account" ∷ any ∷ []))
        "signinglog.ListForAccount"
    ∷ route (some get)
        (path (lit "v1" ∷ lit "signinglog" ∷ lit "account" ∷ any ∷ lit "filters" ∷ []))
        "signinglog.ListFilters"
    ∷ route (some get) (path (lit "v1" ∷ lit "accounts" ∷ [])) "account.List"
    ∷ route (some post) (path (lit "v1" ∷ lit "accounts" ∷ [])) "account.Create"
    ∷ route (some put) (path (lit "v1" ∷ lit "accounts" ∷ digits ∷ [])) "account.Update"
    ∷ route (some get) (path (lit "v1" ∷ lit "accounts" ∷ digits ∷ [])) "account.Get"
    ∷ route (some post) (path (lit "v1" ∷ lit "accounts" ∷ lit "upload" ∷ [])) "account.Upload"
    ∷ route (some get) (path (lit "v1" ∷ lit "accounts" ∷ digits ∷ lit "stores" ∷ []))
        "substore.List"
    ∷ route (some put) (path (lit "v1" ∷ lit "accounts" ∷ lit "stores" ∷ digits ∷ []))
        "substore.Update"
    ∷ route (some delete) (path (lit "v1" ∷ lit "accounts" ∷ lit "stores" ∷ digits ∷ []))
        "substore.Delete"
    ∷ route (some post) (path (lit "v1" ∷ lit "accounts" ∷ lit "stores" ∷ [])) "substore.Create"
    ∷ route (some post) (path (lit "v1" ∷ lit "assertions" ∷ [])) "assertion.SystemUserAssertion"
    ∷ route (some get) (path (lit "v1" ∷ lit "users" ∷ [])) "user.List"
    ∷ route (some post) (path (lit "v1" ∷ lit "users" ∷ [])) "user.Create"
    ∷ route (some get) (path (lit "v1" ∷ lit "users" ∷ digits ∷ [])) "user.Get"
    ∷ route (some put) (path (lit "v1" ∷ lit "users" ∷ digits ∷ [])) "user.Update"
    ∷ route (some delete) (path (lit "v1" ∷ lit "users" ∷ digits ∷ [])) "user.Delete"
    ∷ route (some get) (path (lit "v1" ∷ lit "users" ∷ digits ∷ lit "otheraccounts" ∷ []))
        "user.GetOtherAccounts"
    ∷ route (none) (path (lit "login" ∷ [])) "usso.LoginHandler"
    ∷ route (none) (path (lit "logout" ∷ [])) "usso.LogoutHandler"
    ∷ route (none) (prefix "/static/") "http.FileServer"
    ∷ route (none) (prefix "/signing-keys") "app.Index"
    ∷ route (none) (prefix "/models") "app.Index"
    ∷ route (none) (prefix "/keypairs") "app.Index"
    ∷ route (none) (prefix "/accounts") "app.Index"
    ∷ route (none) (prefix "/signinglog") "app.Index"
    ∷ route (none) (prefix "/substores") "app.Index"
    ∷ route (none) (prefix "/systemuser") "app.Index"
    ∷ route (none) (prefix "/users") "app.Index"
    ∷ route (none) (prefix "/notfound") "app.Index"
    ∷ route (some get) (path (lit "" ∷ [])) "app.Index"
    ∷ route (some get) (path (lit "api" ∷ lit "signinglog" ∷ [])) "signinglog.APIList"
    ∷ route (some get) (path (lit "api" ∷ lit "keypairs" ∷ [])) "keypair.APIList"
    ∷ route (some get) (path (lit "api" ∷ lit "accounts" ∷ digits ∷ lit "stores" ∷ []))
        "substore.APIList"
    ∷ route (some put) (path (lit "api" ∷ lit "accounts" ∷ lit "stores" ∷ digits ∷ []))
        "substore.APIUpdate"
    ∷ route (some delete) (path (lit "api" ∷ lit "accounts" ∷ lit "stores" ∷ digits ∷ []))
        "substore.APIDelete"
    ∷ route (some post) (path (lit "api" ∷ lit "accounts" ∷ lit "stores" ∷ [])) "substore.APICreate"
    ∷ route (some get) (path (lit "api" ∷ lit "accounts" ∷ lit "stores" ∷ digits ∷ any ∷ []))
        "substore.APIGet"
    ∷ route (some post) (path (lit "api" ∷ lit "assertions" ∷ lit "checkserial" ∷ []))
        "assertion.APIValidateSerial"
    ∷ route (some post) (path (lit "api" ∷ lit "assertions" ∷ [])) "assertion.APISystemUser"
    ∷ route (some get) (path (lit "api" ∷ lit "models" ∷ digits ∷ [])) "model.APIGet"
    ∷ route (some put) (path (lit "api" ∷ lit "models" ∷ digits ∷ [])) "model.APIUpdate"
    ∷ route (some delete) (path (lit "api" ∷ lit "models" ∷ digits ∷ [])) "model.APIDelete"
    ∷ route (some post) (path (lit "api" ∷ lit "models" ∷ [])) "model.APICreate"
    ∷ route (some post) (path (lit "api" ∷ lit "models" ∷ lit "assertion" ∷ []))
        "model.APIAssertionHeaders"
    ∷ route (some get) (path (lit "api" ∷ lit "accounts" ∷ [])) "account.APIList"
    ∷ route (some post) (path (lit "api" ∷ lit "keypairs" ∷ lit "sync" ∷ []))
        "keypair.APISyncKeypairs"
    ∷ route (some get) (path (lit "api" ∷ lit "models" ∷ [])) "model.APIList"
    ∷ route (some post) (path (lit "api" ∷ lit "signinglog" ∷ [])) "signinglog.APISyncLog"
    ∷ route (some get) (path (lit "api" ∷ lit "testlog" ∷ [])) "testlog.APIListLog"
    ∷ route (some post) (path (lit "api" ∷ lit "testlog" ∷ [])) "testlog.APISyncLog"
    ∷ route (some put) (path (lit "api" ∷ lit "testlog" ∷ digits ∷ [])) "testlog.APISyncUpdateLog"
    ∷ route (some get) (path (lit "_status" ∷ lit "metrics" ∷ [])) "metric.NewServer"
    ∷ []
