-- ===== src/Server/Menu.antt =====
-- What the pages of webapp-admin/src ask of the server when they open, and the roles that the handlers
-- under service ask for.
use identity_vault.Common.{
  String, true, ◌≡◌, refl, ◌≤◌, some, List, [], ◌∷◌, ◌++◌, map, All, arith, str_eq, Bool-cases, inl,
  inr, if◌then◌else◌, ◌==◌,
}
use identity_vault.Common.Text.{◌<>◌, starts_with}
use identity_vault.Common.Value.{Value, prop, to_text}
use identity_vault.Utils.{Token}
use identity_vault.Ajax.{Call}
use identity_vault.App.{call_of, update_data_for_route}
use identity_vault.Navigation.{links, links_for}
use identity_vault.Resources.Keypairs
use identity_vault.Resources.Models
use identity_vault.Resources.SigningLogs
use identity_vault.Resources.Users
use identity_vault.SigningLog
use identity_vault.UserList
use identity_vault.AccountPages.Overview as AccountOverview
use identity_vault.ModelPages.Overview as ModelOverview
use identity_vault.KeypairPages.Overview as KeypairOverview
use identity_vault.KeypairPages.Status
use identity_vault.Frame.Footer
use identity_vault.Resources.Vault
use identity_vault.Page.{Effect, ask, go_to, refresh}
use identity_vault.Http.{get}
use identity_vault.Server.{admin_routes}
use identity_vault.Server.Auth.{Gate, Caller, standard, admin, superuser}
use identity_vault.Server.Permissions.{permits}
use identity_vault.Server.Matching.{Mux, is_number, is_part}
use identity_vault.Server.Calls.{IsServed}
use identity_vault.Server.Addresses.{served_by, at_1, at_2, parts_3, parts_4, under, given}

-- What the components of a page do when they are put in place: the lists, the progress of the keys, and
-- the signing log. The form for a system user does nothing.
abbrev pub page_effects : String → Value → List Effect
page_effects s account =
    if str_eq s "users"
    then (UserList.refresh_page UserList.initial).1
    else if str_eq s "accounts"
    then AccountOverview.opened.1
    else if str_eq s "models"
    then (ModelOverview.refresh_page ModelOverview.initial).1
    else if str_eq s "signing-keys"
    then (KeypairOverview.refresh_page account KeypairOverview.initial).1 ++ Status.mounted.1
    else if str_eq s "signinglog"
    then (SigningLog.mounted (prop "AuthorityID" account)).1
    else []

-- The requests of an effect on a path: `refresh` is the application's `handleAccountChange`.
abbrev pub calls_of : String → Effect → List Call
calls_of path (ask c) = c ∷ []
calls_of path (go_to url) = []
calls_of path (refresh account) = map call_of (update_data_for_route path account)

abbrev pub all_calls_of : String → List Effect → List Call
all_calls_of path [] = []
all_calls_of path (e ∷ es) = calls_of path e ++ all_calls_of path es

-- The requests of the application for a section, of the page, and of the footer.
abbrev pub opening_calls : String → Value → List Call
opening_calls s account =
    map call_of (update_data_for_route ("/" <> s) account)
    ++ all_calls_of ("/" <> s) (page_effects s account)
    ++ all_calls_of ("/" <> s) (Footer.component_did_mount Footer.initial).1

-- The call reaches a handler that goes on with it.
abbrev pub IsPermitted : Mux → Gate → Caller → Call → Type 0
IsPermitted mux g user c =
    (handler : String) × IsServed mux c handler × (permits g user handler ≡ true)

module _ (mux : Mux) (g : Gate) (user : Caller) (on : g.enable_user_auth ≡ true) where
  -- A handler goes on for a role that reaches its own.
  models-IsPermitted : standard ≤ user.role → IsPermitted mux g user Models.list
  unfolding permits admin_routes is_part Models.list
  models-IsPermitted r =
      ("model.List", at_1 mux get "models" "model.List" refl refl, ground (arith, on))

  keypairs-IsPermitted : admin ≤ user.role → IsPermitted mux g user Keypairs.list
  unfolding permits admin_routes is_part Keypairs.list
  keypairs-IsPermitted r =
      ("keypair.List", at_1 mux get "keypairs" "keypair.List" refl refl, ground (arith, on))

  status-IsPermitted : admin ≤ user.role → IsPermitted mux g user Keypairs.status
  unfolding permits admin_routes is_part is_number Keypairs.status
  status-IsPermitted r = (
    "keypair.Progress",
    at_2 mux get "keypairs" "status" "keypair.Progress" refl refl refl,
    ground (arith, on),
  )

  users-IsPermitted : superuser ≤ user.role → IsPermitted mux g user Users.list
  unfolding permits admin_routes is_part Users.list
  users-IsPermitted r =
      ("user.List", at_1 mux get "users" "user.List" refl refl, ground (arith, on))

  filters-IsPermitted :
      (v : Value)
      → is_part (to_text v) ≡ true
      → admin ≤ user.role
      → IsPermitted mux g user (SigningLogs.filters v)
  unfolding permits admin_routes is_part is_number SigningLogs.filters to_text
  filters-IsPermitted v plain r = (
    "signinglog.ListFilters",
    served_by mux get ("signinglog" <> "/account/" <> to_text v <> "/filters") _
        "signinglog.ListFilters"
        (under "signinglog" "account" (to_text v <> "/filters") _
          (parts_4 "signinglog" "account" (to_text v) "filters" refl refl plain refl))
        (rw (given (to_text v) plain) refl),
    ground (arith, on),
  )

  logs-IsPermitted :
      (v : Value)
      → is_part (to_text v) ≡ true
      → admin ≤ user.role
      → IsPermitted mux g user (SigningLog.call_of (SigningLog.initial v) SigningLog.first_query)
  unfolding permits admin_routes is_part is_number SigningLogs.list_for_account SigningLog.call_of
      to_text
  logs-IsPermitted v plain r = (
    "signinglog.ListForAccount",
    served_by mux get ("signinglog" <> "/account/" <> to_text v) _ "signinglog.ListForAccount"
        (under "signinglog" "account" (to_text v) _
          (parts_3 "signinglog" "account" (to_text v) refl refl plain))
        (rw (given (to_text v) plain) refl),
    ground (arith, on),
  )

  version-IsPermitted : IsPermitted mux g user Vault.version
  unfolding permits admin_routes is_part Vault.version
  version-IsPermitted = ("core.Version", at_1 mux get "version" "core.Version" refl refl, refl)

  -- The code of the account is a part of a path.
  module _ (account : Value) (plain : is_part (to_text (prop "AuthorityID" account)) ≡ true) where
    abbrev Opens : String → Type 0
    Opens s = All (IsPermitted mux g user) (opening_calls s account)

    models-Opens : admin ≤ user.role → Opens "models"
    unfolding update_data_for_route call_of starts_with ModelOverview.refresh_page
        Footer.component_did_mount
    models-Opens r =
        let m = models-IsPermitted (omega arith) in
        let k = keypairs-IsPermitted r in (m, (k, (version-IsPermitted, tt)))

    keys-Opens : admin ≤ user.role → Opens "signing-keys"
    unfolding update_data_for_route call_of starts_with KeypairOverview.refresh_page Status.mounted
        Footer.component_did_mount
    keys-Opens r =
        let k = keypairs-IsPermitted r in
        (k, (k, (status-IsPermitted r, (version-IsPermitted, tt))))

    log-Opens : admin ≤ user.role → Opens "signinglog"
    unfolding update_data_for_route call_of starts_with SigningLog.mounted
        Footer.component_did_mount
    log-Opens r =
        let v = prop "AuthorityID" account in
        (logs-IsPermitted v plain r, (filters-IsPermitted v plain r, (version-IsPermitted, tt)))

    accounts-Opens : admin ≤ user.role → Opens "accounts"
    unfolding update_data_for_route call_of starts_with AccountOverview.opened
        Footer.component_did_mount
    accounts-Opens r =
        (keypairs-IsPermitted r, (models-IsPermitted (omega arith), (version-IsPermitted, tt)))

    users-Opens : superuser ≤ user.role → Opens "users"
    unfolding update_data_for_route call_of starts_with UserList.refresh_page
        Footer.component_did_mount
    users-Opens r = (users-IsPermitted r, (version-IsPermitted, tt))

    system_user-Opens : standard ≤ user.role → Opens "systemuser"
    unfolding update_data_for_route call_of starts_with Footer.component_did_mount
    system_user-Opens r = (models-IsPermitted r, (version-IsPermitted, tt))

    role-Opens : All Opens (links_for (some user.role))
    role-Opens = elim (Bool-cases (user.role == 200)) [
      | inl a ↦
          let r : admin ≤ user.role = ground arith in
          rw a (keys-Opens r, (models-Opens r, (log-Opens r, tt)))
      | inr a ↦ elim (Bool-cases (user.role == 300)) [
        | inl b ↦
            let r : admin ≤ user.role = ground arith in
            rw (a, b)
              (
                accounts-Opens r,
                (keys-Opens r, (models-Opens r, (log-Opens r, (users-Opens (ground arith), tt)))),
              )
        | inr b ↦ elim (Bool-cases (user.role == 100)) [
          | inl c ↦ rw (a, b, c) (system_user-Opens (ground arith), tt)
          | inr c ↦ rw (a, b, c) tt
        ]
      ]
    ]

-- With user authentication on, whatever the role of a user: each page that the menu of the token with
-- this role links to, when it opens, asks the server only what a handler goes on with for this role: in
-- the application, in the components of the page and in the footer. The code of the selected account is
-- of letters, digits and the signs that an address never escapes. The list of the accounts, for which
-- the application asks on every page, is not among these requests.
pub menu-IsPermitted :
    (mux : Mux) (g : Gate) (user : Caller) (t : Token) (account : Value)
    → g.enable_user_auth ≡ true
    → t.role ≡ some user.role
    → is_part (to_text (prop "AuthorityID" account)) ≡ true
    → All (λ s. All (IsPermitted mux g user) (opening_calls s account)) (links t)
unfolding links
menu-IsPermitted mux g user t account on same plain =
    rw same (role-Opens mux g user on account plain)
