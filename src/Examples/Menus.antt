-- ===== src/Examples/Menus.antt =====
-- The menu at a concrete token.
use identity_vault.Common.{◌≢◌, some, [], IsIn}
use identity_vault.Common.Value.{undefined}
use identity_vault.Utils.{Token}
use identity_vault.Page.{denied}
use identity_vault.AccountPages.Overview as AccountOverview
use identity_vault.KeypairPages.Overview as KeypairOverview
use identity_vault.ModelPages.Overview as ModelOverview
use identity_vault.SigningLog
use identity_vault.SystemUser
use identity_vault.UserList
use identity_vault.Navigation.{links}
use identity_vault.Navigation.Access.{menu_admits}

abbrev admin_token : Token
admin_token = record { role = some 200; name = some "sam" }

menu_example :
    (IsIn "accounts" (links admin_token)
      → (s : AccountOverview.State)
      → AccountOverview.render (some admin_token) undefined [] s ≢ denied)
    × (IsIn "users" (links admin_token)
        → (s : UserList.State) → UserList.render (some admin_token) s ≢ denied)
    × (IsIn "signing-keys" (links admin_token)
        → KeypairOverview.render (some admin_token) [] ≢ denied)
    × (IsIn "models" (links admin_token)
        → (s : ModelOverview.State) → ModelOverview.render (some admin_token) [] s ≢ denied)
    × (IsIn "signinglog" (links admin_token)
        → (s : SigningLog.State) → SigningLog.render (some admin_token) s ≢ some SigningLog.denied)
    × (IsIn "systemuser" (links admin_token)
        → (M : Type 0) (s : SystemUser.State M)
        → SystemUser.render (some admin_token) [] s ≢ SystemUser.denied)
menu_example = menu_admits admin_token undefined []
