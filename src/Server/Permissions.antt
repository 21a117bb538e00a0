-- ===== src/Server/Permissions.antt =====
-- The role that each handler under service asks for, in the order of its package: the first call of
-- `CheckUserPermissions` in the action behind a route of the administration pages.
use identity_vault.Common.{
  ℕ, String, Bool, true, false, Option, none, some, List, [], ◌∷◌, if◌then◌else◌, str_eq,
}
use identity_vault.Server.Auth.{
  Gate, Caller, standard, sync_user, admin, superuser, check_user_permissions,
}

-- A handler and its role.
abbrev pub Need : Type 0
Need = String × ℕ

abbrev pub model_list_needs : Need
model_list_needs = ("model.List", standard)

abbrev pub model_get_needs : Need
model_get_needs = ("model.Get", admin)

abbrev pub model_update_needs : Need
model_update_needs = ("model.Update", admin)

abbrev pub model_delete_needs : Need
model_delete_needs = ("model.Delete", admin)

abbrev pub model_create_needs : Need
model_create_needs = ("model.Create", admin)

abbrev pub model_assertion_headers_needs : Need
model_assertion_headers_needs = ("model.AssertionHeaders", admin)

abbrev pub keypair_list_needs : Need
keypair_list_needs = ("keypair.List", admin)

abbrev pub keypair_get_needs : Need
keypair_get_needs = ("keypair.Get", admin)

abbrev pub keypair_update_needs : Need
keypair_update_needs = ("keypair.Update", admin)

abbrev pub keypair_create_needs : Need
keypair_create_needs = ("keypair.Create", admin)

abbrev pub keypair_generate_needs : Need
keypair_generate_needs = ("keypair.Generate", admin)

abbrev pub keypair_enable_needs : Need
keypair_enable_needs = ("keypair.Enable", admin)

abbrev pub keypair_disable_needs : Need
keypair_disable_needs = ("keypair.Disable", admin)

abbrev pub keypair_assertion_needs : Need
keypair_assertion_needs = ("keypair.Assertion", admin)

abbrev pub keypair_status_needs : Need
keypair_status_needs = ("keypair.Status", admin)

abbrev pub keypair_progress_needs : Need
keypair_progress_needs = ("keypair.Progress", admin)

abbrev pub account_list_needs : Need
account_list_needs = ("account.List", sync_user)

abbrev pub account_create_needs : Need
account_create_needs = ("account.Create", superuser)

abbrev pub account_get_needs : Need
account_get_needs = ("account.Get", superuser)

abbrev pub account_update_needs : Need
account_update_needs = ("account.Update", superuser)

abbrev pub account_upload_needs : Need
account_upload_needs = ("account.Upload", superuser)

abbrev pub substore_list_needs : Need
substore_list_needs = ("substore.List", admin)

abbrev pub substore_update_needs : Need
substore_update_needs = ("substore.Update", admin)

abbrev pub substore_create_needs : Need
substore_create_needs = ("substore.Create", admin)

abbrev pub substore_delete_needs : Need
substore_delete_needs = ("substore.Delete", admin)

abbrev pub signinglog_list_needs : Need
signinglog_list_needs = ("signinglog.List", admin)

abbrev pub signinglog_list_for_account_needs : Need
signinglog_list_for_account_needs = ("signinglog.ListForAccount", admin)

abbrev pub signinglog_list_filters_needs : Need
signinglog_list_filters_needs = ("signinglog.ListFilters", admin)

abbrev pub user_list_needs : Need
user_list_needs = ("user.List", superuser)

abbrev pub user_get_needs : Need
user_get_needs = ("user.Get", superuser)

abbrev pub user_create_needs : Need
user_create_needs = ("user.Create", superuser)

abbrev pub user_update_needs : Need
user_update_needs = ("user.Update", superuser)

abbrev pub user_delete_needs : Need
user_delete_needs = ("user.Delete", superuser)

abbrev pub user_get_other_accounts_needs : Need
user_get_other_accounts_needs = ("user.GetOtherAccounts", superuser)

abbrev pub store_key_register_needs : Need
store_key_register_needs = ("store.KeyRegister", admin)

abbrev pub assertion_system_user_assertion_needs : Need
assertion_system_user_assertion_needs = ("assertion.SystemUserAssertion", standard)

abbrev needs : List Need
needs =
    model_list_needs ∷ model_get_needs ∷ model_update_needs ∷ model_delete_needs
    ∷ model_create_needs ∷ model_assertion_headers_needs ∷ keypair_list_needs ∷ keypair_get_needs
    ∷ keypair_update_needs ∷ keypair_create_needs ∷ keypair_generate_needs ∷ keypair_enable_needs
    ∷ keypair_disable_needs ∷ keypair_assertion_needs ∷ keypair_status_needs
    ∷ keypair_progress_needs ∷ account_list_needs ∷ account_create_needs ∷ account_get_needs
    ∷ account_update_needs ∷ account_upload_needs ∷ substore_list_needs ∷ substore_update_needs
    ∷ substore_create_needs ∷ substore_delete_needs ∷ signinglog_list_needs
    ∷ signinglog_list_for_account_needs ∷ signinglog_list_filters_needs ∷ user_list_needs
    ∷ user_get_needs ∷ user_create_needs ∷ user_update_needs ∷ user_delete_needs
    ∷ user_get_other_accounts_needs ∷ store_key_register_needs
    ∷ assertion_system_user_assertion_needs ∷ []

abbrev pub need_of : String → List Need → Option ℕ
need_of handler [] = none
need_of handler ((h, n) ∷ ns) =
    let rest = need_of handler ns in if str_eq h handler then some n else rest

abbrev permitted : Gate → Caller → Option ℕ → Bool
permitted g user none = true
permitted g user (some n) = check_user_permissions g user n false

-- Whether the handler goes on with the request; one that asks for no role always does.
unfoldable pub permits : Gate → Caller → String → Bool
unfolding check_user_permissions
permits g user handler = permitted g user (need_of handler needs)
