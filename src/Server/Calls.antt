-- ===== src/Server/Calls.antt =====
-- The requests of webapp-admin/src/models at the routes of service/router.go.
use identity_vault.Common.{ℕ, String, ◌≡◌, true, some, List, [], ◌∷◌}
use identity_vault.Common.Number.{show}
use identity_vault.Common.Value.{Value, Fields, prop, to_text}
use identity_vault.Common.Value
use identity_vault.Http.{Response}
use identity_vault.Ajax.{Call, last, after, get_auth_token_call}
use identity_vault.Resources.Accounts
use identity_vault.Resources.Assertions
use identity_vault.Resources.Keypairs
use identity_vault.Resources.Models
use identity_vault.Resources.SigningLogs
use identity_vault.Resources.Users
use identity_vault.Resources.Vault
use identity_vault.Server.{admin_routes}
use identity_vault.Server.Matching.{Mux, is_part}

-- Every request of the call reaches a handler: those before the last the one of the tokens, and the
-- last, whatever the answers before it, the one that is named.
abbrev pub IsServed : Mux → Call → String → Type 0
IsServed mux (last r) handler = mux.serve admin_routes r.method r.url ≡ some handler
IsServed mux (after r k) handler =
    (mux.serve admin_routes r.method r.url ≡ some "core.Token")
    × ((response : Response) → IsServed mux (k response) handler)

abbrev pub AreServed : Mux → List (Call × String) → Type 0
AreServed mux [] = Unit
AreServed mux ((c, handler) ∷ cs) = IsServed mux c handler × AreServed mux cs

-- What the pages ask for, and the handler that is meant to answer: for an identifier, an object and a
-- sub-store that carry it, and the code of an account.
abbrev pub models_calls : Value → Value → Fields → Value → List (Call × String)
models_calls id body store authority =
    (Models.list, "model.List")
    ∷ (Models.get id, "model.Get")
    ∷ (Models.update body, "model.Update")
    ∷ (Models.delete body, "model.Delete")
    ∷ (Models.create body, "model.Create")
    ∷ (Models.assertion body, "model.AssertionHeaders")
    ∷ []

abbrev pub keypairs_calls : Value → Value → Fields → Value → List (Call × String)
keypairs_calls id body store authority =
    (Keypairs.list, "keypair.List")
    ∷ (Keypairs.get id, "keypair.Get")
    ∷ (Keypairs.update body, "keypair.Update")
    ∷ (Keypairs.enable id, "keypair.Enable")
    ∷ (Keypairs.disable id, "keypair.Disable")
    ∷ (Keypairs.create id body body, "keypair.Create")
    ∷ (Keypairs.generate id body, "keypair.Generate")
    ∷ (Keypairs.status, "keypair.Progress")
    ∷ (Keypairs.assertion id body, "keypair.Assertion")
    ∷ (Keypairs.register body, "store.KeyRegister")
    ∷ []

abbrev pub signing_logs_calls : Value → Value → Fields → Value → List (Call × String)
signing_logs_calls id body store authority =
    (SigningLogs.list id, "signinglog.List")
    ∷ (SigningLogs.list_for_account authority id id id, "signinglog.ListForAccount")
    ∷ (SigningLogs.filters authority, "signinglog.ListFilters")
    ∷ (SigningLogs.download authority id id, "signinglog.ListForAccount")
    ∷ []

abbrev pub accounts_calls : Value → Value → Fields → Value → List (Call × String)
accounts_calls id body store authority =
    (Accounts.list, "account.List")
    ∷ (Accounts.create body, "account.Create")
    ∷ (Accounts.get id, "account.Get")
    ∷ (Accounts.update body, "account.Update")
    ∷ (Accounts.upload body, "account.Upload")
    ∷ []

abbrev pub stores_calls : Value → Value → Fields → Value → List (Call × String)
stores_calls id body store authority =
    (Accounts.stores id, "substore.List")
    ∷ (Accounts.store_new id store, "substore.Create")
    ∷ (Accounts.store_update store, "substore.Update")
    ∷ (Accounts.store_delete store, "substore.Delete")
    ∷ []

abbrev pub users_calls : Value → Value → Fields → Value → List (Call × String)
users_calls id body store authority =
    (Users.list, "user.List")
    ∷ (Users.create body, "user.Create")
    ∷ (Users.get id, "user.Get")
    ∷ (Users.update body, "user.Update")
    ∷ (Users.delete body, "user.Delete")
    ∷ (Users.get_other_accounts id, "user.GetOtherAccounts")
    ∷ []

abbrev pub others_calls : Value → Value → Fields → Value → List (Call × String)
others_calls id body store authority =
    (Vault.version, "core.Version")
    ∷ (get_auth_token_call, "core.Token")
    ∷ (Assertions.create body, "assertion.SystemUserAssertion")
    ∷ []

-- All of them, resource by resource.
abbrev pub calls : Value → Value → Fields → Value → List (List (Call × String))
calls id body store authority =
    models_calls id body store authority
    ∷ keypairs_calls id body store authority
    ∷ signing_logs_calls id body store authority
    ∷ accounts_calls id body store authority
    ∷ stores_calls id body store authority
    ∷ users_calls id body store authority
    ∷ others_calls id body store authority
    ∷ []

-- The decimal text of a number.
abbrev pub IsNumeral : String → Type 0
IsNumeral s = (n : ℕ) × (s ≡ show n)

-- The identifier is a number, or its text; the objects carry one; the code is a part of a path of
-- letters, digits and signs that an address never escapes.
pub record IsAddressed (id body : Value) (store : Fields) (authority : Value) : Type 0 where
  pub id_number : IsNumeral (to_text id)
  pub body_id : IsNumeral (to_text (prop "id" body))
  pub body_key : IsNumeral (to_text (prop "ID" body))
  pub store_id : IsNumeral (to_text (Value.get "id" store))
  pub code_part : is_part (to_text authority) ≡ true
