-- ===== src/Server/Served.antt =====
-- The requests of webapp-admin/src/models reach the handlers of service/router.go that are meant.
use identity_vault.Common.Value.{Value}
use identity_vault.Common.Value
use identity_vault.Resources.Accounts
use identity_vault.Resources.Assertions
use identity_vault.Resources.Keypairs
use identity_vault.Resources.Models
use identity_vault.Resources.SigningLogs
use identity_vault.Resources.Users
use identity_vault.Resources.Vault

infixr 15 ◌⊗◌
-- The proof for a call and those for the calls behind it.
abbrev ◌⊗◌ : {P Q : Type 0} → P → Q → P × Q
p ⊗ q = (p, q)
