-- ===== src/Resources/Vault.antt =====
-- webapp-admin/src/models/vault.js
use identity_vault.Common.{[]}
use identity_vault.Ajax.{Call, ajax_get}

unfoldable pub version : Call
unfolding ajax_get
version = ajax_get "version" []
