-- ===== src/Resources/Assertions.antt =====
-- webapp-admin/src/models/assertions.js
use identity_vault.Common.Value.{Value}
use identity_vault.Ajax.{Call, ajax_post}

unfoldable pub create : Value → Call
unfolding ajax_post
create assert = ajax_post "assertions" assert
