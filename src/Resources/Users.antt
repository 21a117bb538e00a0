-- ===== src/Resources/Users.antt =====
-- webapp-admin/src/models/users.js
use identity_vault.Common.{String, []}
use identity_vault.Common.Text.{◌<>◌}
use identity_vault.Common.Value.{Value, object, fields, prop, to_text}
use identity_vault.Ajax.{Call, ajax_get, ajax_post, ajax_put, ajax_delete}

abbrev url : String
url = "users"

unfoldable pub list : Call
unfolding ajax_get
list = ajax_get url []

unfoldable pub get : Value → Call
unfolding ajax_get to_text
get user_id = ajax_get (url <> "/" <> to_text user_id) []

unfoldable pub get_other_accounts : Value → Call
unfolding ajax_get to_text
get_other_accounts user_id = ajax_get (url <> "/" <> to_text user_id <> "/otheraccounts") []

unfoldable pub update : Value → Call
unfolding ajax_put to_text prop
update user = ajax_put (url <> "/" <> to_text (prop "id" user)) user

unfoldable pub delete : Value → Call
unfolding ajax_delete to_text prop
delete user = ajax_delete (url <> "/" <> to_text (prop "ID" user)) (object (fields []))

unfoldable pub create : Value → Call
unfolding ajax_post
create user = ajax_post url user
