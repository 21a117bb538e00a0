-- ===== src/Resources/Models.antt =====
-- webapp-admin/src/models/models.js
use identity_vault.Common.{String, []}
use identity_vault.Common.Text.{◌<>◌}
use identity_vault.Common.Value.{Value, object, fields, prop, to_text}
use identity_vault.Ajax.{Call, ajax_get, ajax_post, ajax_put, ajax_delete}

abbrev url : String
url = "models"

unfoldable pub list : Call
unfolding ajax_get
list = ajax_get url []

unfoldable pub get : Value → Call
unfolding ajax_get to_text
get model_id = ajax_get (url <> "/" <> to_text model_id) []

unfoldable pub update : Value → Call
unfolding ajax_put to_text prop
update model = ajax_put (url <> "/" <> to_text (prop "id" model)) model

unfoldable pub delete : Value → Call
unfolding ajax_delete to_text prop
delete model = ajax_delete (url <> "/" <> to_text (prop "id" model)) (object (fields []))

unfoldable pub create : Value → Call
unfolding ajax_post
create model = ajax_post url model

unfoldable pub assertion : Value → Call
unfolding ajax_post
assertion model_assertion = ajax_post (url <> "/assertion") model_assertion
