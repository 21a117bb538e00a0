-- ===== src/Resources/Keypairs.antt =====
-- webapp-admin/src/models/keypairs.js
use identity_vault.Common.{String, [], ◌∷◌}
use identity_vault.Common.Text.{◌<>◌}
use identity_vault.Common.Value.{Value, object, fields, prop, to_text}
use identity_vault.Ajax.{Call, ajax_get, ajax_post, ajax_put}

abbrev url : String
url = "keypairs"

unfoldable pub list : Call
unfolding ajax_get
list = ajax_get url []

unfoldable pub get : Value → Call
unfolding ajax_get to_text
get keypair_id = ajax_get (url <> "/" <> to_text keypair_id) []

unfoldable pub update : Value → Call
unfolding ajax_put to_text prop
update keypair = ajax_put (url <> "/" <> to_text (prop "ID" keypair)) keypair

unfoldable pub enable : Value → Call
unfolding ajax_post to_text
enable keypair_id = ajax_post (url <> "/" <> to_text keypair_id <> "/enable") (object (fields []))

unfoldable pub disable : Value → Call
unfolding ajax_post to_text
disable keypair_id = ajax_post (url <> "/" <> to_text keypair_id <> "/disable") (object (fields []))

unfoldable pub create : Value → Value → Value → Call
unfolding ajax_post
create authority_id key key_name = ajax_post url (
    object (
      fields (("authority-id", authority_id) ∷ ("private-key", key) ∷ ("key-name", key_name) ∷ [])))

unfoldable pub generate : Value → Value → Call
unfolding ajax_post
generate authority_id key_name =
    ajax_post (url <> "/generate")
      (object (fields (("authority-id", authority_id) ∷ ("key-name", key_name) ∷ [])))

unfoldable pub status : Call
unfolding ajax_get
status = ajax_get (url <> "/status") []

unfoldable pub assertion : Value → Value → Call
unfolding ajax_post
assertion key_id assertion' =
    ajax_post (url <> "/assertion")
      (object (fields (("id", key_id) ∷ ("assertion", assertion') ∷ [])))

unfoldable pub register : Value → Call
unfolding ajax_post
register keypair = ajax_post (url <> "/register") keypair
