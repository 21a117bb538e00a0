-- ===== src/Resources/Accounts.antt =====
-- webapp-admin/src/models/accounts.js
use identity_vault.Common.{String, [], ◌∷◌}
use identity_vault.Common.Text.{◌<>◌}
use identity_vault.Common.Value.{
  Value, object, fields, prop, to_text, Fields, put, number, parse_value,
}
use identity_vault.Ajax.{Call, ajax_get, ajax_post, ajax_put, ajax_delete}

abbrev url : String
url = "accounts"

unfoldable pub list : Call
unfolding ajax_get
list = ajax_get url []

unfoldable pub get : Value → Call
unfolding ajax_get to_text
get id = ajax_get (url <> "/" <> to_text id) []

unfoldable pub create : Value → Call
unfolding ajax_post
create account = ajax_post url account

unfoldable pub update : Value → Call
unfolding ajax_put to_text prop
update account = ajax_put (url <> "/" <> to_text (prop "ID" account)) account

unfoldable pub upload : Value → Call
unfolding ajax_post
upload assertion = ajax_post (url <> "/upload") (object (fields (("assertion", assertion) ∷ [])))

unfoldable pub stores : Value → Call
unfolding ajax_get to_text
stores id = ajax_get (url <> "/" <> to_text id <> "/stores") []

-- `store.accountID = parseInt(accountID, 10)`
unfoldable pub with_account_id : Value → Fields → Fields
unfolding put parse_value
with_account_id account_id store = put "accountID" (number (parse_value account_id)) store

unfoldable pub store_new : Value → Fields → Call
unfolding ajax_post with_account_id
store_new account_id store =
    ajax_post (url <> "/stores") (object (with_account_id account_id store))

unfoldable pub store_update : Fields → Call
unfolding ajax_put to_text prop
store_update store =
    ajax_put (url <> "/stores/" <> to_text (prop "id" (object store))) (object store)

unfoldable pub store_delete : Fields → Call
unfolding ajax_delete to_text prop
store_delete store =
    ajax_delete (url <> "/stores/" <> to_text (prop "id" (object store))) (object (fields []))
