-- ===== src/Resources/SigningLogs.antt =====
-- webapp-admin/src/models/signinglog.js
pub mod Csv
use identity_vault.Common.{String, List, [], ◌∷◌, map, true, if◌then◌else◌}
use identity_vault.Common.Text.{◌<>◌, join}
use identity_vault.Common.Value.{
  Value, str, object, fields, prop, to_text, truthy, flag, unless_missing,
}
use identity_vault.Ajax.{Call, ajax_get, ajax_post, ajax_put, ajax_delete}

abbrev url : String
url = "signinglog"

unfoldable pub list : Value → Call
unfolding ajax_get
list from_id = ajax_get url (if truthy from_id then ("fromID", from_id) ∷ [] else [])

unfoldable pub list_for_account : Value → Value → Value → Value → Call
unfolding ajax_get to_text
list_for_account authority_id offset filter serialnumber =
    ajax_get (url <> "/account/" <> to_text authority_id)
      (("offset", offset) ∷ ("filter", filter) ∷ ("serialnumber", serialnumber) ∷ [])

unfoldable pub filters : Value → Call
unfolding ajax_get to_text
filters authority_id = ajax_get (url <> "/account/" <> to_text authority_id <> "/filters") []

-- The request of `download`.
unfoldable pub download : Value → Value → Value → Call
unfolding ajax_get to_text
download authority_id filter serialnumber =
    ajax_get (url <> "/account/" <> to_text authority_id)
      (("all", flag true) ∷ ("filter", filter) ∷ ("serialnumber", serialnumber) ∷ [])

abbrev pub header : String
header = "data:text/csv;charset=utf-8,ID,Make,Model,Serial Number,Revision,Fingerprint,Date"

-- What `join` puts for an element.
abbrev pub cell : Value → String
cell v = unless_missing v (to_text v)

abbrev pub columns : List String
columns = "id" ∷ "make" ∷ "model" ∷ "serialnumber" ∷ "revision" ∷ "fingerprint" ∷ "created" ∷ []

unfoldable pub cells : Value → List String
unfolding to_text prop
cells log = map (λ name. cell (prop name log)) columns

unfoldable pub csv_lines : List Value → List String
unfolding cells join
csv_lines logs = header ∷ map (λ log. join "," (cells log)) logs

-- `csvContent` of the answer to the request.
unfoldable pub csv_content : List Value → String
unfolding csv_lines join
csv_content logs = join "\n" (csv_lines logs)

-- The address of the link that is clicked; `encodeURI` is the browser's.
unfoldable pub download_href : (String → String) → List Value → String
unfolding csv_content
download_href encode_uri logs = encode_uri (csv_content logs)
