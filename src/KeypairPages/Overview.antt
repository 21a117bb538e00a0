-- ===== src/KeypairPages/Overview.antt =====
-- webapp-admin/src/components/Keypair.js and KeypairList.js: the list of the signing keys.
use identity_vault.Common.{String, Option, none, some, List, [], ◌∷◌, map, str_eq, if◌then◌else◌}
use identity_vault.Common.Text.{◌<>◌}
use identity_vault.Common.Value.{Value, null, truthy, prop, to_text}
use identity_vault.Messages.{Locale}
use identity_vault.Utils.{Token, translate, with_cause, is_user_admin}
use identity_vault.Page.{Effect, ask, refresh, Result, Shown, denied, shown}
use identity_vault.Resources.Keypairs

pub record State : Type 0 where
  pub confirm_delete : Value
  pub message : Value

abbrev pub initial : State
initial = record { confirm_delete = null; message = null }

-- `componentDidMount`, `refresh` and `handleRefresh` all ask for the account's data again.
unfoldable pub refresh_page : Value → State → Result State
refresh_page account s = (s, refresh account ∷ [])

unfoldable pub format_error : Locale → Value → Value
unfolding prop translate
format_error lang data' =
    let message = translate lang (prop "error_code" data') in
    if truthy (prop "error_subcode" data')
    then with_cause message (translate lang (prop "error_subcode" data'))
    else if truthy (prop "message" data')
    then with_cause message (prop "message" data')
    else message

-- KeypairList: `handleToggle`, with the attributes of the switch that was clicked.
unfoldable pub handle_toggle : String → Value → List Effect
unfolding Keypairs.enable Keypairs.disable
handle_toggle aria_checked data_key =
    if str_eq aria_checked "false"
    then ask (Keypairs.enable data_key) ∷ []
    else ask (Keypairs.disable data_key) ∷ []

-- The cells of a row: the link to its form, and the attributes of its switch.
pub record Row : Type 0 where
  pub link : String
  pub authority_id : Value
  pub key_id : Value
  pub active : Value
  pub key_name : Value

unfoldable pub render_row : Value → Row
unfolding prop to_text
render_row keypr = record {
  link = "/signing-keys/" <> to_text (prop "ID" keypr);
  authority_id = prop "AuthorityID" keypr;
  key_id = prop "KeyID" keypr;
  active = prop "Active" keypr;
  key_name = prop "KeyName" keypr;
}

-- KeypairList's `render`: the rows, or none where a text says that there are no keys.
unfoldable pub key_rows : List Value → Option (List Row)
unfolding render_row
key_rows [] = none
key_rows (k ∷ ks) = some (map render_row (k ∷ ks))

unfoldable pub render : Option Token → List Value → Shown (Option (List Row))
unfolding is_user_admin key_rows
render token keypairs = if is_user_admin token then shown (key_rows keypairs) else denied
