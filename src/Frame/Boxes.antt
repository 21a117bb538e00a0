-- ===== src/Frame/Boxes.antt =====
-- webapp-admin/src/components/AlertBox.js, DialogBox.js, SigningLogFilter.js and SigningLogRow.js: the
-- components without a state.
use identity_vault.Common.{String, Bool, Option, none, some, List, [], ◌∷◌, map, if◌then◌else◌}
use identity_vault.Common.Value.{Value, truthy, prop}
use identity_vault.Messages.{Locale}
use identity_vault.Utils.{translated}
use identity_vault.SigningLog.{FilterItem}

-- AlertBox: the message, where there is one.
unfoldable pub alert_box : Value → Option Value
alert_box message = if truthy message then some message else none

-- DialogBox: the message, the texts of its two links and their classes.
pub record Dialog : Type 0 where
  pub message : Value
  pub no_text : Value
  pub no_class : String
  pub yes_text : Value
  pub yes_class : String

unfoldable pub dialog_box : Locale → Value → Bool → Option Dialog
dialog_box lang message small =
    if truthy message
    then some (record {
      message = message;
      no_text = translated lang "no";
      no_class = if small then "p-button--neutral small" else "p-button--neutral";
      yes_text = translated lang "yes";
      yes_class = if small then "p-button--brand small" else "p-button--brand";
    })
    else none

-- SigningLogFilter: the names and classes of the items, where the filter is expanded.
unfoldable pub log_filter : Bool → List FilterItem → Option (List (Value × String))
log_filter expanded items =
    if expanded
    then some
        (map (λ i. (i.name, if i.selected then "checked overflow" else "unchecked overflow")) items)
    else none

-- SigningLogRow; the library moment prints the date.
unfoldable pub log_row : (String → Value → String) → Value → List Value × String
unfolding prop
log_row format log = (
  prop "make" log
      ∷ prop "model" log
      ∷ prop "serialnumber" log
      ∷ prop "revision" log
      ∷ prop "fingerprint" log
      ∷ [],
  format "YYYY-MM-DD HH:mm" (prop "created" log),
)
