-- ===== src/SubstoreList/Form.antt =====
-- What webapp-admin/src/components/SubstoreForm.js shows for a sub-store.
use identity_vault.Common.{Option, none, some, List, map, if◌then◌else◌}
use identity_vault.Common.Value.{Value, Fields, get, prop}
use identity_vault.Utils.{Token, is_user_admin}
use identity_vault.SubstoreList.{World, look}

-- The buttons: to cancel and to save, or to close, with the identifier that they carry.
pub data Buttons : Type 0 where
  cancel_save close : Value → Buttons

pub record Form : Type 0 where
  pub from_model_id : Value
  pub models : List (Value × Value)
  pub serialnumber : Value
  pub store : Value
  pub modelname : Value
  pub buttons : Buttons

unfoldable pub render : Option Token → List Value → Fields → Form
unfolding is_user_admin prop get
render token models b = record {
  from_model_id = get "fromModelID" b;
  models = map (λ m. (prop "id" m, prop "model" m)) models;
  serialnumber = get "serialnumber" b;
  store = get "store" b;
  modelname = get "modelname" b;
  buttons = if is_user_admin token then cancel_save (get "id" b) else close (get "id" b);
}

-- The form for the object that is edited; without one the rendering throws.
unfoldable pub shown_form : Option Token → List Value → World → Option Form
unfolding render
shown_form token models w = elim (look w.state.substore w.substores) [
  | none ↦ none
  | some b ↦ some (render token models b)
]
