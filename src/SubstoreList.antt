-- ===== src/SubstoreList.antt =====
-- webapp-admin/src/components/SubstoreList.js and SubstoreForm.js: the list of sub-stores of the
-- selected account, with one form for a new or an edited one. The edited object is the one of the
-- list, which `App` owns and hands down: a change in the form changes the list too, until the next
-- answer of the server replaces the list. So the model keeps the list beside the component's state.
pub mod Modes
pub mod Editing
pub mod Form
use identity_vault.Common.{
  ℕ, zero, suc, String, Bool, true, false, Option, none, some, List, [], ◌∷◌, map, if◌then◌else◌,
  get_elem?,
}
use identity_vault.Common.Number
use identity_vault.Common.Number.{Number, nan, parse_int}
use identity_vault.Common.Value.{
  Value, undefined, null, number, str, object, Fields, end, fields, truthy, same_value, get, put,
  prop, parse_value,
}
use identity_vault.Http.{JsonParse, Response}
use identity_vault.Messages.{Locale}
use identity_vault.Utils.{Token, format_error, is_user_admin}
use identity_vault.Page.{
  Effect, ask, go_to, refresh, Result, Outcome, stopped, refused, accepted, outcome,
}
use identity_vault.Resources.Accounts

-- The object in the form: one of its own, the one at a place of the list, or none, where the list had
-- no such sub-store (`substores[0]` of an empty array).
pub data Edited : Type 0 where
  own : Fields → Edited
  shared : ℕ → Edited
  missing : Edited

pub record State : Type 0 where
  pub error : Value
  pub show_new : Bool
  pub show_edit : Value
  pub show_delete : Value
  pub substore : Edited

pub record World : Type 0 where
  pub state : State
  pub substores : List Fields

abbrev pub initial : State
initial = record {
  error = null;
  show_new = false;
  show_edit = null;
  show_delete = null;
  substore = own end;
}

-- The object that the form shows.
abbrev pub look : Edited → List Fields → Option Fields
look (own o) xs = some o
look (shared i) xs = get_elem? xs i
look missing xs = none

-- The object itself, cut loose from the list.
abbrev pub detached : Edited → List Fields → Edited
detached e xs = elim (look e xs) [ none ↦ missing | some o ↦ own o ]

unfoldable pub handle_show_new : World → World
handle_show_new w = record w {
  state = record (w.state) {
    show_new = true;
    show_edit = null;
    show_delete = null;
    substore = own end;
  };
}

-- The same object in the list with one more in front.
abbrev pub shift : Edited → Edited
shift (own o) = own o
shift (shared i) = shared (suc i)
shift missing = missing

-- `substores.filter(s => s.id === id)[0]`, as a place in the list.
unfoldable pub find_substore : Value → List Fields → Edited
unfolding same_value get
find_substore id [] = missing
find_substore id (x ∷ xs) =
    let rest = find_substore id xs in if same_value (get "id" x) id then shared 0 else shift rest

-- `handleShowEdit`, with the attribute `data-key` of what was clicked.
unfoldable pub handle_show_edit : Value → World → World
unfolding same_value parse_value find_substore
handle_show_edit data_key w =
    let id = number (parse_value data_key) in
    if same_value w.state.show_edit id
    then record w {
      state = record (w.state) {
        show_edit = null;
        substore = own end;
        show_delete = null;
        show_new = false;
      };
    }
    else record w {
      state = record (w.state) {
        substore = find_substore id w.substores;
        show_edit = id;
        show_delete = null;
        show_new = false;
      };
    }

unfoldable pub handle_show_delete : Value → World → World
unfolding same_value parse_value find_substore
handle_show_delete data_key w =
    let id = number (parse_value data_key) in
    if same_value w.state.show_delete id
    then record w {
      state = record (w.state) { show_delete = null; show_edit = null; show_new = false };
    }
    else record w {
      state = record (w.state) {
        substore = find_substore id w.substores;
        show_delete = id;
        show_edit = null;
        show_new = false;
      };
    }

-- A write to one object of the list.
unfoldable pub put_at : ℕ → String → Value → List Fields → List Fields
unfolding put
put_at i k v [] = []
put_at zero k v (x ∷ xs) = put k v x ∷ xs
put_at (suc i) k v (x ∷ xs) = x ∷ put_at i k v xs

-- `s[field] = value`, through the reference; a missing object throws.
abbrev change : Edited → String → Value → World → World
change (own o) k v w = record w { state = record (w.state) { substore = own (put k v o) } }
change (shared i) k v w = record w { substores = put_at i k v w.substores }
change missing k v w = w

unfoldable pub handle_substore_change : String → Value → World → World
unfolding put put_at
handle_substore_change k v w = change w.state.substore k v w

-- The four handlers of SubstoreForm.js, each with the value of its field.
unfoldable pub handle_change_serial : String → World → World
unfolding handle_substore_change
handle_change_serial value w = handle_substore_change "serialnumber" (str value) w

unfoldable pub handle_change_substore : String → World → World
unfolding handle_substore_change
handle_change_substore value w = handle_substore_change "store" (str value) w

unfoldable pub handle_change_from_model : String → World → World
unfolding handle_substore_change
handle_change_from_model value w = handle_substore_change "fromModelID" (number (parse_int value)) w

unfoldable pub handle_change_model_name : String → World → World
unfolding handle_substore_change
handle_change_model_name value w = handle_substore_change "modelname" (str value) w

-- `if (!isUserAdmin(...)) { window.location = '/accounts' }`: the handler goes on all the same.
abbrev leave_unless : Bool → List Effect → List Effect
leave_unless true effects = effects
leave_unless false effects = go_to "/accounts" ∷ effects

-- `storeNew` sets the account's number in the object that it is given.
abbrev number_store : Value → Edited → World → World
number_store account_id substore w = change substore "accountID" (number (parse_value account_id)) w

abbrev save_found : Value → Fields → World → World × List Effect
save_found account o w = if truthy (get "id" o) then (w, ask (Accounts.store_update o) ∷ []) else (
  number_store (prop "ID" account) w.state.substore w,
  ask (Accounts.store_new (prop "ID" account) o) ∷ [],
)

-- `handleSaveSubstore`, for the token and the selected account of the properties; reading the
-- identifier of a missing object throws, once a caller without permission is sent away.
unfoldable pub handle_save_substore : Option Token → Value → World → World × List Effect
unfolding is_user_admin put put_at parse_value
handle_save_substore token account w = elim (look w.state.substore w.substores) [
  | none ↦ (w, leave_unless (is_user_admin token) [])
  | some o ↦
      ((save_found account o w).0, leave_unless (is_user_admin token) (save_found account o w).1)
]

abbrev cleared : State → State
cleared s = record s {
  substore = own end;
  show_new = false;
  show_edit = null;
  show_delete = null;
  error = null;
}

-- The callback of `storeNew`, `storeUpdate` and `storeDelete`. The first clears the form before it
-- asks for the list, the others after it; the request is sent either way.
unfoldable pub on_saved : Locale → JsonParse → Value → Response → World → World × List Effect
unfolding outcome format_error
on_saved lang parse account response w = elim (outcome parse response) [
  | stopped ↦ (w, [])
  | refused data' ↦ (record w { state = record (w.state) { error = format_error lang data' } }, [])
  | accepted data' ↦ (record w { state = cleared w.state }, refresh account ∷ [])
]

unfoldable pub handle_delete_substore : World → World × List Effect
unfolding Accounts.store_delete
handle_delete_substore w = elim (look w.state.substore w.substores) [
  | none ↦ (w, [])
  | some o ↦ (w, ask (Accounts.store_delete o) ∷ [])
]

unfoldable pub handle_cancel_substore : Value → World → World × List Effect
handle_cancel_substore account w = (record w { state = cleared w.state }, refresh account ∷ [])

-- A new list from `App`: an object of the old one that is being edited stays as it is.
unfoldable pub receive_substores : List Fields → World → World
receive_substores xs w = record {
  state = record (w.state) { substore = detached w.state.substore w.substores };
  substores = xs;
}

-- What `render` shows: no permissions, or the page with the form for a new sub-store where it is
-- open, and a row for each of the list: a form, the question before a deletion, or the row itself.
pub data Row : Type 0 where
  form : Option Fields → Row
  confirm plain : Fields → Row

pub data View : Type 0 where
  denied : View
  page : Value → Option (Option Fields) → List Row → View

-- `renderActions` and the form are chosen by the row's identifier.
unfoldable pub row_of : World → Fields → Row
unfolding same_value get
row_of w b =
    if same_value (get "id" b) w.state.show_edit
    then form (look w.state.substore w.substores)
    else if same_value w.state.show_delete (get "id" b)
    then confirm b
    else plain b

unfoldable pub render : Option Token → World → View
unfolding is_user_admin row_of
render token w =
    if is_user_admin token
    then page w.state.error
        (if w.state.show_new then some (look w.state.substore w.substores) else none)
        (map (row_of w) w.substores)
    else denied
