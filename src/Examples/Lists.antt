-- ===== src/Examples/Lists.antt =====
-- The lists of sub-stores, users and models at concrete inputs.
use identity_vault.Common.{
  ℕ, ◌≤◌, String, ◌≡◌, refl, ◌⊎◌, Option, none, some, List, [], ◌∷◌, IsIn, get_elem?,
}
use identity_vault.Common.Text.{◌<>◌}
use identity_vault.Common.Number.{pos, parse_int}
use identity_vault.Common.Value.{
  Value, null, number, str, object, array, Fields, fields, items, prop, get, put, to_text,
  same_value, parse_value,
}
use identity_vault.Http.{JsonParse}
use identity_vault.Messages.{en}
use identity_vault.Utils.{Token, is_user_admin}
use identity_vault.Page.{ask, refresh}
use identity_vault.Resources.Accounts
use identity_vault.Resources.Users
use identity_vault.SubstoreList
use identity_vault.SubstoreList.{
  World, handle_show_edit, handle_show_new, handle_substore_change, handle_save_substore,
  handle_cancel_substore, put_at,
}
use identity_vault.SubstoreList.Editing.{edit_in_place}
use identity_vault.SubstoreList.Modes.{
  Reach, here, next, show_edit, show_new, open_modes, Reach-open_modes,
}
use identity_vault.UserList
use identity_vault.UserList.{handle_delete_user}
use identity_vault.UserList.Deletion.{delete_user_row}
use identity_vault.ModelPages.Overview

abbrev store_fields : ℕ → String → Fields
store_fields n name = fields (("id", number (pos n)) ∷ ("store", str name) ∷ [])

abbrev two_stores : List Fields
two_stores = store_fields 1 "alder" ∷ store_fields 2 "beech" ∷ []

abbrev stores_world : World
stores_world = record { state = SubstoreList.initial; substores = two_stores }

abbrev admin_token : Option Token
admin_token = some (record { role = some 200; name = none })

abbrev canonical : Value
canonical = object (fields (("AuthorityID", str "canonical") ∷ []))

edit_in_place_example :
    let t =
      handle_substore_change "store" (str "cedar") (handle_show_edit (str "2") stores_world) in
    (t.substores ≡ put_at 1 "store" (str "cedar") two_stores)
    × (get_elem? t.substores 1 ≡ some (put "store" (str "cedar") (store_fields 2 "beech")))
    × (handle_save_substore admin_token canonical t ≡ (
      t,
      ask (Accounts.store_update (put "store" (str "cedar") (store_fields 2 "beech"))) ∷ [],
    ))
    × ((handle_cancel_substore canonical t).0.substores ≡ put_at 1 "store" (str "cedar") two_stores)
    × ((handle_cancel_substore canonical t).1 ≡ refresh canonical ∷ [])
unfolding same_value parse_value parse_int is_user_admin get
edit_in_place_example =
    edit_in_place stores_world (str "2") 1 (store_fields 2 "beech") "store" (str "cedar")
      admin_token canonical refl (refl, refl) refl refl refl refl

abbrev no_json : JsonParse
no_json s = none

-- The form of a row, and then the new form.
edit_then_new :
    Reach en no_json admin_token canonical stores_world
      (handle_show_new (handle_show_edit (str "2") stores_world))
edit_then_new = next (next here (show_edit (str "2"))) show_new

open_modes_example :
    open_modes (handle_show_new (handle_show_edit (str "2") stores_world)).state ≤ 1
open_modes_example = Reach-open_modes two_stores edit_then_new

abbrev user_of : ℕ → Value
user_of n = object (fields (("ID", number (pos n)) ∷ ("id", number (pos n)) ∷ []))

abbrev asked_users : UserList.State
asked_users = record {
  users = array (items (user_of 3 ∷ user_of 4 ∷ []));
  confirm_delete = number (pos 4);
  message = null;
}

delete_user_example :
    ((handle_delete_user asked_users).0 ≡ asked_users)
    × ((((handle_delete_user asked_users).1 ≡ [])
          × ((u : Value)
              → IsIn u (user_of 3 ∷ user_of 4 ∷ [])
              → UserList.render_actions (number (pos 4)) u
                ≡ UserList.edit_link ("/users/" <> to_text (prop "ID" u) <> "/edit")))
        ⊎ ((u : Value) × ((handle_delete_user asked_users).1 ≡ ask (Users.delete u) ∷ [])
            × IsIn u (user_of 3 ∷ user_of 4 ∷ [])
            × (UserList.render_actions (number (pos 4)) u ≡ UserList.confirm)))
delete_user_example = delete_user_row asked_users (user_of 3 ∷ user_of 4 ∷ []) refl

abbrev asked_models : Overview.State
asked_models = record Overview.initial { confirm_delete = number (pos 4) }
