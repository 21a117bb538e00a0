-- ===== src/SubstoreList/Modes.antt =====
-- What webapp-admin/src/components/SubstoreList.js can have open.
use identity_vault.Common.{ℕ, ◌+◌, ◌≤◌, String, Bool, true, false, Option, List, arith}
use identity_vault.Common.Value.{Value, null, Fields}
use identity_vault.Http.{JsonParse, Response}
use identity_vault.Messages.{Locale}
use identity_vault.Utils.{Token}
use identity_vault.SubstoreList.{
  State, World, initial, handle_show_new, handle_show_edit, handle_show_delete,
  handle_substore_change, handle_save_substore, on_saved, handle_delete_substore,
  handle_cancel_substore, receive_substores,
}

abbrev count_true : Bool → ℕ
count_true true = 1
count_true false = 0

abbrev count_open : Value → ℕ
count_open null = 0
count_open _ = 1

-- How many of the three are open: the new form, the form of a row, and the question of a row.
abbrev pub open_modes : State → ℕ
open_modes s = count_true s.show_new + count_open s.show_edit + count_open s.show_delete

-- What can happen to the page: its handlers, the answers to its requests, and a new list from `App`.
pub data Step (lang : Locale) (parse : JsonParse) (token : Option Token) (account : Value)
    (w : World) : World → Type 0 where
  show_new : Step lang parse token account w (handle_show_new w)
  show_edit : (key : Value) → Step lang parse token account w (handle_show_edit key w)
  show_delete : (key : Value) → Step lang parse token account w (handle_show_delete key w)
  change : (k : String) (v : Value) → Step lang parse token account w (handle_substore_change k v w)
  save : Step lang parse token account w (handle_save_substore token account w).0
  delete : Step lang parse token account w (handle_delete_substore w).0
  answer : (r : Response) → Step lang parse token account w (on_saved lang parse account r w).0
  cancel : Step lang parse token account w (handle_cancel_substore account w).0
  receive : (xs : List Fields) → Step lang parse token account w (receive_substores xs w)

pub data Reach (lang : Locale) (parse : JsonParse) (token : Option Token) (account : Value)
    (w : World) : World → Type 0 where
  here : Reach lang parse token account w w
  next :
      {t u : World}
      → Reach lang parse token account w t
      → Step lang parse token account t u
      → Reach lang parse token account w u

module _ {lang : Locale} {parse : JsonParse} {token : Option Token} {account : Value} where
  Step-open_modes :
      {w t : World}
      → Step lang parse token account w t
      → open_modes w.state ≤ 1
      → open_modes t.state ≤ 1
  unfolding handle_show_new handle_show_edit handle_show_delete handle_substore_change
      handle_save_substore handle_delete_substore on_saved handle_cancel_substore receive_substores
  Step-open_modes show_new h = ground arith
  Step-open_modes (show_edit key) h = ground arith
  Step-open_modes (show_delete key) h = ground arith
  Step-open_modes (change k v) h = ground arith
  Step-open_modes save h = ground arith
  Step-open_modes delete h = ground arith
  Step-open_modes (answer r) h = ground arith
  Step-open_modes cancel h = ground arith
  Step-open_modes (receive xs) h = ground arith

-- From the state that the page opens in, no order of clicks, answers and new lists opens two of the
-- new form, a row's form and a row's question at once.
pub Reach-open_modes :
    {lang : Locale} {parse : JsonParse} {token : Option Token} {account : Value} (xs : List Fields)
    {w : World}
    → Reach lang parse token account (record { state = initial; substores = xs }) w
    → open_modes w.state ≤ 1
Reach-open_modes xs here = omega arith
Reach-open_modes xs (next r s) = Step-open_modes s (Reach-open_modes xs r)
