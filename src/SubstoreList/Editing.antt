-- ===== src/SubstoreList/Editing.antt =====
-- The object that the form of webapp-admin/src/components/SubstoreList.js edits.
use identity_vault.Common.{
  ℕ, zero, suc, String, true, false, ◌≡◌, refl, Option, some, List, [], ◌∷◌, arith, get_elem?,
  str_eq,
}
use identity_vault.Common.Value.{Value, number, Fields, get, put, truthy, same_value, parse_value}
use identity_vault.Common.Value.Laws.{get-put}
use identity_vault.Utils.{Token, is_user_admin}
use identity_vault.Page.{ask, refresh}
use identity_vault.Resources.Accounts
use identity_vault.SubstoreList.{
  World, shared, look, find_substore, put_at, handle_show_edit, handle_substore_change,
  handle_save_substore, handle_cancel_substore,
}

get_elem?-put_at :
    (i : ℕ) (k : String) (v : Value) (xs : List Fields) (o : Fields)
    → get_elem? xs i ≡ some o
    → get_elem? (put_at i k v xs) i ≡ some (put k v o)
unfolding put_at
get_elem?-put_at i k v [] o e = cc
get_elem?-put_at zero k v (x ∷ xs) o e = ground arith
get_elem?-put_at (suc i) k v (x ∷ xs) o e = get_elem?-put_at i k v xs o e

-- The sub-stores before the i-th have other identifiers, and the i-th has this one.
abbrev pub IsFirst : Value → ℕ → List Fields → Type 0
IsFirst id i [] = ⊥
IsFirst id zero (x ∷ xs) = same_value (get "id" x) id ≡ true
IsFirst id (suc i) (x ∷ xs) = (same_value (get "id" x) id ≡ false) × IsFirst id i xs

find_substore-first :
    (id : Value) (i : ℕ) (xs : List Fields) → IsFirst id i xs → find_substore id xs ≡ shared i
unfolding find_substore
find_substore-first id i [] h = elim h [ ]
find_substore-first id zero (x ∷ xs) h = rw h
find_substore-first id (suc i) (x ∷ xs) h = rw (h.0, find_substore-first id i xs h.1)

still_truthy :
    (k : String) (v : Value) (o : Fields)
    → str_eq k "id" ≡ false
    → truthy (get "id" o) ≡ true
    → truthy (get "id" (put k v o)) ≡ true
still_truthy k v o h t = rw (get-put "id" k v o, h) t

save-update :
    (token : Option Token) (account : Value) (t : World) (o : Fields)
    → is_user_admin token ≡ true
    → look t.state.substore t.substores ≡ some o
    → truthy (get "id" o) ≡ true
    → handle_save_substore token account t ≡ (t, ask (Accounts.store_update o) ∷ [])
unfolding handle_save_substore
save-update token account t o admin found known = ground arith

module _ (w : World) (key : Value) (i : ℕ) (o : Fields)
    (closed : same_value w.state.show_edit (number (parse_value key)) ≡ false)
    (first : IsFirst (number (parse_value key)) i w.substores)
    (listed : get_elem? w.substores i ≡ some o) where
  opened_substore : (handle_show_edit key w).state.substore ≡ shared i
  unfolding handle_show_edit
  opened_substore = rw (closed, find_substore-first (number (parse_value key)) i w.substores first)

  opened_list : (handle_show_edit key w).substores ≡ w.substores
  unfolding handle_show_edit
  opened_list = rw closed

  changed_list :
      (k : String) (v : Value)
      → (handle_substore_change k v (handle_show_edit key w)).substores ≡ put_at i k v w.substores
  unfolding handle_substore_change
  changed_list k v = rw (opened_substore, opened_list)

  changed_substore :
      (k : String) (v : Value)
      → (handle_substore_change k v (handle_show_edit key w)).state.substore ≡ shared i
  unfolding handle_substore_change
  changed_substore k v = rw opened_substore

  changed_look :
      (k : String) (v : Value)
      → let t = handle_substore_change k v (handle_show_edit key w) in
        look t.state.substore t.substores ≡ some (put k v o)
  changed_look k v =
      rw (changed_substore k v, changed_list k v) (get_elem?-put_at i k v w.substores o listed)

-- The form of a row edits the row's own object: after the form of the i-th sub-store is opened and a
-- field other than its identifier is changed, the list of the page already holds the new object at
-- that place; saving sends this object, with PUT under its identifier, and changes nothing else; and
-- to cancel clears the form and asks for the list again, but leaves the change in the one it has.
pub edit_in_place :
    (w : World) (key : Value) (i : ℕ) (o : Fields) (k : String) (v : Value) (token : Option Token)
    (account : Value)
    → same_value w.state.show_edit (number (parse_value key)) ≡ false
    → IsFirst (number (parse_value key)) i w.substores
    → get_elem? w.substores i ≡ some o
    → truthy (get "id" o) ≡ true
    → str_eq k "id" ≡ false
    → is_user_admin token ≡ true
    → let t = handle_substore_change k v (handle_show_edit key w) in
      (t.substores ≡ put_at i k v w.substores)
      × (get_elem? t.substores i ≡ some (put k v o))
      × (handle_save_substore token account t ≡ (t, ask (Accounts.store_update (put k v o)) ∷ []))
      × ((handle_cancel_substore account t).0.substores ≡ put_at i k v w.substores)
      × ((handle_cancel_substore account t).1 ≡ refresh account ∷ [])
unfolding handle_cancel_substore
edit_in_place w key i o k v token account closed first listed known other admin =
    let t = handle_substore_change k v (handle_show_edit key w) in
    let list = changed_list w key i o closed first listed k v in
    (
      list,
      rw list (get_elem?-put_at i k v w.substores o listed),
      save-update token account t (put k v o) admin (changed_look w key i o closed first listed k v)
          (still_truthy k v o other known),
      list,
      refl,
    )
