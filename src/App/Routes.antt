-- ===== src/App/Routes.antt =====
-- The links in the rows of the lists, and the pages of webapp-admin/src/App.js.
use text.Mathlib.TextLemmas.{append_assoc}
use identity_vault.Common.{ℕ, String, false, ◌≡◌, refl, sym, ap, ◌∙◌, ◌≢◌, arith, str_eq, eq_iff}
use identity_vault.Common.Text.{◌<>◌}
use identity_vault.Common.Number.{pos, show, show_number}
use identity_vault.Common.Number.Laws.{show-Lacks, show-ne-word, show-ne-nil}
use identity_vault.Common.Value.{Value, number, prop, same_value, to_text}
use identity_vault.Utils.{section_from_path}
use identity_vault.Utils.Paths.{
  IsSection, section_from_path_lem, section_id_from_path_end, section_id_from_path_more,
  sub_section_id_from_path_end,
}
use identity_vault.App.Pages.{
  user_edit, model_edit, keypair_edit, account_edit, route, render_users, render_models,
  render_keypairs, render_accounts,
}
use identity_vault.UserList
use identity_vault.ModelPages.Overview as ModelOverview
use identity_vault.KeypairPages.Overview as KeypairOverview
use identity_vault.AccountPages.Overview as AccountOverview

-- A text is none of the words that an identifier is compared with.
ne_eq : (a b : String) → a ≢ b → str_eq a b ≡ false
ne_eq a b h = ground (arith, eq_iff a b)

-- A path under a section, with the slash apart.
under : (s x : String) → ("/" <> s) <> "/" <> x ≡ "/" <> s <> "/" <> x
under s x = append_assoc "/" s ("/" <> x)

section_of : (s x : String) → IsSection s → section_from_path ("/" <> s <> "/" <> x) ≡ s
section_of s x i = ap section_from_path (sym (under s x)) ∙ section_from_path_lem s ("/" <> x) i

route_user : (n : ℕ) → route ("/users/" <> show n <> "/edit") ≡ user_edit (show n)
unfolding route render_users
route_user n =
    let id : String = show n in
    let e : "/users/" <> id <> "/edit" ≡ "/" <> "users" <> "/" <> id <> "/edit" =
      append_assoc "/users" "/" (id <> "/edit") ∙ under "users" (id <> "/edit") in
    rw (
      e,
      section_of "users" (id <> "/edit") (7, refl),
      section_id_from_path_more "users" id "edit" (omega arith) (show-Lacks b'/' n (omega arith)),
      ne_eq id "new" (show-ne-word n "n" "ew" refl),
      ne_eq id "" (show-ne-nil n),
    )

route_model : (n : ℕ) → route ("/models/" <> show n <> "/edit") ≡ model_edit (show n)
unfolding route render_models
route_model n =
    let id : String = show n in
    let e : "/models/" <> id <> "/edit" ≡ "/" <> "models" <> "/" <> id <> "/edit" =
      append_assoc "/models" "/" (id <> "/edit") ∙ under "models" (id <> "/edit") in
    rw (
      e,
      section_of "models" (id <> "/edit") (1, refl),
      section_id_from_path_more "models" id "edit" (omega arith) (show-Lacks b'/' n (omega arith)),
      ne_eq id "new" (show-ne-word n "n" "ew" refl),
      ne_eq id "" (show-ne-nil n),
    )

route_keypair : (n : ℕ) → route ("/signing-keys/" <> show n) ≡ keypair_edit (show n)
unfolding route render_keypairs
route_keypair n =
    let id : String = show n in
    let e : "/signing-keys/" <> id ≡ "/" <> "signing-keys" <> "/" <> id =
      append_assoc "/signing-keys" "/" id ∙ under "signing-keys" id in
    rw (
      e,
      section_of "signing-keys" id (0, refl),
      section_id_from_path_end "signing-keys" id (omega arith) (show-Lacks b'/' n (omega arith)),
      ne_eq id "generate" (show-ne-word n "g" "enerate" refl),
      ne_eq id "new" (show-ne-word n "n" "ew" refl),
      ne_eq id "" (show-ne-nil n),
      ne_eq id "store" (show-ne-word n "s" "tore" refl),
    )

route_account : (n : ℕ) → route ("/accounts/account/" <> show n) ≡ account_edit (show n)
unfolding route render_accounts
route_account n =
    let id : String = show n in
    let rest : String = "account" <> "/" <> id in
    let e : "/accounts/account/" <> id ≡ "/" <> "accounts" <> "/" <> "account" <> "/" <> id =
      append_assoc "/accounts/account" "/" id
      ∙ append_assoc "/accounts" "/account" ("/" <> id)
      ∙ ap (λ r. "/accounts" <> r) (append_assoc "/" "account" ("/" <> id))
      ∙ under "accounts" ("account" <> "/" <> id) in
    rw (
      e,
      section_of "accounts" ("account" <> "/" <> id) (3, refl),
      section_id_from_path_more "accounts" "account" id (omega arith) (omega arith),
      sub_section_id_from_path_end "accounts" "account" id (omega arith) (omega arith)
          (show-Lacks b'/' n (omega arith)),
    )

-- The link in a row of each of the four lists leads to the form of that row: for a user, a model, a
-- key or an account whose identifier is a number, and for a user or a model that is not about to be
-- deleted, the link's path is routed to the form with this very identifier.
pub row_links :
    (n : ℕ) (item confirm_delete : Value)
    → (prop "ID" item ≡ number (pos n)
        → same_value (number (pos n)) confirm_delete ≡ false
        → (path : String) × (UserList.render_actions confirm_delete item ≡ UserList.edit_link path)
          × (route path ≡ user_edit (show n)))
      × (prop "id" item ≡ number (pos n)
          → same_value (number (pos n)) confirm_delete ≡ false
          → (path : String) × (ModelOverview.render_actions confirm_delete item
              ≡ ModelOverview.edit_link path)
            × (route path ≡ model_edit (show n)))
      × (prop "ID" item ≡ number (pos n)
          → route (KeypairOverview.render_row item).link ≡ keypair_edit (show n))
      × (prop "ID" item ≡ number (pos n)
          → route (AccountOverview.account_row item).0 ≡ account_edit (show n))
unfolding UserList.render_actions ModelOverview.render_actions KeypairOverview.render_row
    AccountOverview.account_row to_text show_number
row_links n item confirm_delete = (
  λ e other. ("/users/" <> show n <> "/edit", rw (e, other), route_user n),
  λ e other. ("/models/" <> show n <> "/edit", rw (e, other), route_model n),
  λ e. rw e (route_keypair n),
  λ e. rw e (route_account n),
)
