-- ===== src/Examples/Session.antt =====
-- Paths, tokens, accounts, errors and the requests of the resources, at concrete inputs.
use identity_vault.Common.{
  ℕ, ◌+◌, String, true, false, ◌≡◌, refl, inl, Option, none, some, List, [], ◌∷◌, filter,
}
use identity_vault.Common.Text.{◌<>◌, starts_with}
use identity_vault.Common.Number.{pos, show}
use identity_vault.Common.Value.{
  Value, undefined, number, str, flag, object, array, fields, items, truthy, prop, same_value,
}
use identity_vault.Http.{Response, JsonParse, parsed}
use identity_vault.Messages.{en}
use identity_vault.Utils.{
  Token, section_from_path, format_error, SessionStorage, empty_session, save_account, get_account,
}
use identity_vault.Utils.Paths.{section_from_path_lem}
use identity_vault.Utils.Accounts.{HasAccount, get_account-save_account}
use identity_vault.Utils.Errors.{format_error_visible}
use identity_vault.Page.{list_of}
use identity_vault.Ajax.{ajax_get, ajax_post, ajax_put, ajax_delete}
use identity_vault.Ajax.Csrf.{CsrfServer, AllAccepted, ajax_accepted}
use identity_vault.App.{World, keypairs_of, handle_account_change, on_keypairs, initial}
use identity_vault.App.Races.{IsListed, last_answer_wins}
use identity_vault.App.Routes.{row_links}
use identity_vault.App.Pages
use identity_vault.UserList
use identity_vault.ModelPages.Overview as ModelOverview
use identity_vault.KeypairPages.Overview as KeypairOverview
use identity_vault.AccountPages.Overview as AccountOverview

section_from_path_example : section_from_path (("/" <> "models") <> "/12/edit") ≡ "models"
section_from_path_example = section_from_path_lem "models" "/12/edit" (1, refl)

abbrev token_of : ℕ → Token
token_of r = record { role = some r; name = some "sam" }

abbrev answer : String → Response
answer body = record {
  status_code = 200;
  content_type = some "application/json";
  csrf = some "abc";
  authorization = none;
  body = body;
}

abbrev off_body : Value
off_body = object (fields (("enableUserAuth", flag false) ∷ []))

abbrev parse_off : JsonParse
parse_off s = some off_body

abbrev no_decode : String → Option (Option Token)
no_decode s = none

abbrev account_of : ℕ → String → Value
account_of n code = object (
    fields (
      ("ID", number (pos n))
      ∷ ("AuthorityID", str code)
      ∷ ("Assertion", str "assertion")
      ∷ ("ResellerAPI", flag true)
      ∷ []))

account_has : HasAccount (account_of 7 "canonical") 7 "canonical" "assertion" true
unfolding prop
account_has = record { has_id = refl; has_code = refl; has_assertion = refl; has_reseller = refl }

save_account_example :
    (saved : SessionStorage) × (save_account (account_of 7 "canonical") empty_session ≡ some saved)
    × HasAccount (get_account saved) 7 "canonical" "assertion" true
save_account_example =
    get_account-save_account (account_of 7 "canonical") 7 "canonical" "assertion" true empty_session
      account_has

abbrev refusal : Value
refusal = object (fields (("error_code", str "error-auth") ∷ []))

format_error_example : truthy (format_error en refusal) ≡ true
unfolding prop
format_error_example = format_error_visible en refusal (inl refl)

-- A server that issues a new token with each answer.
abbrev counting_server : CsrfServer ℕ
counting_server = record {
  server = λ r n. (record (answer "") { csrf = some "abc" }, n + 1);
  expected = λ n. some "abc";
  issues = λ n. refl;
}

ajax_example :
    AllAccepted counting_server (ajax_get "models" []) 0
    × AllAccepted counting_server (ajax_post "models" undefined) 0
    × AllAccepted counting_server (ajax_put "models" undefined) 0
    × AllAccepted counting_server (ajax_delete "models" undefined) 0
ajax_example = ajax_accepted counting_server "models" [] undefined 0

abbrev two_accounts : List Value
two_accounts = account_of 7 "canonical" ∷ account_of 8 "generic" ∷ []

abbrev session_after : Value → SessionStorage
session_after account = elim (save_account account empty_session) [
  | none ↦ empty_session
  | some s ↦ s
]

abbrev key_of : String → Value
key_of code = object (fields (("AuthorityID", str code) ∷ []))

abbrev keys_body : Value
keys_body =
    object (fields (("keypairs", array (items (key_of "canonical" ∷ key_of "generic" ∷ []))) ∷ []))

abbrev parse_keys : JsonParse
parse_keys s = some keys_body

keys-IsListed : IsListed parse_keys (answer "") (key_of "canonical" ∷ key_of "generic" ∷ [])
unfolding parsed list_of
keys-IsListed = record { body = keys_body; whole = refl; listed = refl }

abbrev keys_world : World
keys_world = record {
  state = initial empty_session;
  session = empty_session;
  path = "/signing-keys";
}

last_answer_example :
    let a = account_of 7 "canonical" in
    let b = account_of 8 "generic" in
    let w' = (handle_account_change a keys_world).0 in
    let w'' = (handle_account_change b w').0 in
    let key_a = prop "AuthorityID" a in
    let key_b = prop "AuthorityID" b in
    let late_a =
      on_keypairs parse_keys key_a (answer "") (on_keypairs parse_keys key_b (answer "") w'') in
    let late_b =
      on_keypairs parse_keys key_b (answer "") (on_keypairs parse_keys key_a (answer "") w'') in
    let ks = key_of "canonical" ∷ key_of "generic" ∷ [] in
    ((handle_account_change a keys_world).1 ≡ keypairs_of key_a ∷ [])
    × ((handle_account_change b w').1 ≡ keypairs_of key_b ∷ [])
    × (late_a.state.keypairs ≡ filter (λ k. same_value (prop "AuthorityID" k) key_a) ks)
    × (late_a.state.selected_account ≡ b)
    × (late_b.state.keypairs ≡ filter (λ k. same_value (prop "AuthorityID" k) key_b) ks)
    × (late_b.state.selected_account ≡ b)
unfolding section_from_path save_account starts_with
last_answer_example =
    last_answer_wins parse_keys keys_world (account_of 7 "canonical") (account_of 8 "generic")
      (session_after (account_of 7 "canonical")) (session_after (account_of 8 "generic"))
      (answer "") (answer "") (key_of "canonical" ∷ key_of "generic" ∷ [])
      (key_of "canonical" ∷ key_of "generic" ∷ []) refl refl refl keys-IsListed keys-IsListed

abbrev listed_item : Value
listed_item = object (fields (("ID", number (pos 7)) ∷ ("id", number (pos 7)) ∷ []))

row_links_example :
    (prop "ID" listed_item ≡ number (pos 7)
      → same_value (number (pos 7)) (number (pos 9)) ≡ false
      → (path : String) × (UserList.render_actions (number (pos 9)) listed_item
          ≡ UserList.edit_link path)
        × (Pages.route path ≡ Pages.user_edit (show 7)))
    × (prop "id" listed_item ≡ number (pos 7)
        → same_value (number (pos 7)) (number (pos 9)) ≡ false
        → (path : String) × (ModelOverview.render_actions (number (pos 9)) listed_item
            ≡ ModelOverview.edit_link path)
          × (Pages.route path ≡ Pages.model_edit (show 7)))
    × (prop "ID" listed_item ≡ number (pos 7)
        → Pages.route (KeypairOverview.render_row listed_item).link ≡ Pages.keypair_edit (show 7))
    × (prop "ID" listed_item ≡ number (pos 7)
        → Pages.route (AccountOverview.account_row listed_item).0 ≡ Pages.account_edit (show 7))
row_links_example = row_links 7 listed_item (number (pos 9))
