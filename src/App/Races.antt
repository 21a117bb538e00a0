-- ===== src/App/Races.antt =====
-- The answers to two account changes in webapp-admin/src/App.js.
use identity_vault.Common.{String, ◌≡◌, refl, ap, ◌∙◌, some, List, [], ◌∷◌, filter}
use identity_vault.Common.Value.{Value, prop, same_value}
use identity_vault.Http.{JsonParse, Response, parsed}
use identity_vault.Utils.{section_from_path, save_account, SessionStorage}
use identity_vault.Page.{list_of}
use identity_vault.App.{
  World, keypairs_of, handle_account_change, on_keypairs, update_data_for_route,
}

-- An answer that lists keys.
pub record IsListed (parse : JsonParse) (response : Response) (ks : List Value) : Type 0 where
  pub body : Value
  pub whole : parsed parse response ≡ some body
  pub listed : list_of "keypairs" body ≡ some ks

on_keypairs-state :
    (parse : JsonParse) (authority : Value) (response : Response) (ks : List Value) (w : World)
    → IsListed parse response ks
    → ((on_keypairs parse authority response w).state.keypairs
        ≡ filter (λ k. same_value (prop "AuthorityID" k) authority) ks)
      × ((on_keypairs parse authority response w).state.selected_account ≡ w.state.selected_account)
unfolding on_keypairs
on_keypairs-state parse authority response ks w h =
    (rw (h.whole, on_keypairs, h.listed) refl, rw (h.whole, on_keypairs, h.listed) refl)

update-signing_keys :
    (path : String) (account : Value)
    → section_from_path path ≡ "signing-keys"
    → update_data_for_route path account ≡ keypairs_of (prop "AuthorityID" account) ∷ []
unfolding update_data_for_route
update-signing_keys path account e = rw e

changed :
    (account : Value) (w : World) (session : SessionStorage)
    → save_account account w.session ≡ some session
    → ((handle_account_change account w).0.state.selected_account ≡ account)
      × ((handle_account_change account w).0.path ≡ w.path)
      × ((handle_account_change account w).0.session ≡ session)
      × ((handle_account_change account w).1 ≡ update_data_for_route w.path account)
unfolding handle_account_change
changed account w session e = (
  rw (e, handle_account_change) refl,
  rw (e, handle_account_change) refl,
  rw (e, handle_account_change) refl,
  rw (e, handle_account_change) refl,
)

-- On the page of the signing keys the account is changed to `a` and then to `b`. Both changes ask for
-- keys at once. If the answer for `a` comes last, the page shows the keys of `a`'s authority, all of
-- those answered and no other, while `b` is selected; if the answer for `b` comes last, those of
-- `b`'s. The application does not see which answer is the one to its newest request.
pub last_answer_wins :
    (parse : JsonParse) (w : World) (a b : Value) (sa sb : SessionStorage) (ra rb : Response)
    (ksa ksb : List Value)
    → section_from_path w.path ≡ "signing-keys"
    → save_account a w.session ≡ some sa
    → save_account b sa ≡ some sb
    → IsListed parse ra ksa
    → IsListed parse rb ksb
    → let w' = (handle_account_change a w).0 in
      let w'' = (handle_account_change b w').0 in
      let key_a = prop "AuthorityID" a in
      let key_b = prop "AuthorityID" b in
      let late_a = on_keypairs parse key_a ra (on_keypairs parse key_b rb w'') in
      let late_b = on_keypairs parse key_b rb (on_keypairs parse key_a ra w'') in
      ((handle_account_change a w).1 ≡ keypairs_of key_a ∷ [])
      × ((handle_account_change b w').1 ≡ keypairs_of key_b ∷ [])
      × (late_a.state.keypairs ≡ filter (λ k. same_value (prop "AuthorityID" k) key_a) ksa)
      × (late_a.state.selected_account ≡ b)
      × (late_b.state.keypairs ≡ filter (λ k. same_value (prop "AuthorityID" k) key_b) ksb)
      × (late_b.state.selected_account ≡ b)
last_answer_wins parse w a b sa sb ra rb ksa ksb page e f ha hb =
    let w' = (handle_account_change a w).0 in
    let w'' = (handle_account_change b w').0 in
    let key_a = prop "AuthorityID" a in
    let key_b = prop "AuthorityID" b in
    let (_, path_a, session_a, asked_a) = changed a w sa e in
    let (selected_b, _, _, asked_b) = changed b w' sb (rw session_a f) in
    let (keys_ab, kept_ab) =
      on_keypairs-state parse key_a ra ksa (on_keypairs parse key_b rb w'') ha in
    let (keys_ba, kept_ba) =
      on_keypairs-state parse key_b rb ksb (on_keypairs parse key_a ra w'') hb in
    (
      asked_a ∙ update-signing_keys w.path a page,
      asked_b ∙ update-signing_keys w'.path b (ap section_from_path path_a ∙ page),
      keys_ab,
      kept_ab ∙ (on_keypairs-state parse key_b rb ksb w'' hb).1 ∙ selected_b,
      keys_ba,
      kept_ba ∙ (on_keypairs-state parse key_a ra ksa w'' ha).1 ∙ selected_b,
    )
