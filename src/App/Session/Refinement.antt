-- ===== src/App/Session/Refinement.antt =====
-- The account of webapp-admin/src/App.js and of the session storage beside the abstract current account.
use identity_vault.Common.{
  String, ◌≡◌, refl, subst, ◌⊎◌, inl, inr, Option, none, some, List, [], ◌∷◌, arith, filter,
  Option-cases,
}
use identity_vault.Common.Value.{Value, number, prop, parse_value, same_value}
use identity_vault.Http.{JsonParse, Response, parsed}
use identity_vault.Messages.{Locale}
use identity_vault.Utils.{Token, SessionStorage, save_account}
use identity_vault.Page.{list_of}
use identity_vault.App.{
  World, Pending, opened, deliver, handle_account_change, pick_account, on_accounts, on_keypairs,
  on_models, on_substores,
}
use identity_vault.Navigation
use identity_vault.Navigation.{first_of_list}
use identity_vault.App.Session.{
  Event, refresh, choose, answer, reload, step, run, Account, Current, fresh, blocked, chosen,
  find_id, chosen_or, refreshed, with_list, spec, spec_run,
}
use identity_vault.App.Session.Saved.{
  AreAccounts, IsCurrent, IsAccountOf, saved_account, saved_unset, IsUnset-get_account_blank,
  IsUnset-get_account_empty,
}
use identity_vault.App.Session.Picking.{Picks, first_filter, menu_id, picks}

pub record Represents (w : World) (r : Current × List Account) : Type 0 where
  pub current : IsCurrent w.state.selected_account w.session r.0
  pub offered : AreAccounts w.state.accounts r.1

-- The accounts that an answer lists, for the application; `none` where its callback throws.
abbrev pub listed : JsonParse → Response → Option (List Value)
listed parse r = elim (parsed parse r) [ none ↦ none | some d ↦ list_of "accounts" d ]

abbrev pub ListsAccounts : Option (List Value) → Option (List Account) → Type 0
ListsAccounts none none = Unit
ListsAccounts (some vs) (some as') = AreAccounts vs as'
ListsAccounts _ _ = ⊥

changed_world :
    (v : Value) (w : World) (session : SessionStorage)
    → save_account v w.session ≡ some session
    → (handle_account_change v w).0
      ≡ record w { session = session; state = record (w.state) { selected_account = v } }
unfolding handle_account_change
changed_world v w session e = rw (handle_account_change, e) refl

pub refresh_step :
    (w : World) (c : Current) (as' : List Account)
    → Represents w (c, as')
    → Represents (handle_account_change w.state.selected_account w).0 (refreshed c, as')
refresh_step w fresh as' h =
    let (session, e, b) = saved_unset w.state.selected_account w.session h.current.0 in
    rw (changed_world w.state.selected_account w session e)
      (record { current = (h.current.0, b); offered = h.offered })
refresh_step w blocked as' h =
    let (session, e, b) = saved_unset w.state.selected_account w.session h.current.0 in
    rw (changed_world w.state.selected_account w session e)
      (record { current = (h.current.0, b); offered = h.offered })
refresh_step w (chosen a) as' h =
    let (session, e, b) = saved_account w.state.selected_account a w.session h.current.0 in
    rw (changed_world w.state.selected_account w session e)
      (record { current = (h.current.0, b); offered = h.offered })

-- The account that the menu hands over.
abbrev clicked : Value → List Value → Value
clicked key accounts =
    first_of_list (filter (λ a. same_value (prop "ID" a) (number (parse_value key))) accounts)

choose_step :
    (key : Value) (w : World) (c : Current) (as' : List Account)
    → Represents w (c, as')
    → Represents
        (handle_account_change (clicked key w.state.accounts) w).0
        (chosen_or c (find_id (parse_value key) as'), as')
unfolding handle_account_change save_account
choose_step key w c as' h =
    elim (first_filter (λ a. same_value (prop "ID" a) (number (parse_value key))) (parse_value key)
      (menu_id (parse_value key)) w.state.accounts as' h.offered) [
        | inl (nobody, missing) ↦ rw (nobody, missing) h
        | inr (x, rest, b, first, found, is_b) ↦ rw (first, found) (taken x b is_b)
      ]
  where
    taken :
        (x : Value) (b : Account)
        → IsAccountOf x b
        → Represents (handle_account_change x w).0 (chosen b, as')
    taken x b is_b =
        let (session, e, i) = saved_account x b w.session is_b in
        rw (changed_world x w session e) (record { current = (is_b, i); offered = h.offered })

-- The callback of the accounts by what its answer lists.
pub on_accounts-listed :
    (parse : JsonParse) (r : Response) (w : World)
    → ((listed parse r ≡ none) × ((on_accounts parse r w).0 ≡ w))
      ⊎ ((vs : List Value) × (listed parse r ≡ some vs)
          × ((v : Value) (s : SessionStorage)
              → pick_account w.state.selected_account w.session vs ≡ some (v, s)
              → ((on_accounts parse r w).0.session ≡ s)
                × ((on_accounts parse r w).0.state.selected_account ≡ v)
                × ((on_accounts parse r w).0.state.accounts ≡ vs)))
unfolding on_accounts
on_accounts-listed parse r w = elim (Option-cases (parsed parse r)) [
  | inl broken ↦ inl (rw (broken, listed) refl, rw (on_accounts, broken) refl)
  | inr (d, whole) ↦ elim (Option-cases (list_of "accounts" d)) [
    | inl missing ↦ inl (rw (whole, listed, missing) refl, rw (on_accounts, whole, missing) refl)
    | inr (vs, found) ↦ inr (
      vs,
      rw (whole, listed, found) refl,
      λ v s e. (
        rw (on_accounts, whole, found, e) refl,
        rw (on_accounts, whole, found, e) refl,
        rw (on_accounts, whole, found, e) refl,
      ),
    )
  ]
]

accounts_step :
    (parse : JsonParse) (r : Response) (read : Option (List Account)) (w : World) (c : Current)
    (as' : List Account)
    → ListsAccounts (listed parse r) read
    → Represents w (c, as')
    → Represents (on_accounts parse r w).0 (with_list c read as')
unfolding Picks
accounts_step parse r read w c as' k h = elim (on_accounts-listed parse r w) [
  | inl (missing, same) ↦ unread read (subst (λ o. ListsAccounts o read) missing k) same
  | inr (vs, found, new) ↦ new_list vs new read (subst (λ o. ListsAccounts o read) found k)
]
  where
    unread :
        (read : Option (List Account))
        → ListsAccounts none read
        → (on_accounts parse r w).0 ≡ w
        → Represents (on_accounts parse r w).0 (with_list c read as')
    unread none k e = rw e h
    unread (some xs) k e = elim k [ ]

    new_list :
        (vs : List Value)
        → ((v : Value) (s : SessionStorage)
            → pick_account w.state.selected_account w.session vs ≡ some (v, s)
            → ((on_accounts parse r w).0.session ≡ s)
              × ((on_accounts parse r w).0.state.selected_account ≡ v)
              × ((on_accounts parse r w).0.state.accounts ≡ vs))
        → (read : Option (List Account)) → ListsAccounts (some vs) read
        → Represents (on_accounts parse r w).0 (with_list c read as')
    new_list vs new none k = elim k [ ]
    new_list vs new (some xs) k =
        let (v', s', e, i) = picks w.state.selected_account w.session c vs xs h.current k in
        let (kept, selected, offered) = new v' s' e in
        record { current = rw (kept, selected) i; offered = rw offered k }

-- The other answers leave the accounts, the selection and the session alone.
other_answers :
    (lang : Locale) (parse : JsonParse) (authority : Value) (r : Response) (w : World)
    (p : Current × List Account)
    → Represents w p
    → Represents (on_keypairs parse authority r w) p
      × Represents (on_models parse authority r w) p
      × Represents (on_substores lang parse r w) p
unfolding on_keypairs on_models on_substores
other_answers lang parse authority r w p h = (
  record { current = ground (arith, h.current); offered = ground (arith, h.offered) },
  record { current = ground (arith, h.current); offered = ground (arith, h.offered) },
  record { current = ground (arith, h.current); offered = ground (arith, h.offered) },
)

reload_step :
    (token : Option Token) (path : String) (w : World) (c : Current) (as' : List Account)
    → Represents w (c, as')
    → Represents (opened token w.session path).0 (c, [])
unfolding opened
reload_step token path w fresh as' h = record {
  current = (IsUnset-get_account_empty w.session h.current.1 h.current.2, h.current.1, h.current.2);
  offered = tt;
}
reload_step token path w blocked as' h = record {
  current = (IsUnset-get_account_blank w.session h.current.1, h.current.1);
  offered = tt;
}
reload_step token path w (chosen a) as' h = record {
  current = (h.current.1, h.current.1);
  offered = tt;
}

-- How the accounts of an answer are read: where the application finds a list, as these accounts.
abbrev pub Reads : JsonParse → (Response → Option (List Account)) → Type 0
Reads parse accounts_of = (r : Response) → ListsAccounts (listed parse r) (accounts_of r)

step-Represents :
    (lang : Locale) (parse : JsonParse) (accounts_of : Response → Option (List Account)) (e : Event)
    (w : World) (c : Current) (as' : List Account)
    → Reads parse accounts_of
    → Represents w (c, as')
    → Represents (step lang parse e w) (spec accounts_of e (c, as'))
unfolding step spec deliver Navigation.handle_account_change
step-Represents lang parse accounts_of refresh w c as' k h = refresh_step w c as' h
step-Represents lang parse accounts_of (choose key) w c as' k h = choose_step key w c as' h
step-Represents lang parse accounts_of (answer Pending.accounts_list r) w c as' k h =
    accounts_step parse r (accounts_of r) w c as' (k r) h
step-Represents lang parse accounts_of (answer (Pending.keypairs_of v) r) w c as' k h =
    (other_answers lang parse v r w (c, as') h).0
step-Represents lang parse accounts_of (answer (Pending.models_of v) r) w c as' k h =
    (other_answers lang parse v r w (c, as') h).1
step-Represents lang parse accounts_of (answer (Pending.substores_of v) r) w c as' k h =
    (other_answers lang parse v r w (c, as') h).2
step-Represents lang parse accounts_of (reload token path) w c as' k h =
    reload_step token path w c as' h

-- Over any events in any order, the application follows the abstract current account: the selected
-- account and the one that the session storage would give after a reload are both the account that the
-- abstract steps arrive at, and the menu offers the accounts of the newest list. It is assumed that
-- each answer with accounts lists objects with a positive number, two texts and a flag.
pub run_refines :
    (lang : Locale) (parse : JsonParse) (accounts_of : Response → Option (List Account))
    (es : List Event) (w : World) (c : Current) (as' : List Account)
    → Reads parse accounts_of
    → Represents w (c, as')
    → Represents (run lang parse es w) (spec_run accounts_of es (c, as'))
unfolding run spec_run
run_refines lang parse accounts_of [] w c as' k h = h
run_refines lang parse accounts_of (e ∷ es) w c as' k h =
    let p = spec accounts_of e (c, as') in
    run_refines lang parse accounts_of es (step lang parse e w) p.0 p.1 k
      (step-Represents lang parse accounts_of e w c as' k h)
