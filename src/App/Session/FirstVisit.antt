-- ===== src/App/Session/FirstVisit.antt =====
-- The first visit, with an empty session storage, of webapp-admin/src/App.js.
use identity_vault.Common.{
  String, Option-cases, inl, inr, length, arith, ◌≤◌, true, ◌≡◌, refl, sym, ◌∙◌, ap, subst, Option,
  none, some, List, [], ◌∷◌,
}
use identity_vault.Common.Number.{nan}
use identity_vault.Common.Value.{Value, null, number, prop, get}
use identity_vault.Http.{JsonParse, Response}
use identity_vault.Messages.{Locale}
use identity_vault.Utils.{Token, save_account, empty_session, get_account, is_logged_in}
use identity_vault.Navigation
use identity_vault.App.{World, Pending, opened, handle_account_change, deliver}
use identity_vault.App.Session.{
  step, Event, refresh, choose, answer, reload, run, Account, Current, fresh, blocked, chosen, spec,
  spec_run, with_list,
}
use identity_vault.App.Session.Saved.{AreAccounts, IsAccountOf, IsUnset-get_account_empty}
use identity_vault.App.Session.Picking.{blocked_stays}
use identity_vault.App.Session.Refinement.{
  ListsAccounts, Represents, Reads, listed, on_accounts-listed, refresh_step, run_refines,
}

-- No account of the menu is clicked.
abbrev pub HasNoChoice : List Event → Type 0
HasNoChoice [] = Unit
HasNoChoice (choose key ∷ es) = ⊥
HasNoChoice (refresh ∷ es) = HasNoChoice es
HasNoChoice (answer p r ∷ es) = HasNoChoice es
HasNoChoice (reload token path ∷ es) = HasNoChoice es

listed_blocked :
    (o : Option (List Account)) (as' : List Account)
    → (bs : List Account) × (with_list blocked o as' ≡ (blocked, bs))
listed_blocked none as' = (as', refl)
listed_blocked (some bs) as' = (bs, refl)

still_blocked :
    (accounts_of : Response → Option (List Account)) (es : List Event) (as' : List Account)
    → HasNoChoice es
    → (spec_run accounts_of es (blocked, as')).0 ≡ blocked
unfolding spec_run spec
still_blocked accounts_of [] as' h = refl
still_blocked accounts_of (choose key ∷ es) as' h = elim h [ ]
still_blocked accounts_of (refresh ∷ es) as' h = still_blocked accounts_of es as' h
still_blocked accounts_of (answer Pending.accounts_list r ∷ es) as' h =
    let (bs, e) = listed_blocked (accounts_of r) as' in
    ap (λ p. (spec_run accounts_of es p).0) e ∙ still_blocked accounts_of es bs h
still_blocked accounts_of (answer (Pending.keypairs_of v) r ∷ es) as' h =
    still_blocked accounts_of es as' h
still_blocked accounts_of (answer (Pending.models_of v) r ∷ es) as' h =
    still_blocked accounts_of es as' h
still_blocked accounts_of (answer (Pending.substores_of v) r ∷ es) as' h =
    still_blocked accounts_of es as' h
still_blocked accounts_of (reload token path ∷ es) as' h = still_blocked accounts_of es [] h

pub opened-Represents :
    (token : Option Token) (path : String)
    → Represents (opened token empty_session path).0 (fresh, [])
unfolding opened
opened-Represents token path = record {
  current = (IsUnset-get_account_empty empty_session refl refl, refl, refl);
  offered = tt;
}

current-blocked :
    (w : World) (p : Current × List Account)
    → p.0 ≡ blocked
    → Represents w p
    → (prop "ID" w.state.selected_account ≡ number nan) × (w.session.account_code ≡ some "null")
current-blocked w (fresh, as') e h = absurd (fresh-ne-blocked e)
  where
    fresh-ne-blocked : fresh ≡ blocked → ⊥
    fresh-ne-blocked e = cc
current-blocked w (blocked, as') e h = (h.current.0.no_id, h.current.1.code)
current-blocked w (chosen a, as') e h = absurd (chosen-ne-blocked e)
  where
    chosen-ne-blocked : chosen a ≡ blocked → ⊥
    chosen-ne-blocked e = cc

-- The application after some events of a first visit.
abbrev pub visited : Locale → JsonParse → Option Token → String → List Event → World
visited lang parse token path es = run lang parse es (opened token empty_session path).0

-- The menu of the accounts, where it has a list but the selected account has no code.
unnamed_menu :
    (t : Token) (vs : List Value) (v : Value) (s : Navigation.State)
    → is_logged_in (some t) ≡ true
    → 1 ≤ length vs
    → prop "AuthorityID" v ≡ null
    → Navigation.render_accounts t vs v s ≡ Navigation.broken
unfolding Navigation.render_accounts is_logged_in
unnamed_menu t [] v s h k e = absurd (omega arith)
unnamed_menu t (x ∷ vs) v s h k e = rw (h, e) refl

-- The application when a page has called `onRefresh` first.
abbrev asked : Token → String → World
asked t path =
    let w = (opened (some t) empty_session path).0 in
    (handle_account_change w.state.selected_account w).0

asked-selected :
    (t : Token) (path : String) → (asked t path).state.selected_account ≡ get_account empty_session
unfolding opened handle_account_change save_account get_account
asked-selected t path = refl

-- The selected account stays as it is when the accounts come behind a call of `onRefresh`.
kept :
    (lang : Locale) (parse : JsonParse) (t : Token) (path : String) (r : Response) (vs : List Value)
    (as' : List Account)
    → listed parse r ≡ some vs
    → AreAccounts vs as'
    → ((visited lang parse
          (some t)
          path
          (refresh ∷ answer Pending.accounts_list r ∷ [])).state.selected_account
        ≡ get_account empty_session)
      × ((visited lang parse
            (some t)
            path
            (refresh ∷ answer Pending.accounts_list r ∷ [])).state.accounts
          ≡ vs)
unfolding run step deliver
kept lang parse t path r vs as' e k =
    let w = asked t path in
    elim (on_accounts-listed parse r w) [
      | inl (missing, _) ↦ absurd (none-ne-some (sym missing ∙ e))
      | inr (vs', found, new) ↦
          let same : vs' ≡ vs = ap (or_nil) (sym found ∙ e) in
          let (_, selected, offered) = new w.state.selected_account w.session (
            blocked_stays w.state.selected_account w.session vs' as'
              (refresh_step (opened (some t) empty_session path).0 fresh []
                (opened-Represents (some t) path)).current
              (subst (λ us. AreAccounts us as') (sym same) k)) in
          (selected ∙ asked-selected t path, offered ∙ same)
    ]
  where
    or_nil : Option (List Value) → List Value
    or_nil none = []
    or_nil (some us) = us

    none-ne-some : none ≡ some vs → ⊥
    none-ne-some h = cc

-- The answer with the accounts behind that call: the rendering of their menu throws.
menu_breaks :
    (lang : Locale) (parse : JsonParse) (t : Token) (path : String) (r : Response) (a : Account)
    (as' : List Account) (s : Navigation.State)
    → ListsAccounts (listed parse r) (some (a ∷ as'))
    → is_logged_in (some t) ≡ true
    → let w = visited lang parse (some t) path (refresh ∷ answer Pending.accounts_list r ∷ []) in
      Navigation.render_accounts t w.state.accounts w.state.selected_account s ≡ Navigation.broken
unfolding get_account prop get
menu_breaks lang parse t path r a as' s k h = elim (Option-cases (listed parse r)) [
  | inl missing ↦ elim (subst (λ o. ListsAccounts o (some (a ∷ as'))) missing k) [ ]
  | inr (vs, found) ↦
      let these = subst (λ o. ListsAccounts o (some (a ∷ as'))) found k in
      let (selected, offered) = kept lang parse t path r vs (a ∷ as') found these in
      rw (selected, offered)
        (unnamed_menu t vs (get_account empty_session) s h (some_value vs these) refl)
]
  where
    some_value : (vs : List Value) → AreAccounts vs (a ∷ as') → 1 ≤ length vs
    some_value [] i = elim i [ ]
    some_value (v ∷ vs) i = omega arith

-- With an empty session storage: if the list of the accounts is the first to come, its first account
-- is selected. But if a page calls `onRefresh` before that, as the list of the signing keys does when
-- it is put in place, the rendering of the menu throws when the accounts come, and no account is
-- selected by anything that follows, lists of accounts and reloads of the page included, until one of
-- the menu is clicked; the session holds the code "null". The user is logged in, and the list is not empty.
pub first_visit :
    (lang : Locale) (parse : JsonParse) (accounts_of : Response → Option (List Account)) (t : Token)
    (path : String) (r : Response) (a : Account) (as' : List Account) (es : List Event)
    (s : Navigation.State)
    → Reads parse accounts_of
    → accounts_of r ≡ some (a ∷ as')
    → HasNoChoice es
    → is_logged_in (some t) ≡ true
    → let first = visited lang parse (some t) path (answer Pending.accounts_list r ∷ []) in
      let behind =
        visited lang parse (some t) path (refresh ∷ answer Pending.accounts_list r ∷ []) in
      let later = visited lang parse (some t) path (refresh ∷ es) in
      IsAccountOf first.state.selected_account a
      × (Navigation.render_accounts t behind.state.accounts behind.state.selected_account s
          ≡ Navigation.broken)
      × (prop "ID" later.state.selected_account ≡ number nan)
      × (later.session.account_code ≡ some "null")
unfolding spec_run spec
first_visit lang parse accounts_of t path r a as' es s k e free h =
    let first =
      run_refines lang parse accounts_of (answer Pending.accounts_list r ∷ []) _ fresh [] k
        (opened-Represents (some t) path) in
    let later = current-blocked _ _ (still_blocked accounts_of es [] free) (
      run_refines lang parse accounts_of (refresh ∷ es) _ fresh [] k
        (opened-Represents (some t) path)) in
    let read = subst (ListsAccounts (listed parse r)) e (k r) in
    ((rw e at (first.current)).0, menu_breaks lang parse t path r a as' s read h, later.0, later.1)
