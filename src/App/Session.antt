-- ===== src/App/Session.antt =====
-- The account that is current, over everything that happens to webapp-admin/src/App.js, the menu of
-- components/Navigation.js and the pages that hand the account back: the events, and an abstract view
-- of the current account.
pub mod Saved
pub mod Picking
pub mod Refinement
pub mod FirstVisit
use identity_vault.Common.{
  ℕ, String, Bool, true, false, ◌≡◌, ◌≤◌, Option, none, some, List, [], ◌∷◌, if◌then◌else◌,
}
use identity_vault.Common.Number.{Number, pos}
use identity_vault.Common.Number
use identity_vault.Common.Value.{Value, number, prop, parse_value}
use identity_vault.Http.{JsonParse, Response, parsed}
use identity_vault.Messages.{Locale}
use identity_vault.Utils.{Token}
use identity_vault.Page.{list_of}
use identity_vault.App.{World, Pending, opened, deliver, handle_account_change}
use identity_vault.Navigation

-- What happens: a page calls `onRefresh` with the selected account, an account of the menu is clicked
-- (with its attribute `data-key`), a request is answered, or the page is loaded anew.
pub data Event : Type 0 where
  refresh : Event
  choose : Value → Event
  answer : Pending → Response → Event
  reload : Option Token → String → Event

unfoldable pub step : Locale → JsonParse → Event → World → World
unfolding handle_account_change deliver opened Navigation.handle_account_change
step lang parse refresh w = (handle_account_change w.state.selected_account w).0
step lang parse (choose key) w =
    (handle_account_change
      (Navigation.handle_account_change w.state.accounts key Navigation.initial).1 w).0
step lang parse (answer pending r) w = (deliver lang parse pending r w).0
step lang parse (reload token path) w = (opened token w.session path).0

pub run : Locale → JsonParse → List Event → World → World
run lang parse [] w = w
run lang parse (e ∷ es) w = run lang parse es (step lang parse e w)

-- The abstract view of an account.
pub record Account : Type 0 where
  pub id : ℕ
  pub code : String
  pub assertion : String
  pub reseller : Bool

-- The current account: none yet; none, and none is taken from the list either; or one.
pub data Current : Type 0 where
  fresh blocked : Current
  chosen : Account → Current

abbrev pub find_id : Number → List Account → Option Account
find_id n [] = none
find_id n (a ∷ as') = let rest = find_id n as' in if Number.same (pos a.id) n then some a else rest

abbrev pub chosen_or : Current → Option Account → Current
chosen_or c none = c
chosen_or c (some a) = chosen a

abbrev pub refreshed : Current → Current
refreshed fresh = blocked
refreshed c = c

abbrev pub first_or : Current → List Account → Current
first_or c [] = c
first_or c (a ∷ as') = chosen a

abbrev pub arrived : Current → List Account → Current
arrived fresh as' = first_or fresh as'
arrived blocked as' = blocked
arrived (chosen a) as' = chosen_or (chosen a) (find_id (pos a.id) as')

abbrev pub with_list : Current → Option (List Account) → List Account → Current × List Account
with_list c none as' = (c, as')
with_list c (some new) as' = (arrived c new, new)

-- What an event makes of the current account and of the accounts in the menu; `accounts_of` reads the
-- answers with the accounts.
pub spec :
    (Response → Option (List Account)) → Event → Current × List Account → Current × List Account
spec accounts_of refresh (c, as') = (refreshed c, as')
spec accounts_of (choose key) (c, as') = (chosen_or c (find_id (parse_value key) as'), as')
spec accounts_of (answer Pending.accounts_list r) (c, as') = with_list c (accounts_of r) as'
spec accounts_of (answer _ r) (c, as') = (c, as')
spec accounts_of (reload token path) (c, as') = (c, [])

pub spec_run :
    (Response → Option (List Account))
    → List Event
    → Current × List Account
    → Current × List Account
spec_run accounts_of [] s = s
spec_run accounts_of (e ∷ es) s = spec_run accounts_of es (spec accounts_of e s)
