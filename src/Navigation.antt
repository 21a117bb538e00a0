-- ===== src/Navigation.antt =====
-- webapp-admin/src/components/Navigation.js, NavigationUser.js, NavigationSubmenu.js and Index.js: the
-- menus, and the page that has the button to log in.
pub mod Access
use identity_vault.Common.{
  ℕ, String, Bool, true, false, not, Option, none, some, List, [], ◌∷◌, map, filter, str_eq, ltb,
  ◌==◌, if◌then◌else◌,
}
use identity_vault.Common.Text.{◌<>◌, length, slice_to}
use identity_vault.Common.Value.{Value, undefined, null, str, number, same_value, prop, parse_value}
use identity_vault.Messages.{Locale}
use identity_vault.Utils.{
  Token, standard, admin, superuser, level, is_set, translated, translate, is_logged_in,
}

abbrev pub links_superuser : List String
links_superuser = "accounts" ∷ "signing-keys" ∷ "models" ∷ "signinglog" ∷ "users" ∷ []

abbrev pub links_admin : List String
links_admin = "signing-keys" ∷ "models" ∷ "signinglog" ∷ []

abbrev pub links_standard : List String
links_standard = "systemuser" ∷ []

abbrev pub links_for : Option ℕ → List String
links_for none = []
links_for (some r) =
    if r == level admin
    then links_admin
    else if r == level superuser
    then links_superuser
    else if r == level standard
    then links_standard
    else []

-- The `switch` of `render`: the sections that the menu links to.
unfoldable pub links : Token → List String
links token = links_for token.role

pub record State : Type 0 where
  pub account_menu : Bool

abbrev pub initial : State
initial = record { account_menu = false }

unfoldable pub handle_account_menu : State → State
handle_account_menu s = record { account_menu = not s.account_menu }

abbrev pub first_of_list : List Value → Value
first_of_list [] = undefined
first_of_list (a ∷ as') = a

-- `handleAccountChange`: the new state, and the account that the owner is told of.
unfoldable pub handle_account_change : List Value → Value → State → State × Value
unfolding handle_account_menu parse_value same_value prop
handle_account_change accounts data_key s = (
  handle_account_menu s,
  first_of_list (filter (λ a. same_value (prop "ID" a) (number (parse_value data_key))) accounts),
)

-- A long name is cut.
unfoldable pub shown_name : String → String
unfolding length slice_to
shown_name name = if ltb 20 (length name) then slice_to 20 name <> "..." else name

-- `renderAccounts`: the menu of the accounts, for a token that is logged in where there are accounts;
-- its name, and the identifiers and codes of the accounts where it is open. `broken` stands for the
-- exception of a selected account without a code.
pub data AccountMenu : Type 0 where
  hidden broken : AccountMenu
  menu : Value → Option (List (Value × Value)) → AccountMenu

abbrev menu_items : Bool → List Value → Option (List (Value × Value))
menu_items false accounts = none
menu_items true accounts = some (map (λ a. (prop "ID" a, prop "AuthorityID" a)) accounts)

abbrev named_menu : Value → Option (List (Value × Value)) → AccountMenu
named_menu undefined items = broken
named_menu null items = broken
named_menu (str name) items = menu (str (shown_name name)) items
named_menu v items = menu v items

abbrev listed_menu : State → Value → List Value → AccountMenu
listed_menu s selected_account [] = hidden
listed_menu s selected_account (a ∷ as') =
    named_menu (prop "AuthorityID" selected_account) (menu_items s.account_menu (a ∷ as'))

unfoldable pub render_accounts : Token → List Value → Value → State → AccountMenu
unfolding is_logged_in prop shown_name
render_accounts token accounts selected_account s =
    if is_logged_in (some token) then listed_menu s selected_account accounts else hidden

-- `render`: the menu of the accounts, and the path, class and text of each link.
unfoldable pub render :
    Locale
    → Token
    → Value
    → List Value
    → Value
    → State
    → AccountMenu × List (String × String × Value)
unfolding render_accounts links translate same_value
render lang token active accounts selected_account s = (
  render_accounts token accounts selected_account s,
  map
      (λ l. (
        "/" <> l,
        "p-navigation__link" <> (if same_value active (str l) then " active" else ""),
        translated lang l,
      ))
      (links token),
)

-- NavigationUser: the name, or the link to log in, and whether there is a link to log out.
pub data UserMenu : Type 0 where
  nothing : UserMenu
  login_link : UserMenu
  named : String → UserMenu

abbrev named_or_nothing : Option String → UserMenu
named_or_nothing none = nothing
named_or_nothing (some name) = if is_set (some name) then named name else nothing

unfoldable pub render_user : Token → UserMenu
unfolding is_logged_in
render_user token = if is_logged_in (some token) then named_or_nothing token.name else login_link

unfoldable pub render_user_logout : Token → Bool
unfolding is_logged_in
render_user_logout token = if is_logged_in (some token) then is_set token.name else false

-- NavigationUser's `render`, its two parts side by side.
unfoldable pub user_menu : Token → UserMenu × Bool
unfolding render_user render_user_logout
user_menu token = (render_user token, render_user_logout token)

-- NavigationSubmenu: the path, the text and whether it is the selected one, for each item.
unfoldable pub submenu : Locale → List String → String → List (String × Value × Bool)
unfolding translate
submenu lang items selected =
    map (λ item. ("/" <> item, translated lang item, str_eq item selected)) items

-- Index: the error, if any, and whether the button to log in is there.
unfoldable pub index : Locale → Option Token → Bool → Option Value × Bool
unfolding is_logged_in translate
index lang token error =
    (if error then some (translated lang "user-not-found") else none, not (is_logged_in token))
