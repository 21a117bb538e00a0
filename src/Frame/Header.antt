-- ===== src/Frame/Header.antt =====
-- webapp-admin/src/components/Header.js: the menu of the languages, and the button of the navigation.
use identity_vault.Common.{String, Bool, not, List, Option, none, some, str_eq, if◌then◌else◌}
use identity_vault.Common.Value.{Value, undefined}
use identity_vault.Messages.{Locale}
use identity_vault.Utils.{Token, translated}
use identity_vault.Navigation
use identity_vault.Navigation.{AccountMenu, UserMenu, user_menu}
use identity_vault.Startup.{Window, get_locale, set_locale, rerender}

pub record State : Type 0 where
  pub language : String

unfoldable pub opened : Window → State
unfolding get_locale
opened w = record { language = get_locale w }

-- The language is kept in the state and in the local storage, and the application rendered anew.
unfoldable pub handle_language_change : String → State → Window → State × Window
unfolding set_locale rerender
handle_language_change value s w = (record s { language = value }, rerender (set_locale value w))

abbrev pub language_name : String → Option String
language_name lang =
    if str_eq lang "en" then some "English" else if str_eq lang "zh" then some "Chinese" else none

-- The button of a language: its name, and whether it is marked as the chosen one.
unfoldable pub render_language : String → State → Option String × Bool
render_language lang s = (language_name lang, str_eq s.language lang)

-- Whether the navigation has the class `show`.
unfoldable pub handle_toggle_menu : Bool → Bool
handle_toggle_menu shown = not shown

-- What the header shows: the title, the menu of the accounts with the links, none of which is marked,
-- and the menu of the user. The buttons of the languages are commented out in the source.
unfoldable pub render :
    Locale
    → Token
    → List Value
    → Value
    → Navigation.State
    → Value × (AccountMenu × List (String × String × Value)) × (UserMenu × Bool)
unfolding Navigation.render user_menu
render lang token accounts selected_account s = (
  translated lang "title",
  Navigation.render lang token undefined accounts selected_account s,
  user_menu token,
)
