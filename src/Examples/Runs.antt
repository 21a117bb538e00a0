-- ===== src/Examples/Runs.antt =====
-- Runs over several events at concrete inputs: pages turned, the polling, the session, the language,
-- and the requests at the routes of the server.
use identity_vault.Common.{
  ℕ, ◌≤◌, ◌<◌, String, true, ◌≡◌, refl, ◌⊎◌, Option, none, some, List, [], ◌∷◌, arith,
}
use identity_vault.Common.Number.{nan, pos}
use identity_vault.Common.Value.{
  Value, Fields, number, str, flag, object, fields, array, items, prop,
}
use identity_vault.Http.{JsonParse, Response, parsed}
use identity_vault.Messages.{en}
use identity_vault.Page.{list_of}
use identity_vault.Utils.{Token, empty_session, is_logged_in}
use identity_vault.Navigation
use identity_vault.Pagination
use identity_vault.Pagination.{Props, page_up, page_down}
use identity_vault.Pagination.Bounds.{pages_of}
use identity_vault.Pagination.Turning.{IsSettled, click_up, clicks, turning_ends}
use identity_vault.Pagination.Shown.{View, Shows, turns, log_shown}
use identity_vault.KeypairPages.Status
use identity_vault.KeypairPages.Status.{on_status}
use identity_vault.KeypairPages.Polling.{IsLive, IsShown, polling_lives}
use identity_vault.App.{Pending, opened}
use identity_vault.App.Session.{
  Event, Account, fresh, refresh, choose, answer, reload, run, spec_run,
}
use identity_vault.App.Session.Saved.{IsAccountOf}
use identity_vault.App.Session.Refinement.{Represents, Reads, run_refines}
use identity_vault.App.Session.FirstVisit.{visited, first_visit, opened-Represents}
use identity_vault.Startup.{started, on_token}
use identity_vault.Frame.Language.{IsInLanguage, Reach-IsInLanguage}
use identity_vault.Frame.Language
use identity_vault.Server.Matching.{Mux, first_fit}

abbrev logs : Props
logs = record { total_logs = 120; query = ""; filter_string = "" }

abbrev first_page : Pagination.State
first_page = record { page = 1; max_records = 50 }

first_page-IsSettled : IsSettled logs first_page
unfolding Pagination.calculate_pages
first_page-IsSettled = record {
  valid = record { size = refl; positive = omega arith };
  exists = omega arith;
}

abbrev first_rows : View
first_rows = record { paging = first_page; offset = pos 0 }

log_shown_example :
    (n : ℕ) × (n < pages_of logs first_page)
    × (Shows (turns page_up n logs first_rows) 119 ⊎ Shows (turns page_down n logs first_rows) 119)
log_shown_example = log_shown logs first_rows 119 first_page-IsSettled refl (omega arith)

turning_ends_example : (clicks click_up 5 logs first_page).page ≡ pages_of logs first_page
unfolding Pagination.calculate_pages
turning_ends_example = turning_ends logs first_page 5 first_page-IsSettled (omega arith)

abbrev response : Response
response = record {
  status_code = 200;
  content_type = some "application/json";
  csrf = none;
  authorization = none;
  body = "";
}

abbrev no_json : JsonParse
no_json s = none

-- The first answer cannot be read.
polling_lives_example :
    let t = on_status no_json response Status.opened in
    (IsLive t × ((u : Status.State) × Status.Step no_json t u))
    ⊎ ((r : Response) × ¬ IsShown no_json r
        × (t ≡ on_status no_json r Status.opened)
        × ¬ ((u : Status.State) × Status.Step no_json t u))
polling_lives_example = polling_lives Status.here (Status.answer response (omega arith))

abbrev account_value : ℕ → String → Value
account_value n code = object (
    fields (
      ("ID", number (pos n))
      ∷ ("AuthorityID", str code)
      ∷ ("Assertion", str "assertion")
      ∷ ("ResellerAPI", flag true)
      ∷ []))

abbrev account : ℕ → String → Account
account n code = record { id = n; code = code; assertion = "assertion"; reseller = true }

abbrev parse_accounts : JsonParse
parse_accounts s = some (
    object (
      fields (
        ("accounts", array (items (account_value 7 "canonical" ∷ account_value 8 "generic" ∷ [])))
        ∷ [])))

abbrev accounts_of : Response → Option (List Account)
accounts_of r = some (account 7 "canonical" ∷ account 8 "generic" ∷ [])

account-IsAccountOf :
    (n : ℕ) (code : String) → 1 ≤ n → IsAccountOf (account_value n code) (account n code)
unfolding prop
account-IsAccountOf n code h = record {
  has = record { has_id = refl; has_code = refl; has_assertion = refl; has_reseller = refl };
  positive = h;
}

parse_accounts-Reads : Reads parse_accounts accounts_of
unfolding parsed list_of
parse_accounts-Reads r = (
  account-IsAccountOf 7 "canonical" (omega arith),
  (account-IsAccountOf 8 "generic" (omega arith), tt),
)

abbrev choosing : List Event
choosing =
    answer Pending.accounts_list response
    ∷ choose (str "8")
    ∷ reload none "/models"
    ∷ answer Pending.accounts_list response
    ∷ []

run_refines_example :
    Represents
      (run en parse_accounts choosing (opened none empty_session "/accounts").0)
      (spec_run accounts_of choosing (fresh, []))
run_refines_example =
    run_refines en parse_accounts accounts_of choosing (opened none empty_session "/accounts").0
      fresh [] parse_accounts-Reads (opened-Represents none "/accounts")

abbrev quiet : List Event
quiet =
    answer Pending.accounts_list response
    ∷ reload none "/models"
    ∷ answer Pending.accounts_list response
    ∷ []

abbrev admin_token : Token
admin_token = record { name = some "ann"; role = some 200 }

first_visit_example :
    let first =
      visited en parse_accounts
        (some admin_token)
        "/signing-keys"
        (answer Pending.accounts_list response ∷ []) in
    let behind =
      visited en parse_accounts
        (some admin_token)
        "/signing-keys"
        (refresh ∷ answer Pending.accounts_list response ∷ []) in
    let later = visited en parse_accounts (some admin_token) "/signing-keys" (refresh ∷ quiet) in
    IsAccountOf first.state.selected_account (account 7 "canonical")
    × (Navigation.render_accounts admin_token behind.state.accounts behind.state.selected_account
          Navigation.initial
        ≡ Navigation.broken)
    × (prop "ID" later.state.selected_account ≡ number nan)
    × (later.session.account_code ≡ some "null")
unfolding is_logged_in
first_visit_example =
    first_visit en parse_accounts accounts_of admin_token "/signing-keys" response
      (account 7 "canonical") (account 8 "generic" ∷ []) quiet Navigation.initial
      parse_accounts-Reads refl tt refl

-- The router of the documentation.
abbrev plain_mux : Mux
plain_mux = record { serve = first_fit; documented = λ routes m rest plain. refl }

abbrev sent_body : Value
sent_body = object (fields (("id", number (pos 12)) ∷ ("ID", number (pos 12)) ∷ []))

abbrev sent_store : Fields
sent_store = fields (("id", number (pos 3)) ∷ [])

abbrev no_token : String → Option (Option Token)
no_token s = some none

-- The script has run and its token has come.
language_example : IsInLanguage (on_token no_token no_json 0 response (started (some "zh")))
language_example = Reach-IsInLanguage (Language.next Language.start (Language.token 0 response))
