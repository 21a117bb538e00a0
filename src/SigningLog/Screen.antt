-- ===== src/SigningLog/Screen.antt =====
-- The page of the signing log with its page turner, webapp-admin/src/components/SigningLog.js and
-- Pagination.js together: the events of the user and the answers of the server, in any order. The
-- answer to the request for the filters comes once.
pub mod Requests
pub mod Stale
use identity_vault.Common.{
  ℕ, String, Bool, true, false, Option, none, some, List, [], ◌∷◌, if◌then◌else◌,
}
use identity_vault.Common.Number.{Number, pos}
use identity_vault.Common.Value.{Value, number}
use identity_vault.Http.{JsonParse, Response}
use identity_vault.Pagination
use identity_vault.Pagination.{Props, PageChange, page_up, page_down, render_paging, rendered}
use identity_vault.SigningLog
use identity_vault.SigningLog.{
  Query, first_query, handle_item_click, handle_search_change, handle_expansion_click,
  on_signing_logs, on_filters,
}

-- `sent` holds the requests for logs, the newest first.
pub record Screen : Type 0 where
  pub log : SigningLog.State
  pub paging : Pagination.State
  pub sent : List Query
  pub filters_pending : Bool

-- The constructors of both components, and the requests of the first.
abbrev pub opened : Value → Screen
opened authority_id = record {
  log = SigningLog.initial authority_id;
  paging = Pagination.initial;
  sent = first_query ∷ [];
  filters_pending = true;
}

pub data Event : Type 0 where
  click : ℕ → String → Event
  search_for : String → Event
  expand : String → Event
  up down : Event
  logs_arrive filters_arrive : Response → Event

-- The number of logs; a count that is no number shows no pages, as none does.
abbrev pub count_of : Value → ℕ
count_of (number (pos n)) = n
count_of _ = 0

-- The properties that `render` hands to the page turner.
abbrev pub props_of : SigningLog.State → Props
props_of log = record {
  total_logs = count_of log.total_logs;
  query = log.query;
  filter_string = log.filter_string;
}

-- A state of the page is rendered, and the page turner with it.
pub settle : SigningLog.State → Screen → Screen
settle log screen = record screen { log = log; paging = rendered (props_of log) screen.paging }

abbrev pub send : Option Query → Screen → Screen
send none screen = screen
send (some q) screen = record screen { sent = q ∷ screen.sent }

abbrev as_query : PageChange → Query
as_query c = record { offset = c.start_row; filter = c.filter; serialnumber = c.serialnumber }

abbrev turned : Pagination.State × PageChange → Screen → Screen
turned r screen =
    send (some (as_query r.1)) (record screen { paging = rendered (props_of screen.log) r.0 })

-- A button that is not shown is not pressed.
abbrev pub turn : (Props → Pagination.State → Pagination.State × PageChange) → Screen → Screen
turn handler screen = elim (render_paging (props_of screen.log) screen.paging) [
  | none ↦ screen
  | some shown ↦ turned (handler (props_of screen.log) screen.paging) screen
]

pub step : JsonParse → Event → Screen → Screen
step parse (click i key) screen =
    let (log, q) = handle_item_click i key screen.log in send q (settle log screen)
step parse (search_for value) screen =
    let (log, q) = handle_search_change value screen.log in send q (settle log screen)
step parse (expand value) screen = settle (handle_expansion_click value screen.log) screen
step parse up screen = turn page_up screen
step parse down screen = turn page_down screen
step parse (logs_arrive response) screen = settle (on_signing_logs parse response screen.log) screen
step parse (filters_arrive response) screen =
    if screen.filters_pending
    then record (settle (on_filters parse response screen.log) screen) { filters_pending = false }
    else screen

pub run : JsonParse → List Event → Screen → Screen
run parse [] screen = screen
run parse (e ∷ es) screen = run parse es (step parse e screen)
