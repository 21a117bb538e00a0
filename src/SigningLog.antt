-- ===== src/SigningLog.antt =====
-- webapp-admin/src/components/SigningLog.js: the state of the page, its handlers, and the callbacks of
-- its requests. A handler that throws, or whose callback does, leaves the state as it was.
pub mod Filters
pub mod Screen
use identity_vault.Common.{
  ℕ, zero, suc, String, Bool, true, false, not, Option, none, some, List, [], ◌∷◌, map, str_eq,
  if◌then◌else◌, filter,
}
use identity_vault.Common.Text.{join}
use identity_vault.Common.Number.{Number, pos}
use identity_vault.Common.Value.{
  Value, null, number, str, flag, array, nil, Fields, fields, get, put, truthy, prop, member,
  as_array,
}
use identity_vault.Http.{JsonParse, Response, parsed}
use identity_vault.Utils.{Token, is_user_admin}
use identity_vault.Ajax.{Call}
use identity_vault.Page.{Result, ask}
use identity_vault.Resources.SigningLogs
use identity_vault.Resources.SigningLogs.{cell}

abbrev pub pagination_size : ℕ
pagination_size = 50

pub record FilterItem : Type 0 where
  pub name : Value
  pub selected : Bool

pub record State : Type 0 where
  pub logs : Value
  pub filter_models : List FilterItem
  pub filter_string : String
  pub message : Value
  pub expanded : Fields
  pub query : String
  pub start_row : ℕ
  pub end_row : ℕ
  pub total_logs : Value
  pub authority_id : Value

-- A request for logs, as `getSigningLogs` is called.
pub record Query : Type 0 where
  pub offset : Number
  pub filter : String
  pub serialnumber : String

unfoldable pub call_of : State → Query → Call
unfolding SigningLogs.list_for_account
call_of s q =
    SigningLogs.list_for_account s.authority_id (number q.offset) (str q.filter)
      (str q.serialnumber)

abbrev pub first_query : Query
first_query = record { offset = pos 0; filter = ""; serialnumber = "" }

-- The constructor, for the selected account's authority; it also asks for the filters.
abbrev pub initial : Value → State
initial authority_id = record {
  logs = array nil;
  filter_models = [];
  filter_string = "";
  message = null;
  expanded = fields (("models", flag true) ∷ []);
  query = "";
  start_row = 0;
  end_row = pagination_size;
  total_logs = number (pos 0);
  authority_id = authority_id;
}

-- Its two requests.
unfoldable pub mounted : Value → Result State
unfolding call_of SigningLogs.filters
mounted authority_id = (
  initial authority_id,
  ask (call_of (initial authority_id) first_query) ∷ ask (SigningLogs.filters authority_id) ∷ [],
)

unfoldable pub handle_expansion_click : String → State → State
unfolding put get
handle_expansion_click value s = record s {
  expanded = put value (flag (not (truthy (get value s.expanded)))) s.expanded;
}

-- `items[index].selected = !items[index].selected`, which throws where there is no such item.
unfoldable pub toggle : ℕ → List FilterItem → Option (List FilterItem)
toggle i [] = none
toggle zero (x ∷ xs) = some (record x { selected = not x.selected } ∷ xs)
toggle (suc i) (x ∷ xs) = elim (toggle i xs) [ none ↦ none | some ys ↦ some (x ∷ ys) ]

-- `items.filter(i => i.selected === true).map(i => i.name).join(',')`
unfoldable pub filter_of : List FilterItem → String
unfolding join
filter_of xs = join "," (map (λ i. cell i.name) (filter (λ i. i.selected) xs))

unfoldable pub handle_item_click : ℕ → String → State → State × Option Query
handle_item_click index key s =
    if str_eq key "models"
    then elim (toggle index s.filter_models) [
      | none ↦ (s, none)
      | some items ↦ (
        record s { filter_models = items; filter_string = filter_of items },
        some (record { offset = pos 0; filter = filter_of items; serialnumber = s.query }),
      )
    ]
    else (s, none)

-- `message = null`, and the answer's where it reports no success.
abbrev message_or : Value → Value → Value
message_or unset data' = if truthy (prop "success" data') then unset else prop "message" data'

unfoldable pub on_signing_logs : JsonParse → Response → State → State
unfolding parsed prop
on_signing_logs parse response s = elim (parsed parse response) [
  | none ↦ s
  | some data' ↦ record s {
    logs = prop "logs" data';
    message = message_or null data';
    total_logs = prop "total_count" data';
  }
]

abbrev unselected : Value → FilterItem
unselected item = record { name = item; selected = false }

-- `data.filters.models`
unfoldable pub models_of : Value → Option (List Value)
unfolding prop member
models_of data' = elim (member "models" (prop "filters" data')) [
  | none ↦ none
  | some models ↦ as_array models
]

unfoldable pub on_filters : JsonParse → Response → State → State
unfolding parsed prop models_of
on_filters parse response s = elim (parsed parse response) [
  | none ↦ s
  | some data' ↦ elim (models_of data') [
    | none ↦ s
    | some models ↦ record s {
      filter_models = map unselected models;
      message = message_or (str "") data';
    }
  ]
]

unfoldable pub handle_search_change : String → State → State × Option Query
handle_search_change value s = (
  record s { query = value },
  some (record { offset = pos 0; filter = s.filter_string; serialnumber = value }),
)

unfoldable pub handle_download : State → Call
unfolding SigningLogs.download
handle_download s = SigningLogs.download s.authority_id (str s.filter_string) (str s.query)

-- `selectedFilters(name)`
unfoldable pub selected_filters : List FilterItem → List Value
selected_filters items = map (λ i. i.name) (filter (λ i. i.selected) items)

-- What `render` shows: no permissions, or the page with its logs, or with none.
pub data View : Type 0 where
  denied : View
  empty : Value → View
  table : Value → List Value → View

abbrev rows_or_empty : Value → List Value → View
rows_or_empty message [] = empty message
rows_or_empty message (l ∷ ls) = table message (l ∷ ls)

-- `none` where `logs` is no array, which the rendering throws on.
unfoldable pub render : Option Token → State → Option View
unfolding is_user_admin
render token s =
    if is_user_admin token
    then elim (as_array s.logs) [ none ↦ none | some logs ↦ some (rows_or_empty s.message logs) ]
    else some denied
