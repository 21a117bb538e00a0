-- ===== src/Examples/Logs.antt =====
-- The signing log at concrete inputs: its pages, its filter, its screen and its file.
use identity_vault.Common.{
  ◌+◌, ◌*◌, ◌≤◌, ◌<◌, String, Bool, true, false, ◌≡◌, refl, none, some, List, [], ◌∷◌, map, arith,
}
use identity_vault.Common.Text.{split, ◌<>◌}
use identity_vault.Common.Number.{pos, show, show_number}
use identity_vault.Common.Value.{Value, number, str, object, fields, to_text}
use identity_vault.Http.{JsonParse}
use identity_vault.Pagination
use identity_vault.Pagination.{Props, start_row_of, page_up, page_down, render_paging, rendered}
use identity_vault.Pagination.Bounds.{
  IsValid, IsTurned, pages_of, calculate_pages_bounds, turn-IsTurned,
}
use identity_vault.Resources.SigningLogs.{download_href, cells}
use identity_vault.Resources.SigningLogs.Csv.{
  IsPlain, Browser, prefix, read_rows, read_rows-csv_content,
}
use text.Mathlib.TextLemmas.{nil-append, cons-append}
use identity_vault.SigningLog
use identity_vault.SigningLog.{FilterItem, filter_of, selected_filters, handle_item_click}
use identity_vault.SigningLog.Filters.{IsInStep, selected_names, split-filter_of}
use identity_vault.SigningLog.Screen.{Screen, click, search_for, up, down, opened, step, run}
use identity_vault.SigningLog.Screen.Requests.{IsConsistent, run-IsConsistent}
use identity_vault.SigningLog.Screen.Stale.{newest_offset, search_keeps_page}

abbrev many_logs : Props
many_logs = record { total_logs = 120; query = ""; filter_string = "" }

abbrev second_page : Pagination.State
second_page = record { page = 2; max_records = 50 }

second_page-IsValid : IsValid second_page
second_page-IsValid = record { size = refl; positive = omega arith }

calculate_pages_example :
    (120 ≤ pages_of many_logs second_page * 50) × (pages_of many_logs second_page * 50 < 120 + 50)
calculate_pages_example = calculate_pages_bounds many_logs second_page second_page-IsValid

turn_example :
    IsTurned many_logs
      (pages_of many_logs second_page)
      (page_up many_logs (rendered many_logs second_page))
    × IsTurned many_logs
        (pages_of many_logs second_page)
        (page_down many_logs (rendered many_logs second_page))
unfolding Pagination.calculate_pages
turn_example = turn-IsTurned many_logs second_page second_page-IsValid (omega arith)

abbrev log_of : String → Value
log_of make = object (
    fields (
      ("id", number (pos 4))
      ∷ ("make", str make)
      ∷ ("model", str "router")
      ∷ ("serialnumber", str "A-1")
      ∷ ("revision", number (pos 1))
      ∷ ("fingerprint", str "ff00")
      ∷ ("created", str "2018-01-01")
      ∷ []))

log-IsPlain : IsPlain (log_of "canonical")
unfolding cells to_text show_number show
log-IsPlain = record { no_comma = ground arith; no_break = ground arith; no_sign = ground arith }

-- The text behind the first, as long as that lasts.
unfoldable behind : String → String → String
behind String.[] s = s
behind (String.◌∷◌ c p) String.[] = ""
behind (String.◌∷◌ c p) (String.◌∷◌ d s) = behind p s

behind-append : (p s : String) → behind p (p <> s) ≡ s
unfolding behind
behind-append String.[] s = nil-append s
behind-append (String.◌∷◌ c p) s = rw cons-append (behind-append p s)

abbrev plain_browser : Browser
plain_browser = record {
  encode_uri = λ s. s;
  saved = behind prefix;
  documented = λ s h. behind-append prefix s;
}

csv_content_example :
    read_rows
      (plain_browser.saved (download_href plain_browser.encode_uri (log_of "canonical" ∷ [])))
    ≡ map cells (log_of "canonical" ∷ [])
csv_content_example =
    read_rows-csv_content plain_browser (log_of "canonical" ∷ []) (log-IsPlain, tt)

abbrev filter_item : String → Bool → FilterItem
filter_item name selected = record { name = str name; selected = selected }

abbrev three_items : List FilterItem
three_items = filter_item "alder" true ∷ filter_item "beech" false ∷ filter_item "cedar" true ∷ []

abbrev filtered_log : SigningLog.State
filtered_log = record (SigningLog.initial (str "canonical")) {
  filter_models = three_items;
  filter_string = "alder,cedar";
}

in_step : IsInStep filtered_log
unfolding filter_of to_text
in_step = refl

filter_of_example : split b',' (filter_of three_items) ≡ selected_names three_items
unfolding selected_names selected_filters to_text
filter_of_example = split-filter_of three_items (λ e. cc) (ground arith)

abbrev no_json : JsonParse
no_json s = none

run_example :
    IsConsistent (
      run no_json (search_for "A-1" ∷ click 0 "models" ∷ up ∷ down ∷ []) (opened (str "canonical")))
run_example =
    run-IsConsistent no_json (str "canonical")
      (search_for "A-1" ∷ click 0 "models" ∷ up ∷ down ∷ [])

abbrev turned_screen : Screen
turned_screen = record (opened (str "canonical")) {
  log = record (SigningLog.initial (str "canonical")) { total_logs = number (pos 120) };
  paging = second_page;
}

search_example :
    let searched = step no_json (search_for "A-1") turned_screen in
    (newest_offset searched ≡ some (pos 0))
    × (searched.paging.page ≡ 2)
    × (newest_offset (step no_json up searched) ≡ some (pos (2 * 50)))
search_example = search_keeps_page no_json turned_screen "A-1" second_page-IsValid (omega arith)
