-- ===== src/Pagination.antt =====
-- webapp-admin/src/components/Pagination.js. The number of logs is a natural number; `start_row` may
-- be negative. A handler returns the new state and the arguments of its call of `pageChange`. The
-- updates that a handler queues are applied in order, so that its last one for a field holds.
pub mod Bounds
pub mod Turning
pub mod Shown
use identity_vault.Common.{
  ℕ, suc, ◌+◌, ◌-◌, ◌*◌, ◌/◌, ◌%◌, String, Bool, ◌&&◌, Option, none, some, ltb, leb, ◌==◌,
  if◌then◌else◌,
}
use identity_vault.Common.Number.{Number, pos, negsuc}
use identity_vault.Common.Value.{Value}
use identity_vault.Messages.{Locale}
use identity_vault.Utils.{translated}

pub record Props : Type 0 where
  pub total_logs : ℕ
  pub query : String
  pub filter_string : String

-- `query` is set once, to null, and never read.
pub record State : Type 0 where
  pub page : ℕ
  pub max_records : ℕ

abbrev pub initial : State
initial = record { page = 1; max_records = 50 }

-- The arguments of `pageChange`.
pub record PageChange : Type 0 where
  pub start_row : Number
  pub filter : String
  pub serialnumber : String

-- The number of pages, and the state with the page that is queued where it lies behind them.
unfoldable pub calculate_pages : Props → State → ℕ × State
calculate_pages props s =
    let pages = props.total_logs / s.max_records in
    let all_pages = if ltb 0 (props.total_logs % s.max_records) then pages + 1 else pages in
    (
      all_pages,
      if ltb all_pages s.page && ltb 0 all_pages then record s { page = all_pages } else s,
    )

-- `(page - 1) * maxRecords`
abbrev pub start_row_of : ℕ → ℕ → Number
start_row_of page size =
    if page == 0 then (if size == 0 then pos 0 else negsuc (size - 1)) else pos ((page - 1) * size)

unfoldable pub signal_page_change : Props → State → ℕ → PageChange
signal_page_change props s page = record {
  start_row = start_row_of page s.max_records;
  filter = props.filter_string;
  serialnumber = props.query;
}

unfoldable pub page_up : Props → State → State × PageChange
page_up props s =
    let (pages, clamped) = calculate_pages props s in
    let page = if ltb pages (s.page + 1) then pages else s.page + 1 in
    (record clamped { page = page }, signal_page_change props s page)

unfoldable pub page_down : Props → State → State × PageChange
page_down props s =
    let page = if leb s.page 1 then 1 else s.page - 1 in
    (record s { page = page }, signal_page_change props s page)

-- What `renderPaging` shows: the page and the number of pages beside the two buttons, or nothing.
unfoldable pub render_paging : Props → State → Option (ℕ × ℕ)
unfolding calculate_pages
render_paging props s =
    let pages = (calculate_pages props s).0 in if ltb 1 pages then some (s.page, pages) else none

-- The state after a rendering, whose call of `calculatePages` may queue an update.
unfoldable pub rendered : Props → State → State
unfolding calculate_pages
rendered props s = (calculate_pages props s).1

-- `render`: the search text, the two buttons, and the text of the button for the download.
unfoldable pub render : Locale → Props → State → String × Option (ℕ × ℕ) × Value
unfolding render_paging
render lang props s = (props.query, render_paging props s, translated lang "download")
