-- ===== src/Pagination/Bounds.antt =====
-- The pages and the buttons of webapp-admin/src/components/Pagination.js.
use identity_vault.Common.{ℕ, ◌+◌, ◌-◌, ◌*◌, ◌/◌, ◌≤◌, ◌<◌, ◌≡◌, ◌≢◌, ◌↔◌, subst, refl, none, arith}
use identity_vault.Common.Number.{pos}
use identity_vault.Pagination.{
  Props, State, PageChange, calculate_pages, start_row_of, signal_page_change, page_up, page_down,
  render_paging, rendered,
}

-- A state as the page is opened in, or any that its handlers leave behind.
pub record IsValid (s : State) : Type 0 where
  pub size : s.max_records ≡ 50
  pub positive : 1 ≤ s.page

abbrev pub pages_of : Props → State → ℕ
pages_of props s = (calculate_pages props s).0

-- The number of pages is the least one whose pages of 50 hold all the logs.
pub calculate_pages_bounds :
    (props : Props) (s : State)
    → IsValid s
    → (props.total_logs ≤ pages_of props s * 50) × (pages_of props s * 50 < props.total_logs + 50)
unfolding calculate_pages
calculate_pages_bounds props s v = ground arith

-- Every log lies on exactly one of the pages: on that one its place is among the 50 behind the page's
-- first row, and any page of which this holds is that one.
pub page_of_log :
    (props : Props) (s : State) (i : ℕ)
    → IsValid s
    → i < props.total_logs
    → (q : ℕ) × (1 ≤ q)
      × (q ≤ pages_of props s)
      × (start_row_of q 50 ≡ pos ((q - 1) * 50))
      × ((q - 1) * 50 ≤ i)
      × (i < (q - 1) * 50 + 50)
      × ((q' : ℕ) → 1 ≤ q' → (q' - 1) * 50 ≤ i → i < (q' - 1) * 50 + 50 → q' ≡ q)
page_of_log props s i v h =
    let b = calculate_pages_bounds props s v in
    (
      i / 50 + 1,
      omega arith,
      omega (arith, b),
      ground arith,
      omega arith,
      omega arith,
      λ q' p l u. omega arith,
    )

clamped-size : (props : Props) (s : State) → (calculate_pages props s).1.max_records ≡ s.max_records
unfolding calculate_pages
clamped-size props s = ground arith

pub rendered-IsValid : (props : Props) (s : State) → IsValid s → IsValid (rendered props s)
unfolding rendered calculate_pages
rendered-IsValid props s v = ground arith

pages_of-rendered :
    (props : Props) (s : State) → IsValid s → pages_of props (rendered props s) ≡ pages_of props s
unfolding rendered calculate_pages
pages_of-rendered props s v = ground arith

page-rendered :
    (props : Props) (s : State)
    → IsValid s
    → 0 < pages_of props s
    → (rendered props s).page ≤ pages_of props s
unfolding rendered calculate_pages
page-rendered props s v h = ground arith

start_row-page : (q : ℕ) → 1 ≤ q → start_row_of q 50 ≡ pos ((q - 1) * 50)
start_row-page q h = ground arith

-- The page is one that exists, and its rows are asked for.
pub record IsTurned (props : Props) (pages : ℕ) (r : State × PageChange) : Type 0 where
  pub valid : IsValid r.0
  pub exists : r.0.page ≤ pages
  pub asked : r.1.start_row ≡ pos ((r.0.page - 1) * 50)
  pub listed : (r.0.page - 1) * 50 < props.total_logs
  pub same_filter : r.1.filter ≡ props.filter_string
  pub same_query : r.1.serialnumber ≡ props.query

module _ (props : Props) (s : State) (v : IsValid s) (shown : 1 < pages_of props s)
    (settled : s.page ≤ pages_of props s) where
  page_up-IsTurned : IsTurned props (pages_of props s) (page_up props s)
  unfolding page_up signal_page_change
  page_up-IsTurned =
      let b = calculate_pages_bounds props s v in
      let e = clamped-size props s in
      record {
        valid = ground arith;
        exists = ground arith;
        asked = ground arith;
        listed = ground arith;
        same_filter = refl;
        same_query = refl;
      }

  page_down-IsTurned : IsTurned props (pages_of props s) (page_down props s)
  unfolding page_down signal_page_change
  page_down-IsTurned =
      let b = calculate_pages_bounds props s v in
      record {
        valid = ground arith;
        exists = ground arith;
        asked = ground arith;
        listed = ground arith;
        same_filter = refl;
        same_query = refl;
      }

-- Where the two buttons are shown, either of them turns a rendered state to a page that exists: the
-- state stays valid, the request starts at that page's first row, which is one of the list, and
-- carries the filter and the search text of the properties.
pub turn-IsTurned :
    (props : Props) (s : State)
    → IsValid s
    → 1 < pages_of props s
    → IsTurned props (pages_of props s) (page_up props (rendered props s))
      × IsTurned props (pages_of props s) (page_down props (rendered props s))
turn-IsTurned props s v shown =
    let t = rendered props s in
    let e = pages_of-rendered props s v in
    let u = rendered-IsValid props s v in
    let shown' : 1 < pages_of props t = rw e shown in
    let settled : t.page ≤ pages_of props t = rw e (page-rendered props s v (omega arith)) in
    (
      subst (λ n. IsTurned props n (page_up props t)) e (page_up-IsTurned props t u shown' settled),
      subst (λ n. IsTurned props n (page_down props t)) e
          (page_down-IsTurned props t u shown' settled),
    )

-- Before the last page, a turn up and a turn down lead back.
pub page_down-page_up :
    (props : Props) (s : State)
    → IsValid s
    → s.page < pages_of props s
    → (page_down props (page_up props s).0).0.page ≡ s.page
unfolding page_down page_up
page_down-page_up props s v h = let e = clamped-size props s in ground arith

-- The buttons are shown exactly when the logs take more than one page of 50.
pub render_paging_iff :
    (props : Props) (s : State)
    → IsValid s
    → (render_paging props s ≢ none) ↔ (50 < props.total_logs)
unfolding render_paging calculate_pages
render_paging_iff props s v = (λ h. ground arith, λ h. ground arith)
