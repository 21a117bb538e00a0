-- ===== src/SigningLog/Screen/Stale.antt =====
-- A search from a later page of the signing log, webapp-admin/src/components/SigningLog.js.
use identity_vault.Common.{
  ◌*◌, ◌<◌, String, ◌≡◌, refl, sym, subst, ◌∙◌, ap, Option, none, some, [], ◌∷◌, arith,
}
use identity_vault.Common.Number.{Number, pos}
use identity_vault.Http.{JsonParse}
use identity_vault.Pagination
use identity_vault.Pagination.{
  Props, calculate_pages, page_up, signal_page_change, render_paging, rendered,
}
use identity_vault.Pagination.Bounds.{IsValid}
use identity_vault.SigningLog.{handle_search_change}
use identity_vault.SigningLog.Screen.{
  Screen, search_for, up, count_of, props_of, settle, turn, step,
}

-- The first row that the newest request asks for.
abbrev pub newest_offset : Screen → Option Number
newest_offset screen = elim screen.sent [ [] ↦ none | q ∷ qs ↦ some q.offset ]

rendered-eq :
    (props : Props) (s : Pagination.State)
    → IsValid s
    → s.page * 50 < props.total_logs
    → rendered props s ≡ s
unfolding rendered calculate_pages
rendered-eq props s v h = ground arith

render_paging-eq :
    (props : Props) (s : Pagination.State)
    → IsValid s
    → s.page * 50 < props.total_logs
    → render_paging props s ≡ some (s.page, (calculate_pages props s).0)
unfolding render_paging calculate_pages
render_paging-eq props s v h = ground arith

page_up-offset :
    (props : Props) (s : Pagination.State)
    → IsValid s
    → s.page * 50 < props.total_logs
    → (page_up props s).1.start_row ≡ pos (s.page * 50)
unfolding page_up calculate_pages signal_page_change
page_up-offset props s v h = ground arith

turn_up-offset :
    (screen : Screen)
    → IsValid screen.paging
    → screen.paging.page * 50 < count_of screen.log.total_logs
    → newest_offset (turn page_up screen) ≡ some (pos (screen.paging.page * 50))
turn_up-offset screen v h = ground (
  arith,
  render_paging-eq (props_of screen.log) screen.paging v h,
  page_up-offset (props_of screen.log) screen.paging v h,
)

-- A search from page p, with more pages behind it, asks for the first rows of the new list and
-- still shows page p; the button then asks for the rows behind p pages, although those between the
-- first page and these were not shown.
pub search_keeps_page :
    (parse : JsonParse) (screen : Screen) (value : String)
    → IsValid screen.paging
    → screen.paging.page * 50 < count_of screen.log.total_logs
    → let searched = step parse (search_for value) screen in
      (newest_offset searched ≡ some (pos 0))
      × (searched.paging.page ≡ screen.paging.page)
      × (newest_offset (step parse up searched) ≡ some (pos (screen.paging.page * 50)))
unfolding step settle handle_search_change
search_keeps_page parse screen value v h =
    let searched = step parse (search_for value) screen in
    let e : searched.paging ≡ screen.paging =
      rendered-eq (record (props_of screen.log) { query = value }) screen.paging v h in
    (
      refl,
      ap (λ p. p.page) e,
      turn_up-offset searched (subst IsValid (sym e) v)
            (subst (λ p. p.page * 50 < count_of screen.log.total_logs) (sym e) h)
          ∙ ap (λ p. some (pos (p.page * 50))) e,
    )
