-- ===== src/SigningLog/Screen/Requests.antt =====
-- The requests for logs of webapp-admin/src/components/SigningLog.js.
use identity_vault.Common.{
  ℕ, String, true, false, ◌≡◌, refl, none, List, [], ◌∷◌, map, arith, Option-cases, inl, inr, ◌⊎◌,
  ◌∙◌,
}
use identity_vault.Common.Value.{Value}
use identity_vault.Http.{JsonParse, Response, parsed}
use identity_vault.Pagination.{page_up, page_down, signal_page_change}
use identity_vault.SigningLog
use identity_vault.SigningLog.{
  FilterItem, Query, toggle, filter_of, handle_item_click, handle_search_change,
  handle_expansion_click, on_signing_logs, on_filters, models_of,
}
use identity_vault.SigningLog.Screen.{
  Screen, opened, Event, click, search_for, expand, up, down, logs_arrive, filters_arrive, settle,
  step, run,
}

-- The newest request carries the filter and the search text.
abbrev AsksFor : String → String → List Query → Type 0
AsksFor filter query [] = ⊥
AsksFor filter query (q ∷ qs) = (q.filter ≡ filter) × (q.serialnumber ≡ query)

-- The filter's text is that of the selected models, the newest request for logs carries it and the
-- search text, and there are no models to select before their answer has come.
pub record IsConsistent (screen : Screen) : Type 0 where
  pub in_step : screen.log.filter_string ≡ filter_of screen.log.filter_models
  pub asked : AsksFor screen.log.filter_string screen.log.query screen.sent
  pub waiting : screen.filters_pending ≡ true → screen.log.filter_models ≡ []

filter_of-unselected :
    (models : List Value) → filter_of (map (λ m. record { name = m; selected = false }) models) ≡ ""
unfolding filter_of
filter_of-unselected [] = refl
filter_of-unselected (m ∷ ms) = filter_of-unselected ms

-- The answer with the filters leaves the filter's text and the search text alone.
filters_kept :
    (parse : JsonParse) (r : Response) (s : SigningLog.State)
    → ((on_filters parse r s).filter_string ≡ s.filter_string)
      × ((on_filters parse r s).query ≡ s.query)
      × (((on_filters parse r s).filter_models ≡ s.filter_models)
          ⊎ ((ms : List Value) × ((on_filters parse r s).filter_models
                ≡ map (λ m. record { name = m; selected = false }) ms)))
unfolding on_filters
filters_kept parse r s = elim (Option-cases (parsed parse r)) [
  | inl broken ↦ rw (broken, on_filters) (refl, refl, inl refl)
  | inr (d, whole) ↦
      rw (whole, on_filters)
        (elim (Option-cases (models_of d)) [
          | inl missing ↦ rw missing (refl, refl, inl refl)
          | inr (ms, found) ↦ rw found (refl, refl, inr (ms, refl))
        ])
]

in_step-filters :
    (parse : JsonParse) (r : Response) (s : SigningLog.State)
    → s.filter_models ≡ []
    → s.filter_string ≡ filter_of s.filter_models
    → (on_filters parse r s).filter_string ≡ filter_of (on_filters parse r s).filter_models
in_step-filters parse r s e f =
    let (same, _, models) = filters_kept parse r s in
    elim models [
      | inl kept ↦ rw (same, kept) f
      | inr (ms, new) ↦
          rw (same, new, filter_of-unselected ms) (rw e at f ∙ filter_of-unselected [])
    ]

toggle-nil : (i : ℕ) (xs : List FilterItem) → xs ≡ [] → toggle i xs ≡ none
unfolding toggle
toggle-nil i xs e = rw e

module _ (parse : JsonParse) (screen : Screen) (c : IsConsistent screen) where
  click-IsConsistent : (i : ℕ) (key : String) → IsConsistent (step parse (click i key) screen)
  unfolding step settle handle_item_click
  click-IsConsistent i key = ground (arith, toggle-nil i screen.log.filter_models)

  search-IsConsistent : (value : String) → IsConsistent (step parse (search_for value) screen)
  unfolding step settle handle_search_change
  search-IsConsistent value = record {
    in_step = c.in_step;
    asked = (refl, refl);
    waiting = c.waiting;
  }

  expand-IsConsistent : (value : String) → IsConsistent (step parse (expand value) screen)
  unfolding step settle handle_expansion_click
  expand-IsConsistent value = record { in_step = c.in_step; asked = c.asked; waiting = c.waiting }

  up-IsConsistent : IsConsistent (step parse up screen)
  unfolding step page_up signal_page_change
  up-IsConsistent = ground arith

  down-IsConsistent : IsConsistent (step parse down screen)
  unfolding step page_down signal_page_change
  down-IsConsistent = ground arith

  logs-IsConsistent : (r : Response) → IsConsistent (step parse (logs_arrive r) screen)
  unfolding step settle on_signing_logs
  logs-IsConsistent r = ground arith

  filters-IsConsistent : (r : Response) → IsConsistent (step parse (filters_arrive r) screen)
  unfolding step settle
  filters-IsConsistent r =
      let (same, query, _) = filters_kept parse r screen.log in
      let f = in_step-filters parse r screen.log in
      record { in_step = ground arith; asked = ground arith; waiting = ground arith }

step-IsConsistent :
    (parse : JsonParse) (e : Event) (screen : Screen)
    → IsConsistent screen
    → IsConsistent (step parse e screen)
step-IsConsistent parse (click i key) screen c = click-IsConsistent parse screen c i key
step-IsConsistent parse (search_for v) screen c = search-IsConsistent parse screen c v
step-IsConsistent parse (expand v) screen c = expand-IsConsistent parse screen c v
step-IsConsistent parse up screen c = up-IsConsistent parse screen c
step-IsConsistent parse down screen c = down-IsConsistent parse screen c
step-IsConsistent parse (logs_arrive r) screen c = logs-IsConsistent parse screen c r
step-IsConsistent parse (filters_arrive r) screen c = filters-IsConsistent parse screen c r

run_from-IsConsistent :
    (parse : JsonParse) (es : List Event) (screen : Screen)
    → IsConsistent screen
    → IsConsistent (run parse es screen)
unfolding run
run_from-IsConsistent parse [] screen c = c
run_from-IsConsistent parse (e ∷ es) screen c =
    run_from-IsConsistent parse es (step parse e screen) (step-IsConsistent parse e screen c)

opened-IsConsistent : (authority_id : Value) → IsConsistent (opened authority_id)
unfolding filter_of
opened-IsConsistent authority_id = record {
  in_step = refl;
  asked = (refl, refl);
  waiting = λ e. refl;
}

-- After any clicks, searches, turned pages and answers, in any order, the screen's filter text is
-- that of the selected models, and its newest request for logs carries that filter and the search
-- text that it shows.
pub run-IsConsistent :
    (parse : JsonParse) (authority_id : Value) (es : List Event)
    → IsConsistent (run parse es (opened authority_id))
run-IsConsistent parse authority_id es =
    run_from-IsConsistent parse es (opened authority_id) (opened-IsConsistent authority_id)
