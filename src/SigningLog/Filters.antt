-- ===== src/SigningLog/Filters.antt =====
-- The filter by models of webapp-admin/src/components/SigningLog.js.
use identity_vault.Common.{
  ℕ, zero, suc, String, not, ◌≡◌, refl, some, List, [], ◌∷◌, map, arith, ap, filter, All, ◌≢◌, ◌<◌,
  length,
}
use identity_vault.Common.Number.{pos}
use identity_vault.Common.Text.{split, join}
use identity_vault.Common.Text.Laws.{Lacks, split-join}
use identity_vault.Resources.SigningLogs.{cell}
use identity_vault.SigningLog.{
  FilterItem, State, toggle, filter_of, handle_item_click, selected_filters,
}

-- A click on an item of the list finds it, and a second one puts it back.
toggle-toggle :
    (i : ℕ) (xs : List FilterItem)
    → i < length xs
    → (ys : List FilterItem) × (toggle i xs ≡ some ys) × (toggle i ys ≡ some xs)
unfolding toggle
toggle-toggle i [] h = elim h [ ]
toggle-toggle zero (x ∷ xs) h = (record x { selected = not x.selected } ∷ xs, refl, ground arith)
toggle-toggle (suc i) (x ∷ xs) h =
    let (ys, e, f) = toggle-toggle i xs (omega arith) in (x ∷ ys, rw e, rw f)

-- The text of the filter is that of the selected items.
abbrev pub IsInStep : State → Type 0
IsInStep s = s.filter_string ≡ filter_of s.filter_models

-- A second click on a model of the list undoes the first, and the two requests ask for the first
-- rows of the list with the models selected in between, and with those selected at the start.
pub click_twice :
    (i : ℕ) (s : State)
    → i < length s.filter_models
    → IsInStep s
    → (t : State) × (handle_item_click i "models" s
        ≡ (t, some (record { offset = pos 0; filter = t.filter_string; serialnumber = s.query })))
      × (handle_item_click i "models" t
          ≡ (s, some (record { offset = pos 0; filter = s.filter_string; serialnumber = s.query })))
      × IsInStep t
unfolding handle_item_click
click_twice i s h e =
    let (ys, found, back) = toggle-toggle i s.filter_models h in
    (record s { filter_models = ys; filter_string = filter_of ys }, rw found, rw (back, ← e), refl)

-- The names of the selected items, as texts.
unfoldable pub selected_names : List FilterItem → List String
selected_names items = map cell (selected_filters items)

names-selected :
    (xs : List FilterItem)
    → map (λ i. cell i.name) (filter (λ i. i.selected) xs) ≡ selected_names xs
unfolding selected_names selected_filters
names-selected xs = map-map (filter (λ i. i.selected) xs)
  where
    map-map : (ys : List FilterItem) → map (λ i. cell i.name) ys ≡ map cell (map (λ i. i.name) ys)
    map-map [] = refl
    map-map (y ∷ ys) = ap (λ r. cell y.name ∷ r) (map-map ys)

-- The server, which cuts the filter at its commas, finds the names of the selected models in order, if
-- any is selected and no selected name holds a comma.
pub split-filter_of :
    (xs : List FilterItem)
    → selected_names xs ≢ []
    → All (Lacks b',') (selected_names xs)
    → split b',' (filter_of xs) ≡ selected_names xs
unfolding filter_of
split-filter_of xs h k = rw (names-selected xs) (cut (selected_names xs) h k)
  where
    cut : (ps : List String) → ps ≢ [] → All (Lacks b',') ps → split b',' (join "," ps) ≡ ps
    cut [] h k = absurd (h refl)
    cut (p ∷ ps) h k = split-join "," p ps k
