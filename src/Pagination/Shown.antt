-- ===== src/Pagination/Shown.antt =====
-- The rows on the screen while the pages of webapp-admin/src/components/Pagination.js are turned: each
-- click asks for rows, which are shown when the answer is there.
use identity_vault.Common.{
  ℕ, zero, suc, ◌+◌, ◌-◌, ◌*◌, ◌≤◌, ◌<◌, ◌≡◌, refl, sym, subst, ◌⊎◌, inl, inr, arith,
}
use identity_vault.Common.Number.{Number, pos}
use identity_vault.Pagination.{
  Props, State, PageChange, page_up, page_down, rendered, calculate_pages, signal_page_change,
}
use identity_vault.Pagination.Bounds.{pages_of}
use identity_vault.Pagination.Turning.{
  IsSettled, IsOnPage, click_up, click_down, clicks, click_up-IsSettled, click_down-IsSettled,
  log_reached,
}

-- The page turner, and the first of the rows that were asked for last.
pub record View : Type 0 where
  pub paging : State
  pub offset : Number

-- A click on a button, its request, and the rendering behind it.
abbrev pub turn : (Props → State → State × PageChange) → Props → View → View
turn button props v = record {
  paging = rendered props (button props v.paging).0;
  offset = (button props v.paging).1.start_row;
}

pub turns : (Props → State → State × PageChange) → ℕ → Props → View → View
turns button zero props v = v
turns button (suc n) props v = turns button n props (turn button props v)

-- The rows are those of the page.
abbrev pub IsInStep : View → Type 0
IsInStep v = v.offset ≡ pos ((v.paging.page - 1) * 50)

-- The log at a place of the list is among the 50 rows.
abbrev pub Shows : View → ℕ → Type 0
Shows v i = (k : ℕ) × (v.offset ≡ pos k) × (k ≤ i) × (i < k + 50)

up-IsInStep :
    (props : Props) (v : View) → IsSettled props v.paging → IsInStep (turn page_up props v)
unfolding page_up rendered calculate_pages signal_page_change
up-IsInStep props v s =
    let a = s.valid.size in let b = s.valid.positive in let c = s.exists in ground arith

down-IsInStep :
    (props : Props) (v : View) → IsSettled props v.paging → IsInStep (turn page_down props v)
unfolding page_down rendered calculate_pages signal_page_change
down-IsInStep props v s =
    let a = s.valid.size in let b = s.valid.positive in let c = s.exists in ground arith

ups-IsInStep :
    (n : ℕ) (props : Props) (v : View)
    → IsSettled props v.paging
    → IsInStep v
    → IsInStep (turns page_up n props v)
      × ((turns page_up n props v).paging ≡ clicks click_up n props v.paging)
unfolding turns clicks
ups-IsInStep zero props v s h = (h, refl)
ups-IsInStep (suc n) props v s h =
    ups-IsInStep n props (turn page_up props v) (click_up-IsSettled props v.paging s)
      (up-IsInStep props v s)

downs-IsInStep :
    (n : ℕ) (props : Props) (v : View)
    → IsSettled props v.paging
    → IsInStep v
    → IsInStep (turns page_down n props v)
      × ((turns page_down n props v).paging ≡ clicks click_down n props v.paging)
unfolding turns clicks
downs-IsInStep zero props v s h = (h, refl)
downs-IsInStep (suc n) props v s h =
    downs-IsInStep n props (turn page_down props v) (click_down-IsSettled props v.paging s)
      (down-IsInStep props v s)

shows : (v : View) (p : State) (i : ℕ) → IsInStep v → v.paging ≡ p → IsOnPage p i → Shows v i
shows v p i h e o =
    let (a, b) = subst (λ q. IsOnPage q i) (sym e) o in ((v.paging.page - 1) * 50, h, a, b)

-- Every log of the list can be brought to the screen: from any state between two clicks in which the
-- rows are those of the page, as they are when the list opens but not behind a search, by fewer clicks
-- on one of the two buttons than there are pages. The answers to the requests arrive.
pub log_shown :
    (props : Props) (v : View) (i : ℕ)
    → IsSettled props v.paging
    → IsInStep v
    → i < props.total_logs
    → (n : ℕ) × (n < pages_of props v.paging)
      × (Shows (turns page_up n props v) i ⊎ Shows (turns page_down n props v) i)
log_shown props v i s h lt =
    let (n, few, there) = log_reached props v.paging i s lt in
    (
      n,
      few,
      elim there [
        | inl o ↦
            let (k, e) = ups-IsInStep n props v s h in
            inl (shows (turns page_up n props v) _ i k e o)
        | inr o ↦
            let (k, e) = downs-IsInStep n props v s h in
            inr (shows (turns page_down n props v) _ i k e o)
      ],
    )
