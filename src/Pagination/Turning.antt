-- ===== src/Pagination/Turning.antt =====
-- Turning the pages of webapp-admin/src/components/Pagination.js again and again.
use identity_vault.Common.{
  ℕ, zero, suc, ◌+◌, ◌-◌, ◌*◌, ◌≤◌, ◌<◌, ◌≡◌, refl, sym, ap, ◌∙◌, ◌⊎◌, inl, inr, arith,
}
use identity_vault.Pagination.{Props, State, calculate_pages, page_up, page_down, rendered}
use identity_vault.Pagination.Bounds.{IsValid, pages_of, page_of_log}

-- A click on a button, and the rendering behind it.
abbrev pub click_up : Props → State → State
click_up props s = rendered props (page_up props s).0

abbrev pub click_down : Props → State → State
click_down props s = rendered props (page_down props s).0

-- Clicks on one button, one after the other.
unfoldable pub clicks : (Props → State → State) → ℕ → Props → State → State
clicks click zero props s = s
clicks click (suc n) props s = clicks click n props (click props s)

-- A state that the page can be in between two clicks.
pub record IsSettled (props : Props) (s : State) : Type 0 where
  pub valid : IsValid s
  pub exists : s.page ≤ pages_of props s

module _ (props : Props) (s : State) (v : IsSettled props s) where
  click_up-pages : pages_of props (click_up props s) ≡ pages_of props s
  unfolding page_up rendered calculate_pages
  click_up-pages = let a = v.valid.size in ground arith

  click_up-page : s.page < pages_of props s → (click_up props s).page ≡ s.page + 1
  unfolding page_up rendered calculate_pages
  click_up-page h = let a = v.valid.size in ground arith

  pub click_up-IsSettled : IsSettled props (click_up props s)
  unfolding page_up rendered calculate_pages
  click_up-IsSettled =
      let a = v.valid.size in
      let b = v.valid.positive in
      let c = v.exists in record { valid = ground arith; exists = ground arith }

  click_up-last : s.page ≡ pages_of props s → (click_up props s).page ≡ pages_of props s
  unfolding page_up rendered calculate_pages
  click_up-last e = let a = v.valid.size in ground arith

  click_down-pages : pages_of props (click_down props s) ≡ pages_of props s
  unfolding page_down rendered calculate_pages
  click_down-pages = let a = v.valid.size in ground arith

  click_down-page : 1 < s.page → (click_down props s).page ≡ s.page - 1
  unfolding page_down rendered calculate_pages
  click_down-page h = let a = v.valid.size in let c = v.exists in ground arith

  pub click_down-IsSettled : IsSettled props (click_down props s)
  unfolding page_down rendered calculate_pages
  click_down-IsSettled =
      let a = v.valid.size in
      let b = v.valid.positive in
      let c = v.exists in record { valid = ground arith; exists = ground arith }

ups :
    (n : ℕ) (props : Props) (s : State)
    → IsSettled props s
    → s.page + n ≤ pages_of props s
    → (clicks click_up n props s).page ≡ s.page + n
unfolding clicks
ups zero props s v h = omega arith
ups (suc n) props s v h =
    let e = click_up-page props s v (omega arith) in
    let p = click_up-pages props s v in
    ups n props (click_up props s) (click_up-IsSettled props s v) (omega arith) ∙ omega arith

downs :
    (n : ℕ) (props : Props) (s : State)
    → IsSettled props s
    → n < s.page
    → (clicks click_down n props s).page ≡ s.page - n
unfolding clicks
downs zero props s v h = omega arith
downs (suc n) props s v h =
    let e = click_down-page props s v (omega arith) in
    downs n props (click_down props s) (click_down-IsSettled props s v) (omega arith) ∙ omega arith

-- The log at a place of the list is one of those on the page.
abbrev pub IsOnPage : State → ℕ → Type 0
IsOnPage s i = ((s.page - 1) * 50 ≤ i) × (i < (s.page - 1) * 50 + 50)

on_page :
    (s : State) (q i : ℕ) → s.page ≡ q → (q - 1) * 50 ≤ i → i < (q - 1) * 50 + 50 → IsOnPage s i
on_page s q i e a b = rw e (a, b)

le_or_lt : (a b : ℕ) → (a ≤ b) ⊎ (b < a)
le_or_lt a b = omega arith

reached :
    (props : Props) (s : State) (q i : ℕ)
    → IsSettled props s
    → 1 ≤ q
    → q ≤ pages_of props s
    → (q - 1) * 50 ≤ i
    → i < (q - 1) * 50 + 50
    → (s.page ≤ q) ⊎ (q < s.page)
    → (n : ℕ) × (n < pages_of props s)
      × (IsOnPage (clicks click_up n props s) i ⊎ IsOnPage (clicks click_down n props s) i)
reached props s q i v one last lo hi (inl above) =
    let a = v.valid.positive in
    (
      q - s.page,
      omega arith,
      inl (
          on_page (clicks click_up (q - s.page) props s) q i
            (ups (q - s.page) props s v (omega arith) ∙ omega arith) lo hi),
    )
reached props s q i v one last lo hi (inr below) =
    let a = v.exists in
    (
      s.page - q,
      omega arith,
      inr (
          on_page (clicks click_down (s.page - q) props s) q i
            (downs (s.page - q) props s v (omega arith) ∙ omega arith) lo hi),
    )

-- The page turner comes to the page of every log: from any state between two clicks, by fewer clicks on
-- one of the two buttons than there are pages.
pub log_reached :
    (props : Props) (s : State) (i : ℕ)
    → IsSettled props s
    → i < props.total_logs
    → (n : ℕ) × (n < pages_of props s)
      × (IsOnPage (clicks click_up n props s) i ⊎ IsOnPage (clicks click_down n props s) i)
log_reached props s i v h =
    let (q, one, last, _, lo, hi, _) = page_of_log props s i v.valid h in
    reached props s q i v one last lo hi (le_or_lt s.page q)

last_stays :
    (n : ℕ) (props : Props) (s : State)
    → IsSettled props s
    → s.page ≡ pages_of props s
    → (clicks click_up n props s).page ≡ pages_of props s
unfolding clicks
last_stays zero props s v e = e
last_stays (suc n) props s v e =
    let p = click_up-pages props s v in
    last_stays n props (click_up props s) (click_up-IsSettled props s v)
      (click_up-last props s v e ∙ sym p)
    ∙ p

clicks-append :
    (m n : ℕ) (props : Props) (s : State)
    → clicks click_up (m + n) props s ≡ clicks click_up n props (clicks click_up m props s)
unfolding clicks
clicks-append zero n props s =
    let e : 0 + n ≡ n = omega arith in ap (λ k. clicks click_up k props s) e
clicks-append (suc m) n props s =
    ap (λ k. clicks click_up k props s) step ∙ clicks-append m n props (click_up props s)
  where
    step : suc m + n ≡ suc (m + n)
    step = omega arith

clicks-IsSettled :
    (n : ℕ) (props : Props) (s : State)
    → IsSettled props s
    → IsSettled props (clicks click_up n props s)
      × (pages_of props (clicks click_up n props s) ≡ pages_of props s)
unfolding clicks
clicks-IsSettled zero props s v = (v, refl)
clicks-IsSettled (suc n) props s v =
    let (w, p) = clicks-IsSettled n props (click_up props s) (click_up-IsSettled props s v) in
    (w, p ∙ click_up-pages props s v)

-- To turn the pages up comes to an end: after as many clicks as pages are left, or any more, the last
-- page is shown.
pub turning_ends :
    (props : Props) (s : State) (n : ℕ)
    → IsSettled props s
    → pages_of props s ≤ s.page + n
    → (clicks click_up n props s).page ≡ pages_of props s
turning_ends props s n v h =
    let a = v.exists in
    let m : ℕ = pages_of props s - s.page in
    let t = clicks click_up m props s in
    let (w, p) = clicks-IsSettled m props s v in
    let here = ups m props s v (omega arith) in
    ap (λ k. (clicks click_up k props s).page) (split_count n m (omega arith))
    ∙ ap (λ u. u.page) (clicks-append m (n - m) props s)
    ∙ last_stays (n - m) props t w (here ∙ omega arith)
    ∙ p
  where
    split_count : (n m : ℕ) → m ≤ n → n ≡ m + (n - m)
    split_count n m h = omega arith
