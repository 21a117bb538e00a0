-- ===== src/UserEdit/Assignment.antt =====
-- Clicks on the accounts of a user's form, webapp-admin/src/components/UserEdit.js.
use mathlib.Core.Bool.{xor}
use identity_vault.Common.{
  String, Bool, true, false, not, ◌≡◌, refl, ap, sym, ◌∙◌, List, [], ◌∷◌, ◌++◌, map, str_eq, eq_iff,
  if◌then◌else◌, arith, Bool-cases, inl, inr,
}
use identity_vault.Common.Value.{Value, str, same_value, array, items, prop, get}
use identity_vault.UserEdit.{
  State, is_assigned, remove_account, toggle_account, handle_click_account, build_request_data,
}

abbrev pub texts : List String → List Value
texts names = map str names

-- No account stands twice in the list.
abbrev pub IsUnique : List String → Type 0
IsUnique [] = Unit
IsUnique (x ∷ xs) = (is_assigned (str x) (texts xs) ≡ false) × IsUnique xs

-- The lists of names that the handlers keep as texts.
abbrev remove_name : String → List String → List String
remove_name a [] = []
remove_name a (x ∷ xs) = let rest = remove_name a xs in if str_eq x a then xs else x ∷ rest

remove-texts :
    (a : String) (xs : List String) → remove_account (str a) (texts xs) ≡ texts (remove_name a xs)
unfolding remove_account same_value
remove-texts a [] = refl
remove-texts a (x ∷ xs) = ground (arith, remove-texts a xs)

assigned-remove :
    (a b : String) (xs : List String)
    → IsUnique xs
    → is_assigned (str b) (texts (remove_name a xs))
      ≡ (if str_eq a b then false else is_assigned (str b) (texts xs))
unfolding is_assigned same_value
assigned-remove a b [] u = ground arith
assigned-remove a b (x ∷ xs) u =
    ground (arith, eq_iff a b, eq_iff x a, eq_iff x b, assigned-remove a b xs u.1)

assigned-append :
    (a b : String) (xs : List String)
    → is_assigned (str b) (texts (xs ++ a ∷ []))
      ≡ (if str_eq a b then true else is_assigned (str b) (texts xs))
unfolding is_assigned same_value
assigned-append a b [] = ground arith
assigned-append a b (x ∷ xs) = ground (arith, eq_iff a b, eq_iff x b, assigned-append a b xs)

abbrev toggle_name : String → List String → List String
toggle_name a xs = if is_assigned (str a) (texts xs) then remove_name a xs else xs ++ a ∷ []

texts-append : (a : String) (xs : List String) → texts (xs ++ a ∷ []) ≡ texts xs ++ str a ∷ []
texts-append a [] = refl
texts-append a (x ∷ xs) = ap (λ r. str x ∷ r) (texts-append a xs)

toggle-texts :
    (a : String) (xs : List String) → toggle_account (str a) (texts xs) ≡ texts (toggle_name a xs)
unfolding toggle_account
toggle-texts a xs = elim (Bool-cases (is_assigned (str a) (texts xs))) [
  | inl there ↦ rw there (remove-texts a xs)
  | inr missing ↦ rw missing (sym (texts-append a xs))
]

assigned-toggle :
    (a b : String) (xs : List String)
    → IsUnique xs
    → is_assigned (str b) (texts (toggle_name a xs)) ≡ (
        if str_eq a b then not (is_assigned (str b) (texts xs)) else is_assigned (str b) (texts xs))
assigned-toggle a b xs u =
    ground (arith, eq_iff a b, assigned-remove a b xs u, assigned-append a b xs)

IsUnique-remove : (a : String) (xs : List String) → IsUnique xs → IsUnique (remove_name a xs)
IsUnique-remove a [] u = tt
IsUnique-remove a (x ∷ xs) u = elim (Bool-cases (str_eq x a)) [
  | inl same ↦ rw same u.1
  | inr other ↦
      rw other (
        ground (arith, assigned-remove a x xs u.1, eq_iff x a, eq_iff a x),
        IsUnique-remove a xs u.1,
      )
]

IsUnique-append :
    (a : String) (xs : List String)
    → is_assigned (str a) (texts xs) ≡ false
    → IsUnique xs
    → IsUnique (xs ++ a ∷ [])
unfolding is_assigned same_value
IsUnique-append a [] h u = (refl, tt)
IsUnique-append a (x ∷ xs) h u = (
  ground (arith, assigned-append a x xs, eq_iff x a, eq_iff a x),
  IsUnique-append a xs (ground arith) u.1,
)

IsUnique-toggle : (a : String) (xs : List String) → IsUnique xs → IsUnique (toggle_name a xs)
IsUnique-toggle a xs u = elim (Bool-cases (is_assigned (str a) (texts xs))) [
  | inl there ↦ rw there (IsUnique-remove a xs u)
  | inr missing ↦ rw missing (IsUnique-append a xs missing u)
]

-- The clicks on accounts, in order.
pub click_all : List String → State → State
click_all [] s = s
click_all (c ∷ cs) s = click_all cs (handle_click_account c s)

-- Whether an account is clicked an odd number of times.
pub is_flipped : String → List String → Bool
is_flipped b [] = false
is_flipped b (c ∷ cs) = let rest = is_flipped b cs in if str_eq c b then not rest else rest

-- The form's accounts are texts, none of them twice.
pub record HasAccounts (s : State) (names : List String) : Type 0 where
  pub listed : s.assigned_accounts ≡ texts names
  pub unique : IsUnique names

click-HasAccounts :
    (a : String) (s : State) (xs : List String)
    → HasAccounts s xs
    → HasAccounts (handle_click_account a s) (toggle_name a xs)
unfolding handle_click_account
click-HasAccounts a s xs h = record {
  listed = ap (toggle_account (str a)) h.listed ∙ toggle-texts a xs;
  unique = IsUnique-toggle a xs h.unique;
}

xor-false : (b : Bool) → b ≡ xor b false
unfolding xor
xor-false true = refl
xor-false false = refl

xor_step : (t a f : Bool) → xor (if t then not a else a) f ≡ xor a (if t then not f else f)
unfolding xor
xor_step true true true = refl
xor_step true true false = refl
xor_step true false true = refl
xor_step true false false = refl
xor_step false a f = refl

accounts-request :
    (s : State) → prop "accounts" (build_request_data s) ≡ array (items s.assigned_accounts)
unfolding build_request_data get
accounts-request s = refl

saved :
    (s : State) (names : List String)
    → HasAccounts s names
    → prop "accounts" (build_request_data s) ≡ array (items (texts names))
saved s names h = accounts-request s ∙ ap (λ r. array (items r)) h.listed

-- After any clicks no account stands twice in the form, and exactly those accounts have changed
-- sides that were clicked an odd number of times; the data to save holds this list.
pub click_all_lem :
    (cs : List String) (s : State) (names : List String)
    → HasAccounts s names
    → (after : List String) × HasAccounts (click_all cs s) after
      × ((b : String)
          → is_assigned (str b) (texts after)
            ≡ xor (is_assigned (str b) (texts names)) (is_flipped b cs))
      × (prop "accounts" (build_request_data (click_all cs s)) ≡ array (items (texts after)))
unfolding click_all is_flipped
click_all_lem [] s names h = (names, h, λ b. xor-false _, saved s names h)
click_all_lem (c ∷ cs) s names h =
    let (after, kept, flipped, data') =
      click_all_lem cs (handle_click_account c s) (toggle_name c names)
        (click-HasAccounts c s names h) in
    (after, kept, λ b. flipped b ∙ flip b, data')
  where
    flip :
        (b : String)
        → xor (is_assigned (str b) (texts (toggle_name c names))) (is_flipped b cs)
          ≡ xor
              (is_assigned (str b) (texts names))
              (if str_eq c b then not (is_flipped b cs) else is_flipped b cs)
    flip b = rw (assigned-toggle c b names h.unique) (xor_step (str_eq c b) _ _)
