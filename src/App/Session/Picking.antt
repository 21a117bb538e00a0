-- ===== src/App/Session/Picking.antt =====
-- What the callback of the accounts in webapp-admin/src/App.js picks, beside the abstract current account.
use identity_vault.Common.{
  ℕ, Bool, true, not, ◌&&◌, ◌≡◌, refl, sym, ◌∙◌, ◌⊎◌, inl, inr, none, some, List, [], ◌∷◌, arith,
  filter, Bool-cases,
}
use identity_vault.Common.Number.{Number, nan, pos}
use identity_vault.Common.Number
use identity_vault.Common.Value.{Value, number, get, prop, truthy, same_value}
use identity_vault.Utils.{SessionStorage, save_account, get_account}
use identity_vault.App.{pick_account, saved}
use identity_vault.App.Session.{Account, Current, fresh, blocked, chosen, find_id, arrived}
use identity_vault.App.Session.Saved.{AreAccounts, IsCurrent, IsAccountOf, saved_account}

-- The first value with an identifier is the first account with it.
pub first_filter :
    (f : Value → Bool) (m : Number)
    → ((v : Value) (a : Account) → IsAccountOf v a → f v ≡ Number.same (pos a.id) m)
    → (vs : List Value) (as' : List Account) → AreAccounts vs as'
    → ((filter f vs ≡ []) × (find_id m as' ≡ none))
      ⊎ ((x : Value) × (rest : List Value) × (b : Account) × (filter f vs ≡ x ∷ rest)
          × (find_id m as' ≡ some b)
          × IsAccountOf x b)
first_filter f m e [] [] h = inl (refl, refl)
first_filter f m e [] (a ∷ as') h = elim h [ ]
first_filter f m e (v ∷ vs) [] h = elim h [ ]
first_filter f m e (v ∷ vs) (a ∷ as') h = elim (Bool-cases (Number.same (pos a.id) m)) [
  | inl yes' ↦ inr (v, filter f vs, a, rw (e v a h.0, yes') refl, rw yes' refl, h.0)
  | inr no' ↦ elim (first_filter f m e vs as' h.1) [
    | inl (k, l) ↦ inl (rw (e v a h.0, no') k, rw no' l)
    | inr (x, rest, b, k, l, i) ↦ inr (x, rest, b, rw (e v a h.0, no') k, rw no' l, i)
  ]
]

same_sym : (n : ℕ) (a : Account) → Number.same (pos n) (pos a.id) ≡ Number.same (pos a.id) (pos n)
same_sym n a = ground arith

own_id :
    (n : ℕ) (v : Value) (a : Account)
    → IsAccountOf v a
    → same_value (number (pos n)) (prop "ID" v) ≡ Number.same (pos a.id) (pos n)
unfolding same_value
own_id n v a h = rw (h.has.has_id) (same_sym n a)

pub menu_id :
    (m : Number) (v : Value) (a : Account)
    → IsAccountOf v a
    → same_value (prop "ID" v) (number m) ≡ Number.same (pos a.id) m
unfolding same_value
menu_id m v a h = rw (h.has.has_id) refl

nan_id :
    (v : Value) (a : Account)
    → IsAccountOf v a
    → same_value (number nan) (prop "ID" v) ≡ Number.same (pos a.id) nan
unfolding same_value
nan_id v a h = rw (h.has.has_id) refl

find_id-nan : (as' : List Account) → find_id nan as' ≡ none
find_id-nan [] = refl
find_id-nan (a ∷ as') = find_id-nan as'

-- What the callback of the accounts picks.
unfoldable pub Picks : Value → SessionStorage → List Value → Current → Type 0
Picks v s vs c =
    (v' : Value) × (s' : SessionStorage) × (pick_account v s vs ≡ some (v', s')) × IsCurrent v' s' c

saved-some :
    (v : Value) (s s' : SessionStorage) → save_account v s ≡ some s' → saved v s ≡ some (v, s')
saved-some v s s' e = rw (e, saved) refl

-- Where nothing is selected and the session has no code, the first account is taken.
takes_first :
    (v : Value) (s : SessionStorage)
    → IsCurrent v s fresh
    → (not (truthy (prop "ID" v)) && not (truthy (prop "AuthorityID" (get_account s)))) ≡ true
unfolding get_account prop get
takes_first v s h = rw (h.0.no_id, h.2) refl

fresh-Picks :
    (v : Value) (s : SessionStorage) (vs : List Value) (as' : List Account)
    → IsCurrent v s fresh
    → AreAccounts vs as'
    → Picks v s vs (arrived fresh as')
unfolding Picks pick_account
fresh-Picks v s [] [] h k = (v, s, rw (takes_first v s h) refl, h)
fresh-Picks v s [] (a ∷ as') h k = elim k [ ]
fresh-Picks v s (x ∷ vs) [] h k = elim k [ ]
fresh-Picks v s (x ∷ vs) (a ∷ as') h k =
    let (s', e, i) = saved_account x a s k.0 in
    (x, s', rw (takes_first v s h) (saved-some x s s' e), (k.0, i))

pub blocked_stays :
    (v : Value) (s : SessionStorage) (vs : List Value) (as' : List Account)
    → IsCurrent v s blocked
    → AreAccounts vs as'
    → pick_account v s vs ≡ some (v, s)
unfolding pick_account get_account prop get
blocked_stays v s vs as' h k =
    elim (first_filter (λ a. same_value (number nan) (prop "ID" a)) nan nan_id vs as' k) [
      | inl (nobody, _) ↦ rw (pick_account, h.0.no_id, h.1.code, nobody) refl
      | inr (x, rest, b, _, found, _) ↦ absurd (none-ne-some b (sym (find_id-nan as') ∙ found))
    ]
  where
    none-ne-some : (b : Account) → none ≡ some b → ⊥
    none-ne-some b e = cc

blocked-Picks :
    (v : Value) (s : SessionStorage) (vs : List Value) (as' : List Account)
    → IsCurrent v s blocked
    → AreAccounts vs as'
    → Picks v s vs blocked
unfolding Picks
blocked-Picks v s vs as' h k = (v, s, blocked_stays v s vs as' h k, h)

chosen-Picks :
    (v : Value) (s : SessionStorage) (a : Account) (vs : List Value) (as' : List Account)
    → IsCurrent v s (chosen a)
    → AreAccounts vs as'
    → Picks v s vs (arrived (chosen a) as')
unfolding Picks pick_account
chosen-Picks v s a vs as' h k =
    let set : truthy (number (pos a.id)) ≡ true = let p = h.0.positive in ground arith in
    elim (first_filter (λ x. same_value (number (pos a.id)) (prop "ID" x)) (pos a.id) (own_id a.id)
      vs as' k) [
        | inl (nobody, missing) ↦
            rw missing (v, s, rw (pick_account, h.0.has.has_id, set, nobody) refl, h)
        | inr (x, rest, b, first, found, is_b) ↦
            let (s', e, i) = saved_account x b s is_b in
            rw found (
              x,
              s',
              rw (pick_account, h.0.has.has_id, set, first) (saved-some x s s' e),
              (is_b, i),
            )
      ]

pub picks :
    (v : Value) (s : SessionStorage) (c : Current) (vs : List Value) (as' : List Account)
    → IsCurrent v s c
    → AreAccounts vs as'
    → Picks v s vs (arrived c as')
picks v s fresh vs as' h k = fresh-Picks v s vs as' h k
picks v s blocked vs as' h k = blocked-Picks v s vs as' h k
picks v s (chosen a) vs as' h k = chosen-Picks v s a vs as' h k
