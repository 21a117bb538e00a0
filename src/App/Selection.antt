-- ===== src/App/Selection.antt =====
-- The account that webapp-admin/src/App.js selects when the list of the accounts arrives.
use identity_vault.Common.{
  Bool, true, not, ◌&&◌, ◌≡◌, refl, ◌⊎◌, inl, inr, some, List, [], ◌∷◌, arith, filter, IsIn,
  Bool-cases,
}
use identity_vault.Common.Value.{Value, prop, truthy, same_value}
use identity_vault.Utils.{SessionStorage, get_account, save_account}
use identity_vault.App.{pick_account, take_first, saved}

saved_cases :
    (a picked : Value) (session session' : SessionStorage)
    → saved a session ≡ some (picked, session')
    → (picked ≡ a) × (save_account a session ≡ some session')
saved_cases a picked session session' h = ground arith

-- Of a list the one taken is its first, saved, or the list is empty and nothing changes.
take_first_cases :
    (selected picked : Value) (session session' : SessionStorage) (xs : List Value)
    → take_first selected session xs ≡ some (picked, session')
    → ((xs ≡ []) × (picked ≡ selected) × (session' ≡ session))
      ⊎ (IsIn picked xs × (save_account picked session ≡ some session'))
take_first_cases selected picked session session' [] h = inl (refl, ground arith, ground arith)
take_first_cases selected picked session session' (x ∷ xs) h =
    let (e, f) = saved_cases x picked session session' h in inr (inl e, rw e f)

IsIn-filter :
    (f : Value → Bool) (a : Value) (xs : List Value)
    → IsIn a (filter f xs)
    → IsIn a xs × (f a ≡ true)
IsIn-filter f a [] h = elim h [ ]
IsIn-filter f a (x ∷ xs) h = elim (Bool-cases (f x)) [
  | inl kept ↦ elim (rw kept at h) [
    | inl e ↦ (inl e, rw e kept)
    | inr later ↦ let (m, t) = IsIn-filter f a xs later in (inr m, t)
  ]
  | inr dropped ↦ let (m, t) = IsIn-filter f a xs (rw dropped at h) in (inr m, t)
]

-- When the list of the accounts is in, the selected account and the session are as before, or the
-- selected one is an account of the list and is the one saved to the session; with an identifier
-- selected before, this account has the same identifier.
pub pick_account_cases :
    (selected picked : Value) (session session' : SessionStorage) (accounts : List Value)
    → pick_account selected session accounts ≡ some (picked, session')
    → ((picked ≡ selected) × (session' ≡ session))
      ⊎ (IsIn picked accounts
          × (save_account picked session ≡ some session')
          × (truthy (prop "ID" selected) ≡ true
              → same_value (prop "ID" selected) (prop "ID" picked) ≡ true))
unfolding pick_account
pick_account_cases selected picked session session' accounts h =
    elim (Bool-cases (
      not (truthy (prop "ID" selected))
      && not (truthy (prop "AuthorityID" (get_account session))))) [
        | inl fresh ↦
            elim (take_first_cases selected picked session session' accounts (rw fresh at h)) [
              | inl (_, e, f) ↦ inl (e, f)
              | inr taken ↦ inr (taken.0, taken.1, λ t. ground arith)
            ]
        | inr chosen ↦
            elim (take_first_cases selected picked session session'
              (filter (λ a. same_value (prop "ID" selected) (prop "ID" a)) accounts)
              (rw chosen at h)) [
                | inl (_, e, f) ↦ inl (e, f)
                | inr taken ↦
                    let (m, t) =
                      IsIn-filter (λ a. same_value (prop "ID" selected) (prop "ID" a)) picked
                        accounts taken.0 in
                    inr (m, taken.1, λ u. t)
              ]
      ]
