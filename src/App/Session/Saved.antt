-- ===== src/App/Session/Saved.antt =====
-- Accounts of the pages and of the session storage, webapp-admin/src/components/Utils.js, beside their
-- abstract view.
use identity_vault.Common.{◌≡◌, refl, ap, ◌≤◌, none, some, List, [], ◌∷◌}
use identity_vault.Common.Number.{nan, parse_int, show_number}
use identity_vault.Common.Value.{Value, number, object, get, prop, to_text, parse_value}
use identity_vault.Utils.{SessionStorage, save_account, get_account}
use identity_vault.Utils.Accounts.{HasAccount, get_account-save_account}
use identity_vault.App.Session.{Account, Current, fresh, blocked, chosen}

-- The value is this account; its identifier is a positive number.
pub record IsAccountOf (v : Value) (a : Account) : Type 0 where
  pub has : HasAccount v a.id a.code a.assertion a.reseller
  pub positive : 1 ≤ a.id

pub saved_account :
    (v : Value) (a : Account) (session : SessionStorage)
    → IsAccountOf v a
    → (session' : SessionStorage) × (save_account v session ≡ some session')
      × IsAccountOf (get_account session') a
saved_account v a session h =
    let (session', e, k) =
      get_account-save_account v a.id a.code a.assertion a.reseller session h.has in
    (session', e, record { has = k; positive = h.positive })

-- The value is what the session gives where it holds no account.
pub record IsUnset (v : Value) : Type 0 where
  pub no_id : prop "ID" v ≡ number nan
  pub no_code : to_text (prop "AuthorityID" v) ≡ "null"

-- The session holds the texts of such a value.
pub record IsBlank (session : SessionStorage) : Type 0 where
  pub id : session.account_id ≡ some "NaN"
  pub code : session.account_code ≡ some "null"

pub saved_unset :
    (v : Value) (session : SessionStorage)
    → IsUnset v
    → (session' : SessionStorage) × (save_account v session ≡ some session') × IsBlank session'
unfolding save_account prop get to_text show_number
saved_unset (object fs) session h = (
  record {
    account_id = some (to_text (get "ID" fs));
    account_code = some (to_text (get "AuthorityID" fs));
    account_assertion = some (to_text (get "Assertion" fs));
    account_reseller = some (to_text (get "ResellerAPI" fs));
  },
  refl,
  record { id = rw (h.no_id) refl; code = ap some h.no_code },
)
saved_unset v session h = cc (h.no_id)

pub IsUnset-get_account_blank :
    (session : SessionStorage) → IsBlank session → IsUnset (get_account session)
unfolding get_account prop get to_text parse_value parse_int
IsUnset-get_account_blank session h = record { no_id = rw (h.id) refl; no_code = rw (h.code) refl }

pub IsUnset-get_account_empty :
    (session : SessionStorage)
    → session.account_id ≡ none
    → session.account_code ≡ none
    → IsUnset (get_account session)
unfolding get_account prop get to_text parse_value parse_int
IsUnset-get_account_empty session h k = record { no_id = rw h refl; no_code = rw k refl }

-- The values are these accounts, in order.
abbrev pub AreAccounts : List Value → List Account → Type 0
AreAccounts [] [] = Unit
AreAccounts (v ∷ vs) (a ∷ as') = IsAccountOf v a × AreAccounts vs as'
AreAccounts _ _ = ⊥

-- The selected value and the session hold the current account.
abbrev pub IsCurrent : Value → SessionStorage → Current → Type 0
IsCurrent v s fresh = IsUnset v × (s.account_id ≡ none) × (s.account_code ≡ none)
IsCurrent v s blocked = IsUnset v × IsBlank s
IsCurrent v s (chosen a) = IsAccountOf v a × IsAccountOf (get_account s) a
