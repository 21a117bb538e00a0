-- ===== src/Utils/Accounts.antt =====
-- `saveAccount` and `getAccount` of webapp-admin/src/components/Utils.js.
use identity_vault.Common.{ℕ, String, Bool, true, false, ◌≡◌, refl, ap, some}
use identity_vault.Common.Number.{pos, show_number}
use identity_vault.Common.Number.Laws.{parse_int-show}
use identity_vault.Common.Value.{
  Value, flag, number, str, object, get, prop, to_text, parse_value, same_value,
}
use identity_vault.Utils.{SessionStorage, save_account, get_account}

-- The four properties of an account that the session keeps.
pub record HasAccount (account : Value) (n : ℕ) (code assertion : String) (reseller : Bool)
    : Type 0 where
  pub has_id : prop "ID" account ≡ number (pos n)
  pub has_code : prop "AuthorityID" account ≡ str code
  pub has_assertion : prop "Assertion" account ≡ str assertion
  pub has_reseller : prop "ResellerAPI" account ≡ flag reseller

flag-text : (b : Bool) → same_value (str (to_text (flag b))) (str "true") ≡ b
unfolding same_value to_text
flag-text true = refl
flag-text false = refl

parse-number : (n : ℕ) → parse_value (str (to_text (number (pos n)))) ≡ pos n
unfolding parse_value to_text show_number
parse-number n = parse_int-show n

-- An account with a number, two texts and a flag is read back from the session storage with the
-- same four properties, whatever the session held before.
pub get_account-save_account :
    (account : Value) (n : ℕ) (code assertion : String) (reseller : Bool) (session : SessionStorage)
    → HasAccount account n code assertion reseller
    → (saved : SessionStorage) × (save_account account session ≡ some saved)
      × HasAccount (get_account saved) n code assertion reseller
unfolding save_account get_account prop get to_text
get_account-save_account (object fs) n code assertion reseller session h = (
  record {
    account_id = some (to_text (number (pos n)));
    account_code = some code;
    account_assertion = some assertion;
    account_reseller = some (to_text (flag reseller));
  },
  rw (h.has_id, h.has_code, h.has_assertion, h.has_reseller),
  record {
    has_id = ap number (parse-number n);
    has_code = refl;
    has_assertion = refl;
    has_reseller = ap flag (flag-text reseller);
  },
)
get_account-save_account account n code assertion reseller session h = cc (h.has_id)
