-- ===== src/Utils/Roles.antt =====
-- The role tests and `getAuthToken` of webapp-admin/src/components/Utils.js.
use identity_vault.Common.{
  ℕ, String, true, false, ◌≡◌, refl, ◌↔◌, Option, none, some, arith, ◌≤◌, ◌⊎◌,
}
use identity_vault.Utils.{
  Role, admin, superuser, level, Token, is_set, or_empty, is_user, has_level, get_auth_token,
}
use identity_vault.Common.Value.{Value, truthy, prop}
use identity_vault.Http.{Response, JsonParse, parsed}

has_level_sound :
    (role : Role) (o : Option ℕ)
    → has_level (level role) o ≡ true
    → (r : ℕ) × (o ≡ some r) × (level role ≤ r)
has_level_sound role none h = cc
has_level_sound role (some r) h = (r, refl, ground arith)

has_level_complete : (role : Role) (r : ℕ) → level role ≤ r → has_level (level role) (some r) ≡ true
has_level_complete role r h = ground arith

-- A token passes the test for a role exactly when it carries a number that reaches the role's; no
-- token passes none.
pub is_user_iff :
    (role : Role) (token : Option Token)
    → (is_user role token ≡ true)
      ↔ ((t : Token) × (r : ℕ) × (token ≡ some t) × (t.role ≡ some r) × (level role ≤ r))
unfolding is_user
is_user_iff role none = (λ h. cc, λ h. cc (h.2))
is_user_iff role (some t) = (
  λ h. let (r, e, l) = has_level_sound role t.role h in (t, r, refl, e, l),
  λ h. reached h.0 h.1 h.2 h.3 h.4,
)
  where
    reached :
        (u : Token) (r : ℕ)
        → some t ≡ some u
        → u.role ≡ some r
        → level role ≤ r
        → has_level (level role) t.role ≡ true
    reached u r e f l = ground (arith, has_level_complete role r l)

-- The roles are ordered: who passes the test for a role passes the test for each below it.
pub is_user_mono :
    (low high : Role) (token : Option Token)
    → level low ≤ level high
    → is_user high token ≡ true
    → is_user low token ≡ true
is_user_mono low high token le h =
    let (t, r, e, f, l) = (is_user_iff high token).0 h in
    (is_user_iff low token).1 (t, r, e, f, omega arith)

-- With user authentication off the caller becomes an administrator and no superuser, whatever
-- headers the answer has; with it on and no authorization header, or one that decodes to nothing,
-- the caller passes the test for no role.
pub get_auth_token_default :
    (jwt_decode : String → Option (Option Token)) (parse : JsonParse) (response : Response)
    (data' : Value)
    → parsed parse response ≡ some data'
    → (truthy (prop "enableUserAuth" data') ≡ false
        → (is_user admin (get_auth_token jwt_decode parse response) ≡ true)
          × (is_user superuser (get_auth_token jwt_decode parse response) ≡ false))
      × (truthy (prop "enableUserAuth" data') ≡ true
          → (is_set response.authorization ≡ false)
            ⊎ (jwt_decode (or_empty response.authorization) ≡ some none)
          → (role : Role) → is_user role (get_auth_token jwt_decode parse response) ≡ false)
unfolding get_auth_token is_user
get_auth_token_default jwt_decode parse response data' e =
    (λ h. ground arith, λ h d role. ground arith)
