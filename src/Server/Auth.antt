-- ===== src/Server/Auth.antt =====
-- service/auth and the roles of datastore/usermanager.go: who makes a request, and what a handler asks
-- of the role. The verification of a token with the library jwt-go is a parameter.
use identity_vault.Common.{ℕ, String, Bool, not, ◌&&◌, Option, none, some, if◌then◌else◌, ltb, ◌==◌}
use identity_vault.Common.Text.{◌<>◌}
use identity_vault.Server.Reply.{Writer}

-- The constants of the roles.
abbrev pub invalid : ℕ
invalid = 0

abbrev pub standard : ℕ
standard = 100

abbrev pub sync_user : ℕ
sync_user = 150

abbrev pub admin : ℕ
admin = 200

abbrev pub superuser : ℕ
superuser = 300

-- The user that a handler is given.
pub record Caller : Type 0 where
  pub username : String
  pub role : ℕ

-- What the handlers read of the settings, of the request (the token of its header or cookie) and of the
-- library: the claims of a token that is genuine and valid.
pub record Gate : Type 0 where
  pub enable_user_auth : Bool
  pub jwt : Option String
  pub verify : String → Option Caller

-- `JWTCheck`: an error, no token as none is wanted, or the claims.
pub data Checked : Type 0 where
  bad : String → Checked
  off : Checked
  claims : String → Caller → Checked

abbrev checked_claims : String → Option Caller → Checked
checked_claims jwt none = bad "The authentication token is invalid"
checked_claims jwt (some c) = claims jwt c

abbrev checked_jwt : Gate → Option String → Checked
checked_jwt g none = bad "Error in retrieving the authentication token"
checked_jwt g (some jwt) = checked_claims jwt (g.verify jwt)

unfoldable pub jwt_check : Gate → Checked
jwt_check g = if g.enable_user_auth then checked_jwt g g.jwt else off

-- The header that it sets.
unfoldable pub with_bearer : Checked → Writer → Writer
with_bearer (claims jwt c) w = record w { authorization = some ("Bearer " <> jwt) }
with_bearer _ w = w

-- `GetUserFromJWT`
pub data User : Type 0 where
  unknown : String → User
  known : Caller → User

unfoldable pub get_user_from_jwt : Checked → User
get_user_from_jwt (bad e) = unknown e
get_user_from_jwt off = known (record { username = ""; role = invalid })
get_user_from_jwt (claims jwt c) = known c

-- `CheckUserPermissions`: whether there is no error.
unfoldable pub check_user_permissions : Gate → Caller → ℕ → Bool → Bool
check_user_permissions g user minimum api_call =
    if not api_call && not g.enable_user_auth
    then not (minimum == superuser)
    else not (ltb user.role minimum)
