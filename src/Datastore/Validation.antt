-- ===== src/Datastore/Validation.antt =====
-- The checks of a user before it is stored, datastore/validator.go, useradapter.go and the API key of
-- modeladapter.go. `strings.ToLower` is a parameter; the texts that it leaves alone are the lower ones.
use identity_vault.Common.{
  ℕ, String, Bool, true, false, not, ◌&&◌, ◌||◌, Option, none, some, List, [], ◌∷◌, all,
  if◌then◌else◌, str_eq, leb, ◌==◌, length,
}
use identity_vault.Common.Number.{Number, pos}
use identity_vault.Common.Text.{codes, split, ◌<>◌}
use identity_vault.Datastore.{Error, invalid, Row}

-- The white space of `strings.TrimSpace`.
abbrev pub is_space : ℕ → Bool
is_space c =
    (leb 9 c && leb c 13)
    || c == 32
    || c == 133
    || c == 160
    || c == 5760
    || (leb 8192 c && leb c 8202)
    || c == 8232
    || c == 8233
    || c == 8239
    || c == 8287
    || c == 12288

-- `len(strings.TrimSpace(s)) == 0`
unfoldable pub is_blank : String → Bool
is_blank s = all is_space (codes s)

-- `\S`
abbrev pub is_visible : ℕ → Bool
is_visible c = not ((leb 9 c && leb c 10) || c == 12 || c == 13 || c == 32)

abbrev filled : List ℕ → Bool
filled [] = false
filled (c ∷ cs) = true

-- `^\S+$`
unfoldable pub is_nickname : String → Bool
is_nickname s = filled (codes s) && all is_visible (codes s)

abbrev pub is_alpha : ℕ → Bool
is_alpha c = (leb b'a' c && leb c b'z') || (leb b'A' c && leb c b'Z')

abbrev pub is_alnum : ℕ → Bool
is_alnum c = is_alpha c || (leb b'0' c && leb c b'9')

-- `[_\.0-9a-zA-Z-+=]`
abbrev pub is_local : ℕ → Bool
is_local c = is_alnum c || c == b'_' || c == b'.' || c == b'-' || c == b'+' || c == b'='

-- `(([0-9a-zA-Z-]{1,}\.)*)[a-zA-Z]{2,}$`, of the parts between the full stops.
abbrev pub is_domain : List String → Bool
is_domain [] = false
is_domain (p ∷ []) = leb 2 (length (codes p)) && all is_alpha (codes p)
is_domain (p ∷ q ∷ ps) =
    let rest = is_domain (q ∷ ps) in
    filled (codes p) && all (λ c. is_alnum c || c == b'-') (codes p) && rest

abbrev is_address : List String → Bool
is_address (user ∷ domain ∷ []) =
    filled (codes user) && all is_local (codes user) && is_domain (split b'.' domain)
is_address _ = false

-- `validEmailPattern`: no class in it has the @.
unfoldable pub is_email : String → Bool
unfolding split
is_email s = is_address (split b'@' s)

-- `validateNotEmpty`; the field names of the callers are not blank.
unfoldable pub validate_not_empty : String → String → Option Error
unfolding is_blank
validate_not_empty field value =
    if is_blank value then some (invalid (field <> " must not be empty")) else none

abbrev pub or_next : Option Error → Option Error → Option Error
or_next none e = e
or_next (some e) _ = some e

-- `validateSyntax`, with the test of its expression and the text that names it.
unfoldable pub validate_syntax :
    (String → String) → String → String → (String → Bool) → String → Option Error
unfolding validate_not_empty
validate_syntax to_lower field value matches shown = or_next (validate_not_empty field value) (
    if not (str_eq (to_lower value) value)
    then some (invalid (field <> " must not contain uppercase characters"))
    else if not (matches value)
    then some (invalid (field <> " contains invalid characters, allowed " <> shown))
    else none)

abbrev pub is_role : Number → Bool
is_role (pos n) = n == 100 || n == 150 || n == 200 || n == 300
is_role _ = false

unfoldable pub validate_role : Number → Option Error
validate_role role = if is_role role then none else some (invalid "Role is not amongst valid ones")

-- `validateUser`
unfoldable pub validate_user : (String → String) → Row → Option Error
unfolding validate_syntax validate_not_empty validate_role is_nickname is_email
validate_user to_lower u =
    or_next (validate_syntax to_lower "Username" u.username is_nickname "\"^\\\\S+$\"") (
      or_next (validate_not_empty "Name" u.name) (
        or_next
          (validate_syntax to_lower "Email" u.email is_email
            "\"^[_\\\\.0-9a-zA-Z-+=]+@(([0-9a-zA-Z-]{1,}\\\\.)*)[a-zA-Z]{2,}$\"")
          (validate_role u.role)))
