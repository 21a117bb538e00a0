-- ===== src/Server/Users/Decoding.antt =====
-- The decoding of a body as a `Request`, handlers_users.go, by the library encoding/json: a text, a
-- number and a list of texts under the names of the fields. What is missing or null leaves a field
-- empty, and another kind of value is an error, whose text is a parameter. NaN is sent as null.
use identity_vault.Common.{String, ◌≡◌, refl, Option, none, some, List, [], ◌∷◌, map}
use identity_vault.Common.Number.{Number, nan, pos}
use identity_vault.Common.Value.{
  Value, undefined, null, number, str, object, array, Items, nil, cons, items, get,
}
use identity_vault.Server.Users.{Decoded, malformed, request, Request}

abbrev pub text_of : Value → Option String
text_of undefined = some ""
text_of null = some ""
text_of (str s) = some s
text_of v = none

abbrev pub int_of : Value → Option Number
int_of undefined = some (pos 0)
int_of null = some (pos 0)
int_of (number nan) = some (pos 0)
int_of (number n) = some n
int_of v = none

abbrev prepend : Option String → Option (List String) → Option (List String)
prepend (some s) (some ss) = some (s ∷ ss)
prepend _ _ = none

abbrev pub items_of : Items → Option (List String)
items_of nil = some []
items_of (cons v vs) = prepend (text_of v) (items_of vs)

abbrev pub texts_of : Value → Option (List String)
texts_of undefined = some []
texts_of null = some []
texts_of (array vs) = items_of vs
texts_of v = none

abbrev pub or_malformed : String → Option Request → Decoded
or_malformed error none = malformed error
or_malformed error (some r) = request r

abbrev decoded :
    Option String
    → Option String
    → Option String
    → Option String
    → Option Number
    → Option (List String)
    → Option Request
decoded (some username) (some name) (some email) (some api_key) (some role) (some accounts) =
    some (record {
      username = username;
      name = name;
      email = email;
      api_key = api_key;
      role = role;
      accounts = accounts;
    })
decoded _ _ _ _ _ _ = none

unfoldable pub decode : String → Value → Decoded
unfolding get
decode error undefined = malformed error
decode error null =
    request
      (record { username = ""; name = ""; email = ""; api_key = ""; role = pos 0; accounts = [] })
decode error (object fs) = or_malformed error (
    decoded (text_of (get "username" fs)) (text_of (get "name" fs)) (text_of (get "email" fs))
      (text_of (get "api_key" fs)) (int_of (get "role" fs)) (texts_of (get "accounts" fs)))
decode error v = malformed error

-- A list of texts is read back.
pub items_of-items : (ss : List String) → items_of (items (map str ss)) ≡ some ss
items_of-items [] = refl
items_of-items (s ∷ ss) = rw (items_of-items ss) refl
