-- ===== src/Http.antt =====
-- Requests and answers of the library then-request, as webapp-admin/src/models/Ajax.js and the pages
-- read them. `JSON.parse` is a parameter of the pages' callbacks: `none` stands for its exception.
use identity_vault.Common.{ℕ, String, Bool, Option, none, some, List, leb}
use identity_vault.Common.Value.{Value, undefined, null}

pub data Method : Type 0 where
  get post put delete : Method

-- `qs` and `json` are the options of the same names; `csrf` is the header X-CSRF-Token, with `none`
-- where the call sets no such header and `some none` where its value is undefined.
pub record Request : Type 0 where
  pub method : Method
  pub url : String
  pub csrf : Option (Option String)
  pub qs : List (String × Value)
  pub json : Value

-- `csrf` is the header x-csrf-token.
pub record Response : Type 0 where
  pub status_code : ℕ
  pub content_type : Option String
  pub csrf : Option String
  pub authorization : Option String
  pub body : String

abbrev pub JsonParse : Type 0
JsonParse = String → Option Value

-- The parsed body. Each callback goes on to read a property of it, so that `null` throws as a text
-- that is no JSON does: `none` stands for a callback that stops before it has any effect.
abbrev pub readable : Value → Option Value
readable undefined = none
readable null = none
readable v = some v

abbrev no_value : Option Value → Option Value
no_value none = none
no_value (some v) = readable v

unfoldable pub parsed : JsonParse → Response → Option Value
parsed parse response = no_value (parse response.body)

-- `response.statusCode >= 300`
abbrev pub failed : Response → Bool
failed response = leb 300 response.status_code
