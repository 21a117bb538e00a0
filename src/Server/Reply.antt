-- ===== src/Server/Reply.antt =====
-- service/response/response.go: the answers of the handlers. The encoding of a value as JSON is a
-- parameter.
use identity_vault.Common.{ℕ, String, Bool, Option, none, some, [], ◌∷◌, if◌then◌else◌}
use identity_vault.Common.Text.{◌<>◌}
use identity_vault.Common.Value.{Value, flag, str, object, fields}
use identity_vault.Http.{Response}

-- `http.ResponseWriter`: the status is written once.
pub record Writer : Type 0 where
  pub status : Option ℕ
  pub content_type : Option String
  pub csrf : Option String
  pub authorization : Option String
  pub body : String

abbrev pub new_writer : Writer
new_writer = record {
  status = none;
  content_type = none;
  csrf = none;
  authorization = none;
  body = "";
}

abbrev pub or_status : Option ℕ → ℕ → ℕ
or_status none n = n
or_status (some m) n = m

abbrev pub write_header : ℕ → Writer → Writer
write_header n w = record w { status = some (or_status w.status n) }

abbrev pub json_header : String
json_header = "application/json; charset=UTF-8"

abbrev pub as_json : Writer → Writer
as_json w = record w { content_type = some json_header }

-- `json.NewEncoder(w).Encode(v)`; what is written before a status is sent with 200.
abbrev pub encode_to : (Value → String) → Value → Writer → Writer
encode_to encode v w = record w {
  status = some (or_status w.status 200);
  body = w.body <> encode v;
}

-- `StandardResponse`
abbrev pub standard : Bool → String → String → String → Value
standard success code subcode message = object (
    fields (
      ("success", flag success)
      ∷ ("error_code", str code)
      ∷ ("error_subcode", str subcode)
      ∷ ("message", str message)
      ∷ []))

unfoldable pub format_standard :
    (Value → String) → Bool → String → String → String → Writer → Writer
format_standard encode success code subcode message w =
    let w' = as_json w in
    encode_to encode (standard success code subcode message)
      (if success then w' else write_header 400 w')

-- What the client is sent.
abbrev pub answer : Writer → Response
answer w = record {
  status_code = or_status w.status 200;
  content_type = w.content_type;
  csrf = w.csrf;
  authorization = w.authorization;
  body = w.body;
}
