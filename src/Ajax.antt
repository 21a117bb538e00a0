-- ===== src/Ajax.antt =====
-- webapp-admin/src/models/Ajax.js: a call is the requests that it makes, one after the other, each
-- made from the answers to those before it; the answer to the last is what the page is given.
pub mod Csrf
use identity_vault.Common.{String, Option, none, some, List, [], ◌∷◌}
use identity_vault.Common.Text.{◌<>◌}
use identity_vault.Common.Value.{Value, undefined}
use identity_vault.Http.{Method, get, post, put, delete, Request, Response}

pub data Call : Type 0 where
  last : Request → Call
  after : Request → (Response → Call) → Call

abbrev pub api_version : String
api_version = "/v1/"

-- `Ajax.get(url, qs)`; without `qs` it is the empty object.
unfoldable pub ajax_get : String → List (String × Value) → Call
ajax_get url qs =
    last (record { method = get; url = api_version <> url; csrf = none; qs = qs; json = undefined })

abbrev pub get_token : Request
get_token = record {
  method = get;
  url = api_version <> "token";
  csrf = none;
  qs = [];
  json = undefined;
}

abbrev pub with_token : Method → String → Value → Response → Request
with_token method url data' response = record {
  method = method;
  url = api_version <> url;
  csrf = some response.csrf;
  qs = [];
  json = data';
}

unfoldable pub ajax_post : String → Value → Call
ajax_post url data' = after get_token (λ response. last (with_token post url data' response))

unfoldable pub ajax_put : String → Value → Call
ajax_put url data' = after get_token (λ response. last (with_token put url data' response))

unfoldable pub ajax_delete : String → Value → Call
ajax_delete url data' = after get_token (λ response. last (with_token delete url data' response))

unfoldable pub get_auth_token_call : Call
unfolding ajax_get
get_auth_token_call = ajax_get "authtoken" []

-- A server answers a request in its state. The call runs against it; the requests are listed too.
unfoldable pub run {ℓ} :
    {S : Type ℓ} → (Request → S → Response × S) → Call → S → Response × S × List Request
run server (last r) s = let (response, s') = server r s in (response, s', r ∷ [])
run server (after r k) s =
    let (response, s') = server r s in
    let (final, s'', rs) = run server (k response) s' in (final, s'', r ∷ rs)
