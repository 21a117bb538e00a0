-- ===== src/Ajax/Csrf.antt =====
-- The token that webapp-admin/src/models/Ajax.js sends with a request.
use identity_vault.Common.{String, ◌≡◌, refl, ◌⊎◌, inl, inr, Option, some, List, ap, sym}
use identity_vault.Common.Value.{Value}
use identity_vault.Http.{get, Request, Response}
use identity_vault.Ajax.{Call, last, after, ajax_get, ajax_post, ajax_put, ajax_delete, get_token}

-- A server with its protection against forged requests: the token that it expects in each state, and
-- that an answer to GET /v1/token is the answer's header.
pub record CsrfServer (S : Type 0) : Type 0 where
  pub server : Request → S → Response × S
  pub expected : S → Option String
  pub issues : (s : S) → expected (server get_token s).1 ≡ (server get_token s).0.csrf

module _ {S : Type 0} (c : CsrfServer S) where
  -- The request changes nothing, or has the token that the server expects.
  abbrev pub IsAccepted : Request → S → Type 0
  IsAccepted r s = (r.method ≡ get) ⊎ (r.csrf ≡ some (c.expected s))

  -- Each request of the call is accepted in the state in which it arrives.
  abbrev pub AllAccepted : Call → S → Type 0
  AllAccepted (last r) s = IsAccepted r s
  AllAccepted (after r k) s = IsAccepted r s × AllAccepted (k (c.server r s).0) (c.server r s).1

-- Whatever the path, the data and the state of the server, none of the four calls is refused for
-- its token: reads need none, and each change is sent with the token issued just before it.
pub ajax_accepted :
    {S : Type 0} (c : CsrfServer S) (url : String) (qs : List (String × Value)) (data' : Value)
    (s : S)
    → AllAccepted c (ajax_get url qs) s
      × AllAccepted c (ajax_post url data') s
      × AllAccepted c (ajax_put url data') s
      × AllAccepted c (ajax_delete url data') s
unfolding ajax_get ajax_post ajax_put ajax_delete
ajax_accepted c url qs data' s =
    let token = ap some (sym (c.issues s)) in
    (inl refl, (inl refl, inr token), (inl refl, inr token), (inl refl, inr token))
