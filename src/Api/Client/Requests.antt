-- ===== src/Api/Client/Requests.antt =====
-- How often `apiClient` of frontend/src/api/client.ts calls the server, with what, and what that
-- does to the session.
use locketgoldhuydev.Prelude.{◌≡◌, ◌≢◌, false, some, arith, String, Text}
use locketgoldhuydev.Api.Types.{Answer, Options, Request, bearer}
use locketgoldhuydev.Api.Client.{
  Client, World, refresh_request, request_of, request_headers, authorize, retry_options,
  is_auth_endpoint,
}
use locketgoldhuydev.Api.Client.Steps.{SameSession, after}

-- The second attempt carries the new token, whatever the caller's headers were.
pub retry_bearer :
    (url : Text) (token : String) (o : Options) (c : Client)
    → (request_of url (retry_options token o) c).headers.authorization ≡ some (bearer token)
unfolding request_of request_headers retry_options authorize
retry_bearer url token o c = ground arith

module _ {S : Type 0} (fetch : Request → S → Answer × S) where
  -- The requests of one call, in order: the request; or the request and a refresh; or, with the
  -- token that the refresh gave, the request a second time.
  pub data Trace (url : Text) (o : Options) (w : World fetch) : S → Type 0 where
    once : {s : S} → s ≡ after fetch (request_of url o w.client) w.server → Trace url o w s
    with_refresh :
        {s : S} (c : Client)
        → o.is_retry ≡ false
        → is_auth_endpoint url ≡ false
        → SameSession w.client c
        → s ≡ after fetch (refresh_request c) (after fetch (request_of url o w.client) w.server)
        → Trace url o w s
    with_retry :
        {s : S} (c c' : Client) (token : String)
        → o.is_retry ≡ false
        → is_auth_endpoint url ≡ false
        → SameSession w.client c
        → c'.access_token ≡ some token
        → token ≢ ""
        → s
          ≡ after fetch
              (request_of url (retry_options token o) c')
              (after fetch (refresh_request c) (after fetch (request_of url o w.client) w.server))
        → Trace url o w s
