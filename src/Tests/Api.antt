-- ===== src/Tests/Api.antt =====
-- Runs of frontend/src/api/client.ts with a small server.
use locketgoldhuydev.Prelude.{
  ℕ, suc, ◌≡◌, refl, true, false, none, some, List, [], ◌∷◌, ◌++◌, map, Text, codes, includes,
  starts_with, ◌==◌, if◌then◌else◌,
}
use locketgoldhuydev.Api.Types.{
  Fields, json, json_null, Answer, answered, get, nothing, raw, Request, Options,
}
use locketgoldhuydev.Api.Client.{
  Client, auth_success, World, no_headers, refreshed, finish_refresh, request_of, request_headers,
  authorize, retry_options, refresh_request, learn_csrf, reply_of, is_token_expired,
  is_auth_endpoint, settle, request_token_refresh, round_trip, recover, attempt, api_client,
  set_csrf_token, set_access_token, reject_session, accept_session,
}
use locketgoldhuydev.Api.Client.Refresh.{Outcome, finish_refresh-Outcome}
use locketgoldhuydev.Api.Client.Attempts.{attempt-api_client}
use locketgoldhuydev.Api.Client.SingleFlight.{Mutex, Event, ask, settled, run, join, run_shared}

abbrev pub blank : Fields
blank = record {
  success = true;
  user = none;
  access_token = none;
  csrf_token = none;
  msg = none;
  error = none;
}

abbrev pub expired : Fields
expired = record blank { success = false; error = some "access_token_expired" }

abbrev pub renewal : Fields
renewal = record blank { access_token = some "t2" }

-- It counts its requests. The first request with a token finds it expired; one without a token gets
-- a new session.
abbrev pub serve : Request → ℕ → Answer × ℕ
serve r n = (
  elim r.headers.authorization [
    | none ↦ answered 200 (json renewal)
    | some k ↦ if n == 0 then answered 401 (json expired) else answered 200 (json blank)
  ],
  suc n,
)

abbrev pub user_client : Client
user_client = record {
  access_token = some "t1";
  csrf_token = some "c1";
  on_auth_failure = true;
  on_auth_success = true;
}

abbrev pub user_world : World serve
user_world = record { client = user_client; notices = []; server = 0 }

abbrev plain_get : Options
plain_get = record { method = get; headers = no_headers; payload = nothing; is_retry = false }

abbrev orders : Text
orders = codes "/api/orders"

retry_test : (api_client serve orders plain_get user_world).1 ≡ record {
  client = record user_client { access_token = some "t2" };
  notices = auth_success "t2" none ∷ [];
  server = 3;
}
unfolding api_client recover round_trip request_token_refresh request_of request_headers authorize
    retry_options refresh_request learn_csrf reply_of is_token_expired is_auth_endpoint settle
    finish_refresh refreshed reject_session accept_session set_access_token set_csrf_token includes
    starts_with
retry_test = refl

attempt-api_client_example :
    attempt serve 5 orders plain_get user_world
    ≡ some (api_client serve orders plain_get user_world)
attempt-api_client_example = attempt-api_client serve 3 orders plain_get user_world

login_path : is_auth_endpoint (codes "/api/auth/login") ≡ true
unfolding is_auth_endpoint includes starts_with
login_path = refl

abbrev own_header : Options
own_header = record plain_get {
  headers = record no_headers { authorization = some (raw "Basic x") };
}

finish_refresh-Outcome_example :
    Outcome user_client (finish_refresh (answered 200 (json renewal)) user_client)
finish_refresh-Outcome_example = finish_refresh-Outcome (answered 200 (json renewal)) user_client

revoked : (finish_refresh (answered 403 json_null) user_client).0.access_token ≡ none
unfolding finish_refresh reject_session set_access_token
revoked = refl

abbrev idle_mutex : Mutex
idle_mutex = record { promise = none; network_calls = 4; results = [] }

run_shared_example :
    run idle_mutex (ask 1 ∷ (map ask (2 ∷ 3 ∷ []) ++ settled (some "t2") ∷ [])) ≡ record {
      promise = none;
      network_calls = 5;
      results = map (λ k. (k, some "t2")) (join (2 ∷ 3 ∷ []) (1 ∷ [])) ++ [];
    }
run_shared_example = run_shared idle_mutex 1 (2 ∷ 3 ∷ []) (some "t2") refl

abbrev traffic : List Event
traffic = ask 1 ∷ ask 2 ∷ settled none ∷ ask 1 ∷ []
