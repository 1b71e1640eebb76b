-- ===== src/Api/Client.antt =====
-- frontend/src/api/client.ts: tokens in memory, the refresh of the session, and `apiClient`.
-- `fetch` is an argument, with the state of everything behind it passed along. The callbacks of the
-- session are messages in the order of their calls; a field says whether one is registered. The
-- timers only abort a fetch, which the answer `aborted` covers; the mutex of `requestTokenRefresh`
-- is Client/SingleFlight.
pub mod Refresh
pub mod Steps
pub mod Requests
pub mod Effects
pub mod SingleFlight
pub mod Attempts
use locketgoldhuydev.Prelude.{
  ℕ, zero, suc, Bool, true, false, not, ◌&&◌, ◌||◌, Option, none, some, List, [], ◌∷◌, ◌++◌, String,
  Text, codes, includes, truthy, or_null, str_eq, ◌==◌, if◌then◌else◌,
}
use locketgoldhuydev.Api.Types.{
  AuthUser, Fields, Body, json, json_value, malformed, raw_text, Answer, aborted, failed, answered,
  Method, get, post, put, delete, patch, other, Payload, nothing, text, form, Credential, bearer,
  raw, Headers, Request, Options, Message, text_of, request_failed, ApiError, Result, ok, err,
  is_ok,
}

pub record Client : Type 0 where
  pub access_token : Option String
  pub csrf_token : Option String
  pub on_auth_failure : Bool
  pub on_auth_success : Bool

pub data Notice : Type 0 where
  auth_failure : Notice
  auth_success : (token : String) → (user : Option AuthUser) → Notice

unfoldable pub set_access_token : Option String → Client → Client
set_access_token token c = record c { access_token = token }

unfoldable pub set_csrf_token : Option String → Client → Client
set_csrf_token token c = record c { csrf_token = token }

unfoldable pub set_auth_failure_handler : Bool → Client → Client
set_auth_failure_handler handler c = record c { on_auth_failure = handler }

unfoldable pub set_auth_success_handler : Bool → Client → Client
set_auth_success_handler handler c = record c { on_auth_success = handler }

abbrev pub no_headers : Headers
no_headers = record { accept = none; content_type = none; authorization = none; csrf = none }

unfoldable pub refresh_request : Client → Request
refresh_request c = record {
  url = codes "/api/auth/refresh";
  method = post;
  headers = record {
    accept = some "application/json";
    content_type = some "application/json";
    authorization = none;
    csrf = or_null c.csrf_token;
  };
  payload = nothing;
}

-- The session is gone: the token is dropped and the failure callback called.
unfoldable pub reject_session : Client → Client × List Notice × Option String
unfolding set_access_token
reject_session c =
    (set_access_token none c, (if c.on_auth_failure then auth_failure ∷ [] else []), none)

unfoldable pub accept_session : Fields → String → Client → Client × List Notice × Option String
unfolding set_access_token set_csrf_token
accept_session d token c =
    let c1 = set_access_token (some token) c in
    let c2 = if truthy d.csrf_token then set_csrf_token d.csrf_token c1 else c1 in
    (c2, (if c2.on_auth_success then auth_success token d.user ∷ [] else []), some token)

-- `data && data.success && data.access_token`
unfoldable pub refreshed : Body → Option (Fields × String)
refreshed (json d) =
    if d.success && truthy d.access_token
    then elim d.access_token [ none ↦ none | some token ↦ some (d, token) ]
    else none
refreshed _ = none

unfoldable pub finish_refresh : Answer → Client → Client × List Notice × Option String
unfolding reject_session accept_session refreshed
finish_refresh aborted c = (c, [], none)
finish_refresh (failed message) c = (c, [], none)
finish_refresh (answered status body) c =
    if not (is_ok status)
    then (if status == 401 || status == 403 then reject_session c else (c, [], none))
    else elim (refreshed body) [
      | none ↦ reject_session c
      | some (d, token) ↦ accept_session d token c
    ]

abbrev is_mutating : Method → Bool
is_mutating post = true
is_mutating put = true
is_mutating delete = true
is_mutating patch = true
is_mutating get = false
is_mutating (other m) = false

abbrev is_form_data : Payload → Bool
is_form_data (form s) = true
is_form_data (text s) = false
is_form_data nothing = false

-- `if (!value) value = replacement`
abbrev fill : Bool → Option String → Option String → Option String
fill wanted value replacement = if wanted && not (truthy value) then replacement else value

-- A caller's credential is in the way if it is no empty text.
abbrev has_credential : Option Credential → Bool
has_credential none = false
has_credential (some (bearer token)) = true
has_credential (some (raw s)) = not (str_eq s "")

unfoldable pub authorize : Option String → Option Credential → Option Credential
authorize token given =
    if truthy token && not (has_credential given)
    then elim token [ none ↦ given | some t ↦ some (bearer t) ]
    else given

unfoldable pub request_headers : Client → Options → Headers
request_headers c o = record {
  accept = elim o.headers.accept [ none ↦ some "application/json" | some a ↦ some a ];
  content_type =
      fill (not (is_form_data o.payload)) o.headers.content_type (some "application/json");
  authorization = authorize c.access_token o.headers.authorization;
  csrf = fill (is_mutating o.method && truthy c.csrf_token) o.headers.csrf c.csrf_token;
}

unfoldable pub request_of : Text → Options → Client → Request
request_of url o c = record {
  url = url;
  method = o.method;
  headers = request_headers c o;
  payload = o.payload;
}

-- What a fetch leaves for the rest of `apiClient`: an error that is thrown, or a status and a body.
pub data Reply : Type 0 where
  thrown : ApiError → Reply
  received : (status : ℕ) → Body → Reply

abbrev plain_error : String → ℕ → ApiError
plain_error m status = record { message = text_of m; status = status; details = none }

-- `err.message || 'Lỗi kết nối máy chủ.'`
abbrev connection_error : String → ApiError
connection_error m = plain_error (if str_eq m "" then "Lỗi kết nối máy chủ." else m) 0

unfoldable pub reply_of : Answer → Reply
reply_of aborted = thrown (plain_error "Yêu cầu hết thời gian chờ (Timeout). Vui lòng thử lại." 408)
reply_of (failed m) = thrown (connection_error m)
reply_of (answered status (malformed m)) = thrown (connection_error m)
reply_of (answered status body) = received status body

-- A CSRF token in the body replaces the stored one.
unfoldable pub learn_csrf : Reply → Client → Client
unfolding set_csrf_token
learn_csrf (received status (json d)) c =
    if truthy d.csrf_token then set_csrf_token d.csrf_token c else c
learn_csrf (received status _) c = c
learn_csrf (thrown e) c = c

unfoldable pub is_token_expired : Reply → Bool
is_token_expired (received status (json d)) =
    status == 401 && elim d.error [ none ↦ false | some e ↦ str_eq e "access_token_expired" ]
is_token_expired (received status _) = false
is_token_expired (thrown e) = false

unfoldable pub is_auth_endpoint : Text → Bool
is_auth_endpoint url =
    includes url (codes "/api/auth/login")
    || includes url (codes "/api/auth/register")
    || includes url (codes "/api/auth/refresh")

-- `data?.msg || data?.error || 'Request failed with status …'`
error_message : ℕ → Body → Message
error_message status (json d) =
    if truthy d.msg
    then elim d.msg [ none ↦ request_failed status | some m ↦ text_of m ]
    else elim (or_null d.error) [ none ↦ request_failed status | some e ↦ text_of e ]
error_message status _ = request_failed status

unfoldable pub settle : Reply → Result
unfolding error_message
settle (thrown e) = err e
settle (received status body) =
    if is_ok status
    then ok body
    else err (record { message = error_message status body; status = status; details = some body })

-- The options of the second attempt.
unfoldable pub retry_options : String → Options → Options
retry_options token o = record o {
  is_retry = true;
  headers = record (o.headers) { authorization = some (bearer token) };
}

module _ {S : Type 0} (fetch : Request → S → Answer × S) where
  -- The client, the calls of its callbacks so far, and what is behind `fetch`.
  pub record World : Type 0 where
    pub client : Client
    pub notices : List Notice
    pub server : S

  -- `requestTokenRefresh`, when no refresh is under way.
  unfoldable pub request_token_refresh : World → Option String × World
  request_token_refresh w =
      let (answer, server) = fetch (refresh_request w.client) w.server in
      let (client, notices, token) = finish_refresh answer w.client in
      (token, record { client = client; notices = w.notices ++ notices; server = server })

  unfoldable pub round_trip : Text → Options → World → Reply × World
  round_trip url o w =
      let (answer, server) = fetch (request_of url o w.client) w.server in
      let reply = reply_of answer in
      (reply, record w { client = learn_csrf reply w.client; server = server })

  -- What follows an expired token: a refresh, and `again` with the token that it gave.
  unfoldable pub renew :
      (again : String → World → Option (Result × World)) → Reply → World → Option (Result × World)
  renew again reply w =
      let (token, w1) = request_token_refresh w in
      elim token [
        | none ↦ some (settle reply, w1)
        | some t ↦ if str_eq t "" then some (settle reply, w1) else again t w1
      ]

  -- `apiClient` as it is written, with its call of itself: `fuel` bounds how deep the calls may go.
  unfoldable pub attempt : ℕ → Text → Options → World → Option (Result × World)
  attempt zero url o w = none
  attempt (suc fuel) url o w =
      let (reply, w1) = round_trip url o w in
      if is_token_expired reply && not o.is_retry && not (is_auth_endpoint url)
      then renew (λ t. attempt fuel url (retry_options t o)) reply w1
      else some (settle reply, w1)

  -- `apiClient` with its second attempt written out (Client/Attempts compares the two).
  unfoldable pub recover : Text → Options → Reply → World → Result × World
  recover url o reply w =
      let (token, w1) = request_token_refresh w in
      elim token [
        | none ↦ (settle reply, w1)
        | some t ↦
            (if str_eq t ""
              then (settle reply, w1)
              else (let (again, w2) = round_trip url (retry_options t o) w1 in (settle again, w2)))
      ]

  unfoldable pub api_client : Text → Options → World → Result × World
  unfolding recover
  api_client url o w =
      let (reply, w1) = round_trip url o w in
      if is_token_expired reply && not o.is_retry && not (is_auth_endpoint url)
      then recover url o reply w1
      else (settle reply, w1)
