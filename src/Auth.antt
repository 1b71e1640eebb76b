-- ===== src/Auth.antt =====
-- frontend/src/context/AuthContext.tsx: the session as React sees it, on top of the client.
-- The callbacks that the client calls are applied in their order. `fetch` is an argument, as in
-- Api/Client. Effects of StrictMode (two mounts) are in the mutex of Api/Client/SingleFlight.
pub mod Sync
pub mod Signing
use locketgoldhuydev.Prelude.{
  ℕ, Bool, true, false, not, ◌&&◌, ◌||◌, Option, none, some, List, [], ◌∷◌, String, Text, codes,
  truthy, or_null, is_some, str_eq, if◌then◌else◌,
}
use locketgoldhuydev.Api.Types.{
  AuthUser, Fields, Body, json, json_null, json_value, malformed, raw_text, Answer, get, post,
  Payload, nothing, text, Headers, Request, Options, Message, text_of, request_failed, type_error,
  ApiError, Result, ok, err,
}
use locketgoldhuydev.Api.Client.{
  Client, Notice, auth_failure, auth_success, World, set_access_token, set_csrf_token,
  set_auth_failure_handler, set_auth_success_handler, request_token_refresh, api_client, no_headers,
}

-- What a login, a registration or a Google sign-in answers to the page.
pub record Reply : Type 0 where
  pub success : Bool
  pub msg : Message
  pub error : Option String

pub data SignIn : Type 0 where
  login register google : SignIn

abbrev pub endpoint : SignIn → Text
endpoint login = codes "/api/auth/login"
endpoint register = codes "/api/auth/register"
endpoint google = codes "/api/auth/google"

abbrev pub welcome : SignIn → String
welcome login = "Đăng nhập thành công!"
welcome register = "Đăng ký tài khoản thành công!"
welcome google = "Đăng nhập Google thành công!"

abbrev pub refusal : SignIn → String
refusal login = "Đăng nhập thất bại."
refusal register = "Đăng ký thất bại."
refusal google = "Đăng nhập Google thất bại."

abbrev pub error_code : SignIn → String
error_code login = "login_error"
error_code register = "register_error"
error_code google = "google_auth_error"

abbrev pub options : (is_post : Bool) → Payload → Options
options is_post p = record {
  method = if is_post then post else get;
  headers = no_headers;
  payload = p;
  is_retry = false;
}

-- `res.msg || fallback`, of the fields that a body has.
abbrev pub body_msg : Body → String → Message
body_msg (json d) m = elim (or_null d.msg) [ none ↦ text_of m | some s ↦ text_of s ]
body_msg _ m = text_of m

abbrev pub body_error : Body → Option String
body_error (json d) = d.error
body_error _ = none

-- `err.message || 'Lỗi kết nối máy chủ.'`
abbrev pub error_msg : Message → Message
error_msg (text_of m) = text_of (if str_eq m "" then "Lỗi kết nối máy chủ." else m)
error_msg m = m

-- `err.data?.error || code`
abbrev pub error_or : Option Body → String → Option String
error_or none code = some code
error_or (some b) code = elim (or_null (body_error b)) [ none ↦ some code | some e ↦ some e ]

module _ {S : Type 0} (fetch : Request → S → Answer × S) where
  pub record Session : Type 0 where
    pub world : World fetch
    pub user : Option AuthUser
    pub access_token : Option String
    pub csrf_token : Option String
    pub is_loading : Bool
    pub is_mounted : Bool

  -- `isAuthenticated: Boolean(user && accessToken)`
  unfoldable pub is_authenticated : Session → Bool
  is_authenticated s = is_some s.user && truthy s.access_token

  -- The two callbacks that the provider registers.
  unfoldable pub receive : Notice → Session → Session
  receive auth_failure s = if s.is_mounted then record s { user = none; access_token = none } else s
  receive (auth_success token refreshed) s =
      if s.is_mounted
      then record s {
        access_token = some token;
        user = elim refreshed [ none ↦ s.user | some u ↦ some u ];
      }
      else s

  unfoldable pub receive_all : List Notice → Session → Session
  receive_all [] s = s
  receive_all (n ∷ ns) s = receive_all ns (receive n s)

  -- A call of the client is over: its callbacks have run.
  unfoldable pub delivered : World fetch → Session → Session
  delivered w s = receive_all w.notices (record s { world = record w { notices = [] } })

  unfoldable pub call : Text → Options → Session → Result × Session
  call url o s = let (r, w) = api_client fetch url o s.world in (r, delivered w s)

  unfoldable pub refresh : Session → Option String × Session
  refresh s = let (token, w) = request_token_refresh fetch s.world in (token, delivered w s)

  unfoldable pub update_access_token : Option String → Session → Session
  unfolding set_access_token
  update_access_token token s = record s {
    access_token = token;
    world = record (s.world) { client = set_access_token token s.world.client };
  }

  unfoldable pub update_csrf_token : Option String → Session → Session
  unfolding set_csrf_token
  update_csrf_token token s = record s {
    csrf_token = token;
    world = record (s.world) { client = set_csrf_token token s.world.client };
  }

  unfoldable pub mount : Session → Session
  unfolding set_auth_failure_handler set_auth_success_handler
  mount s = record s {
    is_mounted = true;
    world = record (s.world) {
      client = set_auth_success_handler true (set_auth_failure_handler true s.world.client);
    };
  }

  unfoldable pub unmount : Session → Session
  unfolding set_auth_failure_handler set_auth_success_handler
  unmount s = record s {
    is_mounted = false;
    world = record (s.world) {
      client = set_auth_success_handler false (set_auth_failure_handler false s.world.client);
    };
  }

  -- A CSRF token that is there is stored; it is asked for with GET.
  unfoldable pub adopt_csrf : Option String → Session → Session
  adopt_csrf token s = if truthy token then update_csrf_token token s else s

  -- `setUser(null)` after the access token is dropped.
  unfoldable pub signed_out : Session → Session
  signed_out s = record (update_access_token none s) { user = none }

  unfoldable pub fetch_csrf_token : Session → Result × Session
  fetch_csrf_token = call (codes "/api/auth/csrf") (options false nothing)

  -- `requestAuthBootstrap`: a CSRF token for the client, then a refresh. `apiClient` has stored
  -- the token already, and stores the same one.
  unfoldable pub request_auth_bootstrap : Session → Option String × Session
  request_auth_bootstrap s = refresh (fetch_csrf_token s).1

  unfoldable pub bootstrap_auth : Session → Session
  bootstrap_auth s =
      let (token, s1) = request_auth_bootstrap s in
      let s2 = adopt_csrf s1.world.client.csrf_token s1 in
      let s3 = if truthy token then update_access_token token s2 else signed_out s2 in
      if s3.is_mounted then record s3 { is_loading = false } else s3

  unfoldable pub refresh_session : Session → Bool × Session
  refresh_session s =
      let (token, s1) = refresh s in
      let s2 = adopt_csrf s1.world.client.csrf_token s1 in
      if truthy token
      then (true, update_access_token token s2)
      else (false, (if truthy s2.world.client.csrf_token then s2 else signed_out s2))

  unfoldable pub refused : SignIn → Body → Reply
  refused kind json_null = record {
    success = false;
    msg = type_error;
    error = some (error_code kind);
  }
  refused kind b = record { success = false; msg = body_msg b (refusal kind); error = body_error b }

  unfoldable pub accepted : SignIn → Fields → Session → Reply × Session
  accepted kind d s =
      let s1 = record (update_access_token d.access_token s) { user = d.user } in
      (
        record { success = true; msg = body_msg (json d) (welcome kind); error = none },
        (if truthy d.csrf_token then update_csrf_token d.csrf_token s1 else s1),
      )

  unfoldable pub answered_with : SignIn → Body → Session → Reply × Session
  answered_with kind (json d) s =
      if d.success && is_some d.user && truthy d.access_token
      then accepted kind d s
      else (refused kind (json d), s)
  answered_with kind json_null s = (refused kind json_null, s)
  answered_with kind b s = (refused kind b, s)

  unfoldable pub finish_sign_in : SignIn → Result → Session → Reply × Session
  finish_sign_in kind (ok b) s = answered_with kind b s
  finish_sign_in kind (err e) s = (
    record {
      success = false;
      msg = error_msg e.message;
      error = error_or e.details (error_code kind);
    },
    s,
  )

  -- `login`, `register` and `loginWithGoogle`, with the body of their request.
  unfoldable pub sign_in : SignIn → String → Session → Reply × Session
  sign_in kind body s =
      let (r, s1) = call (endpoint kind) (options true (text body)) s in finish_sign_in kind r s1

  abbrev pub csrf_of : Result → Option String
  csrf_of (ok (json d)) = d.csrf_token
  csrf_of _ = none

  unfoldable pub logout : Session → Session
  logout s =
      let s1 = signed_out (call (codes "/api/auth/logout") (options true nothing) s).1 in
      let (r, s2) = fetch_csrf_token s1 in adopt_csrf (csrf_of r) s2
