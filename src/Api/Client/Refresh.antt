-- ===== src/Api/Client/Refresh.antt =====
-- What a refresh of the session does to the tokens and which callbacks it calls
-- (frontend/src/api/client.ts, `executeRefreshNetworkCall`).
use locketgoldhuydev.Prelude.{
  ℕ, ◌≡◌, refl, ◌⊎◌, inl, inr, ◌≢◌, ◌≤◌, ◌<◌, ◌||◌, Option, none, some, List, [], ◌∷◌, arith,
  String, eq_iff, Bool-cases, Option-cases, truthy, ◌==◌, if◌then◌else◌,
}
use locketgoldhuydev.Api.Types.{
  AuthUser, Fields, Body, json, json_null, json_value, malformed, raw_text, Answer, aborted, failed,
  answered, is_ok,
}
use locketgoldhuydev.Api.Client.{
  Client, Notice, auth_failure, auth_success, set_access_token, set_csrf_token, reject_session,
  accept_session, refreshed, finish_refresh,
}

-- Nothing changed, the session was dropped, or it was renewed with a token.
pub data Outcome (c : Client) (r : Client × List Notice × Option String) : Type 0 where
  kept : r ≡ (c, [], none) → Outcome c r
  dropped :
      r.0 ≡ record c { access_token = none }
      → r.1 ≡ (if c.on_auth_failure then auth_failure ∷ [] else [])
      → r.2 ≡ none
      → Outcome c r
  renewed :
      (token : String) (user : Option AuthUser)
      → token ≢ ""
      → r.0.access_token ≡ some token
      → r.0.on_auth_failure ≡ c.on_auth_failure
      → r.0.on_auth_success ≡ c.on_auth_success
      → r.1 ≡ (if c.on_auth_success then auth_success token user ∷ [] else [])
      → r.2 ≡ some token
      → Outcome c r

refreshed-token :
    (body : Body) (d : Fields) (token : String) → refreshed body ≡ some (d, token) → token ≢ ""
unfolding refreshed
refreshed-token (json d) d' token h = elim (Option-cases d.access_token) [
  | inl e ↦ absurd (ground arith)
  | inr (t, e) ↦ ground (arith, eq_iff t "")
]
refreshed-token json_null d token h = cc
refreshed-token json_value d token h = cc
refreshed-token (malformed m) d token h = cc
refreshed-token (raw_text s) d token h = cc

accept_session-Outcome :
    (d : Fields) (token : String) (c : Client) → token ≢ "" → Outcome c (accept_session d token c)
unfolding accept_session set_access_token set_csrf_token
accept_session-Outcome d token c h = elim (Bool-cases (truthy d.csrf_token)) [
  | inl fresh ↦
      renewed token d.user h (ground arith) (ground arith) (ground arith) (ground arith)
        (ground arith)
  | inr old ↦
      renewed token d.user h (ground arith) (ground arith) (ground arith) (ground arith)
        (ground arith)
]

reject_session-Outcome : (c : Client) → Outcome c (reject_session c)
unfolding reject_session set_access_token
reject_session-Outcome c = dropped refl refl refl

-- A refresh keeps the session as it is, or drops the access token, or renews it; the token that it
-- returns is the stored one, and exactly the callback that fits is called, if it is registered.
pub finish_refresh-Outcome : (a : Answer) (c : Client) → Outcome c (finish_refresh a c)
unfolding finish_refresh
finish_refresh-Outcome aborted c = kept refl
finish_refresh-Outcome (failed m) c = kept refl
finish_refresh-Outcome (answered status body) c = elim (Bool-cases (is_ok status)) [
  | inr refused ↦ elim (Bool-cases (status == 401 || status == 403)) [
    | inl revoked ↦ rw (refused, revoked) (reject_session-Outcome c)
    | inr passing ↦ rw (refused, passing) (kept refl)
  ]
  | inl fine ↦ elim (Option-cases (refreshed body)) [
    | inl e ↦ rw (fine, e) (reject_session-Outcome c)
    | inr ((d, token), e) ↦
        rw (fine, e) (accept_session-Outcome d token c (refreshed-token body d token e))
  ]
]

-- The stored access token is lost only if the server answers: with 401 or 403, or with a success
-- that holds no session. A dropped connection, a timeout or any other status leaves it.
pub finish_refresh-loses :
    (a : Answer) (c : Client) (old : String)
    → c.access_token ≡ some old
    → (finish_refresh a c).0.access_token ≡ none
    → (status : ℕ) × (body : Body) × (a ≡ answered status body)
      × ((status ≡ 401)
          ⊎ ((status ≡ 403) ⊎ ((200 ≤ status) × (status < 300) × (refreshed body ≡ none))))
unfolding finish_refresh
finish_refresh-loses aborted c old h lost = cc
finish_refresh-loses (failed m) c old h lost = cc
finish_refresh-loses (answered status body) c old h lost = (status, body, refl, ground arith)
