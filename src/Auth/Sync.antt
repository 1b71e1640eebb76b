-- ===== src/Auth/Sync.antt =====
-- The access token of frontend/src/context/AuthContext.tsx and that of the client.
use locketgoldhuydev.Prelude.{
  ◌≡◌, refl, inl, inr, Bool, true, false, ◌&&◌, Option, List, [], ◌∷◌, arith, String, Text, codes,
  Bool-cases, truthy, is_some, if◌then◌else◌,
}
use locketgoldhuydev.Api.Types.{
  Answer, Body, Fields, json, json_null, json_value, malformed, raw_text, Request, Options, Result,
  ok, err, text, nothing,
}
use locketgoldhuydev.Api.Client.{World, set_access_token, set_csrf_token}
use locketgoldhuydev.Api.Client.Refresh.{kept, dropped, renewed, finish_refresh-Outcome}
use locketgoldhuydev.Api.Client.Steps.{SameSession-self}
use locketgoldhuydev.Api.Client.Effects.{
  Effect, untouched, refreshing, api_client-Effect, refresh-Effect,
}
use locketgoldhuydev.Auth.{
  SignIn, Session, receive, receive_all, delivered, call, refresh, update_access_token,
  update_csrf_token, adopt_csrf, signed_out, bootstrap_auth, refresh_session, sign_in,
  finish_sign_in, answered_with, accepted, logout, fetch_csrf_token, request_auth_bootstrap,
  endpoint, options,
}

module _ {S : Type 0} (fetch : Request → S → Answer × S) where
  -- A mounted provider whose callbacks are registered and have run.
  pub record IsSynced (s : Session fetch) : Type 0 where
    pub mounted : s.is_mounted ≡ true
    pub failure_handled : s.world.client.on_auth_failure ≡ true
    pub success_handled : s.world.client.on_auth_success ≡ true
    pub all_delivered : s.world.notices ≡ []
    pub same_token : s.access_token ≡ s.world.client.access_token

  delivered-IsSynced :
      (s : Session fetch) (w : World fetch)
      → IsSynced s
      → Effect fetch s.world w
      → IsSynced (delivered fetch w s)
  unfolding delivered receive_all receive
  delivered-IsSynced s w v (untouched p e) = ground arith
  delivered-IsSynced s w v (refreshing a c p q e) = elim (finish_refresh-Outcome a c) [
    | kept r ↦ ground arith
    | dropped r n t ↦ ground arith
    | renewed token user full r f g n t ↦ ground arith
  ]

  pub call-IsSynced :
      (url : Text) (o : Options) (s : Session fetch) → IsSynced s → IsSynced (call fetch url o s).1
  unfolding call
  call-IsSynced url o s v = delivered-IsSynced s _ v (api_client-Effect fetch url o s.world)

  refresh-IsSynced : (s : Session fetch) → IsSynced s → IsSynced (refresh fetch s).1
  unfolding refresh
  refresh-IsSynced s v =
      delivered-IsSynced s _ v
        (refresh-Effect fetch s.world s.world (SameSession-self s.world.client) refl)

  update_access_token-IsSynced :
      (token : Option String) (s : Session fetch)
      → IsSynced s
      → IsSynced (update_access_token fetch token s)
  unfolding update_access_token set_access_token
  update_access_token-IsSynced token s v = ground arith

  pub signed_out-IsSynced : (s : Session fetch) → IsSynced s → IsSynced (signed_out fetch s)
  unfolding signed_out update_access_token set_access_token
  signed_out-IsSynced s v = ground arith

  adopt_csrf-IsSynced :
      (token : Option String) (s : Session fetch) → IsSynced s → IsSynced (adopt_csrf fetch token s)
  unfolding adopt_csrf update_csrf_token set_csrf_token
  adopt_csrf-IsSynced token s v = elim (Bool-cases (truthy token)) [
    | inl fresh ↦ ground arith
    | inr old ↦ ground arith
  ]

  either-IsSynced :
      (b : Bool) (s t : Session fetch) → IsSynced s → IsSynced t → IsSynced (if b then s else t)
  either-IsSynced true s t v w = v
  either-IsSynced false s t v w = w

  loaded-IsSynced : (s : Session fetch) → IsSynced s → IsSynced (record s { is_loading = false })
  loaded-IsSynced s v = ground arith

  fetch_csrf_token-IsSynced :
      (s : Session fetch) → IsSynced s → IsSynced (fetch_csrf_token fetch s).1
  unfolding fetch_csrf_token
  fetch_csrf_token-IsSynced s v = call-IsSynced (codes "/api/auth/csrf") (options false nothing) s v

  request_auth_bootstrap-IsSynced :
      (s : Session fetch) → IsSynced s → IsSynced (request_auth_bootstrap fetch s).1
  unfolding request_auth_bootstrap
  request_auth_bootstrap-IsSynced s v =
      refresh-IsSynced (fetch_csrf_token fetch s).1 (fetch_csrf_token-IsSynced s v)

  bootstrap_auth-IsSynced : (s : Session fetch) → IsSynced s → IsSynced (bootstrap_auth fetch s)
  unfolding bootstrap_auth
  bootstrap_auth-IsSynced s v =
      let token = (request_auth_bootstrap fetch s).0 in
      let s1 = (request_auth_bootstrap fetch s).1 in
      let s2 = adopt_csrf fetch s1.world.client.csrf_token s1 in
      let s3 = if truthy token then update_access_token fetch token s2 else signed_out fetch s2 in
      let v2 =
        adopt_csrf-IsSynced s1.world.client.csrf_token s1 (request_auth_bootstrap-IsSynced s v) in
      let v3 =
        either-IsSynced (truthy token) (update_access_token fetch token s2) (signed_out fetch s2)
          (update_access_token-IsSynced token s2 v2) (signed_out-IsSynced s2 v2) in
      either-IsSynced s3.is_mounted (record s3 { is_loading = false }) s3 (loaded-IsSynced s3 v3) v3

  refresh_session-IsSynced : (s : Session fetch) → IsSynced s → IsSynced (refresh_session fetch s).1
  unfolding refresh_session
  refresh_session-IsSynced s v = elim (Bool-cases (truthy (refresh fetch s).0)) [
    | inl fresh ↦
        rw fresh (search (update_access_token-IsSynced, adopt_csrf-IsSynced, refresh-IsSynced))
    | inr gone ↦
        rw gone
          (search (either-IsSynced, signed_out-IsSynced, adopt_csrf-IsSynced, refresh-IsSynced))
  ]

  logout-IsSynced : (s : Session fetch) → IsSynced s → IsSynced (logout fetch s)
  unfolding logout
  logout-IsSynced s v =
      search (adopt_csrf-IsSynced, fetch_csrf_token-IsSynced, signed_out-IsSynced, call-IsSynced)

  accepted-IsSynced :
      (kind : SignIn) (d : Fields) (s : Session fetch)
      → IsSynced s
      → IsSynced (accepted fetch kind d s).1
  unfolding accepted update_access_token update_csrf_token set_access_token set_csrf_token
  accepted-IsSynced kind d s v = elim (Bool-cases (truthy d.csrf_token)) [
    | inl fresh ↦ ground arith
    | inr old ↦ ground arith
  ]

  answered_with-IsSynced :
      (kind : SignIn) (b : Body) (s : Session fetch)
      → IsSynced s
      → IsSynced (answered_with fetch kind b s).1
  unfolding answered_with
  answered_with-IsSynced kind (json d) s v =
      elim (Bool-cases (d.success && is_some d.user && truthy d.access_token)) [
        | inl good ↦ rw good (accepted-IsSynced kind d s v)
        | inr bad ↦ rw bad v
      ]
  answered_with-IsSynced kind json_null s v = v
  answered_with-IsSynced kind json_value s v = v
  answered_with-IsSynced kind (malformed m) s v = v
  answered_with-IsSynced kind (raw_text t) s v = v

  sign_in-IsSynced :
      (kind : SignIn) (body : String) (s : Session fetch)
      → IsSynced s
      → IsSynced (sign_in fetch kind body s).1
  unfolding sign_in
  sign_in-IsSynced kind body s v =
      finish _ _ (call-IsSynced (endpoint kind) (options true (text body)) s v)
    where
      finish :
          (r : Result) (t : Session fetch) → IsSynced t → IsSynced (finish_sign_in fetch kind r t).1
      finish (ok b) t w = unfold finish_sign_in in answered_with-IsSynced kind b t w
      finish (err e) t w = unfold finish_sign_in in w

  -- What happens to a mounted session.
  pub data Action : Type 0 where
    signs_in : SignIn → (body : String) → Action
    logs_out refreshes boots : Action
    calls : (url : Text) → Options → Action

  pub step : Action → Session fetch → Session fetch
  step (signs_in kind body) s = (sign_in fetch kind body s).1
  step logs_out s = logout fetch s
  step refreshes s = (refresh_session fetch s).1
  step boots s = bootstrap_auth fetch s
  step (calls url o) s = (call fetch url o s).1

  pub run : List Action → Session fetch → Session fetch
  run [] s = s
  run (a ∷ actions) s = run actions (step a s)

  step-IsSynced : (a : Action) (s : Session fetch) → IsSynced s → IsSynced (step a s)
  unfolding step
  step-IsSynced (signs_in kind body) s v = sign_in-IsSynced kind body s v
  step-IsSynced logs_out s v = logout-IsSynced s v
  step-IsSynced refreshes s v = refresh_session-IsSynced s v
  step-IsSynced boots s v = bootstrap_auth-IsSynced s v
  step-IsSynced (calls url o) s v = call-IsSynced url o s v

  -- From a mounted session with its callbacks registered, in which React and the client hold the
  -- same token: after any sequence of logins, logouts, refreshes, bootstraps and API calls,
  -- whatever the server answers, the token that React shows is the token that the client sends.
  pub run-IsSynced :
      (actions : List Action) (s : Session fetch) → IsSynced s → IsSynced (run actions s)
  unfolding run
  run-IsSynced [] s v = v
  run-IsSynced (a ∷ actions) s v = run-IsSynced actions (step a s) (step-IsSynced a s v)
