-- ===== src/Auth/Signing.antt =====
-- What a login, a registration and a logout leave behind (frontend/src/context/AuthContext.tsx).
use locketgoldhuydev.Prelude.{
  ◌≡◌, refl, sym, ◌∙◌, ◌⊎◌, inl, inr, ◌≢◌, true, false, ◌&&◌, Option, none, [], arith, String, Text,
  codes, includes, Bool-cases, truthy, is_some,
}
use locketgoldhuydev.Api.Types.{
  Answer, Body, json, json_null, json_value, malformed, raw_text, Request, Options, Result, ok, err,
  text, nothing,
}
use locketgoldhuydev.Api.Client.{
  Client, api_client, is_auth_endpoint, is_token_expired, round_trip, reply_of, request_of,
}
use locketgoldhuydev.Api.Client.Effects.{api_client-direct, api_client-auth_endpoint}
use locketgoldhuydev.Auth.{
  SignIn, login, register, google, Reply, Session, is_authenticated, receive_all, delivered, call,
  update_access_token, update_csrf_token, adopt_csrf, signed_out, fetch_csrf_token, csrf_of,
  sign_in, finish_sign_in, answered_with, accepted, refused, logout, endpoint, options,
}
use locketgoldhuydev.Auth.Sync.{IsSynced, call-IsSynced, signed_out-IsSynced}

module _ {S : Type 0} (fetch : Request → S → Answer × S) where
  -- Signed in, and the reply says so; or nothing of the session changed, and the reply says that.
  abbrev pub IsFair : Session fetch → Reply × Session fetch → Type 0
  IsFair s r =
      ((r.0.success ≡ true) × (is_authenticated fetch r.1 ≡ true))
      ⊎ ((r.0.success ≡ false) × (r.1.user ≡ s.user) × (r.1.access_token ≡ s.access_token))

  -- A call whose first answer ends it does not touch what React shows.
  call-quiet :
      (url : Text) (o : Options) (s : Session fetch)
      → s.world.notices ≡ []
      → ((api_client fetch url o s.world).1.notices ≡ s.world.notices)
      → ((call fetch url o s).1.user ≡ s.user)
        × ((call fetch url o s).1.access_token ≡ s.access_token)
  unfolding call delivered receive_all
  call-quiet url o s p q = ground arith

  answered_with-IsFair :
      (kind : SignIn) (b : Body) (s : Session fetch) → IsFair s (answered_with fetch kind b s)
  unfolding answered_with accepted refused is_authenticated update_access_token update_csrf_token
  answered_with-IsFair kind (json d) s =
      elim (Bool-cases (d.success && is_some d.user && truthy d.access_token)) [
        | inl good ↦ elim (Bool-cases (truthy d.csrf_token)) [
          | inl fresh ↦ rw (good, fresh) (inl (refl, ground arith))
          | inr old ↦ rw (good, old) (inl (refl, ground arith))
        ]
        | inr bad ↦ rw bad (inr (refl, refl, refl))
      ]
  answered_with-IsFair kind json_null s = inr (refl, refl, refl)
  answered_with-IsFair kind json_value s = inr (refl, refl, refl)
  answered_with-IsFair kind (malformed m) s = inr (refl, refl, refl)
  answered_with-IsFair kind (raw_text t) s = inr (refl, refl, refl)

  finish_sign_in-IsFair :
      (kind : SignIn) (r : Result) (s : Session fetch) → IsFair s (finish_sign_in fetch kind r s)
  unfolding finish_sign_in
  finish_sign_in-IsFair kind (ok b) s = answered_with-IsFair kind b s
  finish_sign_in-IsFair kind (err e) s = inr (refl, refl, refl)

  IsFair-from :
      (s t : Session fetch) (r : Reply × Session fetch)
      → t.user ≡ s.user
      → t.access_token ≡ s.access_token
      → IsFair t r
      → IsFair s r
  IsFair-from s t r p q (inl h) = inl h
  IsFair-from s t r p q (inr (failure, u, a)) = inr (failure, u ∙ p, a ∙ q)

  login-is_auth_endpoint : (kind : SignIn) → kind ≢ google → is_auth_endpoint (endpoint kind) ≡ true
  unfolding is_auth_endpoint includes
  login-is_auth_endpoint login h = refl
  login-is_auth_endpoint register h = refl
  login-is_auth_endpoint google h = absurd (h refl)

  -- In a synced session, a login or a registration (not the Google sign-in) that reports success
  -- leaves an authenticated session; one that reports a failure, for whatever reason, leaves the
  -- user and the token as they were.
  pub sign_in-IsFair :
      (kind : SignIn) (body : String) (s : Session fetch)
      → kind ≢ google
      → IsSynced fetch s
      → IsFair s (sign_in fetch kind body s)
  unfolding sign_in
  sign_in-IsFair kind body s h v =
      let quiet =
        api_client-auth_endpoint fetch (endpoint kind) (options true (text body)) s.world
          (login-is_auth_endpoint kind h) in
      let (p, q) =
        call-quiet (endpoint kind) (options true (text body)) s v.all_delivered quiet.1 in
      let r = call fetch (endpoint kind) (options true (text body)) s in
      IsFair-from s r.1 (finish_sign_in fetch kind r.0 r.1) p q (finish_sign_in-IsFair kind r.0 r.1)

  -- The server tells nobody who sends no access token that the token has expired.
  abbrev pub ExpiresNoGuest : Type 0
  ExpiresNoGuest =
      (c : Client) (s : S)
      → c.access_token ≡ none
      → is_token_expired
          (reply_of (fetch (request_of (codes "/api/auth/csrf") (options false nothing) c) s).0)
        ≡ false

  adopt_csrf-keeps :
      (token : Option String) (s : Session fetch)
      → ((adopt_csrf fetch token s).user ≡ s.user)
        × ((adopt_csrf fetch token s).access_token ≡ s.access_token)
  unfolding adopt_csrf update_csrf_token
  adopt_csrf-keeps token s = elim (Bool-cases (truthy token)) [
    | inl fresh ↦ rw fresh (refl, refl)
    | inr old ↦ rw old (refl, refl)
  ]

  -- The CSRF call of a session without token changes neither user nor token.
  fetch_csrf_token-quiet :
      (s : Session fetch)
      → ExpiresNoGuest
      → IsSynced fetch s
      → s.access_token ≡ none
      → ((fetch_csrf_token fetch s).1.user ≡ s.user)
        × ((fetch_csrf_token fetch s).1.access_token ≡ s.access_token)
  unfolding fetch_csrf_token
  fetch_csrf_token-quiet s fair v e =
      let unexpired = fair s.world.client s.world.server (sym v.same_token ∙ e) in
      call-quiet (codes "/api/auth/csrf") (options false nothing) s v.all_delivered
        (api_client-direct fetch (codes "/api/auth/csrf") (options false nothing) s.world
          (unfold round_trip in rw unexpired refl)).1

  -- In a synced session, if the server tells nobody without an access token that it has expired, a
  -- logout signs the user out whatever the logout call comes to.
  pub logout-signs_out :
      (s : Session fetch)
      → ExpiresNoGuest
      → IsSynced fetch s
      → ((logout fetch s).user ≡ none)
        × ((logout fetch s).access_token ≡ none)
        × (is_authenticated fetch (logout fetch s) ≡ false)
  unfolding logout is_authenticated
  logout-signs_out s fair v =
      let t = (call fetch (codes "/api/auth/logout") (options true nothing) s).1 in
      let w =
        signed_out-IsSynced fetch t
          (call-IsSynced fetch (codes "/api/auth/logout") (options true nothing) s v) in
      let out = signed_out_parts t in
      let (p, q) = fetch_csrf_token-quiet (signed_out fetch t) fair w out.1 in
      let (p', q') =
        adopt_csrf-keeps (csrf_of fetch (fetch_csrf_token fetch (signed_out fetch t)).0)
          (fetch_csrf_token fetch (signed_out fetch t)).1 in
      let user_gone = p' ∙ p ∙ out.0 in (user_gone, q' ∙ q ∙ out.1, rw user_gone refl)
    where
      signed_out_parts :
          (t : Session fetch)
          → ((signed_out fetch t).user ≡ none) × ((signed_out fetch t).access_token ≡ none)
      signed_out_parts t = unfold signed_out update_access_token in (refl, refl)
