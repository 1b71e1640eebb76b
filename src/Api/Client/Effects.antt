-- ===== src/Api/Client/Effects.antt =====
-- What a call of `apiClient` of frontend/src/api/client.ts does to the session.
use locketgoldhuydev.Prelude.{
  ◌≡◌, ap, ◌∙◌, inl, inr, true, false, not, ◌&&◌, ◌++◌, arith, Text, Bool-cases,
}
use locketgoldhuydev.Api.Types.{Answer, Options, Request}
use locketgoldhuydev.Api.Client.{
  Client, World, refresh_request, retry_options, Reply, is_token_expired, is_auth_endpoint,
  finish_refresh, request_token_refresh, round_trip, api_client,
}
use locketgoldhuydev.Api.Client.Steps.{
  SameSession, round_trip-SameSession, recover-cases, SameSession-trans, SameSession-self,
  round_trip-notices,
}

module _ {S : Type 0} (fetch : Request → S → Answer × S) where
  -- The session after one call: untouched, or what a refresh made of it.
  pub data Effect (w w' : World fetch) : Type 0 where
    untouched : SameSession w.client w'.client → w'.notices ≡ w.notices → Effect w w'
    refreshing :
        (answer : Answer) (c : Client)
        → SameSession w.client c
        → SameSession (finish_refresh answer c).0 w'.client
        → w'.notices ≡ w.notices ++ (finish_refresh answer c).1
        → Effect w w'

  pub refresh-Effect :
      (w w1 : World fetch)
      → SameSession w.client w1.client
      → w1.notices ≡ w.notices
      → Effect w (request_token_refresh fetch w1).1
  unfolding request_token_refresh
  refresh-Effect w w1 p e =
      refreshing (fetch (refresh_request w1.client) w1.server).0 w1.client p (SameSession-self _) (
        ap (λ n. n ++ (finish_refresh (fetch (refresh_request w1.client) w1.server).0 w1.client).1)
          e)

  Effect-round_trip :
      (url : Text) (o : Options) (w w1 : World fetch)
      → Effect w w1
      → Effect w (round_trip fetch url o w1).1
  Effect-round_trip url o w w1 (untouched p e) =
      untouched (SameSession-trans p (round_trip-SameSession fetch url o w1))
        (round_trip-notices fetch url o w1 ∙ e)
  Effect-round_trip url o w w1 (refreshing a c p q e) =
      refreshing a c p (SameSession-trans q (round_trip-SameSession fetch url o w1))
        (round_trip-notices fetch url o w1 ∙ e)

  pub api_client-Effect :
      (url : Text) (o : Options) (w : World fetch) → Effect w (api_client fetch url o w).1
  unfolding api_client
  api_client-Effect url o w =
      elim (Bool-cases (is_token_expired reply && not o.is_retry && not (is_auth_endpoint url))) [
        | inr direct ↦
            rw direct
              (untouched (round_trip-SameSession fetch url o w) (round_trip-notices fetch url o w))
        | inl expired ↦ rw expired (elim (recover-cases fetch url o reply w1) [
          | inl e ↦ rw e refreshed_effect
          | inr (t, got, full, e) ↦
              rw e (Effect-round_trip url (retry_options t o) w _ refreshed_effect)
        ])
      ]
    where
      reply : Reply
      reply = (round_trip fetch url o w).0

      w1 : World fetch
      w1 = (round_trip fetch url o w).1

      refreshed_effect : Effect w (request_token_refresh fetch w1).1
      refreshed_effect =
          refresh-Effect w w1 (round_trip-SameSession fetch url o w)
            (round_trip-notices fetch url o w)

  -- A first answer that asks for no refresh ends the call.
  pub api_client-direct :
      (url : Text) (o : Options) (w : World fetch)
      → (is_token_expired (round_trip fetch url o w).0
          && not o.is_retry
          && not (is_auth_endpoint url))
        ≡ false
      → SameSession w.client (api_client fetch url o w).1.client
        × ((api_client fetch url o w).1.notices ≡ w.notices)
  unfolding api_client
  api_client-direct url o w h =
      rw h (round_trip-SameSession fetch url o w, round_trip-notices fetch url o w)

  -- A call to an endpoint of the login never refreshes: the session stays as it is, and no callback
  -- is called.
  pub api_client-auth_endpoint :
      (url : Text) (o : Options) (w : World fetch)
      → is_auth_endpoint url ≡ true
      → SameSession w.client (api_client fetch url o w).1.client
        × ((api_client fetch url o w).1.notices ≡ w.notices)
  api_client-auth_endpoint url o w h = api_client-direct url o w (ground arith)
