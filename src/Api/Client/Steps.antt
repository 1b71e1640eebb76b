-- ===== src/Api/Client/Steps.antt =====
-- The steps of `apiClient` of frontend/src/api/client.ts: a round trip, a refresh, a recovery.
use locketgoldhuydev.Prelude.{
  ◌≡◌, refl, ◌∙◌, ◌⊎◌, inl, inr, ◌≢◌, some, arith, String, Text, eq_iff, Bool-cases, Option-cases,
  str_eq,
}
use locketgoldhuydev.Api.Types.{
  Answer, json, json_null, json_value, malformed, raw_text, Options, Request,
}
use locketgoldhuydev.Api.Client.{
  Client, World, set_csrf_token, refresh_request, request_of, retry_options, Reply, thrown,
  received, learn_csrf, settle, finish_refresh, request_token_refresh, round_trip, recover,
}
use locketgoldhuydev.Api.Client.Refresh.{kept, dropped, renewed, finish_refresh-Outcome}

-- The same session: only the CSRF token may differ.
pub record SameSession (c c' : Client) : Type 0 where
  pub same_token : c'.access_token ≡ c.access_token
  pub same_failure : c'.on_auth_failure ≡ c.on_auth_failure
  pub same_success : c'.on_auth_success ≡ c.on_auth_success

pub learn_csrf-SameSession : (reply : Reply) (c : Client) → SameSession c (learn_csrf reply c)
unfolding learn_csrf set_csrf_token
learn_csrf-SameSession (received status (json d)) c = ground arith
learn_csrf-SameSession (received status json_null) c = ground arith
learn_csrf-SameSession (received status json_value) c = ground arith
learn_csrf-SameSession (received status (malformed m)) c = ground arith
learn_csrf-SameSession (received status (raw_text s)) c = ground arith
learn_csrf-SameSession (thrown e) c = ground arith

pub finish_refresh-token :
    (a : Answer) (c : Client) (t : String)
    → (finish_refresh a c).2 ≡ some t
    → ((finish_refresh a c).0.access_token ≡ some t) × (t ≢ "")
finish_refresh-token a c t h = elim (finish_refresh-Outcome a c) [
  | kept e ↦ absurd (ground arith)
  | dropped p q r ↦ absurd (ground arith)
  | renewed token user n p f s q r ↦ ground arith
]

pub SameSession-trans : {a b c : Client} → SameSession a b → SameSession b c → SameSession a c
SameSession-trans p q = record {
  same_token = q.same_token ∙ p.same_token;
  same_failure = q.same_failure ∙ p.same_failure;
  same_success = q.same_success ∙ p.same_success;
}

pub SameSession-self : (c : Client) → SameSession c c
SameSession-self c = record { same_token = refl; same_failure = refl; same_success = refl }

module _ {S : Type 0} (fetch : Request → S → Answer × S) where
  -- The server after a request.
  abbrev pub after : Request → S → S
  after r s = (fetch r s).1

  -- An answer changes at most the CSRF token.
  pub round_trip-SameSession :
      (url : Text) (o : Options) (w : World fetch)
      → SameSession w.client (round_trip fetch url o w).1.client
  unfolding round_trip
  round_trip-SameSession url o w = learn_csrf-SameSession _ w.client

  pub round_trip-server :
      (url : Text) (o : Options) (w : World fetch)
      → (round_trip fetch url o w).1.server ≡ after (request_of url o w.client) w.server
  unfolding round_trip
  round_trip-server url o w = refl

  -- The two ways in which a recovery ends.
  module _ (url : Text) (o : Options) (reply : Reply) (w : World fetch) where
    abbrev pub refreshed_world : World fetch
    refreshed_world = (request_token_refresh fetch w).1

    pub refresh-server : refreshed_world.server ≡ after (refresh_request w.client) w.server
    unfolding request_token_refresh
    refresh-server = refl

    pub refresh-token :
        (t : String)
        → (request_token_refresh fetch w).0 ≡ some t
        → (refreshed_world.client.access_token ≡ some t) × (t ≢ "")
    unfolding request_token_refresh
    refresh-token t h = finish_refresh-token _ w.client t h

    pub recover-cases :
        (recover fetch url o reply w ≡ (settle reply, refreshed_world))
        ⊎ ((t : String) × ((request_token_refresh fetch w).0 ≡ some t)
            × (t ≢ "")
            × (recover fetch url o reply w ≡ (
              settle (round_trip fetch url (retry_options t o) refreshed_world).0,
              (round_trip fetch url (retry_options t o) refreshed_world).1,
            )))
    unfolding recover
    recover-cases = elim (Option-cases (request_token_refresh fetch w).0) [
      | inl e ↦ inl (rw (e, recover) refl)
      | inr (t, e) ↦ elim (Bool-cases (str_eq t "")) [
        | inl empty ↦ inl (rw (e, empty, recover) refl)
        | inr full ↦ inr (t, e, ground (arith, eq_iff t ""), rw (e, full, recover) refl)
      ]
    ]

  pub round_trip-notices :
      (url : Text) (o : Options) (w : World fetch)
      → (round_trip fetch url o w).1.notices ≡ w.notices
  unfolding round_trip
  round_trip-notices url o w = refl
