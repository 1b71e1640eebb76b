-- ===== src/Api/Client/Attempts.antt =====
-- The calls that `apiClient` of frontend/src/api/client.ts makes of itself.
use locketgoldhuydev.Prelude.{
  ℕ, suc, ◌≡◌, refl, inl, inr, Bool, true, false, not, ◌&&◌, Option, some, arith, String, Text,
  Bool-cases, Option-cases, str_eq,
}
use locketgoldhuydev.Api.Types.{Answer, Options, Request, Result}
use locketgoldhuydev.Api.Client.{
  World, Reply, is_token_expired, is_auth_endpoint, retry_options, settle, round_trip,
  request_token_refresh, recover, renew, attempt, api_client,
}

module _ {S : Type 0} (fetch : Request → S → Answer × S) where
  -- The flag of a second attempt stops it.
  attempt-retry :
      (fuel : ℕ) (url : Text) (token : String) (o : Options) (w : World fetch)
      → attempt fetch (suc fuel) url (retry_options token o) w
        ≡ some (
          settle (round_trip fetch url (retry_options token o) w).0,
          (round_trip fetch url (retry_options token o) w).1,
        )
  unfolding attempt
  attempt-retry fuel url token o w =
      rw
        (stopped (is_token_expired (round_trip fetch url (retry_options token o) w).0)
          (is_auth_endpoint url))
        refl
    where
      stopped : (a b : Bool) → (a && not (retry_options token o).is_retry && not b) ≡ false
      stopped a b = unfold retry_options in ground arith

  renew-recover :
      (again : String → World fetch → Option (Result × World fetch)) (url : Text) (o : Options)
      (reply : Reply) (w : World fetch)
      → ((t : String) (w1 : World fetch)
          → again t w1
            ≡ some (
              settle (round_trip fetch url (retry_options t o) w1).0,
              (round_trip fetch url (retry_options t o) w1).1,
            ))
      → renew fetch again reply w ≡ some (recover fetch url o reply w)
  unfolding renew recover
  renew-recover again url o reply w same = elim (Option-cases (request_token_refresh fetch w).0) [
    | inl lost ↦ rw (lost, renew, recover) refl
    | inr (t, got) ↦ elim (Bool-cases (str_eq t "")) [
      | inl blank ↦ rw (got, blank, renew, recover) refl
      | inr token ↦ rw (got, token, renew, recover) (same t (request_token_refresh fetch w).1)
    ]
  ]

  attempt-recover :
      (fuel : ℕ) (url : Text) (o : Options) (w : World fetch)
      → (is_token_expired (round_trip fetch url o w).0
          && not o.is_retry
          && not (is_auth_endpoint url))
        ≡ true
      → attempt fetch (suc (suc fuel)) url o w
        ≡ some (recover fetch url o (round_trip fetch url o w).0 (round_trip fetch url o w).1)
  unfolding attempt
  attempt-recover fuel url o w h = rw h (
      renew-recover (λ t. attempt fetch (suc fuel) url (retry_options t o)) url o
        (round_trip fetch url o w).0 (round_trip fetch url o w).1
        (λ t w1. attempt-retry fuel url t o w1))

  -- `apiClient` calls itself at most once: with two levels of calls or more it comes to an end, and
  -- to the result of the second attempt written out.
  pub attempt-api_client :
      (fuel : ℕ) (url : Text) (o : Options) (w : World fetch)
      → attempt fetch (suc (suc fuel)) url o w ≡ some (api_client fetch url o w)
  unfolding api_client
  attempt-api_client fuel url o w =
      elim (Bool-cases (
        is_token_expired (round_trip fetch url o w).0
        && not o.is_retry
        && not (is_auth_endpoint url))) [
          | inl expired ↦ rw expired (attempt-recover fuel url o w expired)
          | inr direct ↦ unfold attempt in rw direct refl
        ]
