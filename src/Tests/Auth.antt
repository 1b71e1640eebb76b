-- ===== src/Tests/Auth.antt =====
-- Runs of frontend/src/context/AuthContext.tsx with the server of the client's runs.
use locketgoldhuydev.Prelude.{◌≢◌, refl, true, false, none, some, List, [], ◌∷◌, codes}
use locketgoldhuydev.Api.Types.{AuthUser, user, nothing}
use locketgoldhuydev.Api.Client.{request_of, request_headers, authorize, reply_of, is_token_expired}
use locketgoldhuydev.Auth.{Session, login, google, options, sign_in}
use locketgoldhuydev.Auth.Sync.{
  IsSynced, Action, signs_in, logs_out, refreshes, boots, calls, run, run-IsSynced,
}
use locketgoldhuydev.Auth.Signing.{IsFair, ExpiresNoGuest, sign_in-IsFair}
use locketgoldhuydev.Tests.Api.{serve, user_world}

abbrev pub ann : AuthUser
ann = record {
  id = 1;
  email = "ann@example.org";
  username = "ann";
  display_name = "Ann";
  avatar_url = none;
  created_at = none;
  role = some user;
}

abbrev ann_session : Session serve
ann_session = record {
  world = user_world;
  user = some ann;
  access_token = some "t1";
  csrf_token = some "c1";
  is_loading = false;
  is_mounted = true;
}

ann_session-IsSynced : IsSynced serve ann_session
ann_session-IsSynced = record {
  mounted = refl;
  failure_handled = refl;
  success_handled = refl;
  all_delivered = refl;
  same_token = refl;
}

abbrev visit : List (Action serve)
visit =
    boots
    ∷ calls (codes "/api/orders") (options false nothing)
    ∷ logs_out
    ∷ signs_in login "{}"
    ∷ refreshes
    ∷ []

run-IsSynced_example : IsSynced serve (run serve visit ann_session)
run-IsSynced_example = run-IsSynced serve visit ann_session ann_session-IsSynced

login-ne : login ≢ google
login-ne h = cc h

sign_in-IsFair_example : IsFair serve ann_session (sign_in serve login "{}" ann_session)
sign_in-IsFair_example = sign_in-IsFair serve login "{}" ann_session login-ne ann_session-IsSynced

serve-ExpiresNoGuest : ExpiresNoGuest serve
unfolding is_token_expired reply_of request_of request_headers authorize
serve-ExpiresNoGuest c n h = rw h refl
