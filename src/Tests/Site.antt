-- ===== src/Tests/Site.antt =====
-- Runs of the routes of frontend/src/App.tsx and of the announcement.
use locketgoldhuydev.Prelude.{
  ℕ, ◌≡◌, refl, true, false, none, List, [], ◌∷◌, Text, codes, starts_with, ◌↔◌, some, trim,
  trim_start, trim_end, keep_unit, is_space, text_eq, arith,
}
use locketgoldhuydev.Api.Types.{AuthUser, admin}
use locketgoldhuydev.Tests.Auth.{ann}
use locketgoldhuydev.Site.{Site}
use locketgoldhuydev.Site.Types.{AnnouncementPopup, no_moment, logged_in, once_per_version}
use locketgoldhuydev.Site.Routes.{Visitor, Location}
use locketgoldhuydev.Site.Popup.{
  Announcer, version_of, matches_route, matches_pattern, matches_wildcard, ends_with, without_last,
  is_visible, handle_dismiss, handle_snooze, navigate, set_popup, load_snooze, reload,
}
use locketgoldhuydev.Site.Audience.{Admits, matches_route-Admits}
use locketgoldhuydev.Site.Dismissal.{Event, navigates, receives, reloads, run, run-dismissed}
use locketgoldhuydev.Site.Snoozing.{run-snoozed}

abbrev root_user : AuthUser
root_user = record ann { role = some admin }

abbrev popup : AnnouncementPopup
popup = record {
  enabled = true;
  version = some 3;
  dismissible = some true;
  audience = some logged_in;
  display_mode = some once_per_version;
  routes = some (codes "/dashboard/*" ∷ []);
  start_at = no_moment;
  end_at = no_moment;
  active = none;
}

abbrev locked : Site
locked = record {
  settings = some (record {
    maintenance_active = true;
    maintenance = some (record { enabled = true; allow_admin = some false; message = none });
    popup = some popup;
  });
  loading = false;
  error = none;
}

abbrev open_site : Site
open_site = record { settings = none; loading = true; error = none }

abbrev at_orders : Location
at_orders = record { pathname = codes "/dashboard"; search = codes "?tab=orders" }

abbrev guest_visitor : Visitor
guest_visitor = record { is_loading = false; is_signed_in = false; user = none }

abbrev same_unit : ℕ → Text
same_unit c = c ∷ []

abbrev orders : Text
orders = codes "/dashboard?tab=orders"

matches_route-Admits_example :
    (matches_route (codes "/dashboard/orders") (some (codes "/dashboard/*" ∷ [])) ≡ true)
    ↔ Admits (some (codes "/dashboard/*" ∷ [])) (codes "/dashboard/orders")
matches_route-Admits_example =
    matches_route-Admits (codes "/dashboard/orders") (some (codes "/dashboard/*" ∷ []))

abbrev announcer : Announcer
announcer = record {
  popup = some popup;
  path = codes "/dashboard";
  is_dismissed_in_session = false;
  snoozed_until = 0;
  storage = record { works = true; local_dismissed = []; session_dismissed = []; snoozes = [] };
}

abbrev visit : List Event
visit =
    navigates (codes "/track") ∷ receives 2000 none ∷ reloads 3000 ∷ receives 4000 (some popup) ∷ []

visit_popup : (run visit (handle_dismiss announcer)).popup ≡ some popup
unfolding handle_dismiss navigate set_popup load_snooze reload text_eq
visit_popup = refl

shown_tests :
    (is_visible 1000 true announcer ≡ true)
    × (is_visible 1000 false announcer ≡ false)
    × (is_visible 1000 true (run visit announcer) ≡ false)
unfolding is_visible matches_route matches_pattern matches_wildcard ends_with without_last
    starts_with text_eq trim trim_start trim_end keep_unit is_space navigate set_popup load_snooze
    reload
shown_tests = (refl, refl, refl)

run-dismissed_example : is_visible 9000000 true (run visit (handle_dismiss announcer)) ≡ false
run-dismissed_example =
    run-dismissed announcer popup popup visit 9000000 true refl refl refl refl visit_popup refl refl

snoozed_version :
    version_of (run visit (handle_snooze 1000 announcer)).popup ≡ version_of announcer.popup
unfolding handle_snooze navigate set_popup load_snooze reload text_eq
snoozed_version = refl

run-snoozed_example : is_visible 5000 true (run visit (handle_snooze 1000 announcer)) ≡ false
run-snoozed_example =
    run-snoozed 1000 5000 true announcer visit refl
      (
        tt,
        (
          (omega arith, omega arith),
          ((omega arith, omega arith), ((omega arith, omega arith), tt)),
        ),
      )
      (omega arith) snoozed_version
