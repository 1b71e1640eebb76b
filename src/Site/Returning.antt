-- ===== src/Site/Returning.antt =====
-- The way of a visitor from a guarded page over the login and back: frontend/src/components/auth
-- and frontend/src/pages/LoginPage.tsx.
use locketgoldhuydev.Prelude.{◌≡◌, false, true, some, ◌++◌, Text, ◌⊎◌}
use locketgoldhuydev.Api.Types.{AuthUser}
use locketgoldhuydev.Site.{Site}
use locketgoldhuydev.Site.Routes.{Visitor, Location, Route, dashboard, admin_area}

-- The routes that need a session.
abbrev pub IsGuarded : Route → Type 0
IsGuarded r = (r ≡ dashboard) ⊎ (r ≡ admin_area)

abbrev pub address : Location → Text
address l = l.pathname ++ l.search

abbrev pub signed_in : AuthUser → Visitor
signed_in u = record { is_loading = false; is_signed_in = true; user = some u }
