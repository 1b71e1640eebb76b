-- ===== src/Site/Access.antt =====
-- Who gets to see which page of frontend/src/App.tsx.
use locketgoldhuydev.Prelude.{◌≡◌, Bool, true, false, not, ◌&&◌, ◌||◌}
use locketgoldhuydev.Site.{Site, is_maintenance, allow_admin}
use locketgoldhuydev.Site.Routes.{
  Visitor, View, page_loader, auth_loader, admin_loader, maintenance_screen, home_page,
  dashboard_page, dns_page, admin_page, not_found_page, track_page, login_page, register_page,
  denied, recovery, to_login, to_home, is_admin,
}

-- No maintenance, or one that lets this visitor in.
abbrev pub open_to : Site → Visitor → Bool
open_to s v = not (is_maintenance s) || (allow_admin s && is_admin v)

-- A session that has been read and is there.
abbrev pub HasSession : Visitor → Type 0
HasSession v = (v.is_loading ≡ false) × (v.is_signed_in ≡ true)

-- What must hold of the site and of the visitor where a page is shown.
abbrev pub Permitted : Site → Visitor → View → Type 0
Permitted s v page_loader = (v.is_loading ≡ true) × (open_to s v ≡ true)
Permitted s v auth_loader = (v.is_loading ≡ true) × (open_to s v ≡ true)
Permitted s v admin_loader = v.is_loading ≡ true
Permitted s v (maintenance_screen m) = (is_maintenance s ≡ true) × (open_to s v ≡ false)
Permitted s v (home_page offline) =
    (v.is_loading ≡ false) × (v.is_signed_in ≡ false) × (open_to s v ≡ true)
Permitted s v dashboard_page = HasSession v × (open_to s v ≡ true)
Permitted s v dns_page = open_to s v ≡ true
Permitted s v admin_page = HasSession v × (is_admin v ≡ true) × (open_to s v ≡ true)
Permitted s v not_found_page = Unit
Permitted s v (track_page offline) = open_to s v ≡ true
Permitted s v (login_page offline) = Unit
Permitted s v (register_page offline) = open_to s v ≡ true
Permitted s v denied = HasSession v × (is_admin v ≡ false)
Permitted s v (recovery m) =
    HasSession v × (is_admin v ≡ true) × (is_maintenance s ≡ true) × (open_to s v ≡ false)
Permitted s v (to_login t) = (v.is_loading ≡ false) × (v.is_signed_in ≡ false)
Permitted s v (to_home t) = HasSession v × (open_to s v ≡ true)
