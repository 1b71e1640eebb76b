-- ===== src/Site/Routes.antt =====
-- The routes of frontend/src/App.tsx with the guards of frontend/src/components/auth. Which route a
-- path belongs to is decided by the router; a page is what a route shows of the visitor's session and
-- the site's settings. A redirect to the login carries the address that its parameter decodes to.
use locketgoldhuydev.Prelude.{
  ℕ, Bool, true, false, not, ◌&&◌, Option, none, some, ◌++◌, String, Text, codes, is_some,
  if◌then◌else◌,
}
use locketgoldhuydev.Api.Types.{Answer, AuthUser, Role, user, admin, Request}
use locketgoldhuydev.Auth.{Session, is_authenticated}
use locketgoldhuydev.Utils.Url.{get_post_login_return_to}
use locketgoldhuydev.Site.{
  Site, is_maintenance, maintenance_message, is_backend_offline, allow_admin,
}

-- What `useAuth` gives to the guards.
pub record Visitor : Type 0 where
  pub is_loading : Bool
  pub is_signed_in : Bool
  pub user : Option AuthUser

-- `location.pathname` and `location.search`
pub record Location : Type 0 where
  pub pathname : Text
  pub search : Text

pub data Route : Type 0 where
  landing dashboard track dns login register admin_area unknown : Route

pub data View : Type 0 where
  page_loader auth_loader admin_loader : View
  maintenance_screen : (message : String) → View
  home_page : (offline : Bool) → View
  dashboard_page dns_page admin_page not_found_page : View
  track_page login_page register_page : (offline : Bool) → View
  denied : View
  recovery : (message : String) → View
  to_login : (return_to : Text) → View
  to_home : (path : Text) → View

abbrev pub role_is_admin : Option Role → Bool
role_is_admin (some admin) = true
role_is_admin _ = false

-- `user?.role === 'admin'`
unfoldable pub is_admin : Visitor → Bool
is_admin v = elim v.user [ none ↦ false | some u ↦ role_is_admin u.role ]

unfoldable pub landing_entry : Bool → Visitor → View
unfolding is_admin
landing_entry offline v =
    if v.is_loading
    then page_loader
    else (if v.is_signed_in
        then to_home (if is_admin v then codes "/admin" else codes "/dashboard")
        else home_page offline)

unfoldable pub maintenance_route_wrapper : Site → Visitor → View → View
unfolding is_admin
maintenance_route_wrapper s v children =
    if is_maintenance s
    then (if allow_admin s && is_admin v
        then children
        else maintenance_screen (maintenance_message s))
    else children

unfoldable pub protected_route : Visitor → Location → View → View
protected_route v l children =
    if v.is_loading
    then auth_loader
    else (if not v.is_signed_in then to_login (l.pathname ++ l.search) else children)

unfoldable pub admin_route : Site → Visitor → Location → View → View
unfolding is_admin
admin_route s v l children =
    if v.is_loading
    then admin_loader
    else (if not v.is_signed_in
        then to_login (l.pathname ++ l.search)
        else (if not (is_admin v)
            then denied
            else (if is_maintenance s && not (allow_admin s)
                then recovery (maintenance_message s)
                else children)))

-- `App`
unfoldable pub render : Route → Site → Visitor → Location → View
unfolding landing_entry maintenance_route_wrapper protected_route admin_route
render landing s v l = maintenance_route_wrapper s v (landing_entry (is_backend_offline s) v)
render dashboard s v l = maintenance_route_wrapper s v (protected_route v l dashboard_page)
render track s v l = maintenance_route_wrapper s v (track_page (is_backend_offline s))
render dns s v l = maintenance_route_wrapper s v dns_page
render login s v l = login_page (is_backend_offline s)
render register s v l = maintenance_route_wrapper s v (register_page (is_backend_offline s))
render admin_area s v l = admin_route s v l admin_page
render unknown s v l = not_found_page

abbrev pub role_text : Option AuthUser → Option Text
role_text none = none
role_text (some u) = elim u.role [
  | none ↦ none
  | some admin ↦ some (codes "admin")
  | some user ↦ some (codes "user")
]

module _ (lower_other : ℕ → Text) where
  -- The effect of the login page: where it sends a visitor who has a session.
  unfoldable pub login_target : Visitor → Option Text → Option Text
  login_target v return_to =
      if v.is_signed_in && is_some v.user
      then some (get_post_login_return_to lower_other (role_text v.user) return_to)
      else none

module _ {S : Type 0} (fetch : Request → S → Answer × S) where
  -- The session that the provider shows.
  unfoldable pub visitor : Session fetch → Visitor
  visitor s = record {
    is_loading = s.is_loading;
    is_signed_in = is_authenticated fetch s;
    user = s.user;
  }
