-- ===== src/Site.antt =====
-- frontend/src/hooks/useSiteSettings.ts: the settings of the site as the last answer gave them.
-- Site/Routes has the pages and their guards, Site/Popup the announcement.
pub mod Types
pub mod Outages
pub mod Routes
pub mod Access
pub mod Returning
pub mod Popup
pub mod Audience
pub mod Dismissal
pub mod Snoozing
use locketgoldhuydev.Prelude.{
  Bool, true, false, not, ◌&&◌, ◌||◌, Option, none, some, List, [], ◌∷◌, String, or_text, is_some,
  str_eq,
}
use locketgoldhuydev.Site.Types.{Settings}

-- The states of the hook.
pub record Site : Type 0 where
  pub settings : Option Settings
  pub loading : Bool
  pub error : Option String

-- What `fetchSiteSettings` gives: the settings, `null`, or an exception with its message.
pub data Answer : Type 0 where
  answered : Option Settings → Answer
  thrown : (message : String) → Answer

abbrev pub start : Site
start = record { settings = none; loading = true; error = none }

-- `err.message || 'Không thể kết nối máy chủ'`
abbrev pub failure_text : String → String
failure_text m = or_text (some m) "Không thể kết nối máy chủ"

-- `checkSettings`, from its answer on.
unfoldable pub check_settings : Answer → Site → Site
check_settings (answered res) s = record s { settings = res; error = none; loading = false }
check_settings (thrown m) s = record s { error = some (failure_text m); loading = false }

-- The answers of one page visit, the first one first.
unfoldable pub poll : List Answer → Site → Site
unfolding check_settings
poll [] s = s
poll (a ∷ rest) s = poll rest (check_settings a s)

-- `isMaintenance`
unfoldable pub is_maintenance : Site → Bool
is_maintenance s = elim s.settings [ none ↦ false | some c ↦ c.maintenance_active ]

unfoldable pub maintenance_message : Site → String
maintenance_message s =
    or_text
      (elim s.settings [
        | none ↦ none
        | some c ↦ elim c.maintenance [ none ↦ none | some m ↦ m.message ]
      ])
      "Hệ thống đang bảo trì để nâng cấp máy chủ."

-- A text of an error that is there counts if it is not empty.
abbrev pub has_error : Option String → Bool
has_error none = false
has_error (some e) = not (str_eq e "")

unfoldable pub is_backend_offline : Site → Bool
is_backend_offline s = has_error s.error || (not (is_some s.settings) && not s.loading)

-- `settings?.maintenance?.allow_admin !== false`
unfoldable pub allow_admin : Site → Bool
allow_admin s = elim s.settings [
  | none ↦ true
  | some c ↦ elim c.maintenance [
    | none ↦ true
    | some m ↦ elim m.allow_admin [ none ↦ true | some b ↦ b ]
  ]
]
