-- ===== src/Site/Types.antt =====
-- The settings of the site, from frontend/src/types/api.ts, with the fields that the pages read; a
-- field that an answer may lack is an option.
use locketgoldhuydev.Prelude.{ℕ, Bool, Option, List, String, Text}

pub record Maintenance : Type 0 where
  pub enabled : Bool
  pub allow_admin : Option Bool
  pub message : Option String

-- `guests`, `logged_in` and `all` are read; the type has two more names.
pub data Audience : Type 0 where
  all guests guest logged_in authenticated : Audience

pub data DisplayMode : Type 0 where
  every_visit once_per_session once_per_version always : DisplayMode

-- A date of the settings: absent, a text that is no date, or its milliseconds.
pub data Moment : Type 0 where
  no_moment invalid : Moment
  moment : ℕ → Moment

pub record AnnouncementPopup : Type 0 where
  pub enabled : Bool
  pub version : Option ℕ
  pub dismissible : Option Bool
  pub audience : Option Audience
  pub display_mode : Option DisplayMode
  pub routes : Option (List Text)
  pub start_at : Moment
  pub end_at : Moment
  pub active : Option Bool

pub record Settings : Type 0 where
  pub maintenance_active : Bool
  pub maintenance : Option Maintenance
  pub popup : Option AnnouncementPopup
