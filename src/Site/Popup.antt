-- ===== src/Site/Popup.antt =====
-- frontend/src/components/common/GlobalAnnouncementPopup.tsx: when the announcement is shown, and what
-- closing it for good or for two hours leaves in the storage of the browser. Times are milliseconds;
-- the time at which React computes `isVisible` is an argument.
use locketgoldhuydev.Prelude.{
  ℕ, ◌+◌, Bool, true, false, not, ◌&&◌, ◌||◌, Option, none, some, List, [], ◌∷◌, ◌++◌, reverse,
  Text, codes, text_eq, starts_with, trim, any, filter, drop, ltb, leb, ◌==◌, or_else, or_ℕ,
  if◌then◌else◌,
}
use locketgoldhuydev.Site.Types.{
  Audience, guests, logged_in, DisplayMode, once_per_session, once_per_version, every_visit, always,
  Moment, no_moment, invalid, moment, AnnouncementPopup,
}

abbrev pub two_hours : ℕ
two_hours = 7200000

-- `s.endsWith(p)`
unfoldable pub ends_with : Text → Text → Bool
unfolding starts_with
ends_with s p = starts_with (reverse s) (reverse p)

-- `s.slice(0, -n)`
unfoldable pub without_last : ℕ → Text → Text
without_last n s = reverse (drop n (reverse s))

-- The tests of the patterns that end with a star.
unfoldable pub matches_wildcard : Text → Text → Bool
unfolding ends_with without_last starts_with text_eq
matches_wildcard path p =
    if ends_with p (codes "/*")
    then (let base = without_last 2 p in text_eq path base || starts_with path (base ++ codes "/"))
    else (if ends_with p (codes "*") then starts_with path (without_last 1 p) else text_eq path p)

-- The test of one pattern, after `trim`.
unfoldable pub matches_pattern : Text → Text → Bool
unfolding matches_wildcard text_eq
matches_pattern path [] = true
matches_pattern path (c ∷ p) =
    text_eq (c ∷ p) (codes "*") || text_eq (c ∷ p) path || matches_wildcard path (c ∷ p)

-- `matchesRoute`
unfoldable pub matches_route : Text → Option (List Text) → Bool
unfolding matches_pattern trim
matches_route path none = true
matches_route path (some []) = true
matches_route path (some (r ∷ routes)) =
    any (text_eq (codes "*")) (r ∷ routes) || any (λ q. matches_pattern path (trim q)) (r ∷ routes)

-- What the two storages hold under the keys of the versions, and whether they can be used at all.
pub record Storage : Type 0 where
  pub works : Bool
  pub local_dismissed : List ℕ
  pub session_dismissed : List ℕ
  pub snoozes : List (ℕ × ℕ)

-- The states of the component, the popup it shows and where the visitor is.
pub record Announcer : Type 0 where
  pub popup : Option AnnouncementPopup
  pub path : Text
  pub is_dismissed_in_session : Bool
  pub snoozed_until : ℕ
  pub storage : Storage

-- `popup?.version || 1`, the end of both keys.
abbrev pub version_of : Option AnnouncementPopup → ℕ
version_of none = 1
version_of (some p) = or_ℕ p.version 1

abbrev pub mode_of : AnnouncementPopup → DisplayMode
mode_of p = or_else p.display_mode once_per_session

abbrev pub has_begun : Moment → ℕ → Bool
has_begun no_moment now = true
has_begun invalid now = true
has_begun (moment start) now = not (ltb now start)

abbrev pub has_not_ended : Moment → ℕ → Bool
has_not_ended no_moment now = true
has_not_ended invalid now = true
has_not_ended (moment end) now = not (ltb end now)

-- `guests` and `logged_in` are the only audiences that are tested.
abbrev pub is_addressed : Option Audience → Bool → Bool
is_addressed (some guests) is_authenticated = not is_authenticated
is_addressed (some logged_in) is_authenticated = is_authenticated
is_addressed _ is_authenticated = true

-- `getItem(versionKey) === 'true'`, in the storage of the display mode.
abbrev pub was_dismissed : DisplayMode → ℕ → Storage → Bool
was_dismissed once_per_version v s = s.works && any (λ w. w == v) s.local_dismissed
was_dismissed once_per_session v s = s.works && any (λ w. w == v) s.session_dismissed
was_dismissed every_visit v s = false
was_dismissed always v s = false

-- `isVisible`, computed at a time.
unfoldable pub is_visible : (now : ℕ) (is_authenticated : Bool) → Announcer → Bool
unfolding matches_route
is_visible now is_authenticated a = elim a.popup [
  | none ↦ false
  | some p ↦
      p.enabled
      && or_else p.active true
      && not (ltb now a.snoozed_until)
      && has_begun p.start_at now
      && has_not_ended p.end_at now
      && is_addressed p.audience is_authenticated
      && matches_route a.path p.routes
      && not (was_dismissed (mode_of p) (version_of a.popup) a.storage)
      && not a.is_dismissed_in_session
]

abbrev pub write_dismissed : DisplayMode → ℕ → Storage → Storage
write_dismissed once_per_version v s =
    if s.works then record s { local_dismissed = v ∷ s.local_dismissed } else s
write_dismissed once_per_session v s =
    if s.works then record s { session_dismissed = v ∷ s.session_dismissed } else s
write_dismissed every_visit v s = s
write_dismissed always v s = s

abbrev pub remove_snooze : ℕ → Storage → Storage
remove_snooze v s =
    if s.works then record s { snoozes = filter (λ e. not (e.0 == v)) s.snoozes } else s

abbrev pub write_snooze : ℕ → ℕ → Storage → Storage
write_snooze v until s =
    if s.works
    then record s { snoozes = (v, until) ∷ filter (λ e. not (e.0 == v)) s.snoozes }
    else s

-- `Number(getItem(snoozeKey) || 0)`
abbrev pub find_snooze : ℕ → List (ℕ × ℕ) → ℕ
find_snooze v [] = 0
find_snooze v (e ∷ es) = if e.0 == v then e.1 else find_snooze v es

-- The effect that reads the snooze of the version, at a time.
unfoldable pub load_snooze : ℕ → Announcer → Announcer
load_snooze now a =
    let v = version_of a.popup in
    let stored = find_snooze v a.storage.snoozes in
    if a.storage.works
    then (if ltb now stored
        then record a { snoozed_until = stored }
        else record a { snoozed_until = 0; storage = remove_snooze v a.storage })
    else record a { snoozed_until = 0 }

-- The timer of the snooze fires when its time is over.
unfoldable pub end_snooze : ℕ → Announcer → Announcer
end_snooze now a =
    if not (a.snoozed_until == 0) && leb a.snoozed_until now
    then record a { snoozed_until = 0; storage = remove_snooze (version_of a.popup) a.storage }
    else a

unfoldable pub handle_dismiss : Announcer → Announcer
handle_dismiss a = elim a.popup [
  | none ↦ a
  | some p ↦
      if or_else p.dismissible true
      then record a {
        is_dismissed_in_session = true;
        storage = write_dismissed (mode_of p) (version_of a.popup) a.storage;
      }
      else a
]

unfoldable pub handle_snooze : ℕ → Announcer → Announcer
handle_snooze now a = record a {
  snoozed_until = now + two_hours;
  storage = write_snooze (version_of a.popup) (now + two_hours) a.storage;
}

abbrev pub is_every_visit : Option AnnouncementPopup → Bool
is_every_visit none = false
is_every_visit (some p) = elim p.display_mode [ some every_visit ↦ true | _ ↦ false ]

-- The effect on the path and the display mode.
abbrev pub visit_again : Announcer → Announcer
visit_again a = if is_every_visit a.popup then record a { is_dismissed_in_session = false } else a

unfoldable pub navigate : Text → Announcer → Announcer
navigate path a = if text_eq path a.path then a else visit_again (record a { path = path })

-- An answer with settings: the effects of a new version, and of a new display mode.
unfoldable pub set_popup : ℕ → Option AnnouncementPopup → Announcer → Announcer
unfolding load_snooze
set_popup now popup a =
    let fresh = record a { popup = popup } in
    let known =
      if version_of popup == version_of a.popup
      then fresh
      else load_snooze now (record fresh { is_dismissed_in_session = false }) in
    if is_every_visit a.popup then known else visit_again known

-- The page is loaded anew; the session's storage lasts as long as the tab.
unfoldable pub reload : ℕ → Announcer → Announcer
unfolding load_snooze
reload now a =
    load_snooze now (record a { popup = none; is_dismissed_in_session = false; snoozed_until = 0 })
