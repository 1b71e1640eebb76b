-- ===== src/Hooks/Theme.antt =====
-- frontend/src/context/ThemeContext.tsx: the theme, the classes of the page, and what the storage keeps.
use locketgoldhuydev.Prelude.{
  ◌≡◌, refl, sym, ◌∙◌, subst, if-elim, Bool, true, false, Option, none, some, List, [], ◌∷◌, String,
  str_eq, if◌then◌else◌,
}

pub data Theme : Type 0 where
  light dark : Theme

-- The page: the two classes of its root element, the `content` of its `meta` element if it has one,
-- and the storage, which may be blocked.
pub record Document : Type 0 where
  pub has_dark : Bool
  pub has_light : Bool
  pub color_scheme : Option String
  pub works : Bool
  pub stored : Option String

pub record Provider : Type 0 where
  pub theme : Theme
  pub document : Document

abbrev pub name_of : Theme → String
name_of light = "light"
name_of dark = "dark"

-- `stored === 'light' || stored === 'dark'`, and else the default.
abbrev pub read_theme : Option String → Theme
read_theme none = light
read_theme (some s) = if str_eq s "light" then light else (if str_eq s "dark" then dark else light)

-- The initial state.
unfoldable pub initial_theme : Document → Theme
initial_theme d = if d.works then read_theme d.stored else light

abbrev pub with_classes : Theme → Document → Document
with_classes dark d = record d { has_dark = true; has_light = false }
with_classes light d = record d { has_dark = false; has_light = true }

abbrev pub with_scheme : String → Option String → Option String
with_scheme s none = none
with_scheme s (some old) = some s

-- The effect on the theme.
unfoldable pub show_theme : Theme → Document → Document
show_theme t d =
    let d1 = with_classes t d in
    record d1 {
      stored = if d.works then some (name_of t) else d.stored;
      color_scheme = with_scheme (name_of t) d.color_scheme;
    }

abbrev pub other_theme : Theme → Theme
other_theme dark = light
other_theme light = dark

abbrev pub same_theme : Theme → Theme → Bool
same_theme light light = true
same_theme dark dark = true
same_theme _ _ = false

-- React runs the effect where the theme has changed.
unfoldable pub set_theme : Theme → Provider → Provider
unfolding show_theme
set_theme t p =
    if same_theme t p.theme then p else record { theme = t; document = show_theme t p.document }

unfoldable pub toggle_theme : Provider → Provider
unfolding set_theme
toggle_theme p = set_theme (other_theme p.theme) p

-- The provider is mounted on a page.
unfoldable pub mount : Document → Provider
unfolding initial_theme show_theme
mount d = record { theme = initial_theme d; document = show_theme (initial_theme d) d }

pub data Action : Type 0 where
  toggles reloads : Action
  sets : Theme → Action

unfoldable pub act : Action → Provider → Provider
unfolding set_theme toggle_theme mount
act toggles p = toggle_theme p
act (sets t) p = set_theme t p
act reloads p = mount p.document

unfoldable pub run : List Action → Provider → Provider
run [] p = p
run (a ∷ actions) p = run actions (act a p)

-- What users are promised: a switch with a memory.
abbrev pub meant : Action → Theme → Theme
meant toggles t = other_theme t
meant (sets u) t = u
meant reloads t = t

abbrev pub promised : List Action → Theme → Theme
promised [] t = t
promised (a ∷ actions) t = promised actions (meant a t)

-- The page shows and keeps this theme.
abbrev pub Shows : Theme → Provider → Type 0
Shows t p =
    (p.theme ≡ t)
    × (p.document.works ≡ true)
    × (p.document.stored ≡ some (name_of t))
    × (p.document.has_dark ≡ same_theme t dark)
    × (p.document.has_light ≡ same_theme t light)

show_theme-Shows :
    (t : Theme) (d : Document)
    → d.works ≡ true
    → Shows t (record { theme = t; document = show_theme t d })
unfolding show_theme
show_theme-Shows light d works = (refl, works, rw works refl, refl, refl)
show_theme-Shows dark d works = (refl, works, rw works refl, refl, refl)

same_theme-≡ : (t u : Theme) → same_theme t u ≡ true → u ≡ t
same_theme-≡ light light h = refl
same_theme-≡ light dark h = absurd cc
same_theme-≡ dark light h = absurd cc
same_theme-≡ dark dark h = refl

set_theme-Shows : (t u : Theme) (p : Provider) → Shows u p → Shows t (set_theme t p)
unfolding set_theme
set_theme-Shows t u p h =
    if-elim (Shows t) (same_theme t p.theme) _ _
      (λ same. rw⁻¹ (sym h.0 ∙ same_theme-≡ t p.theme same) h)
      (λ _. show_theme-Shows t p.document h.1)

mount-Shows : (u : Theme) (d : Document) → d.works ≡ true → initial_theme d ≡ u → Shows u (mount d)
unfolding mount
mount-Shows u d works same =
    subst (λ t. Shows u (record { theme = t; document = show_theme t d })) (sym same)
      (show_theme-Shows u d works)

-- What the storage keeps is read again.
stored-theme : (t : Theme) (p : Provider) → Shows t p → initial_theme p.document ≡ t
unfolding initial_theme
stored-theme light p h = rw (h.1, h.2) refl
stored-theme dark p h = rw (h.1, h.2) refl

act-Shows : (a : Action) (t : Theme) (p : Provider) → Shows t p → Shows (meant a t) (act a p)
unfolding act toggle_theme
act-Shows toggles t p h =
    subst (λ u. Shows (other_theme u) (set_theme (other_theme p.theme) p)) h.0
      (set_theme-Shows (other_theme p.theme) t p h)
act-Shows (sets u) t p h = set_theme-Shows u t p h
act-Shows reloads t p h = mount-Shows t p.document h.1 (stored-theme t p h)

run-Shows :
    (actions : List Action) (t : Theme) (p : Provider)
    → Shows t p
    → Shows (promised actions t) (run actions p)
unfolding run
run-Shows [] t p h = h
run-Shows (a ∷ actions) t p h = run-Shows actions (meant a t) (act a p) (act-Shows a t p h)

-- Where the storage works, the provider is a switch with a memory: after any toggles, choices and
-- reloads of the page, the theme is the one that a plain switch would have, which starts with the theme
-- read from the storage and which a reload does not touch; the storage has its name, and the root
-- element has exactly its class.
pub run-promised :
    (actions : List Action) (d : Document)
    → d.works ≡ true
    → Shows (promised actions (initial_theme d)) (run actions (mount d))
run-promised actions d works =
    run-Shows actions (initial_theme d) (mount d) (mount-Shows (initial_theme d) d works refl)
