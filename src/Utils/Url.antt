-- ===== src/Utils/Url.antt =====
-- frontend/src/utils/url.ts. A missing parameter is `none`. What `toLowerCase` makes of a unit
-- outside ASCII is an argument of every definition, so nothing here rests on Unicode tables.
pub mod Safety
pub mod Areas
use locketgoldhuydev.Prelude.{
  ℕ, Bool, not, ◌&&◌, ◌||◌, Option, none, some, [], ◌∷◌, ◌++◌, Text, codes, text_eq, starts_with,
  includes, trim, leb, ltb, if◌then◌else◌, ◌+◌,
}

-- The `#` of a fragment gets a slash in front.
unfoldable pub rooted : Text → Text
unfolding starts_with
rooted trimmed = if starts_with trimmed (codes "#") then b'/' ∷ trimmed else trimmed

unfoldable pub is_local : Text → Bool
is_local t =
    starts_with t (codes "/")
    && not (starts_with t (codes "//"))
    && not (starts_with t (codes "/\\"))
    && not (includes t (codes "\\"))

-- `path === base || path.startsWith(base + '?') || path.startsWith(base + '/')`
unfoldable pub is_inside : Text → Text → Bool
is_inside base path =
    text_eq path base
    || starts_with path (base ++ codes "?")
    || starts_with path (base ++ codes "/")

module _ (lower_other : ℕ → Text) where
  unfoldable pub lower_unit : ℕ → Text
  lower_unit c =
      if ltb c 128
      then (if leb b'A' c && leb c b'Z' then (c + 32) ∷ [] else c ∷ [])
      else lower_other c

  -- `s.toLowerCase()`
  unfoldable pub lower : Text → Text
  unfolding lower_unit
  lower [] = []
  lower (c ∷ s) = lower_unit c ++ lower s

  unfoldable pub has_no_scheme : Text → Bool
  has_no_scheme t =
      not (includes (lower t) (codes "javascript:")) && not (includes (lower t) (codes "data:"))

  unfoldable pub accept : Text → Text
  accept t = if is_local t then (if has_no_scheme t then t else codes "/") else codes "/"

  unfoldable pub sanitize_return_to : Option Text → Text
  sanitize_return_to none = codes "/"
  sanitize_return_to (some []) = codes "/"
  sanitize_return_to (some (c ∷ s)) = accept (rooted (trim (c ∷ s)))

  unfoldable pub get_dashboard_return_to : Option Text → Text
  get_dashboard_return_to raw =
      let safe_path = sanitize_return_to raw in
      if is_inside (codes "/dashboard") safe_path then safe_path else codes "/dashboard"

  unfoldable pub get_post_login_return_to : Option Text → Option Text → Text
  get_post_login_return_to none raw = get_dashboard_return_to raw
  get_post_login_return_to (some role) raw =
      if text_eq role (codes "admin")
      then (let safe_path = sanitize_return_to raw in
          if is_inside (codes "/admin") safe_path then safe_path else codes "/admin")
      else get_dashboard_return_to raw
