-- ===== src/Utils/Username.antt =====
-- frontend/src/utils/username.ts: the username in what a user typed, and its check.
pub mod Parts
pub mod Links
use locketgoldhuydev.Prelude.{
  ℕ, zero, suc, ◌-◌, Bool, true, false, ◌&&◌, ◌||◌, not, Option, none, some, List, [], ◌∷◌, Text,
  codes, starts_with, includes, trim, drop, length, get_elem?, leb, ltb, ◌==◌, if◌then◌else◌,
}

unfoldable pub push_head : ℕ → List Text → List Text
push_head c [] = (c ∷ []) ∷ []
push_head c (w ∷ ws) = (c ∷ w) ∷ ws

-- `skip` counts the units of a separator that are still to be passed over.
unfoldable pub split_from : Text → ℕ → Text → List Text
unfolding push_head starts_with
split_from sep skip [] = [] ∷ []
split_from sep (suc skip) (c ∷ s) = split_from sep skip s
split_from sep zero (c ∷ s) =
    let here = starts_with (c ∷ s) sep in
    let rest = split_from sep (if here then length sep - 1 else 0) s in
    if here then [] ∷ rest else push_head c rest

-- `s.split(sep)`, where `sep` is not empty
unfoldable pub split : Text → Text → List Text
unfolding split_from
split s sep = split_from sep 0 s

-- `s.split(sep)[0]`
unfoldable pub first_part : Text → Text → Text
unfolding split
first_part s sep = elim (split s sep) [ [] ↦ [] | w ∷ ws ↦ w ]

-- `parts[1]?.split('?')[0]?.split('/')[0] || ''`
unfoldable pub path_part : Option Text → Text
path_part none = []
path_part (some s) = first_part (first_part s (codes "?")) (codes "/")

unfoldable pub without_at : Text → Text
without_at input = if starts_with input (codes "@") then drop 1 input else input

unfoldable pub from_link : Text → Text
from_link input =
    if includes input (codes "locket.cam/")
    then path_part (get_elem? (split input (codes "locket.cam/")) 1)
    else input

unfoldable pub extract_username : Text → Text
extract_username [] = []
extract_username (c ∷ s) = trim (from_link (without_at (trim (c ∷ s))))

-- A unit of `[a-zA-Z0-9._]`.
unfoldable pub is_name_unit : ℕ → Bool
is_name_unit c =
    (leb b'a' c && leb c b'z')
    || (leb b'A' c && leb c b'Z')
    || (leb b'0' c && leb c b'9')
    || c == b'.'
    || c == b'_'

-- `/^[a-zA-Z0-9._]+$/`: the text has been found longer than one unit where this is asked.
unfoldable pub all_name_units : Text → Bool
unfolding is_name_unit
all_name_units [] = false
all_name_units (c ∷ []) = is_name_unit c
all_name_units (c ∷ d ∷ s) = is_name_unit c && all_name_units (d ∷ s)

unfoldable pub is_valid_username : Text → Bool
unfolding all_name_units
is_valid_username username =
    if ltb (length username) 2 || ltb 35 (length username) then false else all_name_units username
