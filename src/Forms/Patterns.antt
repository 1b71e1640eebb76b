-- ===== src/Forms/Patterns.antt =====
-- The two patterns of frontend/src/pages/RegisterPage.tsx, as what they match:
-- /^[^\s@]+@[^\s@]+\.[^\s@]+$/ and /^[a-zA-Z0-9_]{3,20}$/, over UTF-16 code units.
use locketgoldhuydev.Prelude.{
  ℕ, Bool, true, false, not, ◌&&◌, ◌||◌, Option, none, some, [], ◌∷◌, Text, is_space, length, leb,
  ◌==◌, if◌then◌else◌,
}

-- `[^\s@]`
abbrev pub is_part_unit : ℕ → Bool
is_part_unit c = not (is_space c) && not (c == b'@')

unfoldable pub all_units : (ℕ → Bool) → Text → Bool
all_units test [] = true
all_units test (c ∷ s) = test c && all_units test s

abbrev pub is_filled : Text → Bool
is_filled [] = false
is_filled (c ∷ s) = true

-- What stands before and after the first `@`.
abbrev pub cons_before : ℕ → Option (Text × Text) → Option (Text × Text)
cons_before c none = none
cons_before c (some (before, after)) = some (c ∷ before, after)

unfoldable pub split_at_sign : Text → Option (Text × Text)
split_at_sign [] = none
split_at_sign (c ∷ s) =
    let rest = split_at_sign s in if c == b'@' then some ([], s) else cons_before c rest

-- A dot with something behind it, and one with something on both sides.
unfoldable pub has_dot : Text → Bool
has_dot [] = false
has_dot (c ∷ s) = c == b'.' && is_filled s || has_dot s

unfoldable pub has_inner_dot : Text → Bool
unfolding has_dot
has_inner_dot [] = false
has_inner_dot (c ∷ s) = has_dot s

abbrev pub are_parts : Option (Text × Text) → Bool
are_parts none = false
are_parts (some (local, domain)) =
    is_filled local
    && all_units is_part_unit local
    && all_units is_part_unit domain
    && has_inner_dot domain

-- `emailPattern.test(email)`
unfoldable pub is_email : Text → Bool
unfolding split_at_sign all_units has_inner_dot
is_email s = are_parts (split_at_sign s)

-- `[a-zA-Z0-9_]`
abbrev pub is_name_unit : ℕ → Bool
is_name_unit c =
    (leb b'a' c && leb c b'z')
    || (leb b'A' c && leb c b'Z')
    || (leb b'0' c && leb c b'9')
    || c == b'_'

unfoldable pub is_user_name : Text → Bool
unfolding all_units
is_user_name s = leb 3 (length s) && leb (length s) 20 && all_units is_name_unit s
