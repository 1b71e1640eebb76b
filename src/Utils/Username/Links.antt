-- ===== src/Utils/Username/Links.antt =====
-- What `extractUsername` of frontend/src/utils/username.ts finds in a link.
use locketgoldhuydev.Prelude.{
  ◌≡◌, refl, ap, ◌∙◌, subst, inl, inr, ◌≢◌, Bool, true, false, some, [], ◌∷◌, ◌++◌, arith, Text,
  codes, starts_with, includes, trim, All, Bool-cases, is_space, trim_start, trim_end, append_assoc,
  get_elem?,
}
use locketgoldhuydev.Prelude.TextLaws.{
  Contains, not-Contains, includes-append, includes-Contains, trim_start-fixed,
}
use locketgoldhuydev.Utils.Username.Parts.{
  path_part-ne, trim_start-suffix, trim_end-prefix, IsName, IsTail, trim_end_plain, name-plain,
  trim_name, path_part_name, is_valid_username-IsName,
}
use locketgoldhuydev.Utils.Username.{
  push_head, split_from, split, path_part, without_at, from_link, extract_username,
  is_valid_username,
}

-- What the trimmed text contains stands in the text.
Contains-trim : (p s : Text) → Contains p (trim s) → Contains p s
unfolding trim
Contains-trim p s (before, after, e) =
    let (front, f) = trim_start-suffix s in
    let (back, g) = trim_end-prefix (trim_start s) in
    (
      front ++ before,
      after ++ back,
      f ∙ ap (λ t. front ++ t) (g ∙ ap (λ t. t ++ back) e) ∙ simp append_assoc,
    )

-- The separator of links holds a slash.
not-Contains_link : (t : Text) → All (λ c. c ≢ b'/') t → ¬ Contains (codes "locket.cam/") t
not-Contains_link t h (before, after, e) = go before (subst (All (λ c. c ≢ b'/')) e h)
  where
    go : (before : Text) → ¬ All (λ c. c ≢ b'/') (before ++ (codes "locket.cam/" ++ after))
    go [] k = absurd (k.1.1.1.1.1.1.1.1.1.1.0 refl)
    go (c ∷ before) k = go before k.1

from_link-not-Contains : (input : Text) → ¬ Contains (codes "locket.cam/") (from_link input)
unfolding from_link
from_link-not-Contains input = elim (Bool-cases (includes input (codes "locket.cam/"))) [
  | inl link ↦ rw link (not-Contains_link _ (path_part-ne _))
  | inr plain ↦ rw plain (not-Contains input _ plain)
]

-- No link is left in the username, whatever the user typed.
pub extract_username-not-Contains :
    (raw : Text) → ¬ Contains (codes "locket.cam/") (extract_username raw)
unfolding extract_username
extract_username-not-Contains [] h = not-Contains_link [] tt h
extract_username-not-Contains (c ∷ s) h =
    from_link-not-Contains _ (Contains-trim (codes "locket.cam/") _ h)

-- A text without the separator is one part.
split_from-alone : (sep s : Text) → includes s sep ≡ false → split_from sep 0 s ≡ s ∷ []
unfolding split_from includes
split_from-alone sep [] h = refl
split_from-alone sep (c ∷ s) h = ground (arith, split_from-alone sep s, push_head)

abbrev link_front : Text
link_front = codes "https://locket.cam/"

second_part :
    (s : Text)
    → includes s (codes "locket.cam/") ≡ false
    → get_elem? (split (link_front ++ s) (codes "locket.cam/")) 1 ≡ some s
unfolding split split_from push_head
second_part s h = rw (split_from-alone (codes "locket.cam/") s h) refl

from_link-front :
    (s : Text)
    → includes s (codes "locket.cam/") ≡ false
    → from_link (link_front ++ s) ≡ path_part (some s)
unfolding from_link
from_link-front s h =
    rw (includes-append (codes "https://") (codes "locket.cam/") s) (ap path_part (second_part s h))

trim-front : (s : Text) → trim_end s ≡ s → trim (link_front ++ s) ≡ link_front ++ s
unfolding trim is_space
trim-front s h =
    ap trim_end (trim_start-fixed b'h' (codes "ttps://locket.cam/" ++ s) refl)
    ∙ trim_end_plain link_front s (ground arith)
    ∙ ap (λ t. link_front ++ t) h

-- A valid username at the end of a link, or in front of a query or of a further path, is what is
-- found in the link, as long as the link's own text does not come a second time.
pub extract_username-link :
    (user tail : Text)
    → is_valid_username user ≡ true
    → IsTail tail
    → trim_end tail ≡ tail
    → ¬ Contains (codes "locket.cam/") (user ++ tail)
    → extract_username (codes "https://locket.cam/" ++ (user ++ tail)) ≡ user
unfolding extract_username without_at starts_with
extract_username-link user tail valid t end once =
    ap (λ u. trim (from_link (without_at u))) (trim-front (user ++ tail) trimmed)
    ∙ ap trim (from_link-front (user ++ tail) no_more ∙ path_part_name user tail name t)
    ∙ trim_name user name
  where
    name : IsName user
    name = is_valid_username-IsName user valid

    trimmed : trim_end (user ++ tail) ≡ user ++ tail
    trimmed = trim_end_plain user tail (name-plain user name) ∙ ap (λ r. user ++ r) end

    absent : (b : Bool) → ¬ (b ≡ true) → b ≡ false
    absent true h = absurd (h refl)
    absent false h = refl

    no_more : includes (user ++ tail) (codes "locket.cam/") ≡ false
    no_more = absent _ (λ h. once (includes-Contains _ _ h))
