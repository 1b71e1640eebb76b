-- ===== src/Tests/Utils.antt =====
-- Runs of frontend/src/utils.
use locketgoldhuydev.Prelude.{
  ℕ, ◌≡◌, refl, some, [], ◌∷◌, ◌++◌, true, Text, codes, starts_with, includes, trim, trim_start,
  trim_end, keep_unit, is_space,
}
use locketgoldhuydev.Prelude.TextLaws.{Contains, not-Contains}
use locketgoldhuydev.Utils.Url.{
  lower_unit, lower, rooted, is_local, has_no_scheme, accept, sanitize_return_to,
}
use locketgoldhuydev.Utils.Url.Safety.{IsInternal, sanitize_return_to-IsInternal}
use locketgoldhuydev.Utils.Username.{
  push_head, split_from, split, first_part, path_part, without_at, from_link, extract_username,
  is_name_unit, all_name_units, is_valid_username,
}
use locketgoldhuydev.Utils.Format.{
  decimal, decimal_from, mask, mask_username, round, format_wait_time,
}
use locketgoldhuydev.Utils.Format.Waiting.{read_wait, read_wait-format_wait_time}

-- Letters beyond ASCII are kept as they are.
abbrev same_unit : ℕ → Text
same_unit c = c ∷ []

sanitize_tests :
    (sanitize_return_to same_unit (some (codes " #faq ")) ≡ codes "/#faq")
    × (sanitize_return_to same_unit (some (codes "//evil.example")) ≡ codes "/")
    × (sanitize_return_to same_unit (some (codes "/a\\b")) ≡ codes "/")
    × (sanitize_return_to same_unit (some (codes "/JavaScript:x")) ≡ codes "/")
    × (sanitize_return_to same_unit (some (codes "/dashboard?x=1")) ≡ codes "/dashboard?x=1")
unfolding sanitize_return_to accept rooted is_local has_no_scheme lower lower_unit includes
    starts_with trim trim_start trim_end keep_unit is_space
sanitize_tests = (refl, refl, refl, refl, refl)

username_tests :
    (extract_username (codes " @ann_1 ") ≡ codes "ann_1")
    × (extract_username (codes "https://locket.cam/ann/x?y") ≡ codes "ann")
    × (extract_username (codes "https://locket.cam/") ≡ [])
unfolding extract_username from_link without_at path_part first_part split split_from push_head
    includes starts_with trim trim_start trim_end keep_unit is_space
username_tests = (refl, refl, refl)

format_tests :
    (mask_username (codes " secret ") ≡ codes "s****")
    × (mask_username (codes "ab") ≡ codes "a*")
    × (format_wait_time 61499 ≡ codes "1p 1s")
unfolding mask_username mask format_wait_time decimal decimal_from trim trim_start trim_end
    keep_unit is_space
format_tests = (refl, refl, refl)

sanitize_return_to-IsInternal_example :
    IsInternal same_unit (sanitize_return_to same_unit (some (codes "https://evil.example")))
sanitize_return_to-IsInternal_example =
    sanitize_return_to-IsInternal same_unit (some (codes "https://evil.example"))

valid_name : is_valid_username (codes "ann_1") ≡ true
unfolding is_valid_username all_name_units is_name_unit trim trim_start trim_end keep_unit is_space
valid_name = refl

tail-IsTrimmed : trim_end (codes "?ref=2") ≡ codes "?ref=2"
unfolding trim_end keep_unit is_space
tail-IsTrimmed = refl

one_link : ¬ Contains (codes "locket.cam/") (codes "ann_1" ++ codes "?ref=2")
unfolding includes starts_with
one_link = not-Contains (codes "ann_1?ref=2") (codes "locket.cam/") refl

trimmed_names :
    (trim (codes "secret") ≡ codes "secret") × (trim (codes " sandwich") ≡ codes "sandwich")
unfolding trim trim_start trim_end keep_unit is_space
trimmed_names = (refl, refl)

read_wait-format_wait_time_example : read_wait 0 0 (format_wait_time 754321) ≡ round 754321
read_wait-format_wait_time_example = read_wait-format_wait_time 754321
