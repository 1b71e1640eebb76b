-- ===== src/Utils/Format.antt =====
-- frontend/src/utils/format.ts: masked usernames and times as text. `seconds` is counted in
-- thousandths, so that values between whole seconds are covered; a negative value is handled as 0.
-- `timeOf` stands for the date that a text is read as: `none` is an invalid date.
pub mod Masking
pub mod Digits
pub mod Waiting
use locketgoldhuydev.Prelude.{
  ℕ, zero, suc, ◌+◌, ◌-◌, ◌*◌, ◌/◌, ◌%◌, min, Option, none, some, [], ◌∷◌, ◌++◌, Text, codes, trim,
  length, replicate, leb, ltb, ◌==◌, if◌then◌else◌,
}

-- `String(n)`
unfoldable pub decimal_from : ℕ → ℕ → Text
decimal_from zero n = []
decimal_from (suc fuel) n =
    let front = decimal_from fuel (n / 10) in
    if ltb n 10 then (b'0' + n) ∷ [] else front ++ (b'0' + n % 10) ∷ []

unfoldable pub decimal : ℕ → Text
unfolding decimal_from
decimal n = decimal_from (suc n) n

unfoldable pub mask : Text → Text
mask [] = codes "***"
mask (c ∷ s) =
    if leb (length (c ∷ s)) 1
    then (c ∷ s) ++ codes "***"
    else c ∷ replicate (min 4 (length (c ∷ s) - 1)) b'*'

unfoldable pub mask_username : Text → Text
unfolding mask
mask_username [] = codes "—"
mask_username (c ∷ s) = mask (trim (c ∷ s))

-- `Math.round(ms / 1000)`
abbrev pub round : ℕ → ℕ
round ms = (ms + 500) / 1000

unfoldable pub format_wait_time : ℕ → Text
format_wait_time ms =
    if ms == 0
    then codes "0s"
    else (if ltb ms 60000
        then decimal (round ms) ++ codes "s"
        else (let m = ms / 60000 in
            let s = round (ms % 60000) in
            if ltb 0 s
            then decimal m ++ (codes "p " ++ (decimal s ++ codes "s"))
            else decimal m ++ codes "p"))

relative_time : ℕ → Text
relative_time diff_sec =
    if ltb diff_sec 60
    then codes "Vừa xong"
    else (if ltb diff_sec 3600
        then decimal (diff_sec / 60) ++ codes " phút trước"
        else (if ltb diff_sec 86400
            then decimal (diff_sec / 3600) ++ codes " giờ trước"
            else decimal (diff_sec / 86400) ++ codes " ngày trước"))

-- A date in the future gives a negative difference, which is below a minute, and an invalid one
-- gives `NaN`, which is below nothing.
since : ℕ → Option ℕ → Text
unfolding relative_time
since now none = codes "NaN ngày trước"
since now (some date) =
    if ltb now date then codes "Vừa xong" else relative_time ((now - date) / 1000)

unfoldable pub format_relative_time : (Text → Option ℕ) → ℕ → Option Text → Text
unfolding since
format_relative_time time_of now none = codes "Vừa xong"
format_relative_time time_of now (some []) = codes "Vừa xong"
format_relative_time time_of now (some (c ∷ s)) = since now (time_of (c ∷ s))
