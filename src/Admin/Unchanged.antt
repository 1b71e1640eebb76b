-- ===== src/Admin/Unchanged.antt =====
-- A coupon that is opened in the form of frontend/src/pages/admin/AdminCoupons.tsx and saved as it is.
use locketgoldhuydev.Prelude.{
  ℕ, ◌-◌, ◌%◌, ◌≤◌, ◌≡◌, Bool, true, false, Option, none, some, [], Text, trim, upper, or_else,
  or_ℕ, ◌==◌, if◌then◌else◌,
}
use locketgoldhuydev.Utils.Format.{decimal}
use locketgoldhuydev.Admin.Coupons.{
  Coupon, Form, Payload, Num, natural, type_is_percent, is_thousands, Parsed, left_empty, parsed,
  is_blank, date_of, is_discount, parsed_max, parsed_total, parsed_per_user,
}
use locketgoldhuydev.Admin.Editing.{AtLeastOne, ThousandsIfAny}

-- How texts and dates are read: a decimal is its number; a date is written in universal time, to the
-- minute, and read in local time, `offset` seconds ahead.
pub record ReadsBack (number : Text → Num) (write_date : ℕ → Text) (read_date : Text → Option ℕ)
    (offset : ℕ) : Type 0 where
  pub numbers : (n : ℕ) → number (decimal n) ≡ natural n
  pub dates : (t : ℕ) → date_of read_date (write_date t) ≡ some (t - t % 60 - offset)

-- A coupon as the server keeps it.
pub record IsStored (upper_other : ℕ → Text) (c : Coupon) : Type 0 where
  pub upper_code : upper upper_other (trim c.code) ≡ c.code
  pub has_code : is_blank c.code ≡ false
  pub trimmed_name : trim c.name ≡ c.name
  pub has_name : is_blank c.name ≡ false
  pub trimmed_description : trim (or_else c.description []) ≡ or_else c.description []
  pub discounts : is_discount (type_is_percent c.discount_type) c.discount_value ≡ true
  pub capped : ThousandsIfAny c.max_discount_vnd
  pub cap_of_percent : type_is_percent c.discount_type ≡ false → c.max_discount_vnd ≡ none
  pub floored : is_thousands (or_ℕ c.min_order_vnd 1000) ≡ true
  pub total : AtLeastOne c.usage_limit_total
  pub per_user : AtLeastOne c.usage_limit_per_user

-- What a date becomes.
abbrev pub shifted : (offset : ℕ) → Option ℕ → Option ℕ
shifted offset none = none
shifted offset (some t) = if t == 0 then none else some (t - t % 60 - offset)

-- The coupon as it is sent back.
abbrev pub same_coupon : (offset : ℕ) → Coupon → Payload
same_coupon offset c = record {
  code = c.code;
  name = c.name;
  description = or_else c.description [];
  is_percent = type_is_percent c.discount_type;
  discount_value = c.discount_value;
  max_discount_vnd = c.max_discount_vnd;
  min_order_vnd = or_ℕ c.min_order_vnd 1000;
  usage_limit_total = c.usage_limit_total;
  usage_limit_per_user = c.usage_limit_per_user;
  starts_at = shifted offset c.starts_at;
  ends_at = shifted offset c.ends_at;
  is_active = c.is_active;
  plan_ids = or_else c.applicable_plan_ids [];
}

abbrev as_parsed : Option ℕ → Parsed
as_parsed none = left_empty
as_parsed (some n) = parsed n

abbrev Passes : (ℕ → Bool) → Option ℕ → Type 0
Passes test none = Unit
Passes test (some n) = (test n ≡ true) × (1 ≤ n)

abbrev IsRead : (number : Text → Num) → Form → Coupon → Type 0
IsRead number f c =
    (parsed_max number f ≡ as_parsed c.max_discount_vnd)
    × (parsed_total number f ≡ as_parsed c.usage_limit_total)
    × (parsed_per_user number f ≡ as_parsed c.usage_limit_per_user)
