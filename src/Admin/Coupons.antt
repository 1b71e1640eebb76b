-- ===== src/Admin/Coupons.antt =====
-- frontend/src/pages/admin/AdminCoupons.tsx: the form that creates and
-- edits them, cut where it waits. `Number(text)`, and how the browser reads and writes a date of a
-- form, are arguments; the discount and the least order are whole numbers, as their inputs give them.
use locketgoldhuydev.Prelude.{
  ℕ, ◌%◌, Bool, true, false, not, ◌&&◌, ◌||◌, Option, none, some, List, [], ◌∷◌, Text, trim, upper,
  or_else, or_ℕ, ltb, ◌==◌, if◌then◌else◌,
}
use locketgoldhuydev.Utils.Format.{decimal}

pub data DiscountType : Type 0 where
  percent fixed_vnd fixed : DiscountType

-- `AdminCoupon`, with the fields that the page reads; times are in seconds.
pub record Coupon : Type 0 where
  pub id : ℕ
  pub code : Text
  pub name : Text
  pub description : Option Text
  pub discount_type : DiscountType
  pub discount_value : ℕ
  pub max_discount_vnd : Option ℕ
  pub min_order_vnd : Option ℕ
  pub usage_limit_total : Option ℕ
  pub usage_limit_per_user : Option ℕ
  pub starts_at : Option ℕ
  pub ends_at : Option ℕ
  pub is_active : Bool
  pub applicable_plan_ids : Option (List ℕ)

-- The form; its discount type is `percent` or `fixed_vnd`.
pub record Form : Type 0 where
  pub editing : Option Coupon
  pub code : Text
  pub name : Text
  pub description : Text
  pub is_percent : Bool
  pub discount_value : ℕ
  pub max_discount_vnd : Text
  pub min_order_vnd : ℕ
  pub usage_limit_total : Text
  pub usage_limit_per_user : Text
  pub starts_at : Text
  pub ends_at : Text
  pub is_active : Bool
  pub plan_ids : List ℕ

-- What is sent.
pub record Payload : Type 0 where
  pub code : Text
  pub name : Text
  pub description : Text
  pub is_percent : Bool
  pub discount_value : ℕ
  pub max_discount_vnd : Option ℕ
  pub min_order_vnd : ℕ
  pub usage_limit_total : Option ℕ
  pub usage_limit_per_user : Option ℕ
  pub starts_at : Option ℕ
  pub ends_at : Option ℕ
  pub is_active : Bool
  pub plan_ids : List ℕ

-- The messages of the form, in the order of its tests.
pub data Complaint : Type 0 where
  no_code no_name bad_percent bad_fixed bad_max bad_min bad_total bad_per_user : Complaint

pub data Checked : Type 0 where
  complains : Complaint → Checked
  sends : Payload → Checked

-- What `Number` makes of a text: a natural number, or NaN, a fraction, a negative or infinite number.
pub data Num : Type 0 where
  natural : ℕ → Num
  other : Num

unfoldable pub handle_open_create : Form
handle_open_create = record {
  editing = none;
  code = [];
  name = [];
  description = [];
  is_percent = true;
  discount_value = 10;
  max_discount_vnd = [];
  min_order_vnd = 1000;
  usage_limit_total = [];
  usage_limit_per_user = b'1' ∷ [];
  starts_at = [];
  ends_at = [];
  is_active = true;
  plan_ids = [];
}

abbrev pub type_is_percent : DiscountType → Bool
type_is_percent percent = true
type_is_percent fixed_vnd = false
type_is_percent fixed = false

-- `value ? String(value) : ''`
abbrev pub number_text : Option ℕ → Text
number_text none = []
number_text (some n) = if n == 0 then [] else decimal n

-- A multiple of 1,000 that is not 0.
abbrev pub is_thousands : ℕ → Bool
is_thousands n = not (ltb n 1000) && n % 1000 == 0

-- An input that is left empty, one that is refused, and one that is a number.
pub data Parsed : Type 0 where
  left_empty refused : Parsed
  parsed : ℕ → Parsed

abbrev pub accept_if : (ℕ → Bool) → Num → Parsed
accept_if test other = refused
accept_if test (natural n) = if test n then parsed n else refused

abbrev pub value_of : Parsed → Option ℕ
value_of (parsed n) = some n
value_of _ = none

abbrev pub is_refused : Parsed → Bool
is_refused refused = true
is_refused _ = false

abbrev pub is_blank : Text → Bool
is_blank [] = true
is_blank (c ∷ s) = false

-- `t ? new Date(t * 1000).toISOString().slice(0, 16) : ''`
abbrev pub date_text : (write_date : ℕ → Text) → Option ℕ → Text
date_text write_date none = []
date_text write_date (some t) = if t == 0 then [] else write_date t

-- `text ? Math.floor(new Date(text).getTime() / 1000) : null`
abbrev pub date_of : (read_date : Text → Option ℕ) → Text → Option ℕ
date_of read_date [] = none
date_of read_date (c ∷ s) = read_date (c ∷ s)

abbrev pub is_discount : Bool → ℕ → Bool
is_discount true n = not (ltb n 1 || ltb 99 n)
is_discount false n = is_thousands n

abbrev pub is_positive : ℕ → Bool
is_positive n = not (ltb n 1)

unfoldable pub handle_open_edit : (write_date : ℕ → Text) → Coupon → Form
handle_open_edit write_date c = record {
  editing = some c;
  code = c.code;
  name = c.name;
  description = or_else c.description [];
  is_percent = type_is_percent c.discount_type;
  discount_value = c.discount_value;
  max_discount_vnd = number_text c.max_discount_vnd;
  min_order_vnd = or_ℕ c.min_order_vnd 1000;
  usage_limit_total = number_text c.usage_limit_total;
  usage_limit_per_user = number_text c.usage_limit_per_user;
  starts_at = date_text write_date c.starts_at;
  ends_at = date_text write_date c.ends_at;
  is_active = c.is_active;
  plan_ids = or_else c.applicable_plan_ids [];
}

module _ (number : Text → Num) where
  -- A text without the space around it is empty, or a number that is tested.
  abbrev pub parse_filled : (ℕ → Bool) → Text → Parsed
  parse_filled test [] = left_empty
  parse_filled test (c ∷ s) = accept_if test (number (c ∷ s))

  abbrev pub parse : (ℕ → Bool) → Text → Parsed
  parse test t = parse_filled test (trim t)

  abbrev pub parsed_max : Form → Parsed
  parsed_max f = parse is_thousands f.max_discount_vnd

  abbrev pub parsed_total : Form → Parsed
  parsed_total f = parse is_positive f.usage_limit_total

  abbrev pub parsed_per_user : Form → Parsed
  parsed_per_user f = parse is_positive f.usage_limit_per_user

-- The form is sent if nothing complains.
abbrev pub checked_with : Option Complaint → Payload → Checked
checked_with none p = sends p
checked_with (some c) p = complains c

module _ (upper_other : ℕ → Text) (number : Text → Num) (read_date : Text → Option ℕ) where
  unfoldable pub payload_of : Form → Payload
  payload_of f = record {
    code = upper upper_other (trim f.code);
    name = trim f.name;
    description = trim f.description;
    is_percent = f.is_percent;
    discount_value = f.discount_value;
    max_discount_vnd = if f.is_percent then value_of (parsed_max number f) else none;
    min_order_vnd = f.min_order_vnd;
    usage_limit_total = value_of (parsed_total number f);
    usage_limit_per_user = value_of (parsed_per_user number f);
    starts_at = date_of read_date f.starts_at;
    ends_at = date_of read_date f.ends_at;
    is_active = f.is_active;
    plan_ids = f.plan_ids;
  }

  -- The tests in their order; the first that fails complains.
  unfoldable pub complaint_of : Form → Option Complaint
  complaint_of f =
      if is_blank (upper upper_other (trim f.code))
      then some no_code
      else (if is_blank (trim f.name)
          then some no_name
          else (if not (is_discount f.is_percent f.discount_value)
              then some (if f.is_percent then bad_percent else bad_fixed)
              else (if is_refused (parsed_max number f)
                  then some bad_max
                  else (if not (is_thousands f.min_order_vnd)
                      then some bad_min
                      else (if is_refused (parsed_total number f)
                          then some bad_total
                          else (if is_refused (parsed_per_user number f)
                              then some bad_per_user
                              else none))))))

  -- `handleSaveCoupon` up to its call.
  unfoldable pub handle_save_coupon : Form → Checked
  unfolding payload_of complaint_of
  handle_save_coupon f = checked_with (complaint_of f) (payload_of f)
