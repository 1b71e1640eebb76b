-- ===== src/Tests/Admin.antt =====
-- Runs of the administration under frontend/src/pages/admin and frontend/src/components/admin.
use locketgoldhuydev.Prelude.{
  ℕ, ◌+◌, ◌-◌, ◌*◌, ◌%◌, ◌≤◌, ◌≡◌, true, Option, none, some, List, [], ◌∷◌, ◌++◌, arith, Text,
  codes, length,
}
use locketgoldhuydev.Utils.Format.{decimal}
use locketgoldhuydev.Utils.Format.Waiting.{read_wait}
use locketgoldhuydev.Admin.Pagination.{rows_of, from_row, to_row, rows_of-range}
use locketgoldhuydev.Admin.Coupons.{
  percent, Coupon, Num, natural, handle_open_edit, handle_save_coupon,
}
use locketgoldhuydev.Admin.Editing.{Sends, handle_save_coupon-IsSound}

abbrev rows : List ℕ
rows = 1 ∷ 2 ∷ 3 ∷ 4 ∷ 5 ∷ []

rows_of-range_example :
    (length (rows_of 3 2 rows) + from_row 3 3 5 2 ≡ to_row 3 3 5 2 + 1)
    × (from_row 3 3 5 2 ≡ (3 - 1) * 2 + 1)
    × (from_row 3 3 5 2 ≤ to_row 3 3 5 2)
rows_of-range_example =
    rows_of-range rows 3 3 2 (omega arith) (omega arith) (omega arith) (omega arith) (omega arith)

abbrev same_unit : ℕ → Text
same_unit c = c ∷ []

-- Numbers are read from their digits; dates are written as their seconds, and read seven hours ahead.
abbrev number : Text → Num
number t = natural (read_wait 0 0 (t ++ codes "s"))

abbrev write_date : ℕ → Text
write_date t = decimal t ++ codes "s"

abbrev read_date : Text → Option ℕ
read_date s = let t = read_wait 0 0 s in some (t - t % 60 - 25200)

abbrev summer : Coupon
summer = record {
  id = 7;
  code = codes "SUMMER";
  name = codes "Summer";
  description = none;
  discount_type = percent;
  discount_value = 15;
  max_discount_vnd = some 50000;
  min_order_vnd = some 99000;
  usage_limit_total = none;
  usage_limit_per_user = some 1;
  starts_at = some 1000000;
  ends_at = none;
  is_active = true;
  applicable_plan_ids = some (4 ∷ []);
}

handle_save_coupon-IsSound_example :
    Sends (handle_save_coupon same_unit number read_date (handle_open_edit write_date summer))
handle_save_coupon-IsSound_example =
    handle_save_coupon-IsSound same_unit number read_date (handle_open_edit write_date summer)
