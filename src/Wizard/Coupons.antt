-- ===== src/Wizard/Coupons.antt =====
-- The coupons of frontend/src/pages/dashboard/ActivationWizard.tsx: `handleApplyCoupon`,
-- `handleRemoveCoupon` and `closeActiveQrOrder`, cut where they wait. A call keeps what its closure has
-- captured: the plan and the order of that moment.
use locketgoldhuydev.Prelude.{
  ℕ, Bool, true, false, ◌&&◌, Option, none, some, [], ◌∷◌, String, Text, trim, upper, or_text,
  or_else, if◌then◌else◌,
}
use locketgoldhuydev.Api.Types.{Message, text_of, type_error}
use locketgoldhuydev.Wizard.Types.{PlanItem, CouponQuote, QrOrder, Alert, says}
use locketgoldhuydev.Wizard.{Wizard}
use locketgoldhuydev.Wizard.Lookup.{Reply, replied, null_reply, rejected, or_units, or_message}

-- `ValidateCouponResponse`
pub record CouponResponse : Type 0 where
  pub success : Bool
  pub valid : Bool
  pub code : Option Text
  pub original_vnd : Option ℕ
  pub original_coin : Option ℕ
  pub discount_vnd : Option ℕ
  pub discount_coin : Option ℕ
  pub final_vnd : Option ℕ
  pub final_coin : Option ℕ
  pub message : Option String

-- `cancelPayment` resolves, to whatever it may be, or rejects.
pub data Closing : Type 0 where
  resolved : Closing
  failed : Message → Closing

pub record CouponCall : Type 0 where
  pub clean_code : Text
  pub plan : PlanItem
  pub order : Option QrOrder

-- `payment_ref || payment_code`
abbrev pub ref_of : QrOrder → String
ref_of o = or_text o.payment_ref o.payment_code

abbrev pub coupon_says : String → Option Alert
coupon_says m = some (says (text_of m))

-- `handleApplyCoupon` up to `validateCoupon`.
unfoldable pub apply_coupon : (upper_other : ℕ → Text) → Wizard → Wizard × Option CouponCall
apply_coupon upper_other w = elim w.selected_plan [
  | none ↦ (w, none)
  | some p ↦ elim (upper upper_other (trim w.coupon_input)) [
    | [] ↦ (record w { coupon_error = coupon_says "Vui lòng nhập mã giảm giá." }, none)
    | c ∷ code ↦ (
      record w { is_validating_coupon = true; coupon_error = none },
      some (record { clean_code = c ∷ code; plan = p; order = w.qr_order }),
    )
  ]
]

-- `closeActiveQrOrder` from its answer on; without an order there is nothing to close.
unfoldable pub close_active_qr_order : Closing → Wizard → Bool × Wizard
close_active_qr_order resolved w =
    (true, record w { qr_order = none; qr_attempt = none; last_auto_qr_signature = none })
close_active_qr_order (failed m) w = (
  false,
  record w {
    payment_error =
        some
          (or_message m "Không thể đóng mã QR hiện tại. Vui lòng kiểm tra trạng thái thanh toán.");
  },
)

abbrev pub quote_of : CouponCall → CouponResponse → CouponQuote
quote_of call res = record {
  code = or_units res.code call.clean_code;
  original_vnd = or_else res.original_vnd call.plan.price_vnd;
  original_coin = or_else res.original_coin call.plan.price_coin;
  discount_vnd = or_else res.discount_vnd 0;
  discount_coin = or_else res.discount_coin 0;
  final_vnd = or_else res.final_vnd call.plan.price_vnd;
  final_coin = or_else res.final_coin call.plan.price_coin;
}

-- What both handlers do last: the order that their closure knows is dropped.
unfoldable pub drop_order : Option QrOrder → Wizard → Wizard
drop_order none w = w
drop_order (some o) w = record w { qr_order = none; qr_attempt = none }

unfoldable pub coupon_applied : CouponCall → CouponResponse → Wizard → Wizard
unfolding drop_order
coupon_applied call res w =
    record (drop_order call.order (record w { applied_coupon = some (quote_of call res) })) {
      is_validating_coupon = false;
    }

unfoldable pub coupon_refused : Option Alert → Wizard → Wizard
coupon_refused e w = record w {
  applied_coupon = none;
  coupon_error = e;
  is_validating_coupon = false;
}

-- A valid coupon asks to close the order, and the answer to that is awaited; the second part is the
-- reference of the order to cancel.
unfoldable pub valid_coupon : CouponCall → CouponResponse → Wizard → Wizard × Option String
unfolding coupon_applied
valid_coupon call res w = elim call.order [
  | none ↦ (coupon_applied call res w, none)
  | some o ↦ (w, some (ref_of o))
]

-- `handleApplyCoupon` after `validateCoupon`.
unfoldable pub on_validated : CouponCall → Reply CouponResponse → Wizard → Wizard × Option String
unfolding valid_coupon coupon_refused
on_validated call (replied res) w = if res.success && res.valid then valid_coupon call res w else (
  coupon_refused
      (coupon_says (or_text res.message "Mã giảm giá không hợp lệ hoặc không đủ điều kiện.")) w,
  none,
)
on_validated call null_reply w = (coupon_refused (some (says type_error)) w, none)
on_validated call (rejected m) w =
    (coupon_refused (some (or_message m "Không thể xác thực mã giảm giá lúc này.")) w, none)

-- The rest of `handleApplyCoupon`, once the order is closed or not.
unfoldable pub on_apply_closed : CouponCall → CouponResponse → Closing → Wizard → Wizard
unfolding close_active_qr_order coupon_applied
on_apply_closed call res c w =
    let (closed, w1) = close_active_qr_order c w in
    if closed then coupon_applied call res w1 else record w1 {
      coupon_error = coupon_says "Không thể đổi giá khi mã QR hiện tại chưa được đóng.";
      is_validating_coupon = false;
    }

unfoldable pub coupon_removed : Option QrOrder → Wizard → Wizard
unfolding drop_order
coupon_removed order w =
    drop_order order (record w { applied_coupon = none; coupon_input = []; coupon_error = none })

-- `handleRemoveCoupon`: without an order it is done at once.
unfoldable pub remove_coupon : Wizard → Wizard × Option QrOrder
unfolding coupon_removed
remove_coupon w = elim w.qr_order [ none ↦ (coupon_removed none w, none) | some o ↦ (w, some o) ]

unfoldable pub on_remove_closed : QrOrder → Closing → Wizard → Wizard
unfolding close_active_qr_order coupon_removed
on_remove_closed o c w =
    let (closed, w1) = close_active_qr_order c w in
    if closed
    then coupon_removed (some o) w1
    else record w1 { coupon_error = coupon_says "Không thể bỏ mã khi QR hiện tại chưa được đóng." }
