-- ===== src/Wizard/Pricing.antt =====
-- The order that frontend/src/pages/dashboard/ActivationWizard.tsx shows and the coupon beside it.
use locketgoldhuydev.Prelude.{ℕ, ◌≡◌, ◌⊎◌, none, Text}
use locketgoldhuydev.Wizard.Types.{QrOrder}
use locketgoldhuydev.Wizard.{Wizard}
use locketgoldhuydev.Wizard.Lookup.{Reply}
use locketgoldhuydev.Wizard.Coupons.{
  CouponResponse, Closing, CouponCall, apply_coupon, on_validated, on_apply_closed, remove_coupon,
  on_remove_closed,
}

-- No order is left, or neither the order nor the coupon has changed.
abbrev pub KeepsPrice : Wizard → Wizard → Type 0
KeepsPrice w v =
    (v.qr_order ≡ none) ⊎ ((v.qr_order ≡ w.qr_order) × (v.applied_coupon ≡ w.applied_coupon))

-- The parts of both handlers. The answer about a coupon comes while none is applied, and to the order
-- that was there when it was asked for.
pub data Move (w : Wizard) : Wizard → Type 0 where
  applies : (upper_other : ℕ → Text) → Move w (apply_coupon upper_other w).0
  validated :
      (call : CouponCall) (a : Reply CouponResponse)
      → w.applied_coupon ≡ none
      → call.order ≡ w.qr_order
      → Move w (on_validated call a w).0
  apply_closed :
      (call : CouponCall) (res : CouponResponse) (c : Closing)
      → Move w (on_apply_closed call res c w)
  removes : Move w (remove_coupon w).0
  remove_closed : (o : QrOrder) (c : Closing) → Move w (on_remove_closed o c w)
