-- ===== src/Wizard/AutoQr.antt =====
-- The effect of frontend/src/pages/dashboard/ActivationWizard.tsx that asks for a QR code when the user
-- comes to the payment. The component has it twice; both run after the same render, so the second sees
-- the states of that render and the refs as the first has left them.
use locketgoldhuydev.Prelude.{
  ◌≡◌, refl, Bool, true, false, not, ◌&&◌, Option, none, some, [], ◌∷◌, arith, String, Text, codes,
  trim, text_eq, or_text, or_else, is_some, ◌==◌, if-elim, if◌then◌else◌,
}
use locketgoldhuydev.Prelude.TextLaws.{text_eq_iff}
use locketgoldhuydev.Utils.Format.{decimal}
use locketgoldhuydev.Queue.{DevicePlatform}
use locketgoldhuydev.Wizard.Types.{FulfillmentMode, PlanItem}
use locketgoldhuydev.Wizard.{PaymentMethod, coin, qr, payment, Wizard, same_step, fulfillment_mode}
use locketgoldhuydev.Wizard.Payment.{
  Purchase, device_text, mode_text, coupon_code_of, joined, start_qr, create_qr_payment,
}

-- `value || ''`, of values that may be missing.
abbrev pub id_text : Option PlanItem → Text
id_text none = []
id_text (some p) = if p.id == 0 then [] else decimal p.id

abbrev pub platform_text : Option DevicePlatform → Text
platform_text none = []
platform_text (some device) = device_text device

abbrev pub fulfillment_text : Option FulfillmentMode → Text
fulfillment_text none = []
fulfillment_text (some mode) = mode_text mode

unfoldable pub auto_signature : Wizard → Text
unfolding fulfillment_mode
auto_signature w = joined (
    id_text w.selected_plan
    ∷ platform_text w.selected_platform
    ∷ fulfillment_text (fulfillment_mode w)
    ∷ trim w.username_input
    ∷ trim w.contact_zalo
    ∷ trim w.contact_facebook
    ∷ or_else (coupon_code_of w.applied_coupon) []
    ∷ codes (or_text w.lunakey_token "")
    ∷ [])

abbrev pub is_qr : PaymentMethod → Bool
is_qr coin = false
is_qr qr = true

abbrev pub wants_qr : Wizard → Bool
wants_qr w =
    same_step w.current_step payment
    && is_qr w.payment_method
    && not (is_some w.qr_order)
    && not w.is_processing_payment

abbrev pub is_last : Option Text → Text → Bool
is_last none signature = false
is_last (some last) signature = text_eq last signature

-- The effect, with the states of its render and the component as it is now.
unfoldable pub auto_qr : (fresh : String) → (render : Wizard) → Wizard → Wizard × Option Purchase
auto_qr fresh render w =
    if wants_qr render && not (is_last w.last_auto_qr_signature (auto_signature render))
    then create_qr_payment fresh
        (record w { last_auto_qr_signature = some (auto_signature render) })
    else (w, none)

start_qr-last :
    (p : Option PlanItem) (device : Option DevicePlatform) (fresh : String) (w : Wizard)
    → (start_qr p device fresh w).0.last_auto_qr_signature ≡ w.last_auto_qr_signature
unfolding start_qr
start_qr-last none device fresh w = refl
start_qr-last (some p) none fresh w = refl
start_qr-last (some p) (some device) fresh w = refl

is_last_self : (t : Text) → is_last (some t) t ≡ true
is_last_self t = (text_eq_iff t t).1 refl

-- After the effect, its signature is the last one, or the page does not want an order.
auto_qr-last :
    (fresh : String) (render w : Wizard)
    → (wants_qr render
        && not (is_last (auto_qr fresh render w).0.last_auto_qr_signature (auto_signature render)))
      ≡ false
unfolding auto_qr create_qr_payment
auto_qr-last fresh render w =
    if-elim
      (λ (r : Wizard × Option Purchase).
        (wants_qr render && not (is_last r.0.last_auto_qr_signature (auto_signature render)))
        ≡ false)
      (wants_qr render && not (is_last w.last_auto_qr_signature (auto_signature render))) _ _
      (λ sends.
        let noted = record w { last_auto_qr_signature = some (auto_signature render) } in
        rw
          (
            start_qr-last noted.selected_plan noted.selected_platform fresh noted,
            is_last_self (auto_signature render),
          )
          (ground arith))
      (λ idle. idle)

auto_qr-idle :
    (fresh : String) (render w : Wizard)
    → (wants_qr render && not (is_last w.last_auto_qr_signature (auto_signature render))) ≡ false
    → auto_qr fresh render w ≡ (w, none)
unfolding auto_qr
auto_qr-idle fresh render w h =
    if-elim (λ (r : Wizard × Option Purchase). r ≡ (w, none))
      (wants_qr render && not (is_last w.last_auto_qr_signature (auto_signature render))) _ _
      (λ sends. absurd (cc (h, sends))) (λ idle. refl)

-- The second copy of the effect does nothing: whatever the first has done, it changes no state and
-- sends no request.
pub auto_qr_twice :
    (first second : String) (render w : Wizard)
    → auto_qr second render (auto_qr first render w).0 ≡ ((auto_qr first render w).0, none)
auto_qr_twice first second render w = auto_qr-idle second render _ (auto_qr-last first render w)
