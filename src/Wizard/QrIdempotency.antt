-- ===== src/Wizard/QrIdempotency.antt =====
-- Requests of frontend/src/pages/dashboard/ActivationWizard.tsx for a QR code that are tried again.
use locketgoldhuydev.Prelude.{◌≡◌, refl, ◌∙◌, false, Option, none, some, String}
use locketgoldhuydev.Queue.{DevicePlatform}
use locketgoldhuydev.Wizard.Types.{PlanItem}
use locketgoldhuydev.Wizard.{Wizard}
use locketgoldhuydev.Wizard.Lookup.{Reply, replied, null_reply, rejected}
use locketgoldhuydev.Wizard.Payment.{
  Purchase, QrResponse, signature_of, purchase_of, start_qr, create_qr_payment, on_qr,
}
use locketgoldhuydev.Wizard.Idempotency.{next_attempt_again, Selects}

abbrev pub IsRefusedQr : Reply QrResponse → Type 0
IsRefusedQr (replied res) = res.success ≡ false
IsRefusedQr null_reply = Unit
IsRefusedQr (rejected m) = Unit

start_qr-Selects :
    (p : Option PlanItem) (device : Option DevicePlatform) (fresh : String) (w : Wizard)
    → Selects w (start_qr p device fresh w).0
unfolding start_qr
start_qr-Selects none device fresh w = (refl, refl)
start_qr-Selects (some p) none fresh w = (refl, refl)
start_qr-Selects (some p) (some device) fresh w = (refl, refl)

on_qr-Selects :
    (purchase : Purchase) (a : Reply QrResponse) (w : Wizard)
    → IsRefusedQr a
    → Selects w (on_qr purchase a w).0
unfolding on_qr
on_qr-Selects purchase (replied res) w refused = rw (refused, on_qr) (refl, refl)
on_qr-Selects purchase null_reply w refused = (refl, refl)
on_qr-Selects purchase (rejected m) w refused = (refl, refl)

start_qr_again :
    (p : Option PlanItem) (device : Option DevicePlatform) (first second : String) (w : Wizard)
    (purchase : Purchase) (a : Reply QrResponse)
    → (start_qr p device first w).1 ≡ some purchase
    → IsRefusedQr a
    → (start_qr p device second (on_qr purchase a (start_qr p device first w).0).0).1
      ≡ some purchase
unfolding start_qr on_qr signature_of purchase_of
start_qr_again none device first second w purchase a sent refused = absurd cc
start_qr_again (some p) none first second w purchase a sent refused = absurd cc
start_qr_again (some p) (some device) first second w purchase null_reply sent refused =
    rw (next_attempt_again w.qr_attempt (signature_of p device w) first second) sent
start_qr_again (some p) (some device) first second w purchase (rejected m) sent refused =
    rw (next_attempt_again w.qr_attempt (signature_of p device w) first second) sent
start_qr_again (some p) (some device) first second w purchase (replied res) sent refused =
    rw (refused, on_qr, next_attempt_again w.qr_attempt (signature_of p device w) first second) sent

-- A request for a QR code that was refused, or that got no answer, is sent again word for word: with
-- the same key, whatever new key is drawn.
pub create_qr_payment_again :
    (first second : String) (w : Wizard) (purchase : Purchase) (a : Reply QrResponse)
    → (create_qr_payment first w).1 ≡ some purchase
    → IsRefusedQr a
    → (create_qr_payment second (on_qr purchase a (create_qr_payment first w).0).0).1
      ≡ some purchase
unfolding create_qr_payment
create_qr_payment_again first second w purchase a sent refused =
    let w1 = (start_qr w.selected_plan w.selected_platform first w).0 in
    let (e, f) = start_qr-Selects w.selected_plan w.selected_platform first w in
    let (g, h) = on_qr-Selects purchase a w1 refused in
    rw (g ∙ e, h ∙ f)
      (start_qr_again w.selected_plan w.selected_platform first second w purchase a sent refused)
