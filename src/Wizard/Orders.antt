-- ===== src/Wizard/Orders.antt =====
-- The order that waits for a transfer in frontend/src/pages/dashboard/ActivationWizard.tsx: what the
-- polling of the payment reports, and `handleRenewQrOrder`, cut where it waits.
use locketgoldhuydev.Prelude.{
  ℕ, Bool, true, false, Option, none, some, List, [], ◌∷◌, ◌++◌, String, Text, codes, trim, or_null,
  or_text, ◌==◌, if◌then◌else◌,
}
use locketgoldhuydev.Api.Types.{text_of, type_error}
use locketgoldhuydev.Utils.Format.{decimal}
use locketgoldhuydev.Queue.{DevicePlatform}
use locketgoldhuydev.Wizard.Types.{
  PaymentStatus, pending, paid, expired, cancelled, underpaid, review_needed, QrOrder, says,
}
use locketgoldhuydev.Wizard.{Wizard, completed}
use locketgoldhuydev.Wizard.Lookup.{Reply, replied, null_reply, rejected, or_message}
use locketgoldhuydev.Wizard.Payment.{Effect, refresh_wallet, order_created, announce}
use locketgoldhuydev.Wizard.Coupons.{ref_of}

-- `ActivationOrder`, with what the wizard reads.
pub record ActivationOrder : Type 0 where
  pub id : ℕ
  pub status : String
  pub queue_client_id : Option String

abbrev pub qr_toast : ℕ → Text
qr_toast payment = codes "qr-payment-" ++ decimal payment

abbrev pub with_status : PaymentStatus → Option QrOrder → Option QrOrder
with_status s none = none
with_status s (some o) = some (record o { status = s })

-- `activationOrder?.id || activationOrderId`
abbrev pub paid_order_id : Option ActivationOrder → Option ℕ → Option ℕ
paid_order_id none known = known
paid_order_id (some o) known = if o.id == 0 then known else some o.id

-- `if (paidOrderId && onOrderCreated) onOrderCreated(paidOrderId)`
abbrev pub created : Option ℕ → List Effect
created none = []
created (some id) = if id == 0 then [] else order_created id ∷ []

abbrev pub with_order : Option ActivationOrder → Wizard → Wizard
with_order none w = w
with_order (some o) w = record w {
  activation_order_id = some o.id;
  queue_client_id = or_null o.queue_client_id;
  queue_status = o.status;
}

unfoldable pub order_paid : ℕ → Option ActivationOrder → Wizard → Wizard × List Effect
order_paid payment order w =
    let (w1, effects) = announce (qr_toast payment) w in
    (
      record (with_order order w1) { current_step = completed },
      effects ++ (refresh_wallet ∷ created (paid_order_id order w.activation_order_id)),
    )

unfoldable pub order_lost : Wizard → Wizard × List Effect
order_lost w = (
  record w {
    payment_error =
        some
          (says (text_of "Mã thanh toán đã hết hạn hoặc bị hủy. Vui lòng tạo mã mới để tiếp tục."));
  },
  [],
)

-- `onStatusChange`
unfoldable pub on_status_change :
    PaymentStatus → (payment : ℕ) → Option ActivationOrder → Wizard → Wizard × List Effect
unfolding order_paid order_lost
on_status_change status payment order w =
    let w1 = record w { qr_order = with_status status w.qr_order } in
    elim status [
      | paid ↦ order_paid payment order w1
      | expired ↦ order_lost w1
      | cancelled ↦ order_lost w1
      | pending ↦ (w1, [])
      | underpaid ↦ (w1, [])
      | review_needed ↦ (w1, [])
    ]

-- `res.payment` of `renewPayment`.
pub record PaymentOrder : Type 0 where
  pub id : ℕ
  pub payment_code : String
  pub payment_ref : Option String
  pub amount_vnd : ℕ
  pub expires_at : ℕ
  pub status : PaymentStatus

pub record RenewResponse : Type 0 where
  pub success : Bool
  pub payment : Option PaymentOrder
  pub msg : Option String

-- What the closure of a renewal has captured.
pub record Renewal : Type 0 where
  pub ref : String
  pub username : Text
  pub platform : Option DevicePlatform

unfoldable pub renew_qr_order : Wizard → Wizard × Option Renewal
renew_qr_order w = elim w.qr_order [
  | none ↦ (w, none)
  | some o ↦ (
    record w { is_renewing_qr = true; renew_qr_error = none },
    some (record {
      ref = ref_of o;
      username = trim w.username_input;
      platform = w.selected_platform;
    }),
  )
]

unfoldable pub renewed : Renewal → PaymentOrder → Wizard → Wizard
renewed r p w = record w {
  qr_order = some (record {
    payment_id = p.id;
    payment_code = p.payment_code;
    payment_ref = p.payment_ref;
    amount_vnd = p.amount_vnd;
    expires_at = p.expires_at;
    status = p.status;
    locket_username = r.username;
    platform = r.platform;
  });
  is_renewing_qr = false;
}

abbrev not_renewed : RenewResponse → Wizard → Wizard
not_renewed res w = record w {
  renew_qr_error = some (says (text_of (or_text res.msg "Không thể gia hạn mã thanh toán.")));
  is_renewing_qr = false;
}

unfoldable pub on_renewed : Renewal → Reply RenewResponse → Wizard → Wizard
unfolding renewed
on_renewed r (replied res) w =
    if res.success
    then elim res.payment [ none ↦ not_renewed res w | some p ↦ renewed r p w ]
    else not_renewed res w
on_renewed r null_reply w = record w {
  renew_qr_error = some (says type_error);
  is_renewing_qr = false;
}
on_renewed r (rejected m) w = record w {
  renew_qr_error = some (or_message m "Lỗi khi gia hạn mã thanh toán.");
  is_renewing_qr = false;
}
