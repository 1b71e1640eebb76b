-- ===== src/Wizard/Payment.antt =====
-- `handlePayWithCoin` and `handleCreateQrPayment` of
-- frontend/src/pages/dashboard/ActivationWizard.tsx, cut where they wait for the server. The key that
-- `crypto.randomUUID` would give is an argument.
use locketgoldhuydev.Prelude.{
  ℕ, Bool, true, false, Option, none, some, List, [], ◌∷◌, ◌++◌, String, Text, codes, trim, text_eq,
  any, or_null, or_text, or_else, str_eq, if◌then◌else◌,
}
use locketgoldhuydev.Api.Types.{text_of, type_error}
use locketgoldhuydev.Utils.Format.{decimal}
use locketgoldhuydev.Queue.{DevicePlatform, ios, android}
use locketgoldhuydev.Wizard.Types.{
  FulfillmentMode, auto_activation, manual_contact, apk_download, disabled, PlanItem, CouponQuote,
  PaymentStatus, pending, Attempt, says,
}
use locketgoldhuydev.Wizard.{Wizard, completed, get_fulfillment_mode}
use locketgoldhuydev.Wizard.Lookup.{Reply, replied, null_reply, rejected, or_message}

-- What both calls send.
pub record Purchase : Type 0 where
  pub plan_id : ℕ
  pub platform : DevicePlatform
  pub username : Text
  pub contact_zalo : Text
  pub contact_facebook : Text
  pub idempotency_key : String
  pub coupon_code : Option Text
  pub lookup_token : Option String

pub record CoinResponse : Type 0 where
  pub success : Bool
  pub activation_order_id : ℕ
  pub client_id : Option String
  pub status : String
  pub msg : Option String

pub record QrResponse : Type 0 where
  pub success : Bool
  pub activation_order_id : ℕ
  pub payment_id : ℕ
  pub payment_code : String
  pub payment_ref : Option String
  pub amount_vnd : ℕ
  pub expires_at : ℕ
  pub status : Option PaymentStatus
  pub msg : Option String

-- What a success calls besides the setters.
pub data Effect : Type 0 where
  toast : (key : Text) → Effect
  refresh_wallet : Effect
  clear_gold_check_cache : Text → Effect
  order_created : ℕ → Effect

abbrev pub device_text : DevicePlatform → Text
device_text ios = codes "ios"
device_text android = codes "android"

abbrev pub mode_text : FulfillmentMode → Text
mode_text auto_activation = codes "auto_activation"
mode_text manual_contact = codes "manual_contact"
mode_text apk_download = codes "apk_download"
mode_text disabled = codes "disabled"

abbrev pub coupon_code_of : Option CouponQuote → Option Text
coupon_code_of none = none
coupon_code_of (some quote) = some quote.code

-- The fields of the template, joined by colons.
abbrev pub joined : List Text → Text
joined [] = []
joined (t ∷ []) = t
joined (t ∷ u ∷ ts) = t ++ (b':' ∷ joined (u ∷ ts))

unfoldable pub signature_of : PlanItem → DevicePlatform → Wizard → Text
signature_of p device w = joined (
    decimal p.id
    ∷ device_text device
    ∷ mode_text (get_fulfillment_mode p device)
    ∷ trim w.username_input
    ∷ trim w.contact_zalo
    ∷ trim w.contact_facebook
    ∷ or_else (coupon_code_of w.applied_coupon) []
    ∷ codes (or_text w.lunakey_token "")
    ∷ [])

-- `previousAttempt?.signature === signature ? previousAttempt.key : crypto.randomUUID()`
unfoldable pub next_attempt : Option Attempt → Text → (fresh : String) → Attempt
next_attempt none signature fresh = record { key = fresh; signature = signature }
next_attempt (some previous) signature fresh = record {
  key = if text_eq previous.signature signature then previous.key else fresh;
  signature = signature;
}

unfoldable pub purchase_of : PlanItem → DevicePlatform → Attempt → Wizard → Purchase
purchase_of p device attempt w = record {
  plan_id = p.id;
  platform = device;
  username = trim w.username_input;
  contact_zalo = trim w.contact_zalo;
  contact_facebook = trim w.contact_facebook;
  idempotency_key = attempt.key;
  coupon_code = coupon_code_of w.applied_coupon;
  lookup_token = or_null w.lunakey_token;
}

abbrev processing : Wizard → Wizard
processing w = record w { is_processing_payment = true; payment_error = none }

-- Without a plan and a device nothing is paid; with them there is a way of fulfilment.
unfoldable pub start_coin :
    Option PlanItem → Option DevicePlatform → (fresh : String) → Wizard → Wizard × Option Purchase
start_coin none device fresh w = (w, none)
start_coin (some p) none fresh w = (w, none)
start_coin (some p) (some device) fresh w =
    let attempt = next_attempt w.coin_attempt (signature_of p device w) fresh in
    (record (processing w) { coin_attempt = some attempt }, some (purchase_of p device attempt w))

unfoldable pub pay_with_coin : (fresh : String) → Wizard → Wizard × Option Purchase
pay_with_coin fresh w = start_coin w.selected_plan w.selected_platform fresh w

unfoldable pub start_qr :
    Option PlanItem → Option DevicePlatform → (fresh : String) → Wizard → Wizard × Option Purchase
start_qr none device fresh w = (w, none)
start_qr (some p) none fresh w = (w, none)
start_qr (some p) (some device) fresh w =
    let attempt = next_attempt w.qr_attempt (signature_of p device w) fresh in
    (record (processing w) { qr_attempt = some attempt }, some (purchase_of p device attempt w))

unfoldable pub create_qr_payment : (fresh : String) → Wizard → Wizard × Option Purchase
create_qr_payment fresh w = start_qr w.selected_plan w.selected_platform fresh w

abbrev pub coin_toast : ℕ → Text
coin_toast id = codes "coin-order-" ++ decimal id

abbrev pub announce : Text → Wizard → Wizard × List Effect
announce key w =
    if any (text_eq key) w.notified_purchases
    then (w, [])
    else (record w { notified_purchases = key ∷ w.notified_purchases }, toast key ∷ [])

unfoldable pub coin_paid : Purchase → CoinResponse → Wizard → Wizard × List Effect
coin_paid purchase res w =
    let (w1, effects) = announce (coin_toast res.activation_order_id) w in
    (
      record w1 {
        activation_order_id = some res.activation_order_id;
        queue_client_id = or_null res.client_id;
        queue_status = if str_eq res.status "queued" then "waiting" else res.status;
        current_step = completed;
        is_processing_payment = false;
      },
      effects
          ++ (refresh_wallet
              ∷ clear_gold_check_cache purchase.username
              ∷ order_created res.activation_order_id
              ∷ []),
    )

unfoldable pub on_coin : Purchase → Reply CoinResponse → Wizard → Wizard × List Effect
on_coin purchase (replied res) w = if res.success then coin_paid purchase res w else (
  record w {
    payment_error = some (says (text_of (or_text res.msg "Thanh toán bằng Coin thất bại.")));
    is_processing_payment = false;
  },
  [],
)
on_coin purchase null_reply w =
    (record w { payment_error = some (says type_error); is_processing_payment = false }, [])
on_coin purchase (rejected m) w = (
  record w {
    payment_error = some (or_message m "Lỗi hệ thống khi thanh toán bằng Coin.");
    is_processing_payment = false;
  },
  [],
)

unfoldable pub qr_created : Purchase → QrResponse → Wizard → Wizard × List Effect
qr_created purchase res w = (
  record w {
    activation_order_id = some res.activation_order_id;
    qr_order = some (record {
      payment_id = res.payment_id;
      payment_code = res.payment_code;
      payment_ref = res.payment_ref;
      amount_vnd = res.amount_vnd;
      expires_at = res.expires_at;
      status = or_else res.status pending;
      locket_username = purchase.username;
      platform = some purchase.platform;
    });
    is_processing_payment = false;
  },
  clear_gold_check_cache purchase.username ∷ [],
)

unfoldable pub on_qr : Purchase → Reply QrResponse → Wizard → Wizard × List Effect
on_qr purchase (replied res) w = if res.success then qr_created purchase res w else (
  record w {
    payment_error = some (says (text_of (or_text res.msg "Không thể tạo mã thanh toán VietQR.")));
    is_processing_payment = false;
  },
  [],
)
on_qr purchase null_reply w =
    (record w { payment_error = some (says type_error); is_processing_payment = false }, [])
on_qr purchase (rejected m) w = (
  record w {
    payment_error = some (or_message m "Lỗi khi khởi tạo đơn thanh toán VietQR.");
    is_processing_payment = false;
  },
  [],
)
